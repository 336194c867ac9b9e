-- ===== src/Balancer/Hash/Circle.antt =====
-- The circle: its points belong to members, and the sorted hashes are those of the circle.
use tsf_go.Base.{
  ℕ, suc, zero, String, List, [], ◌∷◌, none, ◌≡◌, refl, sym, ap, ◌∙◌, ◌≢◌, ◌⊎◌, inl, inr, ◌==◌,
  text_comparable, int_comparable, if◌then◌else◌, Bool-cases, leb, lookup, insert, delete, has_key,
  keys, sort, ◌+◌, ◌≤◌, ◌<◌, arith, Each, Each-insert, Each-delete, Each-map, lookup-insert,
  lookup-delete,
}
use tsf_go.Balancer.Hash.{
  Consistent, Node, new_hash, point, add_points, remove_points, add, remove, remove_others,
  add_missing, set, is_name, update_sorted_hashes,
}

module _ (hash : String → ℕ) where
  -- The point of an entry is one of its owner's.
  abbrev pub OwnPoint : ℕ → ℕ × String → Type 0
  OwnPoint replicas e = (i : ℕ) × (i < replicas) × (point hash e.1 i ≡ e.0)

  abbrev pub Owned : List (String × ℕ) → ℕ → ℕ × String → Type 0
  Owned members replicas e = (lookup e.1 members ≢ none) × OwnPoint replicas e

  pub record IsValid (c : Consistent) : Type 0 where
    pub owned : Each (Owned c.members c.number_of_replicas) c.circle
    pub sorted : c.sorted_hashes ≡ sort leb (keys c.circle)

  pub new_hash-IsValid : IsValid new_hash
  unfolding new_hash sort
  new_hash-IsValid = record { owned = tt; sorted = refl }

  add_points-Each :
      (P : ℕ × String → Type 0) (name : String) (i left : ℕ) (circle : List (ℕ × String))
      → ((j : ℕ) → i ≤ j → j < i + left → P (point hash name j, name))
      → Each P circle
      → Each P (add_points hash name i left circle)
  unfolding add_points
  add_points-Each P name i zero circle new h = h
  add_points-Each P name i (suc left) circle new h =
      add_points-Each P name (suc i) left (insert (point hash name i) name circle)
        (λ j low high. new j (omega arith) (omega arith))
        (Each-insert P (point hash name i) name circle h (new i (omega arith) (omega arith)))

  abbrev Away : String → ℕ → ℕ → ℕ × String → Type 0
  Away name i left e = (j : ℕ) → i ≤ j → j < i + left → e.0 ≢ point hash name j

  remove_points-Away :
      (P : ℕ × String → Type 0) (name : String) (i left : ℕ) (circle : List (ℕ × String))
      → Each P circle
      → Each (λ e. P e × Away name i left e) (remove_points hash name i left circle)
  unfolding remove_points
  remove_points-Away P name i zero circle h =
      Each-map P (λ e. P e × Away name i zero e) (λ e p. (p, λ j low high. absurd (omega arith)))
        circle h
  remove_points-Away P name i (suc left) circle h =
      let here = Each-delete P (point hash name i) circle h in
      let later =
        remove_points-Away (λ e. P e × (e.0 ≢ point hash name i)) name (suc i) left
          (delete (point hash name i) circle) here in
      Each-map (λ e. (P e × (e.0 ≢ point hash name i)) × Away name (suc i) left e)
        (λ e. P e × Away name i (suc left) e) (λ e q. (q.0.0, away_here e i left name q.0.1 q.1))
        (remove_points hash name (suc i) left (delete (point hash name i) circle)) later
    where
      away_here :
          (e : ℕ × String) (i left : ℕ) (name : String)
          → e.0 ≢ point hash name i
          → Away name (suc i) left e
          → Away name i (suc left) e
      away_here e i left name first rest j low high = elim (Bool-cases (i == j)) [
        | inl same ↦
            let ij : i ≡ j = (int_comparable.same_iff i j).0 same in
            λ at. first (at ∙ ap (point hash name) (sym ij))
        | inr other ↦
            let ij : i ≢ j = λ z. let t = (int_comparable.same_iff i j).1 z in cc in
            rest j (omega arith) (omega arith)
      ]

  insert-member :
      (name key : String) (i : ℕ) (members : List (String × ℕ))
      → (key ≡ name) ⊎ (lookup key members ≢ none)
      → lookup key (insert name i members) ≢ none
  insert-member name key i members h =
      rw (lookup-insert name key i members) (elim (Bool-cases (key == name)) [
        | inl same ↦ rw (same, if◌then◌else◌) (λ e. cc)
        | inr other ↦
            rw (other, if◌then◌else◌)
              (elim h [
                | inl at ↦ λ e. let z = (text_comparable.same_iff key name).1 at in cc
                | inr before ↦ before
              ])
      ])

  -- Adding a member keeps the circle valid.
  pub add-IsValid : (elt : Node) (c : Consistent) → IsValid c → IsValid (add hash elt c)
  unfolding add update_sorted_hashes
  add-IsValid elt c v = record {
    owned =
        add_points-Each (Owned (insert elt.name elt.idx c.members) c.number_of_replicas) elt.name 0
          c.number_of_replicas c.circle
          (λ j low high. (
            insert-member elt.name elt.name elt.idx c.members (inl refl),
            (j, (omega arith), refl),
          ))
          (Each-map (Owned c.members c.number_of_replicas)
            (Owned (insert elt.name elt.idx c.members) c.number_of_replicas)
            (λ e o. (insert-member elt.name e.1 elt.idx c.members (inr o.0), o.1)) c.circle
            v.owned);
    sorted = refl;
  }

  still_member :
      (elt : String) (members : List (String × ℕ)) (replicas : ℕ) (e : ℕ × String)
      → Owned members replicas e × Away elt 0 replicas e
      → Owned (delete elt members) replicas e
  still_member elt members replicas e (o, away) = (
    rw (lookup-delete elt e.1 members) (elim (Bool-cases (e.1 == elt)) [
      | inl same ↦
          let at : e.1 ≡ elt = (text_comparable.same_iff e.1 elt).0 same in
          absurd (
            away o.1.0 (omega arith) (let z = o.1.1 in omega arith)
              (sym o.1.2 ∙ ap (λ s. point hash s o.1.0) at))
      | inr other ↦ rw (other, if◌then◌else◌) o.0
    ]),
    o.1,
  )

  -- Removing a member takes all its points with it, and keeps the circle valid.
  pub remove-IsValid : (elt : String) (c : Consistent) → IsValid c → IsValid (remove hash elt c)
  unfolding remove update_sorted_hashes
  remove-IsValid elt c v = record {
    owned =
        Each-map (λ e. Owned c.members c.number_of_replicas e × Away elt 0 c.number_of_replicas e)
          (Owned (delete elt c.members) c.number_of_replicas)
          (still_member elt c.members c.number_of_replicas)
          (remove_points hash elt 0 c.number_of_replicas c.circle)
          (remove_points-Away (Owned c.members c.number_of_replicas) elt 0 c.number_of_replicas
            c.circle v.owned);
    sorted = refl;
  }

  remove_others-IsValid :
      (elts : List Node) (names : List String) (c : Consistent)
      → IsValid c
      → IsValid (remove_others hash elts names c)
  unfolding remove_others
  remove_others-IsValid elts [] c v = v
  remove_others-IsValid elts (k ∷ rest) c v = elim (Bool-cases (is_name k elts)) [
    | inl stays ↦ rw (remove_others, stays, if◌then◌else◌) (remove_others-IsValid elts rest c v)
    | inr goes ↦
        rw (remove_others, goes, if◌then◌else◌)
          (remove_others-IsValid elts rest (remove hash k c) (remove-IsValid k c v))
  ]

  add_missing-IsValid :
      (elts : List Node) (c : Consistent) → IsValid c → IsValid (add_missing hash elts c)
  unfolding add_missing
  add_missing-IsValid [] c v = v
  add_missing-IsValid (e ∷ rest) c v = elim (Bool-cases (has_key e.name c.members)) [
    | inl there ↦ rw (add_missing, there, if◌then◌else◌) (add_missing-IsValid rest c v)
    | inr new ↦
        rw (add_missing, new, if◌then◌else◌)
          (add_missing-IsValid rest (add hash e c) (add-IsValid e c v))
  ]

  -- Set keeps the circle valid: each point belongs to a member and is one of its own, and the sorted
  -- hashes are the circle's.
  pub set-IsValid : (elts : List Node) (c : Consistent) → IsValid c → IsValid (set hash elts c)
  unfolding set
  set-IsValid elts c v =
      add_missing-IsValid elts (remove_others hash elts (keys c.members) c)
        (remove_others-IsValid elts (keys c.members) c v)
