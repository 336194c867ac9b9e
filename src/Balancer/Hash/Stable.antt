-- ===== src/Balancer/Hash/Stable.antt =====
-- A new member takes keys for itself, and moves no key between the others.
use tsf_go.Base.{
  ℕ, suc, zero, String, List, [], ◌∷◌, some, ◌≡◌, ◌≢◌, refl, sym, ap, subst, ◌∙◌, ◌⊎◌, inl, inr,
  ◌==◌, int_comparable, if◌then◌else◌, Bool-cases, leb, lookup, insert, lookup-insert, keys, sort,
  sort-Permᴰ, ◌≤◌, arith, Each, Each-Memᴰ, Each-tabulate, Memᴰ, Permᴰ-Memᴰ,
}
use tsf_go.Balancer.Hash.{Consistent, Node, point, add_points, add, get, update_sorted_hashes}
use tsf_go.Balancer.Hash.Circle.{IsValid, add-IsValid}
use tsf_go.Balancer.Hash.Lookup.{Next, get-Next, Memᴰ-lookup, sort_keys-Memᴰ}

Next-unique : (key : ℕ) (hs : List ℕ) (h h' : ℕ) → Next key hs h → Next key hs h' → h ≡ h'
Next-unique key hs h h' (m, inl (above, least)) (m', inl (above', least')) =
    let a = Each-Memᴰ (λ x. (x ≤ key) ⊎ (h ≤ x)) h' hs least m' in
    let b = Each-Memᴰ (λ x. (x ≤ key) ⊎ (h' ≤ x)) h hs least' m in
    elim a [
      | inl low ↦ absurd (omega arith)
      | inr ab ↦ elim b [ inl low ↦ absurd (omega arith) | inr ba ↦ omega arith ]
    ]
Next-unique key hs h h' (m, inl (above, least)) (m', inr (all, first)) =
    absurd (let a = Each-Memᴰ (λ x. x ≤ key) h hs all m in omega arith)
Next-unique key hs h h' (m, inr (all, first)) (m', inl (above, least)) =
    absurd (let a = Each-Memᴰ (λ x. x ≤ key) h' hs all m' in omega arith)
Next-unique key hs h h' (m, inr (all, first)) (m', inr (all', first')) =
    let a = Each-Memᴰ (λ x. h ≤ x) h' hs first m' in
    let b = Each-Memᴰ (λ x. h' ≤ x) h hs first' m in omega arith

-- A list of hashes with all the elements of another.
abbrev Covers : List ℕ → List ℕ → Type 0
Covers more hs = (x : ℕ) → Memᴰ x hs → Memᴰ x more

narrow : (P : ℕ → Type 0) (more hs : List ℕ) → Covers more hs → Each P more → Each P hs
narrow P more hs c h = Each-tabulate P hs (λ x m. Each-Memᴰ P x more h (c x m))

narrow-Next :
    (key : ℕ) (more hs : List ℕ) (h : ℕ)
    → Covers more hs
    → Memᴰ h hs
    → Next key more h
    → Next key hs h
narrow-Next key more hs h c m (m', inl (above, least)) =
    (m, inl (above, narrow (λ x. (x ≤ key) ⊎ (h ≤ x)) more hs c least))
narrow-Next key more hs h c m (m', inr (all, first)) =
    (m, inr (narrow (λ x. x ≤ key) more hs c all, narrow (λ x. h ≤ x) more hs c first))

lookup-Memᴰ :
    (h : ℕ) (elt : String) (m : List (ℕ × String)) → lookup h m ≡ some elt → Memᴰ h (keys m)
unfolding lookup
lookup-Memᴰ h elt [] e = absurd (cc)
lookup-Memᴰ h elt (entry ∷ m) e = elim (Bool-cases (h == entry.0)) [
  | inl same ↦ Memᴰ.head ((int_comparable.same_iff h entry.0).0 same)
  | inr other ↦ Memᴰ.tail (lookup-Memᴰ h elt m (ground (arith, other, e)))
]

module _ (hash : String → ℕ) where
  lookup-add_points :
      (h : ℕ) (name : String) (i left : ℕ) (circle : List (ℕ × String))
      → (lookup h (add_points hash name i left circle) ≡ some name)
        ⊎ (lookup h (add_points hash name i left circle) ≡ lookup h circle)
  unfolding add_points
  lookup-add_points h name i zero circle = inr refl
  lookup-add_points h name i (suc left) circle =
      elim (lookup-add_points h name (suc i) left (insert (point hash name i) name circle)) [
        | inl new ↦ inl new
        | inr old ↦ elim (Bool-cases (h == point hash name i)) [
          | inl same ↦ inl (
              old ∙ lookup-insert (point hash name i) h name circle ∙ rw (same, if◌then◌else◌) refl)
          | inr other ↦ inr (
              old
              ∙ lookup-insert (point hash name i) h name circle
              ∙ rw (other, if◌then◌else◌) refl)
        ]
      ]

  lookup-add :
      (h : ℕ) (elt : Node) (c : Consistent)
      → (lookup h (add hash elt c).circle ≡ some elt.name)
        ⊎ (lookup h (add hash elt c).circle ≡ lookup h c.circle)
  unfolding add update_sorted_hashes
  lookup-add h elt c = lookup-add_points h elt.name 0 c.number_of_replicas c.circle

  still_there :
      (h : ℕ) (elt : Node) (owner : String) (c : Consistent)
      → lookup h c.circle ≡ some owner
      → (o : String) × (lookup h (add hash elt c).circle ≡ some o)
  still_there h elt owner c e = elim (lookup-add h elt c) [
    | inl new ↦ (elt.name, new)
    | inr old ↦ (owner, old ∙ e)
  ]

  sorted-Memᴰ :
      (h : ℕ) (c : Consistent) → IsValid hash c → Memᴰ h (keys c.circle) → Memᴰ h c.sorted_hashes
  sorted-Memᴰ h c v m =
      subst (Memᴰ h) (sym v.sorted)
        (Permᴰ-Memᴰ h (keys c.circle) (sort leb (keys c.circle)) (sort-Permᴰ leb (keys c.circle)) m)

  circle-Memᴰ :
      (h : ℕ) (c : Consistent) → IsValid hash c → Memᴰ h c.sorted_hashes → Memᴰ h (keys c.circle)
  circle-Memᴰ h c v m = sort_keys-Memᴰ h c.circle (subst (Memᴰ h) v.sorted m)

  add-Covers :
      (elt : Node) (c : Consistent)
      → IsValid hash c
      → Covers (add hash elt c).sorted_hashes c.sorted_hashes
  add-Covers elt c v x m =
      let (owner, at) = Memᴰ-lookup x c.circle (circle-Memᴰ x c v m) in
      let (o, at') = still_there x elt owner c at in
      sorted-Memᴰ x (add hash elt c) (add-IsValid hash elt c v)
        (lookup-Memᴰ x o (add hash elt c).circle at')

  circle_nonempty :
      (h : ℕ) (o : String) (c : Consistent) → lookup h c.circle ≡ some o → c.circle ≢ []
  circle_nonempty h o c e z =
      elim (subst (λ (m : List (ℕ × String)). Memᴰ h (keys m)) z (lookup-Memᴰ h o c.circle e)) [ ]

  same_owner :
      (h : ℕ) (a b : String) (m : List (ℕ × String))
      → lookup h m ≡ some a
      → lookup h m ≡ some b
      → a ≡ b
  same_owner h a b m e e' = cc

  owner_after :
      (name : String) (elt : Node) (c : Consistent)
      → IsValid hash c
      → (owner : String) (h : ℕ) → lookup h c.circle ≡ some owner
      → Next (hash name) c.sorted_hashes h
      → (owner' : String) (h' : ℕ) → lookup h' (add hash elt c).circle ≡ some owner'
      → Next (hash name) (add hash elt c).sorted_hashes h'
      → (owner' ≡ elt.name) ⊎ (owner' ≡ owner)
  owner_after name elt c v owner h at next owner' h' at' next' = elim (lookup-add h' elt c) [
    | inl new ↦ inl (same_owner h' owner' elt.name (add hash elt c).circle at' new)
    | inr old ↦
        let was = sym old ∙ at' in
        let in_old = sorted-Memᴰ h' c v (lookup-Memᴰ h' owner' c.circle was) in
        let before =
          narrow-Next (hash name) (add hash elt c).sorted_hashes c.sorted_hashes h'
            (add-Covers elt c v) in_old next' in
        let same = Next-unique (hash name) c.sorted_hashes h' h before next in
        inr (same_owner h owner' owner c.circle (ap (λ x. lookup x c.circle) (sym same) ∙ was) at)
  ]

  -- On a valid circle that is not empty, adding a member moves a name to the new member or leaves it
  -- with the owner that it had.
  pub get-add :
      (name : String) (elt : Node) (c : Consistent)
      → IsValid hash c
      → c.circle ≢ []
      → (owner owner' : String) × (get hash name c ≡ some (some owner))
        × (get hash name (add hash elt c) ≡ some (some owner'))
        × ((owner' ≡ elt.name) ⊎ (owner' ≡ owner))
  get-add name elt c v ne =
      let (owner, is_owner, is_member, (h, at, next)) = get-Next hash name c v ne in
      let (o, moved) = still_there h elt owner c at in
      let more =
        get-Next hash name (add hash elt c) (add-IsValid hash elt c v)
          (circle_nonempty h o (add hash elt c) moved) in
      (
        owner,
        more.0,
        is_owner,
        more.1,
        owner_after name elt c v owner h at next more.0 more.3.0 more.3.1 more.3.2,
      )
