-- ===== src/Breaker/Group/Names.antt =====
-- A group keeps the breakers of different names apart.
use tsf_go.Base.{
  ℕ, String, List, [], ◌∷◌, ◌++◌, Option, none, some, false, ◌≡◌, ◌≢◌, refl, sym, ap, ◌∙◌, ◌⊎◌, inl,
  inr, ◌==◌, Float, lookup, insert, lookup-insert, lookup-insert_self, text_comparable,
  if◌then◌else◌, Bool-cases, Option-cases, length, get_elem?, modify, ◌<◌, arith, Each, Each-map,
  Each-insert, Each-lookup, length-append, length-modify, get_elem?-modify, modify_other,
  get_elem?-append, get_elem?_last,
}
use tsf_go.Breaker.Sre.{Sre, Verdict, new_sre, allow}
use tsf_go.Breaker.Group.{Group, get, get_or_make, go, runs}

module _ (fl : Float) where
  open fl use {F}

  -- The addresses lie on the heap, and no two names share one.
  pub record IsValid (g : Group fl) : Type 0 where
    pub in_heap : Each (λ (e : String × ℕ). e.1 < length g.heap) g.brks
    pub apart :
        (key other : String) (a : ℕ)
        → lookup key g.brks ≡ some a
        → lookup other g.brks ≡ some a
        → key ≡ other

  abbrev pub at_address : List (Sre fl) → Option ℕ → Option (Sre fl)
  at_address heap none = none
  at_address heap (some a) = get_elem? heap a

  -- The breaker of a name, if the group has one.
  abbrev pub breaker_of : String → Group fl → Option (Sre fl)
  breaker_of key g = at_address g.heap (lookup key g.brks)

  abbrev pub or_new : ℕ → Group fl → Option ℕ → Option (Sre fl)
  or_new now g none = new_sre fl g.conf now
  or_new now g (some a) = get_elem? g.heap a

  -- The breaker that Get gives for the name: its own, or a new one.
  abbrev pub breaker_for : ℕ → String → Group fl → Option (Sre fl)
  breaker_for now key g = or_new now g (lookup key g.brks)

  -- What Get leaves: a valid group that has the breaker under the name, and the same ones as before
  -- under the others.
  pub record Got (key : String) (b : Sre fl) (g : Group fl) (a : ℕ) (g' : Group fl) : Type 0 where
    pub valid : IsValid g'
    pub address : lookup key g'.brks ≡ some a
    pub breaker : get_elem? g'.heap a ≡ some b
    pub others : (other : String) → other ≢ key → breaker_of other g' ≡ breaker_of other g

  below_heap :
      (key : String) (a : ℕ) (g : Group fl)
      → IsValid g
      → lookup key g.brks ≡ some a
      → a < length g.heap
  below_heap key a g v e =
      Each-lookup (λ (e : String × ℕ). e.1 < length g.heap) key a g.brks v.in_heap e

  -- Where a name stands after one more has been added at the end of the heap.
  added_at :
      (key k : String) (a : ℕ) (g : Group fl)
      → lookup k (insert key (length g.heap) g.brks) ≡ some a
      → ((k ≡ key) × (a ≡ length g.heap)) ⊎ (lookup k g.brks ≡ some a)
  added_at key k a g e =
      let e0 = sym (lookup-insert key k (length g.heap) g.brks) ∙ e in
      elim (Bool-cases (k == key)) [
        | inl same ↦ inl ((text_comparable.same_iff k key).0 same, ground (arith, same, e0))
        | inr other ↦ inr (ground (arith, other, e0))
      ]

  added_apart :
      (key k other : String) (a : ℕ) (g : Group fl)
      → IsValid g
      → lookup k (insert key (length g.heap) g.brks) ≡ some a
      → lookup other (insert key (length g.heap) g.brks) ≡ some a
      → k ≡ other
  added_apart key k other a g v e e' = elim (added_at key k a g e) [
    | inl (at, last) ↦ elim (added_at key other a g e') [
      | inl (at', last') ↦ at ∙ sym at'
      | inr old ↦ absurd (let low = below_heap other a g v old in omega arith)
    ]
    | inr old ↦ elim (added_at key other a g e') [
      | inl (at', last') ↦ absurd (let low = below_heap k a g v old in omega arith)
      | inr old' ↦ v.apart k other a old old'
    ]
  ]

  added_other :
      (key other : String) (b : Sre fl) (g : Group fl)
      → IsValid g
      → other ≢ key
      → at_address (g.heap ++ (b ∷ [])) (lookup other (insert key (length g.heap) g.brks))
        ≡ breaker_of other g
  added_other key other b g v ne =
      let away : (other == key) ≡ false = elim (Bool-cases (other == key)) [
        | inl same ↦ absurd (ne ((text_comparable.same_iff other key).0 same))
        | inr differs ↦ differs
      ] in
      rw (lookup-insert key other (length g.heap) g.brks, away, if◌then◌else◌)
        (elim (Option-cases (lookup other g.brks)) [
          | inl e ↦ rw e refl
          | inr (a, e) ↦ rw e (get_elem?-append g.heap (b ∷ []) a (below_heap other a g v e))
        ])

  added-IsValid :
      (key : String) (b : Sre fl) (g : Group fl)
      → IsValid g
      → IsValid (record g { brks = insert key (length g.heap) g.brks; heap = g.heap ++ (b ∷ []) })
  added-IsValid key b g v = record {
    in_heap =
        let longer = length-append g.heap (b ∷ []) in
        Each-insert (λ (e : String × ℕ). e.1 < length (g.heap ++ (b ∷ []))) key (length g.heap)
          g.brks
          (Each-map (λ (e : String × ℕ). e.1 < length g.heap)
            (λ (e : String × ℕ). e.1 < length (g.heap ++ (b ∷ []))) (λ e h. omega arith) g.brks
            v.in_heap)
          (omega arith);
    apart = λ k other a e e'. added_apart key k other a g v e e';
  }

  -- Get, if a breaker can be made where the group has none, gives the address of the name's breaker: its
  -- own one, or a new one. The group stays valid, and the other names have the breakers that they had.
  pub get-Got :
      (now : ℕ) (key : String) (b : Sre fl) (g : Group fl)
      → IsValid g
      → breaker_for now key g ≡ some b
      → (got : ℕ × Group fl) × (get fl now key g ≡ some got) × Got key b g got.0 got.1
  unfolding get get_or_make
  get-Got now key b g v e = elim (Option-cases (lookup key g.brks)) [
    | inl new ↦
        let made : new_sre fl g.conf now ≡ some b = sym (ap (or_new now g) new) ∙ e in
        let g' : Group fl = record g {
          brks = insert key (length g.heap) g.brks;
          heap = g.heap ++ (b ∷ []);
        } in
        (
          (length g.heap, g'),
          rw (get, new, get_or_make, made) refl,
          record {
            valid = added-IsValid key b g v;
            address = lookup-insert_self key (length g.heap) g.brks;
            breaker = get_elem?_last g.heap b;
            others = λ other ne. added_other key other b g v ne;
          },
        )
    | inr (a, known) ↦ (
      (a, g),
      rw (get, known, get_or_make) refl,
      record {
        valid = v;
        address = known;
        breaker = sym (ap (or_new now g) known) ∙ e;
        others = λ other ne. refl;
      },
    )
  ]

  modified_other :
      (key other : String) (a : ℕ) (b : Sre fl) (g : Group fl)
      → IsValid g
      → lookup key g.brks ≡ some a
      → other ≢ key
      → at_address (modify g.heap a (λ _. b)) (lookup other g.brks) ≡ breaker_of other g
  modified_other key other a b g v at ne = elim (Option-cases (lookup other g.brks)) [
    | inl e ↦ rw e refl
    | inr (c, e) ↦ rw e (
        modify_other g.heap a c (λ _. b)
          (λ same. ne (v.apart other key a (e ∙ ap some (sym same)) at)))
  ]

  modified-IsValid :
      (a : ℕ) (b : Sre fl) (g : Group fl)
      → IsValid g
      → IsValid (record g { heap = modify g.heap a (λ _. b) })
  modified-IsValid a b g v = record {
    in_heap =
        let same_length = length-modify g.heap a (λ _. b) in
        Each-map (λ (e : String × ℕ). e.1 < length g.heap)
          (λ (e : String × ℕ). e.1 < length (modify g.heap a (λ _. b))) (λ e h. omega arith) g.brks
          v.in_heap;
    apart = v.apart;
  }

  -- Go asks the breaker of the name, its own or a new one, and runs the function exactly if the breaker
  -- allows it. It leaves the breaker as Allow leaves it, marks nothing, and touches the breaker of no
  -- other name.
  pub go-breaker_of :
      (now : ℕ) (draw : F) (key : String) (b : Sre fl) (answer : Verdict × Sre fl) (g : Group fl)
      → IsValid g
      → breaker_for now key g ≡ some b
      → allow fl now draw b ≡ some answer
      → (g' : Group fl) × (go fl now draw key g ≡ some (runs fl answer.0, g'))
        × IsValid g'
        × (breaker_of key g' ≡ some answer.1)
        × ((other : String) → other ≢ key → breaker_of other g' ≡ breaker_of other g)
  unfolding go
  go-breaker_of now draw key b answer g v e allows =
      let (got, is_got, left) = get-Got now key b g v e in
      (
        record got.1 { heap = modify got.1.heap got.0 (λ _. answer.1) },
        rw (go, is_got, left.breaker, allows) refl,
        modified-IsValid got.0 answer.1 got.1 left.valid,
        rw left.address (get_elem?-modify got.1.heap got.0 (λ _. answer.1) left.breaker),
        λ other ne.
            modified_other key other got.0 answer.1 got.1 left.valid left.address ne
            ∙ left.others other ne,
      )
