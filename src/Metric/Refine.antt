-- ===== src/Metric/Refine.antt =====
-- Add, Append and Reduce of a policy against the list of its buckets by age.
use tsf_go.Base.{
  ℕ, ◌+◌, ◌≤◌, min, List, [], ◌∷◌, ◌++◌, Option, some, ◌≡◌, refl, sym, ap, ◌∙◌, inl, inr, arith,
  length, modify, map, if◌then◌else◌, Bool-cases, ◌>>=◌, sub_ℕ, quot_ℤ, get_elem?, get_elem?_lt,
  map-append, ◌==◌, int_comparable, nat_eqb, length-append, length-modify,
}
use tsf_go.Metric.Window.{Window, Bucket, add, append, append_point, add_point, at_bucket}
use tsf_go.Metric.Policy.{Policy, span_of}
use tsf_go.Metric.Rotation.{rotate-modify_self}
use tsf_go.Metric.Ring.{IsRing, Slot, slot, by_age, IsRing-modify, IsCounted-get_elem?}

-- The number of bucket durations that have passed at `now`; a clock that ran backwards by a bucket
-- or more counts as a whole window.
abbrev pub span_at : {A : Type 0} → ℕ → Policy A → ℕ
span_at now r = span_of r.size (quot_ℤ (sub_ℕ now r.last_append_time) r.bucket_duration)

module _ {A : Type 0} where
  abbrev pub append_slot : A → Slot A → Slot A
  append_slot val s = (s.0 ++ val ∷ [], s.1 + 1)

  abbrev pub add_slot : (A → A → A) → A → Slot A → Slot A
  add_slot plus val s =
      if s.1 == 0 then append_slot val s else (modify s.0 0 (λ x. plus x val), s.1 + 1)

  -- The newest slot is the last.
  abbrev pub at_last : (Slot A → Slot A) → List (Slot A) → List (Slot A)
  at_last f [] = []
  at_last f (x ∷ []) = f x ∷ []
  at_last f (x ∷ y ∷ rest) = x ∷ at_last f (y ∷ rest)

  at_last-append :
      (f : Slot A → Slot A) (pre : List (Slot A)) (x : Slot A)
      → at_last f (pre ++ x ∷ []) ≡ pre ++ f x ∷ []
  at_last-append f [] x = refl
  at_last-append f (a ∷ []) x = refl
  at_last-append f (a ∷ b ∷ pre) x =
      ap (λ (t : List (Slot A)). a ∷ t) (at_last-append f (b ∷ pre) x)

  -- A write at the offset that acts on slots as `g` does.
  abbrev pub Writes : (ℕ → A → Window A → Option (Window A)) → (A → Slot A → Slot A) → Type 0
  Writes f g =
      (o : ℕ) (val : A) (w : Window A)
      → IsRing w o
      → (w' : Window A) × (f o val w ≡ some w')
        × IsRing w' o
        × (w'.size ≡ w.size)
        × (by_age w' o ≡ at_last (g val) (by_age w o))

  written :
      (w : Window A) (o : ℕ) (b b' : Bucket A) (g : Slot A → Slot A)
      → IsRing w o
      → get_elem? w.window o ≡ some b
      → b'.next ≡ b.next
      → min b'.count 1 ≤ length b'.points
      → slot b' ≡ g (slot b)
      → let w' = record w { window = modify w.window o (λ _. b') } in
        IsRing w' o × (by_age w' o ≡ at_last g (by_age w o))
  written w o b b' g v e n c s =
      let (pre, before, after) = rotate-modify_self w.window o (λ _. b') e in
      (
        IsRing-modify w o o b' v e n c v.inside,
        ap (map slot) after
            ∙ map-append slot pre (b' ∷ [])
            ∙ ap (λ (t : Slot A). map slot pre ++ t ∷ []) s
            ∙ sym (at_last-append g (map slot pre) (slot b))
            ∙ ap (at_last g) (sym (ap (map slot) before ∙ map-append slot pre (b ∷ []))),
      )

  -- A change of one bucket that acts on its slot as `g` does.
  abbrev Changes : (Bucket A → Option (Bucket A)) → (Slot A → Slot A) → Type 0
  Changes f g =
      (b : Bucket A)
      → min b.count 1 ≤ length b.points
      → (b' : Bucket A) × (f b ≡ some b')
        × (b'.next ≡ b.next)
        × (min b'.count 1 ≤ length b'.points)
        × (slot b' ≡ g (slot b))

  at_bucket-Writes :
      (f : Bucket A → Option (Bucket A)) (g : Slot A → Slot A) (w : Window A) (o : ℕ)
      → Changes f g
      → IsRing w o
      → (w' : Window A) × (at_bucket o f w ≡ some w')
        × IsRing w' o
        × (w'.size ≡ w.size)
        × (by_age w' o ≡ at_last g (by_age w o))
  unfolding at_bucket
  at_bucket-Writes f g w o c v =
      let (b, e) = get_elem?_lt w.window o (omega (arith, v.sized, v.inside)) in
      let (b', h, n, l, s) = c b (IsCounted-get_elem? w.window o e v.counted) in
      let (ring, age) = written w o b b' g v e n l s in
      (
        record w { window = modify w.window o (λ _. b') },
        rw (e, ◌>>=◌) (rw (h, ◌>>=◌) refl),
        ring,
        refl,
        age,
      )

  append-Changes : (val : A) → Changes (λ b. some (append_point val b)) (append_slot val)
  unfolding append_point
  append-Changes val b c =
      (append_point val b, refl, refl, omega (arith, length-append b.points (val ∷ [])), refl)

  add-Changes :
      (plus : A → A → A) (val : A)
      → Changes
          (λ b. if b.count == 0 then some (append_point val b) else add_point plus 0 val b)
          (add_slot plus val)
  unfolding append_point add_point
  add-Changes plus val b c = elim (Bool-cases (nat_eqb b.count 0)) [
    | inl z ↦ rw (z, if◌then◌else◌) (append-Changes val b c)
    | inr nz ↦
        let (x, e) = get_elem?_lt b.points 0 (ground arith) in
        (
          record b { points = modify b.points 0 (λ x. plus x val); count = b.count + 1 },
          rw (nz, if◌then◌else◌) (rw (e, ◌>>=◌) refl),
          refl,
          ground (arith, length-modify b.points 0 (λ x. plus x val)),
          rw (nz, if◌then◌else◌) refl,
        )
  ]

  pub append-Writes : Writes append append_slot
  unfolding append
  append-Writes o val w v = at_bucket-Writes _ _ w o (append-Changes val) v

  pub add-Writes : (plus : A → A → A) → Writes (add plus) (add_slot plus)
  unfolding add
  add-Writes plus o val w v = at_bucket-Writes _ _ w o (add-Changes plus val) v
