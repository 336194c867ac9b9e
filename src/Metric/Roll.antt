-- ===== src/Metric/Roll.antt =====
-- RollingPolicy.add: the expired buckets are emptied, and the rest keep their order.
use tsf_go.Base.{
  ℕ, zero, suc, ◌+◌, ◌≤◌, List, ◌++◌, some, ◌≡◌, refl, sym, ap, ◌∙◌, arith, length, drop, replicate,
  ◌>>=◌, append-nil, ◌≢◌, length-map, min, ◌<◌, ◌*◌, if◌then◌else◌, ltb, ◌-◌, ◌⊎◌, inl, inr,
}
use tsf_go.Metric.Window.{Window, next_offset}
use tsf_go.Metric.Policy.{reset_range, Policy, roll}
use tsf_go.Metric.Rotation.{length-rotate, drop-replicate, rotate}
use tsf_go.Metric.Ring.{IsRing, Slot, slot, no_slot, by_age, Turned, reset_bucket-Turned}

-- The offset that a run of `n` resets from `i` on leaves.
abbrev Ends : ℕ → ℕ → ℕ → ℕ → Type 0
Ends n i o o' = ((n ≡ 0) × (o' ≡ o)) ⊎ ((0 < n) × (o' + 1 ≡ i + n))

Ends-suc : (n i o o' : ℕ) → Ends (suc n) (i + 1) o o' → o' + 1 ≡ i + suc (suc n)
Ends-suc n i o o' s = omega arith

zero-next : (o size : ℕ) → o + 1 ≡ size → 0 ≡ next_offset size o
zero-next o size h = ground arith

suc-next : (n o size : ℕ) → n ≢ 0 → o + 1 + n ≤ size → o + 1 ≡ next_offset size o
suc-next n o size nz h = ground arith

module _ {A : Type 0} where
  pub length-by_age : (w : Window A) (o : ℕ) → IsRing w o → length (by_age w o) ≡ w.size
  length-by_age w o v = length-map slot (rotate w.window o) ∙ length-rotate w.window o ∙ v.sized

  Turned-trans :
      (w w' w'' : Window A) (o o' o'' m n : ℕ)
      → IsRing w o
      → n + m ≤ w.size
      → Turned w o w' o' n
      → Turned w' o' w'' o'' m
      → Turned w o w'' o'' (n + m)
  Turned-trans w w' w'' o o' o'' m n v h s t = (
    t.0,
    t.1 ∙ s.1,
    t.2
        ∙ ap (λ (x : List (Slot A)). drop m x ++ replicate m no_slot) s.2
        ∙ drop-replicate m n (by_age w o) no_slot (omega (arith, length-by_age w o v)),
  )

  Turned-add :
      (n : ℕ) (w : Window A) (o : ℕ) (w' : Window A) (o' : ℕ)
      → Turned w o w' o' (1 + suc n)
      → Turned w o w' o' (suc (suc n))
  Turned-add n w o w' o' t = let e : 1 + suc n ≡ suc (suc n) = omega arith in rw e at t

  Turned-zero : (w : Window A) (o : ℕ) → IsRing w o → Turned w o w o 0
  Turned-zero w o v = (v, refl, sym (append-nil (by_age w o)))

  -- A run of resets from the slot after `o`, that does not pass the end of the slice.
  pub reset_range-Turned :
      (n i : ℕ) (w : Window A) (o : ℕ)
      → IsRing w o
      → (n ≢ 0 → i ≡ next_offset w.size o)
      → i + n ≤ w.size
      → (w' : Window A) × (o' : ℕ) × (reset_range n i w o ≡ some (w', o'))
        × Turned w o w' o' n
        × Ends n i o o'
  unfolding reset_range
  reset_range-Turned zero i w o v e h = (w, o, refl, Turned-zero w o v, inl (refl, refl))
  reset_range-Turned (suc zero) i w o v e h =
      let (w1, r, t) = reset_bucket-Turned w o i v (e (λ c. absurd (omega arith))) in
      (w1, i, rw (r, ◌>>=◌) refl, t, inr (omega arith, refl))
  reset_range-Turned (suc (suc n)) i w o v e h =
      let (w1, r, t) = reset_bucket-Turned w o i v (e (λ c. absurd (omega arith))) in
      let (w2, o2, r2, t2, s) =
        reset_range-Turned (suc n) (i + 1) w1 i t.0 (λ _. ground (arith, t.1))
          (omega (arith, t.1)) in
      (
        w2,
        o2,
        rw (r, ◌>>=◌) r2,
        Turned-add n w o w2 o2 (Turned-trans w w1 w2 o i o2 (suc n) 1 v (omega arith) t t2),
        inr (omega arith, Ends-suc n i i o2 s),
      )

-- How many buckets `roll` empties behind the offset, and from 0 on.
first_count :
    (size o span : ℕ)
    → o < size
    → let e = o + 1 + (if ltb size span then size else span) in
      (if ltb size e then size else e) - (o + 1) ≡ min (min span size) (size - (o + 1))
first_count size o span h = ground arith

second_count :
    (size o span : ℕ)
    → o < size
    → let e = o + 1 + (if ltb size span then size else span) in
      (if ltb size e then e - size else 0) ≡ min span size - (size - (o + 1))
second_count size o span h = ground arith

-- The buckets by age after `span` of their durations have passed.
abbrev pub expire : {A : Type 0} → ℕ → List (Slot A) → List (Slot A)
expire span xs = drop (min span (length xs)) xs ++ replicate (min span (length xs)) no_slot

pub record IsValid {A : Type 0} (r : Policy A) : Type 0 where
  pub ring : IsRing r.window r.offset
  pub same : r.window.size ≡ r.size
  pub ticking : 0 < r.bucket_duration

abbrev pub contents : {A : Type 0} → Policy A → List (Slot A)
contents r = by_age r.window r.offset

module _ {A : Type 0} where
  pub length-contents : (r : Policy A) → IsValid r → length (contents r) ≡ r.size
  length-contents r v = length-by_age r.window r.offset v.ring ∙ v.same

  -- What `roll` leaves behind.
  abbrev pub Rolled : ℕ → Policy A → Policy A → Type 0
  Rolled span r r' =
      IsValid r'
      × (r'.size ≡ r.size)
      × (r'.bucket_duration ≡ r.bucket_duration)
      × (r'.last_append_time ≡ r.last_append_time + span * r.bucket_duration)
      × (contents r' ≡ expire span (contents r))

  -- The two loops of `add`, from the slot after `o` and from 0 on, make `n1 + n2` turns.
  abbrev TwoRanges : ℕ → ℕ → Window A → ℕ → Type 0
  TwoRanges n1 n2 w o =
      (w1 : Window A) × (o1 : ℕ) × (w2 : Window A) × (o2 : ℕ) × (reset_range n1 (o + 1) w o
        ≡ some (w1, o1))
      × (reset_range n2 0 w1 o1 ≡ some (w2, o2))
      × Turned w o w2 o2 (n1 + n2)

  second_range :
      (n1 n2 : ℕ) (w w1 : Window A) (o o1 : ℕ)
      → IsRing w o
      → reset_range n1 (o + 1) w o ≡ some (w1, o1)
      → Turned w o w1 o1 n1
      → Ends n1 (o + 1) o o1
      → n1 + n2 ≤ w.size
      → (n2 ≢ 0 → o + 1 + n1 ≡ w.size)
      → TwoRanges n1 n2 w o
  second_range n1 n2 w w1 o o1 v r1 t1 s h l =
      let last = λ (nz : n2 ≢ 0). zero-next o1 w1.size (omega (arith, t1.1, l nz)) in
      let (w2, o2, r2, t2, _) = reset_range-Turned n2 0 w1 o1 t1.0 last (omega (arith, t1.1)) in
      (w1, o1, w2, o2, r1, r2, Turned-trans w w1 w2 o o1 o2 n2 n1 v h t1 t2)

  two_ranges :
      (n1 n2 : ℕ) (w : Window A) (o : ℕ)
      → IsRing w o
      → o + 1 + n1 ≤ w.size
      → n1 + n2 ≤ w.size
      → (n2 ≢ 0 → o + 1 + n1 ≡ w.size)
      → TwoRanges n1 n2 w o
  two_ranges n1 n2 w o v h1 h2 l =
      let (w1, o1, r1, t1, s1) =
        reset_range-Turned n1 (o + 1) w o v (λ nz. suc-next n1 o w.size nz h1) h1 in
      second_range n1 n2 w w1 o o1 v r1 t1 s1 h2 l

  Rolled-ranges :
      (span : ℕ) (r : Policy A)
      → IsValid r
      → (w1 : Window A) (o1 : ℕ) (w2 : Window A) (o2 n1 n2 : ℕ)
      → reset_range n1 (r.offset + 1) r.window r.offset ≡ some (w1, o1)
      → reset_range n2 0 w1 o1 ≡ some (w2, o2)
      → n1 ≡ min (min span r.size) (r.size - (r.offset + 1))
      → n2 ≡ min span r.size - (r.size - (r.offset + 1))
      → Turned r.window r.offset w2 o2 (n1 + n2)
      → (r' : Policy A) × (roll span r ≡ some r') × Rolled span r r'
  unfolding roll
  Rolled-ranges span r v w1 o1 w2 o2 n1 n2 r1 r2 e1 e2 t = (
    record r {
      window = w2;
      offset = o2;
      last_append_time = r.last_append_time + span * r.bucket_duration;
    },
    rw
        (
          first_count r.size r.offset span inside,
          second_count r.size r.offset span inside,
          ← e1,
          ← e2,
        )
        (rw (r1, ◌>>=◌) (rw (r2, ◌>>=◌) refl)),
    (
      record { ring = t.0; same = t.1 ∙ v.same; ticking = v.ticking },
      refl,
      refl,
      refl,
      t.2 ∙ ap (λ n. drop n (contents r) ++ replicate n no_slot) total,
    ),
  )
    where
      inside : r.offset < r.size
      inside = omega (arith, v.ring.inside, v.same)

      total : n1 + n2 ≡ min span (length (contents r))
      total = omega (arith, e1, e2, inside, length-contents r v)

  pub roll-Rolled :
      (span : ℕ) (r : Policy A)
      → IsValid r
      → (r' : Policy A) × (roll span r ≡ some r') × Rolled span r r'
  roll-Rolled span r v =
      let n = min span r.size in
      let room = r.size - (r.offset + 1) in
      let (w1, o1, w2, o2, r1, r2, t) =
        two_ranges (min n room) (n - room) r.window r.offset v.ring
          (omega (arith, v.ring.inside, v.same)) (omega (arith, v.same))
          (omega (arith, v.ring.inside, v.same)) in
      Rolled-ranges span r v w1 o1 w2 o2 (min n room) (n - room) r1 r2 refl refl t
