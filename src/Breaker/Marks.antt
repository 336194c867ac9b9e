-- ===== src/Breaker/Marks.antt =====
-- How a slot of the breaker's window counts marks: all of them, and the successes.
use tsf_go.Base.{
  ℕ, ◌+◌, ◌^◌, ◌≤◌, ◌<◌, List, [], ◌∷◌, false, ◌≡◌, refl, ap, ap₂, ◌∙◌, ◌⊎◌, inl, inr, arith,
  if◌then◌else◌, Bool-cases, Float, IsExact, nat_eqb,
}
use tsf_go.Metric.Ring.{Slot}
use tsf_go.Metric.Refine.{add_slot}
use tsf_go.Metric.Events.{Weight, total}
use tsf_go.Metric.Reduce.{each_point}
use tsf_go.Metric.Reads.{fold_slots}
use tsf_go.Breaker.Sre.{tally}

module _ {A : Type 0} (plus : A → A → A) (limit : ℕ) where
  pub count_added : (val : A) (s : Slot A) → (add_slot plus val s).1 ≡ s.1 + 1
  count_added val s = elim (Bool-cases (nat_eqb s.1 0)) [
    | inl z ↦ rw (z, if◌then◌else◌) refl
    | inr nz ↦ rw (nz, if◌then◌else◌) refl
  ]

  -- The number of adds.
  abbrev pub count_weight : Weight (add_slot plus)
  count_weight = record {
    of_slot = λ s. s.1;
    of_val = λ _. 1;
    limit = limit;
    Fine = λ _. Unit {0};
    Good = λ _. Unit {0};
    none_good = tt;
    none_weighs = refl;
    added_good = λ val s _ _ _. tt;
    added_weighs = λ val s _ _ _. count_added val s;
  }

module _ (fl : Float) (exact : IsExact fl) where
  open fl use {F, plus, of_int, to_int}

  -- The sum of a slot's points, as `summary` takes it.
  abbrev pub points_sum : List F → ℕ
  points_sum points = each_point (λ n p. n + to_int p) 0 points

  -- A mark is 0 or 1.
  abbrev pub IsMark : F → Type 0
  IsMark v = (b : ℕ) × (b ≤ 1) × (v ≡ of_int b)

  -- A slot of marks is empty, or has one point: the number of its successes.
  abbrev pub IsMarked : Slot F → Type 0
  IsMarked s =
      ((s.0 ≡ []) × (s.1 ≡ 0)) ⊎ ((n : ℕ) × (s.0 ≡ of_int n ∷ []) × (0 < s.1) × (n < 2 ^ 53))

  point_sum : (n : ℕ) → n < 2 ^ 53 → points_sum (of_int n ∷ []) ≡ n
  unfolding each_point
  point_sum n h = omega (arith, exact.to_int_exact n h)

  added_first :
      (b : ℕ) (val : F) (s : Slot F)
      → val ≡ of_int b
      → s.0 ≡ []
      → s.1 ≡ 0
      → add_slot plus val s ≡ (of_int b ∷ [], 1)
  added_first b val s e p c = rw (e, p, c) refl

  added_more :
      (b n : ℕ) (val : F) (s : Slot F)
      → val ≡ of_int b
      → s.0 ≡ of_int n ∷ []
      → 0 < s.1
      → n + b < 2 ^ 53
      → add_slot plus val s ≡ (of_int (n + b) ∷ [], s.1 + 1)
  added_more b n val s e p c h =
      let z : nat_eqb s.1 0 ≡ false = ground arith in
      rw (z, if◌then◌else◌, e, p, exact.plus_exact n b h) refl

  room :
      (b n : ℕ) (val : F) (s : Slot F)
      → b ≤ 1
      → val ≡ of_int b
      → s.0 ≡ of_int n ∷ []
      → n < 2 ^ 53
      → points_sum s.0 + to_int val < 2 ^ 53
      → n + b < 2 ^ 53
  room b n val s l e p h r =
      omega (arith, ap points_sum p, point_sum n h, ap to_int e, exact.to_int_exact b (omega arith))

  pub mark_good :
      (val : F) (s : Slot F)
      → IsMark val
      → points_sum s.0 + to_int val < 2 ^ 53
      → IsMarked s
      → IsMarked (add_slot plus val s)
  mark_good val s (b, l, e) r (inl (p, c)) =
      rw (added_first b val s e p c) (inr (b, refl, omega arith, omega arith))
  mark_good val s (b, l, e) r (inr (n, p, c, h)) =
      let h' = room b n val s l e p h r in
      rw (added_more b n val s e p c h') (inr (n + b, refl, omega arith, h'))

  pub mark_weighs :
      (val : F) (s : Slot F)
      → IsMark val
      → points_sum s.0 + to_int val < 2 ^ 53
      → IsMarked s
      → points_sum (add_slot plus val s).0 ≡ points_sum s.0 + to_int val
  unfolding each_point
  mark_weighs val s (b, l, e) r (inl (p, c)) = rw (added_first b val s e p c, e, p) refl
  mark_weighs val s (b, l, e) r (inr (n, p, c, h)) =
      let h' = room b n val s l e p h r in
      rw (added_more b n val s e p c h', e, p)
        (omega (
          arith,
          exact.to_int_exact (n + b) h',
          exact.to_int_exact n h,
          exact.to_int_exact b (omega arith),
        ))

  pub no_points : points_sum [] ≡ 0
  unfolding each_point
  no_points = refl

  -- The number of successes.
  abbrev pub success_weight : Weight (add_slot plus)
  success_weight = record {
    of_slot = λ s. points_sum s.0;
    of_val = to_int;
    limit = 2 ^ 53;
    Fine = IsMark;
    Good = IsMarked;
    none_good = inl (refl, refl);
    none_weighs = no_points;
    added_good = mark_good;
    added_weighs = mark_weighs;
  }

  each_point_acc :
      (acc : ℕ) (points : List F)
      → each_point (λ n p. n + to_int p) acc points ≡ acc + points_sum points
  unfolding each_point
  each_point_acc acc [] = omega arith
  each_point_acc acc (p ∷ ps) =
      omega (arith, each_point_acc (acc + to_int p) ps, each_point_acc (0 + to_int p) ps)

  -- The closure of `summary` adds up both weights.
  pub fold_slots-tally :
      (limit : ℕ) (acc : ℕ × ℕ) (xs : List (Slot F))
      → fold_slots (tally fl) acc xs
        ≡ (acc.0 + total success_weight xs, acc.1 + total (count_weight plus limit) xs)
  unfolding tally
  fold_slots-tally limit acc [] = ap₂ (λ a b. (a, b)) (omega arith) (omega arith)
  fold_slots-tally limit acc (s ∷ xs) =
      fold_slots-tally limit (tally fl acc s.0 s.1) xs
      ∙ ap₂ (λ a b. (a, b)) (omega (arith, each_point_acc acc.0 s.0)) (omega arith)
