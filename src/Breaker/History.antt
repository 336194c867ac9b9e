-- ===== src/Breaker/History.antt =====
-- A breaker over a history of marks: its summary is the marks of the window, whatever came before.
use tsf_go.Base.{
  ℕ, ◌+◌, ◌≤◌, List, [], ◌∷◌, Option, some, Bool, true, ◌≡◌, refl, inl, inr, arith, if◌then◌else◌,
  Bool-cases, ◌>>=◌, Float, IsExact, length, ltb, Option-cases,
}
use tsf_go.Metric.Policy.{add_policy}
use tsf_go.Metric.Events.{Event, weigh, weigh_all, tick, AllFine}
use tsf_go.Metric.Totals.{add_all, InOrder, newest}
use tsf_go.Breaker.Sre.{Sre, mark_success, mark_failed}
use tsf_go.Breaker.Marks.{count_weight, success_weight}

-- One call of MarkSuccess or MarkFailed.
pub record Mark : Type 0 where
  pub time : ℕ
  pub success : Bool

-- The marks that a window of `size` buckets holds at tick `now` and that pass a test.
abbrev pub marks_in : ℕ → ℕ → ℕ → ℕ → (Mark → Bool) → List Mark → ℕ
marks_in origin duration size now test [] = 0
marks_in origin duration size now test (k ∷ rest) =
    (if ltb now (tick origin duration k.time + size) then (if test k then 1 else 0) else 0)
    + marks_in origin duration size now test rest

abbrev pub any_mark : Mark → Bool
any_mark k = true

abbrev pub a_success : Mark → Bool
a_success k = k.success

-- The marks, newest first, are in order from `origin` on.
abbrev pub MarksInOrder : ℕ → List Mark → Type 0
MarksInOrder origin [] = Unit {0}
MarksInOrder origin (k ∷ []) = origin ≤ k.time
MarksInOrder origin (k ∷ k' ∷ rest) = (k'.time ≤ k.time) × MarksInOrder origin (k' ∷ rest)

abbrev pub last_mark : ℕ → List Mark → ℕ
last_mark origin [] = origin
last_mark origin (k ∷ rest) = k.time

module _ (fl : Float) where
  open fl use {F, plus, of_int, to_int}

  unfoldable pub mark : Mark → Sre fl → Option (Sre fl)
  mark k b = if k.success then mark_success fl k.time b else mark_failed fl k.time b

  -- The breaker after the marks, the oldest of them first.
  unfoldable pub mark_all : List Mark → Sre fl → Option (Sre fl)
  unfolding mark
  mark_all [] b = some b
  mark_all (k ∷ rest) b = mark_all rest b >>= λ b'. mark k b'

  abbrev pub event : Mark → Event F
  event k = record { time = k.time; val = of_int (if k.success then 1 else 0) }

  abbrev pub events : List Mark → List (Event F)
  events [] = []
  events (k ∷ rest) = event k ∷ events rest

  pub mark_lem :
      (k : Mark) (b : Sre fl)
      → mark k b
        ≡ (add_policy plus k.time (event k).val b.stat >>= λ stat. some (record b { stat = stat }))
  unfolding mark mark_success mark_failed
  mark_lem k b = elim (Bool-cases k.success) [
    | inl h ↦ rw (h, if◌then◌else◌) refl
    | inr h ↦ rw (h, if◌then◌else◌) refl
  ]

  -- Marks change the counter and nothing else.
  pub mark_all_lem :
      (ks : List Mark) (b : Sre fl)
      → mark_all ks b
        ≡ (add_all plus (events ks) b.stat >>= λ stat. some (record b { stat = stat }))
  unfolding mark_all add_all
  mark_all_lem [] b = refl
  mark_all_lem (k ∷ ks) b = elim (Option-cases (add_all plus (events ks) b.stat)) [
    | inl e ↦ rw (mark_all_lem ks b, e) refl
    | inr (r, e) ↦ rw (mark_all_lem ks b, e) (mark_lem k _)
  ]

  pub events-InOrder :
      (origin : ℕ) (ks : List Mark) → MarksInOrder origin ks → InOrder origin (events ks)
  events-InOrder origin [] h = tt
  events-InOrder origin (k ∷ []) h = h
  events-InOrder origin (k ∷ k' ∷ ks) h = (h.0, events-InOrder origin (k' ∷ ks) h.1)

  pub newest-events :
      (origin : ℕ) (ks : List Mark) → newest origin (events ks) ≡ last_mark origin ks
  newest-events origin [] = refl
  newest-events origin (k ∷ ks) = refl

  pub weigh-count :
      (limit origin duration size now : ℕ) (ks : List Mark)
      → weigh (count_weight plus limit) origin duration size now (events ks)
        ≡ marks_in origin duration size now any_mark ks
  weigh-count limit origin duration size now [] = refl
  weigh-count limit origin duration size now (k ∷ ks) =
      ground (arith, weigh-count limit origin duration size now ks)

  pub weigh_all-count :
      (limit : ℕ) (ks : List Mark) → weigh_all (count_weight plus limit) (events ks) ≡ length ks
  weigh_all-count limit [] = refl
  weigh_all-count limit (k ∷ ks) = omega (arith, weigh_all-count limit ks)

  pub count-AllFine : (limit : ℕ) (ks : List Mark) → AllFine (count_weight plus limit) (events ks)
  count-AllFine limit [] = tt
  count-AllFine limit (k ∷ ks) = (tt, count-AllFine limit ks)

  module _ (exact : IsExact fl) where
    mark_value : (k : Mark) → to_int (event k).val ≡ (if k.success then 1 else 0)
    mark_value k = exact.to_int_exact (if k.success then 1 else 0) (ground arith)

    pub weigh-success :
        (origin duration size now : ℕ) (ks : List Mark)
        → weigh (success_weight fl exact) origin duration size now (events ks)
          ≡ marks_in origin duration size now a_success ks
    weigh-success origin duration size now [] = refl
    weigh-success origin duration size now (k ∷ ks) =
        rw (mark_value k, weigh-success origin duration size now ks) refl

    pub weigh_all-success :
        (ks : List Mark) → weigh_all (success_weight fl exact) (events ks) ≤ length ks
    weigh_all-success [] = omega arith
    weigh_all-success (k ∷ ks) = ground (arith, mark_value k, weigh_all-success ks)

    pub success-AllFine : (ks : List Mark) → AllFine (success_weight fl exact) (events ks)
    success-AllFine [] = tt
    success-AllFine (k ∷ ks) =
        ((if k.success then 1 else 0, ground arith, refl), success-AllFine ks)
