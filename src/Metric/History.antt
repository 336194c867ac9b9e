-- ===== src/Metric/History.antt =====
-- A rolling counter over a history of adds: what Reduce sees at any later time.
use tsf_go.Base.{
  ℕ, ◌+◌, ◌-◌, ◌*◌, ◌/◌, ◌≤◌, ◌<◌, min, List, [], ◌∷◌, ◌≡◌, refl, sym, ap, ◌∙◌, arith, length, drop,
  replicate, ltb, if◌then◌else◌, drop_all, length-append, length-drop, length-replicate, ap₂, subst,
}
use native.Mathlib.Decide.{dec_lt}
use native.Mathlib.Nat.{add-mul-div_right, le_refl}
use tsf_go.Metric.Policy.{Policy}
use tsf_go.Metric.Ring.{Slot, no_slot}
use tsf_go.Metric.Roll.{IsValid, contents, expire, length-contents}
use tsf_go.Metric.Refine.{span_at, add_slot}
use tsf_go.Metric.Adds.{Added}
use tsf_go.Metric.Events.{
  Event, Weight, total, weigh, weigh_all, weigh-le, tick, AllGood, AllGood-drop,
  AllGood-append_none, AllGood-at_last, total-drop-at_last, total-drop-expire,
}

-- Divisions of the clock: the tick of `now` is that of the last append and the span since.
tick-add :
    (origin duration k now : ℕ)
    → 0 < duration
    → origin + k * duration ≤ now
    → tick origin duration now ≡ (now - (origin + k * duration)) / duration + k
tick-add origin duration k now h l =
    let e : now - origin ≡ now - (origin + k * duration) + k * duration = omega arith in
    rw e (add-mul-div_right (now - (origin + k * duration)) k h)

-- No event is later than tick `k`.
abbrev pub Upto : {A : Type 0} → ℕ → ℕ → ℕ → List (Event A) → Type 0
Upto origin duration k [] = Unit {0}
Upto origin duration k (e ∷ rest) = (tick origin duration e.time ≤ k) × Upto origin duration k rest

Upto-mono :
    {A : Type 0} (origin duration k l : ℕ) (es : List (Event A))
    → k ≤ l
    → Upto origin duration k es
    → Upto origin duration l es
Upto-mono origin duration k l [] h u = tt
Upto-mono origin duration k l (e ∷ es) h u = (omega arith, Upto-mono origin duration k l es h u.1)

module _ {A : Type 0} (plus : A → A → A) (m : Weight (add_slot plus)) (origin : ℕ) where
  open m use {of_val}

  weigh_past :
      (duration size k now : ℕ) (es : List (Event A))
      → Upto origin duration k es
      → k + size ≤ now
      → weigh m origin duration size now es ≡ 0
  weigh_past duration size k now [] u h = refl
  weigh_past duration size k now (e ∷ es) u h =
      ground (arith, weigh_past duration size k now es u.1 h)

  -- The policy `r`, made at `origin`, holds the adds `es`, newest first, at tick `k`.
  pub record Tracks (es : List (Event A)) (k : ℕ) (r : Policy A) : Type 0 where
    pub valid : IsValid r
    pub last : r.last_append_time ≡ origin + k * r.bucket_duration
    pub good : AllGood m (contents r)
    pub held :
        (j : ℕ) → total m (drop j (contents r)) ≡ weigh m origin r.bucket_duration r.size (k + j) es
    pub upto : Upto origin r.bucket_duration k es

  pub span-tick :
      (es : List (Event A)) (k now : ℕ) (r : Policy A)
      → Tracks es k r
      → r.last_append_time ≤ now
      → tick origin r.bucket_duration now ≡ span_at now r + k
  span-tick es k now r t h =
      tick-add origin r.bucket_duration k now t.valid.ticking (omega (arith, t.last))
      ∙ (rw (← t.last) (ground arith))

  expired_weight :
      (es : List (Event A)) (k span j : ℕ) (r : Policy A)
      → Tracks es k r
      → total m (drop j (expire span (contents r)))
        ≡ weigh m origin r.bucket_duration r.size (k + span + j) es
  expired_weight es k span j r t = elim (dec_lt r.size span) [
    | yes h ↦
        total-drop-expire m span j (contents r)
        ∙ ap (total m) (drop_all _ (contents r) (omega (arith, length-contents r t.valid)))
        ∙ sym (weigh_past r.bucket_duration r.size k (k + span + j) es t.upto (omega arith))
    | no h ↦
        let e : min span (length (contents r)) + j ≡ span + j =
          omega (arith, length-contents r t.valid) in
        let e' : k + (span + j) ≡ k + span + j = omega arith in
        total-drop-expire m span j (contents r) ∙ rw e (t.held (span + j) ∙ rw e' refl)
  ]

  length-expire : (span : ℕ) (xs : List (Slot A)) → length (expire span xs) ≡ length xs
  length-expire span xs = omega (
    arith,
    length-append (drop (min span (length xs)) xs) (replicate (min span (length xs)) no_slot),
    length-drop (min span (length xs)) xs,
    length-replicate (min span (length xs)) no_slot,
  )

  last_lem :
      (k span b b' t l l' : ℕ)
      → b' ≡ b
      → t ≡ span + k
      → l ≡ origin + k * b
      → l' ≡ l + span * b
      → l' ≡ origin + t * b'
  last_lem k span b b' t l l' eb et el el' = rw (eb, et, el', el) (omega arith)

  below_limit :
      (es : List (Event A)) (k span : ℕ) (val : A) (r : Policy A)
      → Tracks es k r
      → weigh_all m es + of_val val < m.limit
      → total m (expire span (contents r)) + of_val val < m.limit
  below_limit es k span val r t l = omega (
    arith,
    expired_weight es k span 0 r t,
    weigh-le m origin r.bucket_duration r.size (k + span + 0) es,
  )

  held-Added :
      (es : List (Event A)) (k t j now : ℕ) (val : A) (r r' : Policy A)
      → Tracks es k r
      → m.Fine val
      → weigh_all m es + of_val val < m.limit
      → t ≡ span_at now r + k
      → Added now (add_slot plus val) r r'
      → total m (drop j (contents r'))
        ≡ (if ltb (t + j) (t + r.size) then of_val val else 0)
          + weigh m origin r.bucket_duration r.size (t + j) es
  held-Added es k t j now val r r' tr f l e a =
      let span = span_at now r in
      let slots = expire span (contents r) in
      let good : AllGood m slots =
        AllGood-append_none m _ _
          (AllGood-drop m (min span (length (contents r))) (contents r) tr.good) in
      let at : k + span + j ≡ t + j = omega arith in
      let test : ltb j (length slots) ≡ ltb (t + j) (t + r.size) =
        ground (arith, length-expire span (contents r), length-contents r tr.valid) in
      ap (λ (x : List (Slot A)). total m (drop j x)) a.4
      ∙ total-drop-at_last m val j slots f (below_limit es k span val r tr l) good
      ∙ rw (test, expired_weight es k span j r tr, at) (omega arith)

  pub Tracks-Added :
      (es : List (Event A)) (k now : ℕ) (val : A) (r r' : Policy A)
      → Tracks es k r
      → m.Fine val
      → weigh_all m es + of_val val < m.limit
      → r.last_append_time ≤ now
      → Added now (add_slot plus val) r r'
      → Tracks (record { time = now; val = val } ∷ es) (tick origin r.bucket_duration now) r'
  Tracks-Added es k now val r r' t f l h a =
      let e = span-tick es k now r t h in
      let T = tick origin r.bucket_duration now in
      let seen = λ (j d s : ℕ).
        (if ltb (T + j) (tick origin d now + s) then of_val val else 0)
        + weigh m origin d s (T + j) es in
      record {
        valid = a.0;
        last = last_lem k (span_at now r) _ _ _ _ _ a.2 e t.last a.3;
        good = rw a.4 (
            AllGood-at_last m val _ f (below_limit es k (span_at now r) val r t l)
              (AllGood-append_none m _ _ (AllGood-drop m _ _ t.good)));
        held = λ j. held-Added es k T j now val r r' t f l e a ∙ sym (ap₂ (seen j) a.2 a.1);
        upto =
            subst (λ d. (tick origin d now ≤ T) × Upto origin d T es) (sym a.2)
              (le_refl T, Upto-mono origin r.bucket_duration k T es (omega (arith, e)) t.upto);
      }
