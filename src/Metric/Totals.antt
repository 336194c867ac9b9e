-- ===== src/Metric/Totals.antt =====
-- The rolling counter from its construction on: the total that Reduce sees is that of the adds in
-- the window.
use tsf_go.Base.{
  ℕ, zero, suc, ◌+◌, ◌-◌, ◌≤◌, ◌<◌, List, [], ◌∷◌, ◌++◌, Option, some, ◌≡◌, refl, sym, ap, ◌∙◌, inl,
  inr, arith, drop, replicate, ltb, if◌then◌else◌, Bool-cases, ◌>>=◌, map, drop_all, map-append,
  subst,
}
use native.Mathlib.Nat.{le_refl, div-mul-le_self}
use tsf_go.Metric.Policy.{Policy, add_policy, new_policy, reduce}
use tsf_go.Metric.Window.{new_window, new_buckets}
use tsf_go.Metric.Rotation.{replicate-append}
use tsf_go.Metric.Ring.{Slot, slot, no_slot}
use tsf_go.Metric.Roll.{contents, length-contents}
use tsf_go.Metric.Refine.{span_at, add_slot}
use tsf_go.Metric.Adds.{add_policy-Added, new_policy-IsValid}
use tsf_go.Metric.Events.{
  Event, Weight, total, weigh, tick, AllGood, drop-replicate_weight, weigh_all, AllFine,
}
use tsf_go.Metric.Reduce.{visit}
use tsf_go.Metric.Reduces.{reduce_lem}
use tsf_go.Metric.Reads.{fold_slots}
use tsf_go.Metric.History.{Tracks, Tracks-Added, span-tick}

-- The adds `es`, newest first, none earlier than the one before it and all from `origin` on.
abbrev pub InOrder : {A : Type 0} → ℕ → List (Event A) → Type 0
InOrder origin [] = Unit {0}
InOrder origin (e ∷ []) = origin ≤ e.time
InOrder origin (e ∷ e' ∷ rest) = (e'.time ≤ e.time) × InOrder origin (e' ∷ rest)

-- The time that the newest add has seen.
abbrev pub newest : {A : Type 0} → ℕ → List (Event A) → ℕ
newest origin [] = origin
newest origin (e ∷ rest) = e.time

abbrev pub tick_of : {A : Type 0} → ℕ → ℕ → List (Event A) → ℕ
tick_of origin duration es = tick origin duration (newest origin es)

module _ {A : Type 0} where
  -- The policy after the adds `es`, the oldest of them first.
  unfoldable pub add_all : (A → A → A) → List (Event A) → Policy A → Option (Policy A)
  add_all plus [] r = some r
  add_all plus (e ∷ rest) r = add_all plus rest r >>= λ r'. add_policy plus e.time e.val r'

  abbrev pub start : ℕ → ℕ → ℕ → Policy A
  start origin size duration = new_policy (new_window size) duration origin

  pub newest-InOrder :
      (origin : ℕ) (es : List (Event A)) → InOrder origin es → origin ≤ newest origin es
  newest-InOrder origin [] h = le_refl _
  newest-InOrder origin (e ∷ []) h = h
  newest-InOrder origin (e ∷ e' ∷ rest) h = omega (arith, newest-InOrder origin (e' ∷ rest) h.1)

  InOrder-tail :
      (origin : ℕ) (e : Event A) (es : List (Event A))
      → InOrder origin (e ∷ es)
      → InOrder origin es × (newest origin es ≤ e.time)
  InOrder-tail origin e [] h = (tt, h)
  InOrder-tail origin e (e' ∷ rest) h = (h.1, h.0)

module _ {A : Type 0} where
  map-slot-new_buckets :
      (size n i : ℕ) → map slot (new_buckets {A = A} size n i) ≡ replicate n no_slot
  unfolding new_buckets
  map-slot-new_buckets size zero i = refl
  map-slot-new_buckets size (suc n) i =
      ap (λ (t : List (Slot A)). no_slot ∷ t) (map-slot-new_buckets size n (i + 1))

  -- A new policy holds empty buckets only.
  new_contents :
      (size duration now : ℕ)
      → 0 < size
      → contents (new_policy (new_window {A = A} size) duration now) ≡ replicate size no_slot
  unfolding new_policy new_window
  new_contents zero duration now h = absurd (omega arith)
  new_contents (suc n) duration now h =
      map-append slot (new_buckets (suc n) n 1) _
      ∙ ap (λ (t : List (Slot A)). t ++ no_slot ∷ []) (map-slot-new_buckets (suc n) n 1)
      ∙ replicate-append n 1 no_slot
      ∙ ap (λ k. replicate k no_slot) {y = suc n} (omega arith)

module _ {A : Type 0} (plus : A → A → A) (m : Weight (add_slot plus)) (origin : ℕ) where
  pub last-le-newest :
      (es : List (Event A)) (r : Policy A)
      → origin ≤ newest origin es
      → Tracks plus m origin es (tick_of origin r.bucket_duration es) r
      → r.last_append_time ≤ newest origin es
  last-le-newest es r h t =
      let d = div-mul-le_self (newest origin es - origin) r.bucket_duration in
      omega (arith, d, t.last)

  AllGood-replicate : (n : ℕ) → AllGood m (replicate n no_slot)
  AllGood-replicate zero = tt
  AllGood-replicate (suc n) = (m.none_good, AllGood-replicate n)

  start-Tracks :
      (size duration : ℕ)
      → 0 < size
      → 0 < duration
      → Tracks plus m origin [] (tick origin duration origin) (start origin size duration)
  unfolding new_policy new_window
  start-Tracks size duration hs hd =
      let z : tick origin duration origin ≡ 0 =
        let e : origin - origin ≡ 0 = omega arith in rw e (omega arith) in
      record {
        valid = new_policy-IsValid A size duration origin hs hd;
        last = rw z (omega arith);
        good = rw (new_contents size duration origin hs) (AllGood-replicate size);
        held = λ j. rw (new_contents size duration origin hs) (drop-replicate_weight m j size);
        upto = tt;
      }

  -- A run of adds in order, from a new policy on, never panics, and the policy holds them all.
  pub add_all-Tracks :
      (size duration : ℕ) (es : List (Event A))
      → 0 < size
      → 0 < duration
      → AllFine m es
      → weigh_all m es < m.limit
      → InOrder origin es
      → (r : Policy A) × (add_all plus es (start origin size duration) ≡ some r)
        × (r.size ≡ size)
        × (r.bucket_duration ≡ duration)
        × Tracks plus m origin es (tick_of origin duration es) r
  unfolding add_all new_policy new_window
  add_all-Tracks size duration [] hs hd f l h =
      (start origin size duration, refl, refl, refl, start-Tracks size duration hs hd)
  add_all-Tracks size duration (e ∷ es) hs hd f l h =
      let (before, early) = InOrder-tail origin e es h in
      let (r, run, rs, rd, t) = add_all-Tracks size duration es hs hd f.1 (omega arith) before in
      let t' : Tracks plus m origin es (tick_of origin r.bucket_duration es) r =
        subst (λ d. Tracks plus m origin es (tick_of origin d es) r) (sym rd) t in
      let (r', add, a) = add_policy-Added plus e.time e.val r t.valid in
      let late = last-le-newest es r (newest-InOrder origin es before) t' in
      (
        r',
        rw (run, ◌>>=◌) add,
        a.1 ∙ rs,
        a.2 ∙ rd,
        subst (λ d. Tracks plus m origin (e ∷ es) (tick origin d e.time) r') rd
            (Tracks-Added plus m origin es (tick_of origin r.bucket_duration es) e.time e.val r r'
              t' f.0 (omega arith) (omega (arith, late)) a),
      )

  -- So whatever such a run returns holds the adds.
  pub run-Tracks :
      (size duration : ℕ) (es : List (Event A)) {r : Policy A}
      → 0 < size
      → 0 < duration
      → AllFine m es
      → weigh_all m es < m.limit
      → InOrder origin es
      → add_all plus es (start origin size duration) ≡ some r
      → Tracks plus m origin es (tick_of origin duration es) r
  run-Tracks size duration es {r} hs hd f l h e =
      let (q, run, _, _, t) = add_all-Tracks size duration es hs hd f l h in
      let same : q ≡ r = cc in
      subst (λ x. Tracks plus m origin es (tick_of origin duration es) x) same t

  fold_slots-total :
      (body : ℕ → List A → ℕ → ℕ) (acc : ℕ) (xs : List (Slot A))
      → ((acc : ℕ) (s : Slot A) → body acc s.0 s.1 ≡ acc + m.of_slot s)
      → fold_slots body acc xs ≡ acc + total m xs
  fold_slots-total body acc [] b = omega arith
  fold_slots-total body acc (s ∷ xs) b =
      omega (arith, fold_slots-total body (body acc s.0 s.1) xs b, b acc s)

  -- What is left in the window at `now` has the weight of the events in it.
  pub window_total :
      (es : List (Event A)) (k now : ℕ) (r : Policy A)
      → Tracks plus m origin es k r
      → r.last_append_time ≤ now
      → total m (drop (span_at now r) (contents r))
        ≡ weigh m origin r.bucket_duration r.size (tick origin r.bucket_duration now) es
  window_total es k now r t h =
      let e : k + span_at now r ≡ tick origin r.bucket_duration now =
        omega (arith, span-tick plus m origin es k now r t h) in
      t.held (span_at now r) ∙ ap (λ x. weigh m origin r.bucket_duration r.size x es) e

  -- What a loop over the buckets that adds up their weights returns at `now`.
  pub reduce-Tracks :
      (body : ℕ → List A → ℕ → ℕ) (es : List (Event A)) (k now : ℕ) (r : Policy A)
      → ((acc : ℕ) (s : Slot A) → body acc s.0 s.1 ≡ acc + m.of_slot s)
      → Tracks plus m origin es k r
      → r.last_append_time ≤ now
      → reduce 0 (visit body 0) now r
        ≡ some (weigh m origin r.bucket_duration r.size (tick origin r.bucket_duration now) es)
  reduce-Tracks body es k now r b t h =
      let span = span_at now r in
      let left = drop span (contents r) in
      let w = window_total es k now r t h in
      reduce_lem body 0 0 now r t.valid ∙ elim (Bool-cases (ltb span r.size)) [
        | inl l ↦ rw (l, if◌then◌else◌, fold_slots-total body 0 left b, ← w) (ap some (omega arith))
        | inr l ↦
            let none_left =
              drop_all span (contents r) (ground (arith, length-contents r t.valid)) in
            rw (l, if◌then◌else◌) (ap some (ap (total m) (sym none_left) ∙ w))
      ]
