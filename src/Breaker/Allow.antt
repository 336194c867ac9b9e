-- ===== src/Breaker/Allow.antt =====
-- What Allow answers after a history of marks.
use tsf_go.Base.{
  ℕ, suc, ◌/◌, ◌^◌, ◌≤◌, ◌<◌, List, some, Bool, true, false, ◌↔◌, ◌≡◌, refl, sym, ap, ap₂, ◌∙◌, inl,
  inr, arith, if◌then◌else◌, Bool-cases, ◌>>=◌, Float, IsExact, nat_eqb, length, drop, ltb,
  drop_all, ◌≢◌, subst, ◌||◌,
}
use native.Mathlib.Nat.{le-div_iff_mul-le}
use mathlib.Core.Path.{subst₂}
use tsf_go.Metric.Counter.{Counter}
use tsf_go.Metric.Roll.{contents, length-contents}
use tsf_go.Metric.Refine.{span_at}
use tsf_go.Metric.Events.{tick, total}
use tsf_go.Metric.History.{Tracks}
use tsf_go.Metric.Reduces.{reduce_lem}
use tsf_go.Metric.Totals.{
  add_all-Tracks, run-Tracks, tick_of, window_total, last-le-newest, newest-InOrder,
}
use tsf_go.Breaker.Sre.{
  Config, Sre, new_sre, summary, tally, is_closed, allow, decide, allowed, unavailable, Verdict,
  drop_ratio, State, is_open, half_open, close_if_open, open_if_closed,
}
use tsf_go.Breaker.Marks.{count_weight, success_weight, fold_slots-tally}
use tsf_go.Breaker.History.{
  Mark, MarksInOrder, marks_in, any_mark, a_success, last_mark, mark_all, mark_all_lem, events,
  events-InOrder, newest-events, weigh-count, weigh_all-count, count-AllFine, weigh-success,
  weigh_all-success, success-AllFine,
}

-- The successes and the marks in the window at time `now`.
abbrev pub seen : ℕ → ℕ → ℕ → ℕ → List Mark → ℕ × ℕ
seen origin duration size now ks = (
  marks_in origin duration size (tick origin duration now) a_success ks,
  marks_in origin duration size (tick origin duration now) any_mark ks,
)

module _ (fl : Float) (exact : IsExact fl) where
  open fl use {F, plus, of_int, to_int, times, below}

  -- The summary of a breaker whose counter holds the marks.
  summary-Tracks :
      (origin now : ℕ) (ks : List Mark) (b : Sre fl)
      → let r = b.stat in
        Tracks plus
          (count_weight plus (suc (length ks)))
          origin
          (events fl ks)
          (tick_of origin r.bucket_duration (events fl ks))
          r
        → Tracks plus
            (success_weight fl exact)
            origin
            (events fl ks)
            (tick_of origin r.bucket_duration (events fl ks))
            r
        → r.last_append_time ≤ now
        → summary fl now b ≡ some (seen origin r.bucket_duration r.size now ks)
  unfolding summary
  summary-Tracks origin now ks b tc ts h =
      let r = b.stat in
      let span = span_at now r in
      let cw = count_weight plus (suc (length ks)) in
      let sw = success_weight fl exact in
      let left = drop span (contents r) in
      let c =
        window_total plus cw origin (events fl ks) _ now r tc h
        ∙ weigh-count fl (suc (length ks)) origin r.bucket_duration r.size
            (tick origin r.bucket_duration now) ks in
      let s =
        window_total plus sw origin (events fl ks) _ now r ts h
        ∙ weigh-success fl exact origin r.bucket_duration r.size (tick origin r.bucket_duration now)
            ks in
      reduce_lem (tally fl) (0, 0) (0, 0) now r tc.valid ∙ elim (Bool-cases (ltb span r.size)) [
        | inl l ↦
            rw (l, if◌then◌else◌, fold_slots-tally fl exact (suc (length ks)) (0, 0) left)
              (ap₂ (λ a b. some (a, b)) (omega (arith, s)) (omega (arith, c)))
        | inr l ↦
            let none_left =
              drop_all span (contents r) (ground (arith, length-contents r tc.valid)) in
            rw (l, if◌then◌else◌)
              (ap₂ (λ a b. some (a, b)) (sym (ap (total sw) none_left) ∙ s)
                (sym (ap (total cw) none_left) ∙ c))
      ]

  -- A breaker of the configuration `conf` that was made at `origin` and has seen the marks `ks`, open or
  -- closed.
  pub record Holds (conf : Config fl) (origin : ℕ) (ks : List Mark) (b : Sre fl) : Type 0 where
    pub same_k : b.k ≡ conf.k
    pub same_request : b.request ≡ conf.request
    pub not_half : b.state ≢ half_open
    pub sees :
        (now : ℕ)
        → last_mark origin ks ≤ now
        → summary fl now b ≡ some (seen origin (conf.window / conf.bucket) conf.bucket now ks)

  holds :
      (conf : Config fl) (origin : ℕ) (ks : List Mark) (duration : ℕ) (r : Counter fl) (b : Sre fl)
      → b.k ≡ conf.k
      → b.request ≡ conf.request
      → b.state ≢ half_open
      → b.stat ≡ r
      → duration ≡ conf.window / conf.bucket
      → r.size ≡ conf.bucket
      → r.bucket_duration ≡ duration
      → MarksInOrder origin ks
      → Tracks plus
          (count_weight plus (suc (length ks)))
          origin
          (events fl ks)
          (tick_of origin duration (events fl ks))
          r
      → Tracks plus
          (success_weight fl exact)
          origin
          (events fl ks)
          (tick_of origin duration (events fl ks))
          r
      → Holds conf origin ks b
  holds conf origin ks duration r b ek er es eb ed rs rd o tc ts = record {
    same_k = ek;
    same_request = er;
    not_half = es;
    sees = λ now h.
        let tc' =
          subst₂
            (λ d x.
              Tracks plus (count_weight plus (suc (length ks))) origin (events fl ks)
                (tick_of origin d (events fl ks)) x)
            (sym rd ∙ ap (λ (x : Counter fl). x.bucket_duration) (sym eb)) (sym eb) tc in
        let ts' =
          subst₂
            (λ d x.
              Tracks plus (success_weight fl exact) origin (events fl ks)
                (tick_of origin d (events fl ks)) x)
            (sym rd ∙ ap (λ (x : Counter fl). x.bucket_duration) (sym eb)) (sym eb) ts in
        let late =
          last-le-newest plus (success_weight fl exact) origin (events fl ks) b.stat
            (newest-InOrder origin (events fl ks) (events-InOrder fl origin ks o)) ts' in
        summary-Tracks origin now ks b tc' ts' (omega (arith, late, newest-events fl origin ks))
        ∙ ap₂ (λ d n. some (seen origin d n now ks))
            (ap (λ (x : Counter fl). x.bucket_duration) eb ∙ rd ∙ ed)
            (ap (λ (x : Counter fl). x.size) eb ∙ rs);
  }

  -- A breaker made from a configuration with buckets of a positive duration never panics on marks
  -- that come in order, fewer than 2^53 of them. Its state stays closed, and at any later time its
  -- summary is the number of successes and of marks whose bucket has not left the window.
  pub summary-mark_all :
      (conf : Config fl) (origin : ℕ) (ks : List Mark)
      → 0 < conf.bucket
      → conf.bucket ≤ conf.window
      → length ks < 2 ^ 53
      → MarksInOrder origin ks
      → (b : Sre fl) × ((new_sre fl conf origin >>= λ b0. mark_all fl ks b0) ≡ some b)
        × Holds conf origin ks b
        × (b.state ≡ is_closed)
  unfolding new_sre
  summary-mark_all conf origin ks hb hw hl ho =
      let duration = conf.window / conf.bucket in
      let hd : 0 < duration =
        (le-div_iff_mul-le {k = conf.bucket} {x = 1} {y = conf.window} hb).1 (omega arith) in
      let cw = count_weight plus (suc (length ks)) in
      let ordered = events-InOrder fl origin ks ho in
      let (r, run, rs, rd, tc) =
        add_all-Tracks plus cw origin conf.bucket duration (events fl ks) hb hd
          (count-AllFine fl (suc (length ks)) ks)
          (omega (arith, weigh_all-count fl (suc (length ks)) ks)) ordered in
      let ts =
        run-Tracks plus (success_weight fl exact) origin conf.bucket duration (events fl ks) hb hd
          (success-AllFine fl exact ks) (omega (arith, weigh_all-success fl exact ks)) ordered
          run in
      let z : nat_eqb conf.bucket 0 ≡ false = ground arith in
      let made : Sre fl = record {
        stat = r;
        k = conf.k;
        request = conf.request;
        state = is_closed;
      } in
      (
        made,
        rw (z, if◌then◌else◌, mark_all_lem fl ks) (rw (run, ◌>>=◌) refl),
        holds conf origin ks duration r made refl refl (λ e. cc) refl refl rs rd ho tc ts,
        refl,
      )

  -- The branch that Allow takes on its summary.
  abbrev pub Overloaded : ℕ → F → ℕ → ℕ → Type 0
  Overloaded request k s t = (request ≤ t) × (below (of_int t) (times k (of_int s)) ≡ false)

  -- The answer is a refusal exactly if the window is overloaded and the draw is below the drop ratio,
  -- and the state after it is closed exactly if the window is not overloaded.
  abbrev pub Answers : ℕ → F → ℕ → ℕ → F → Verdict × Sre fl → Type 0
  Answers request k s t draw answer =
      ((answer.0 ≡ unavailable)
        ↔ (Overloaded request k s t × (below draw (drop_ratio fl (times k (of_int s)) t) ≡ true)))
      × ((answer.1.state ≡ is_closed) ↔ (¬ Overloaded request k s t))

  refuse_iff :
      (refused : Bool) (P : Type 0)
      → P
      → ((if refused then unavailable else allowed) ≡ unavailable) ↔ (P × (refused ≡ true))
  refuse_iff true P p = (λ _. (p, refl), λ _. refl)
  refuse_iff false P p = (λ c. cc, λ c. cc)

  -- An open breaker is closed by the one swap and left alone by the other, a closed one the other way.
  closed_by : (s : State) → s ≢ half_open → close_if_open fl s ≡ is_closed
  unfolding close_if_open
  closed_by is_open ne = refl
  closed_by is_closed ne = refl
  closed_by half_open ne = absurd (ne refl)

  opened_by : (s : State) → s ≢ half_open → open_if_closed fl s ≡ is_open
  unfolding open_if_closed
  opened_by is_open ne = refl
  opened_by is_closed ne = refl
  opened_by half_open ne = absurd (ne refl)

  decide-Answers :
      (draw : F) (s t : ℕ) (b : Sre fl)
      → b.state ≢ half_open
      → Answers b.request b.k s t draw (decide fl draw s t b)
  unfolding decide
  decide-Answers draw s t b e =
      let closes = closed_by b.state e in
      let opens = opened_by b.state e in
      elim (Bool-cases (ltb t b.request)) [
        | inl few ↦
            rw (few, if◌then◌else◌)
              ((λ c. cc, λ c. absurd (ground arith)), (λ c. ground arith, λ c. closes))
        | inr many ↦ elim (Bool-cases (below (of_int t) (times b.k (of_int s)))) [
          | inl good ↦ rw (many, good, if◌then◌else◌) ((λ c. cc, λ c. cc), (λ c h. cc, λ c. closes))
          | inr bad ↦
              let over : (b.request ≤ t) × (◌≡◌ {A = Bool} false false) = (ground arith, refl) in
              rw (many, bad, if◌then◌else◌, opens)
                ((refuse_iff _ _ over, (λ c h. cc, λ n. absurd (n over))))
        ]
      ]

  -- Allow changes nothing but the state.
  pub decide_state :
      (draw : F) (s t : ℕ) (b : Sre fl)
      → (decide fl draw s t b).1 ≡ record b { state = (decide fl draw s t b).1.state }
  unfolding decide
  decide_state draw s t b =
      elim (Bool-cases (ltb t b.request || below (of_int t) (times b.k (of_int s)))) [
        | inl few ↦ rw (few, if◌then◌else◌) refl
        | inr many ↦ rw (many, if◌then◌else◌) refl
      ]

  pub decide_not_half :
      (draw : F) (s t : ℕ) (b : Sre fl)
      → b.state ≢ half_open
      → (decide fl draw s t b).1.state ≢ half_open
  unfolding decide
  decide_not_half draw s t b e =
      let closes = closed_by b.state e in
      let opens = opened_by b.state e in
      elim (Bool-cases (ltb t b.request || below (of_int t) (times b.k (of_int s)))) [
        | inl few ↦ rw (few, if◌then◌else◌) (λ h. let no_ = sym closes ∙ h in cc)
        | inr many ↦ rw (many, if◌then◌else◌) (λ h. let no_ = sym opens ∙ h in cc)
      ]

  -- The marks do not depend on the state.
  pub Holds-state :
      (conf : Config fl) (origin : ℕ) (ks : List Mark) (b : Sre fl) (state : State)
      → state ≢ half_open
      → Holds conf origin ks b
      → Holds conf origin ks (record b { state = state })
  unfolding summary
  Holds-state conf origin ks b state ne h = record {
    same_k = h.same_k;
    same_request = h.same_request;
    not_half = ne;
    sees = λ now l. h.sees now l;
  }

  decide-Holds :
      (conf : Config fl) (origin : ℕ) (ks : List Mark) (draw : F) (s t : ℕ) (b : Sre fl)
      → Holds conf origin ks b
      → Holds conf origin ks (decide fl draw s t b).1
  decide-Holds conf origin ks draw s t b h =
      subst (Holds conf origin ks) (sym (decide_state draw s t b)) (
        Holds-state conf origin ks b (decide fl draw s t b).1.state
          (decide_not_half draw s t b h.not_half) h)

  -- After marks in order, Allow answers by the marks of the window alone. It refuses exactly if they
  -- are at least `request` many, they are not fewer than `k` times the successes, and the draw is
  -- below the drop ratio. Whether the breaker was open or closed before, it is closed afterwards exactly
  -- if the window is not overloaded, and open otherwise; and it still holds the marks.
  pub allow-Holds :
      (conf : Config fl) (origin : ℕ) (ks : List Mark) (b : Sre fl) (now : ℕ) (draw : F)
      → Holds conf origin ks b
      → last_mark origin ks ≤ now
      → let (s, t) = seen origin (conf.window / conf.bucket) conf.bucket now ks in
        (answer : Verdict × Sre fl) × (allow fl now draw b ≡ some answer)
        × Answers conf.request conf.k s t draw answer
        × Holds conf origin ks answer.1
  unfolding allow
  allow-Holds conf origin ks b now draw h l =
      let (s, t) = seen origin (conf.window / conf.bucket) conf.bucket now ks in
      (
        decide fl draw s t b,
        rw (h.sees now l, ◌>>=◌) refl,
        subst₂ (λ k n. Answers n k s t draw (decide fl draw s t b)) h.same_k h.same_request
            (decide-Answers draw s t b h.not_half),
        decide-Holds conf origin ks draw s t b h,
      )
