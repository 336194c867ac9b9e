-- ===== src/Breaker/Sre.antt =====
-- breaker/sre_breaker.go, and the configuration of breaker/breaker.go: a breaker that drops calls
-- by the success ratio of the window. The clock and the random draw are arguments. `none` is a
-- panic. Durations and counts are not negative.
use tsf_go.Base.{
  ℕ, ◌+◌, ◌*◌, ◌/◌, ◌^◌, List, Option, none, some, Bool, ◌==◌, int_comparable, ltb, ◌||◌,
  if◌then◌else◌, ◌>>=◌, Float, pos,
}
use tsf_go.Metric.Policy.{reduce}
use tsf_go.Metric.Reduce.{each_point, visit}
use tsf_go.Metric.Counter.{Counter, new_counter, counter_add}

-- StateOpen, StateClosed, StateHalfopen
pub data State : Type 0 where
  is_open is_closed half_open : State

-- What Allow returns: nil, or the error `circuit_breaker_open`.
pub data Verdict : Type 0 where
  allowed unavailable : Verdict

module _ (fl : Float) where
  open fl use {F, plus, minus, times, over, below, is_zero, of_int, to_int, lit}

  pub record Config : Type 0 where
    pub switch_off : Bool
    pub k : F
    pub window : ℕ
    pub bucket : ℕ
    pub request : ℕ

  -- Config.fix
  unfoldable pub fix : Config → Config
  fix conf = record conf {
    k = if is_zero conf.k then lit 3 2 else conf.k;
    request = if conf.request == 0 then 50 else conf.request;
    bucket = if conf.bucket == 0 then 10 else conf.bucket;
    window = if conf.window == 0 then 5 * 10 ^ 9 else conf.window;
  }

  -- sreBreaker
  pub record Sre : Type 0 where
    pub stat : Counter fl
    pub k : F
    pub request : ℕ
    pub state : State

  -- newSRE divides the window by the number of buckets.
  unfoldable pub new_sre : Config → ℕ → Option Sre
  unfolding new_counter
  new_sre c now =
      if c.bucket == 0
      then none
      else some (record {
        stat =
            new_counter fl (record { size = c.bucket; bucket_duration = c.window / c.bucket }) now;
        k = c.k;
        request = c.request;
        state = is_closed;
      })

  -- The closure of `summary`, over its two results.
  unfoldable pub tally : ℕ × ℕ → List F → ℕ → ℕ × ℕ
  unfolding each_point
  tally acc points count = (each_point (λ n p. n + to_int p) acc.0 points, acc.1 + count)

  unfoldable pub summary : ℕ → Sre → Option (ℕ × ℕ)
  unfolding reduce visit tally
  summary now b = reduce (0, 0) (visit tally (0, 0)) now b.stat

  -- math.Max
  unfoldable pub max_float : F → F → F
  max_float x y = if below x y then y else x

  -- trueOnProba, with what the generator drew.
  unfoldable pub true_on_proba : F → F → Bool
  true_on_proba draw proba = below draw proba

  -- The compare-and-swaps of Allow: one to close an open breaker, one to open a closed one.
  unfoldable pub close_if_open : State → State
  close_if_open is_open = is_closed
  close_if_open s = s

  unfoldable pub open_if_closed : State → State
  open_if_closed is_closed = is_open
  open_if_closed s = s

  -- The drop ratio.
  unfoldable pub drop_ratio : F → ℕ → F
  unfolding max_float
  drop_ratio k total = max_float (of_int 0) (over (minus (of_int total) k) (of_int (total + 1)))

  -- Allow after its summary.
  unfoldable pub decide : F → ℕ → ℕ → Sre → Verdict × Sre
  unfolding drop_ratio true_on_proba close_if_open open_if_closed
  decide draw success total b =
      let k = times b.k (of_int success) in
      if ltb total b.request || below (of_int total) k
      then (allowed, record b { state = close_if_open b.state })
      else (
        if true_on_proba draw (drop_ratio k total) then unavailable else allowed,
        record b { state = open_if_closed b.state },
      )

  unfoldable pub allow : ℕ → F → Sre → Option (Verdict × Sre)
  unfolding summary decide
  allow now draw b = do (success, total) ← summary now b; some (decide draw success total b)

  unfoldable pub mark_success : ℕ → Sre → Option Sre
  unfolding counter_add
  mark_success now b = counter_add fl now (pos 1) b.stat >>= λ stat. some (record b { stat = stat })

  unfoldable pub mark_failed : ℕ → Sre → Option Sre
  unfolding counter_add
  mark_failed now b = counter_add fl now (pos 0) b.stat >>= λ stat. some (record b { stat = stat })
