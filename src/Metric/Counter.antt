-- ===== src/Metric/Counter.antt =====
-- pkg/metric/rolling_counter.go, over a clock that each call reads. `Add` of a negative number
-- panics, which is `none`.
use tsf_go.Base.{ℕ, Option, none, some, Float, ◌>>=◌, ℤ, pos, negsuc}
use tsf_go.Metric.Window.{new_window, Window, Iterator}
use tsf_go.Metric.Policy.{Policy, new_policy, add_policy, reduce, timespan}
use tsf_go.Metric.Reduce.{sum, avg, min_of, max_of}

-- RollingCounterOpts
pub record CounterOpts : Type 0 where
  pub size : ℕ
  pub bucket_duration : ℕ

module _ (fl : Float) where
  open fl use {F, plus, of_int, to_int}

  -- The rolling counter holds its policy and nothing else.
  abbrev pub Counter : Type 0
  Counter = Policy F

  -- NewRollingCounter
  unfoldable pub new_counter : CounterOpts → ℕ → Counter
  unfolding new_policy new_window
  new_counter opts now = new_policy (new_window opts.size) opts.bucket_duration now

  -- rollingCounter.Add
  unfoldable pub counter_add : ℕ → ℤ → Counter → Option Counter
  unfolding add_policy
  counter_add now (pos val) r = add_policy plus now (of_int val) r
  counter_add now (negsuc val) r = none

  -- rollingCounter.Reduce, whose zero result is the number 0
  unfoldable pub counter_reduce : (Window F → Iterator → Option F) → ℕ → Counter → Option F
  unfolding reduce
  counter_reduce f now r = reduce (of_int 0) f now r

  unfoldable pub counter_avg : ℕ → Counter → Option F
  unfolding counter_reduce avg
  counter_avg now r = counter_reduce (avg fl) now r

  unfoldable pub counter_min : ℕ → Counter → Option F
  unfolding counter_reduce min_of
  counter_min now r = counter_reduce (min_of fl) now r

  unfoldable pub counter_max : ℕ → Counter → Option F
  unfolding counter_reduce max_of
  counter_max now r = counter_reduce (max_of fl) now r

  unfoldable pub counter_sum : ℕ → Counter → Option F
  unfolding counter_reduce sum
  counter_sum now r = counter_reduce (sum fl) now r

  -- rollingCounter.Value
  unfoldable pub counter_value : ℕ → Counter → Option ℕ
  unfolding counter_sum
  counter_value now r = counter_sum now r >>= λ x. some (to_int x)

  -- rollingCounter.Timespan
  unfoldable pub counter_timespan : ℕ → Counter → Option ℕ
  unfolding timespan
  counter_timespan now r = timespan now r
