-- ===== src/Metric/Tests.antt =====
-- The rolling counter on concrete clocks, and the theorems at inputs that meet their hypotheses.
use tsf_go.Base.{ℕ, ◌+◌, Option, none, some, ◌≡◌, refl, arith, whole, pos, negsuc, ◌>>=◌}
use tsf_go.Metric.Window.{new_window, reset_bucket}
use tsf_go.Metric.Policy.{Policy, new_policy, add_policy, reduce}
use tsf_go.Metric.Reduce.{visit, sum_points}
use tsf_go.Metric.Counter.{
  Counter, new_counter, counter_add, counter_sum, counter_avg, counter_min, counter_max,
  counter_value, counter_timespan,
}
use tsf_go.Metric.Roll.{IsValid}
use tsf_go.Metric.Refine.{add_slot}
use tsf_go.Metric.Adds.{Added, add_policy-Added, new_policy-IsValid}
use tsf_go.Metric.Reduces.{reduce_lem}

abbrev plus_ℕ : ℕ → ℕ → ℕ
plus_ℕ a b = a + b

-- Three buckets of 10 ns from time 100 on.
abbrev fresh : Policy ℕ
fresh = new_policy (new_window 3) 10 100

-- 2 at 105, 3 at 112 and 4 at 114.
abbrev busy : Option (Counter whole)
busy =
    counter_add whole 105 (pos 2)
      (new_counter whole (record { size = 3; bucket_duration = 10 }) 100)
    >>= λ r. counter_add whole 112 (pos 3) r >>= λ r. counter_add whole 114 (pos 4) r

busy_sum : (busy >>= counter_sum whole 119) ≡ some 9
unfolding counter_sum counter_add new_counter reset_bucket
busy_sum = refl

-- The first bucket leaves the window at 130, the others at 140.
busy_later : (busy >>= counter_value whole 130) ≡ some 7
unfolding counter_value counter_add new_counter reset_bucket
busy_later = refl

busy_gone : (busy >>= counter_sum whole 140) ≡ some 0
unfolding counter_sum counter_add new_counter reset_bucket
busy_gone = refl

busy_min_max :
    ((busy >>= counter_min whole 119) ≡ some 2)
    × ((busy >>= counter_max whole 119) ≡ some 7)
    × ((busy >>= counter_avg whole 119) ≡ some 4)
    × ((busy >>= counter_timespan whole 135) ≡ some 2)
unfolding counter_min counter_max counter_avg counter_add new_counter counter_timespan reset_bucket
busy_min_max = (refl, refl, refl, refl)

negative_add : (busy >>= counter_add whole 119 (negsuc 0)) ≡ none
unfolding counter_add new_counter reset_bucket
negative_add = refl

new_policy-IsValid_example : IsValid fresh
new_policy-IsValid_example = new_policy-IsValid ℕ 3 10 100 (omega arith) (omega arith)

add_policy-Added_example :
    (r' : Policy ℕ) × (add_policy plus_ℕ 125 7 fresh ≡ some r')
    × Added 125 (add_slot plus_ℕ 7) fresh r'
add_policy-Added_example = add_policy-Added plus_ℕ 125 7 fresh new_policy-IsValid_example

reduce_lem_example : reduce 0 (visit (sum_points whole) 0) 115 fresh ≡ some 0
unfolding new_policy new_window sum_points
reduce_lem_example = reduce_lem (sum_points whole) 0 0 115 fresh new_policy-IsValid_example
