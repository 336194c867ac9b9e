-- ===== src/Metric/Reduce.antt =====
-- pkg/metric/reduce.go: the loops over an iterator. A loop has one round for each bucket and one to
-- stop, so its fuel is the iterator's count and one more; `none` is a panic of Iterator.Bucket.
use tsf_go.Base.{
  ℕ, zero, suc, ◌+◌, List, [], ◌∷◌, Option, none, some, Bool, true, false, if◌then◌else◌, ◌>>=◌,
  Float,
}
use tsf_go.Metric.Window.{Window, Iterator, has_next, take_bucket}

module _ {ℓ} {A : Type 0} {B : Type ℓ} where
  -- `for _, p := range bucket.Points`
  unfoldable pub each_point : (B → A → B) → B → List A → B
  each_point body acc [] = acc
  each_point body acc (p ∷ ps) = each_point body (body acc p) ps

  -- `for iterator.Next() { bucket := iterator.Bucket(); … }`
  unfoldable pub each_bucket : ℕ → (B → List A → ℕ → B) → B → Window A → Iterator → Option B
  unfolding take_bucket
  each_bucket zero body acc w i = none
  each_bucket (suc fuel) body acc w i =
      let more =
        take_bucket w i >>= λ r. each_bucket fuel body (body acc r.0.points r.0.count) w r.1 in
      if has_next i then more else some acc

  unfoldable pub visit : (B → List A → ℕ → B) → B → Window A → Iterator → Option B
  unfolding each_bucket
  visit body acc w i = each_bucket (suc i.count) body acc w i

module _ (fl : Float) where
  open fl use {F, plus, over, below, of_int}

  unfoldable pub sum_points : F → List F → ℕ → F
  unfolding each_point
  sum_points acc points count = each_point plus acc points

  -- Sum
  unfoldable pub sum : Window F → Iterator → Option F
  unfolding visit sum_points
  sum w i = visit sum_points (of_int 0) w i

  unfoldable pub avg_points : F × F → List F → ℕ → F × F
  unfolding each_point
  avg_points acc points count = each_point (λ s p. (plus s.0 p, plus s.1 (of_int 1))) acc points

  -- Avg
  unfoldable pub avg : Window F → Iterator → Option F
  unfolding visit avg_points
  avg w i = visit avg_points (of_int 0, of_int 0) w i >>= λ s. some (over s.0 s.1)

  -- The state is the result and whether the loop has seen a point.
  unfoldable pub min_step : F × Bool → F → F × Bool
  min_step (result, false) p = (p, true)
  min_step (result, true) p = (if below p result then p else result, true)

  unfoldable pub min_points : F × Bool → List F → ℕ → F × Bool
  unfolding each_point min_step
  min_points acc points count = each_point min_step acc points

  -- Min
  unfoldable pub min_of : Window F → Iterator → Option F
  unfolding visit min_points
  min_of w i = visit min_points (of_int 0, false) w i >>= λ s. some s.0

  unfoldable pub max_step : F × Bool → F → F × Bool
  max_step (result, false) p = (p, true)
  max_step (result, true) p = (if below result p then p else result, true)

  unfoldable pub max_points : F × Bool → List F → ℕ → F × Bool
  unfolding each_point max_step
  max_points acc points count = each_point max_step acc points

  -- Max
  unfoldable pub max_of : Window F → Iterator → Option F
  unfolding visit max_points
  max_of w i = visit max_points (of_int 0, false) w i >>= λ s. some s.0

  unfoldable pub count_bucket : ℕ → List F → ℕ → ℕ
  count_bucket result points count = result + count

  -- Count
  unfoldable pub count_of : Window F → Iterator → Option F
  unfolding visit count_bucket
  count_of w i = visit count_bucket 0 w i >>= λ n. some (of_int n)
