-- ===== src/Metric/Policy.antt =====
-- pkg/metric/rolling_policy.go: the window moves on with the clock. The lock makes each method
-- atomic. Times are nanoseconds of the monotonic clock, and a duration of 0 panics as a divisor.
use tsf_go.Base.{
  ℕ, zero, suc, ◌+◌, ◌-◌, ◌*◌, Option, none, some, ◌==◌, int_comparable, ltb, if◌then◌else◌, ◌>>=◌,
  ℤ, pos, negsuc, sub_ℕ, quot_ℤ,
}
use tsf_go.Metric.Window.{Window, Iterator, reset_bucket, append, add, iterator}

pub record Policy (A : Type 0) : Type 0 where
  pub size : ℕ
  pub window : Window A
  pub offset : ℕ
  pub bucket_duration : ℕ
  pub last_append_time : ℕ

-- `v` if it is above -1 and the size otherwise.
abbrev pub span_of : ℕ → ℤ → ℕ
span_of size (pos v) = v
span_of size (negsuc v) = size

module _ {A : Type 0} where
  -- NewRollingPolicy
  unfoldable pub new_policy : Window A → ℕ → ℕ → Policy A
  new_policy w duration now = record {
    size = w.size;
    window = w;
    offset = 0;
    bucket_duration = duration;
    last_append_time = now;
  }

  -- RollingPolicy.timespan
  unfoldable pub timespan : ℕ → Policy A → Option ℕ
  timespan now r =
      if r.bucket_duration == 0
      then none
      else some (span_of r.size (quot_ℤ (sub_ℕ now r.last_append_time) r.bucket_duration))

  -- `for i := i; i < i+n; i++ { ResetBucket(i); offset = i }`, and the last offset.
  unfoldable pub reset_range : ℕ → ℕ → Window A → ℕ → Option (Window A × ℕ)
  reset_range zero i w offset = some (w, offset)
  reset_range (suc n) i w offset = reset_bucket i w >>= λ w'. reset_range n (i + 1) w' i

  -- The body of `if timespan > 0` in `add`.
  unfoldable pub roll : ℕ → Policy A → Option (Policy A)
  unfolding reset_range
  roll span r = do
    let s = r.offset + 1
    let n = if ltb r.size span then r.size else span
    let e = s + n
    let e1 = if ltb r.size e then e - r.size else 0
    let e0 = if ltb r.size e then r.size else e
    (w, o) ← reset_range (e0 - s) s r.window r.offset
    (w', o') ← reset_range e1 0 w o
    some (record r {
      window = w';
      offset = o';
      last_append_time = r.last_append_time + span * r.bucket_duration;
    })

  -- RollingPolicy.add
  unfoldable pub add_with :
      (ℕ → A → Window A → Option (Window A)) → ℕ → A → Policy A → Option (Policy A)
  unfolding roll timespan
  add_with f now val r = do
    span ← timespan now r
    r' ← if ltb 0 span then roll span r else some r
    w ← f r'.offset val r'.window
    some (record r' { window = w })

  -- RollingPolicy.Append
  unfoldable pub append_policy : ℕ → A → Policy A → Option (Policy A)
  unfolding add_with append
  append_policy now val r = add_with append now val r

  -- RollingPolicy.Add
  unfoldable pub add_policy : (A → A → A) → ℕ → A → Policy A → Option (Policy A)
  unfolding add_with add
  add_policy plus now val r = add_with (add plus) now val r

  -- RollingPolicy.Reduce, whose result is `nothing` if no bucket is left in the window.
  unfoldable pub reduce {ℓ} :
      {B : Type ℓ} → B → (Window A → Iterator → Option B) → ℕ → Policy A → Option B
  unfolding timespan iterator
  reduce nothing f now r = do
    span ← timespan now r
    let offset = r.offset + span + 1
    let from = if ltb offset r.size then offset else offset - r.size
    if ltb span r.size
        then (iterator from (r.size - span) r.window >>= λ i. f r.window i)
        else some nothing
