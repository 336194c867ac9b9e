-- ===== src/Metric/Window.antt =====
-- pkg/metric/window.go and iterator.go: a ring of buckets, and the iterator that walks it.
-- A pointer to a bucket of the window is the bucket's index. An index out of range panics: `none`.
use tsf_go.Base.{
  ℕ, zero, suc, ◌+◌, List, [], ◌∷◌, ◌++◌, Option, none, some, Bool, not, ◌==◌, int_comparable,
  if◌then◌else◌, get_elem?, modify, length, ◌>>=◌,
}

pub record Bucket (A : Type 0) : Type 0 where
  pub points : List A
  pub count : ℕ
  pub next : ℕ

pub record Window (A : Type 0) : Type 0 where
  pub window : List (Bucket A)
  pub size : ℕ

pub record Iterator : Type 0 where
  pub count : ℕ
  pub iterated_count : ℕ
  pub cur : ℕ

-- The `next` index that NewWindow stores in the bucket at `offset`.
abbrev pub next_offset : ℕ → ℕ → ℕ
next_offset size offset = if offset + 1 == size then 0 else offset + 1

-- Iterator.Next
abbrev pub has_next : Iterator → Bool
has_next i = not (i.count == i.iterated_count)

module _ {A : Type 0} where
  -- Bucket.Append
  unfoldable pub append_point : A → Bucket A → Bucket A
  append_point val b = record b { points = b.points ++ val ∷ []; count = b.count + 1 }

  -- Bucket.Add
  unfoldable pub add_point : (A → A → A) → ℕ → A → Bucket A → Option (Bucket A)
  add_point plus offset val b = do
    p ← get_elem? b.points offset
    some (record b { points = modify b.points offset (λ x. plus x val); count = b.count + 1 })

  -- Bucket.Reset
  unfoldable pub reset : Bucket A → Bucket A
  reset b = record b { points = []; count = 0 }

  -- The loop of NewWindow: `n` buckets are left to make, from `offset` on.
  unfoldable pub new_buckets : ℕ → ℕ → ℕ → List (Bucket A)
  new_buckets size zero offset = []
  new_buckets size (suc n) offset =
      record { points = []; count = 0; next = next_offset size offset }
      ∷ new_buckets size n (offset + 1)

  unfoldable pub new_window : ℕ → Window A
  unfolding new_buckets
  new_window size = record { window = new_buckets size size 0; size = size }

  -- The statement `w.window[offset] = …`, whose new bucket may be a panic.
  unfoldable pub at_bucket : ℕ → (Bucket A → Option (Bucket A)) → Window A → Option (Window A)
  at_bucket offset f w = do
    b ← get_elem? w.window offset
    b' ← f b
    some (record w { window = modify w.window offset (λ _. b') })

  -- Window.ResetBucket
  unfoldable pub reset_bucket : ℕ → Window A → Option (Window A)
  unfolding at_bucket reset
  reset_bucket offset w = at_bucket offset (λ b. some (reset b)) w

  -- Window.ResetBuckets
  unfoldable pub reset_buckets : List ℕ → Window A → Option (Window A)
  unfolding reset_bucket
  reset_buckets [] w = some w
  reset_buckets (offset ∷ rest) w = reset_bucket offset w >>= λ w'. reset_buckets rest w'

  -- The loop of Window.ResetWindow: `n` offsets are left, from `offset` on.
  unfoldable pub reset_from : ℕ → ℕ → Window A → Option (Window A)
  unfolding reset_bucket
  reset_from zero offset w = some w
  reset_from (suc n) offset w = reset_bucket offset w >>= λ w'. reset_from n (offset + 1) w'

  unfoldable pub reset_window : Window A → Option (Window A)
  unfolding reset_from
  reset_window w = reset_from (length w.window) 0 w

  -- Window.Append
  unfoldable pub append : ℕ → A → Window A → Option (Window A)
  unfolding at_bucket append_point
  append offset val w = at_bucket offset (λ b. some (append_point val b)) w

  -- Window.Add
  unfoldable pub add : (A → A → A) → ℕ → A → Window A → Option (Window A)
  unfolding at_bucket append_point add_point
  add plus offset val w =
      at_bucket offset
        (λ b. if b.count == 0 then some (append_point val b) else add_point plus 0 val b) w

  -- Window.Bucket
  unfoldable pub bucket_at : ℕ → Window A → Option (Bucket A)
  bucket_at offset w = get_elem? w.window offset

  -- Window.Iterator: `&w.window[offset]` panics out of range.
  unfoldable pub iterator : ℕ → ℕ → Window A → Option Iterator
  iterator offset count w = do
    b ← get_elem? w.window offset
    some (record { count = count; iterated_count = 0; cur = offset })

  -- Iterator.Bucket
  unfoldable pub take_bucket : Window A → Iterator → Option (Bucket A × Iterator)
  take_bucket w i =
      if has_next i
      then (get_elem? w.window i.cur >>= λ b.
          some (b, record i { iterated_count = i.iterated_count + 1; cur = b.next }))
      else none
