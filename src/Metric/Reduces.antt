-- ===== src/Metric/Reduces.antt =====
-- RollingPolicy.Reduce as a fold over the buckets that are left in the window.
use tsf_go.Base.{
  ℕ, suc, ◌+◌, ◌-◌, ◌<◌, List, some, true, ◌≡◌, refl, inl, inr, arith, drop, ltb, if◌then◌else◌,
  Bool-cases, ◌>>=◌, get_elem?, get_elem?_lt,
}
use tsf_go.Metric.Window.{Bucket, iterator}
use tsf_go.Metric.Policy.{Policy, reduce}
use tsf_go.Metric.Reduce.{visit}
use tsf_go.Metric.Roll.{IsValid, contents}
use tsf_go.Metric.Refine.{span_at}
use tsf_go.Metric.Adds.{timespan_lem}
use tsf_go.Metric.Reads.{fold_slots, index_of, each_bucket_lem}

module _ {ℓ} {A : Type 0} {B : Type ℓ} (body : B → List A → ℕ → B) where
  iterated :
      (r : Policy A) (span from : ℕ) (acc : B) {b : Bucket A}
      → IsValid r
      → span < r.size
      → from ≡ index_of r.size r.offset span
      → get_elem? r.window.window from ≡ some b
      → (iterator from (r.size - span) r.window >>= λ i. visit body acc r.window i)
        ≡ some (fold_slots body acc (drop span (contents r)))
  unfolding iterator visit
  iterated r span from acc v h e g =
      rw (g, ◌>>=◌)
        (each_bucket_lem body r.window r.offset v.ring (r.size - span) (suc (r.size - span)) span
          acc (record { count = r.size - span; iterated_count = 0; cur = from }) (omega arith)
          (omega (arith, v.same), omega arith, λ _. rw v.same e))

  from_index :
      (size o span : ℕ)
      → (if ltb (o + span + 1) size then o + span + 1 else o + span + 1 - size)
        ≡ index_of size o span
  from_index size o span = ground arith

  reduce_inside :
      (nothing acc : B) (now : ℕ) (r : Policy A)
      → IsValid r
      → span_at now r < r.size
      → reduce nothing (visit body acc) now r
        ≡ some (fold_slots body acc (drop (span_at now r) (contents r)))
  unfolding reduce
  reduce_inside nothing acc now r v h =
      let i = index_of r.size r.offset (span_at now r) in
      let (b, g) =
        get_elem?_lt r.window.window i (ground (arith, v.ring.sized, v.ring.inside, v.same)) in
      let l : ltb (span_at now r) r.size ≡ true = ground arith in
      rw (timespan_lem now r v, ◌>>=◌)
        (rw (l, if◌then◌else◌, from_index r.size r.offset (span_at now r))
          (iterated r (span_at now r) i acc v h refl g))

  -- On a valid policy Reduce over a loop does not panic. It folds the loop's body over the buckets
  -- that have not expired at `now`, oldest first, and returns its zero result if all have.
  pub reduce_lem :
      (nothing acc : B) (now : ℕ) (r : Policy A)
      → IsValid r
      → reduce nothing (visit body acc) now r
        ≡ some (
            if ltb (span_at now r) r.size
            then fold_slots body acc (drop (span_at now r) (contents r))
            else nothing)
  unfolding reduce
  reduce_lem nothing acc now r v = elim (Bool-cases (ltb (span_at now r) r.size)) [
    | inl h ↦ rw (h, if◌then◌else◌) (reduce_inside nothing acc now r v (ground arith))
    | inr h ↦ rw (timespan_lem now r v, ◌>>=◌) (rw (h, if◌then◌else◌) refl)
  ]
