-- ===== src/Metric/Adds.antt =====
-- RollingPolicy.Add and Append as a whole: they never panic on a valid policy, and refine the list.
use tsf_go.Base.{
  ℕ, zero, suc, ◌+◌, ◌*◌, ◌<◌, List, Option, some, false, ◌≡◌, refl, ap, ◌∙◌, inl, inr, arith, ltb,
  if◌then◌else◌, Bool-cases, ◌>>=◌, nat_eqb, append-nil, length, map, min, sym, ◌∷◌,
}
use tsf_go.Metric.Window.{Window, add, append, new_window, new_buckets, next_offset}
use tsf_go.Metric.Policy.{Policy, timespan, add_with, add_policy, append_policy, roll, new_policy}
use tsf_go.Metric.Ring.{Slot, link, links, IsCounted}
use tsf_go.Metric.Roll.{IsValid, contents, expire, Rolled, roll-Rolled}
use tsf_go.Metric.Refine.{
  span_at, Writes, at_last, add_slot, append_slot, add-Writes, append-Writes,
}

module _ {A : Type 0} where
  pub timespan_lem : (now : ℕ) (r : Policy A) → IsValid r → timespan now r ≡ some (span_at now r)
  unfolding timespan
  timespan_lem now r v =
      let e : nat_eqb r.bucket_duration 0 ≡ false = ground (arith, v.ticking) in
      rw (e, if◌then◌else◌) refl

  -- The policy after a write that acts on the newest slot as `g` does.
  abbrev pub Added : ℕ → (Slot A → Slot A) → Policy A → Policy A → Type 0
  Added now g r r' =
      IsValid r'
      × (r'.size ≡ r.size)
      × (r'.bucket_duration ≡ r.bucket_duration)
      × (r'.last_append_time ≡ r.last_append_time + span_at now r * r.bucket_duration)
      × (contents r' ≡ at_last g (expire (span_at now r) (contents r)))

  expire-zero : (xs : List (Slot A)) → xs ≡ expire 0 xs
  expire-zero xs = let z : min 0 (length xs) ≡ 0 = omega arith in rw z (sym (append-nil xs))

  Rolled-zero : (span : ℕ) (r : Policy A) → span ≡ 0 → IsValid r → Rolled span r r
  Rolled-zero span r z v = rw z (v, refl, refl, omega arith, expire-zero (contents r))

  roll_if-Rolled :
      (span : ℕ) (r : Policy A)
      → IsValid r
      → (r' : Policy A) × ((if ltb 0 span then roll span r else some r) ≡ some r')
        × Rolled span r r'
  roll_if-Rolled span r v = elim (Bool-cases (ltb 0 span)) [
    | inl h ↦ rw h (roll-Rolled span r v)
    | inr h ↦ rw h (r, refl, Rolled-zero span r (ground arith) v)
  ]

  add_with-Added :
      (f : ℕ → A → Window A → Option (Window A)) (g : A → Slot A → Slot A) (now : ℕ) (val : A)
      (r : Policy A)
      → Writes f g
      → IsValid r
      → (r' : Policy A) × (add_with f now val r ≡ some r') × Added now (g val) r r'
  unfolding add_with
  add_with-Added f g now val r writes v =
      let (q, e, x) = roll_if-Rolled (span_at now r) r v in
      let (w, h, ring, same, age) = writes q.offset val q.window x.0.ring in
      (
        record q { window = w },
        rw (timespan_lem now r v, ◌>>=◌) (rw (e, ◌>>=◌) (rw (h, ◌>>=◌) refl)),
        (
          record { ring = ring; same = same ∙ x.0.same; ticking = x.0.ticking },
          x.1,
          x.2,
          x.3,
          age ∙ ap (at_last (g val)) x.4,
        ),
      )

  -- On a valid policy RollingPolicy.Add does not panic and keeps the policy valid: the buckets that
  -- expired since the last append are emptied, the others keep their order and contents, the value
  -- goes to the newest bucket, and the time of the last append moves on by whole bucket durations.
  pub add_policy-Added :
      (plus : A → A → A) (now : ℕ) (val : A) (r : Policy A)
      → IsValid r
      → (r' : Policy A) × (add_policy plus now val r ≡ some r') × Added now (add_slot plus val) r r'
  unfolding add_policy
  add_policy-Added plus now val r v =
      add_with-Added (add plus) (add_slot plus) now val r (add-Writes plus) v

  -- RollingPolicy.Append does the same and adds the value as a point of its own.
  pub append_policy-Added :
      (now : ℕ) (val : A) (r : Policy A)
      → IsValid r
      → (r' : Policy A) × (append_policy now val r ≡ some r') × Added now (append_slot val) r r'
  unfolding append_policy
  append_policy-Added now val r v = add_with-Added append append_slot now val r append-Writes v

module _ (A : Type 0) where
  new_buckets_lem :
      (size n i : ℕ)
      → (length (new_buckets {A = A} size n i) ≡ n)
        × (map link (new_buckets {A = A} size n i) ≡ links size n i)
        × IsCounted (new_buckets {A = A} size n i)
  unfolding new_buckets
  new_buckets_lem size zero i = (refl, refl, tt)
  new_buckets_lem size (suc n) i =
      let (l, m, c) = new_buckets_lem size n (i + 1) in
      (ap suc l, ap (λ (t : List ℕ). next_offset size i ∷ t) m, (omega arith, c))

  -- A new policy with at least one bucket and a positive duration is valid.
  pub new_policy-IsValid :
      (size duration now : ℕ)
      → 0 < size
      → 0 < duration
      → IsValid (new_policy (new_window {A = A} size) duration now)
  unfolding new_policy new_window
  new_policy-IsValid size duration now h d =
      let (l, m, c) = new_buckets_lem size size 0 in
      record {
        ring = record { sized = l; inside = h; linked = m; counted = c };
        same = refl;
        ticking = d;
      }
