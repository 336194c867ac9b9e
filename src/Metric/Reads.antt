-- ===== src/Metric/Reads.antt =====
-- RollingPolicy.Reduce: the iterator walks the buckets that have not expired, oldest first.
use tsf_go.Base.{
  ℕ, zero, suc, ◌+◌, ◌-◌, ◌<◌, List, [], ◌∷◌, ◌++◌, some, true, false, ◌≡◌, refl, ◌∙◌, inl, inr,
  arith, length, drop, take, ltb, if◌then◌else◌, Bool-cases, ◌>>=◌, get_elem?, get_elem?_lt,
  get_elem?-map, drop_cons, nat_eqb, length-drop, drop_all,
}
use tsf_go.Metric.Window.{Window, Bucket, Iterator, next_offset}
use tsf_go.Metric.Reduce.{each_bucket}
use tsf_go.Metric.Rotation.{rotate}
use tsf_go.Metric.Ring.{IsRing, Slot, slot, by_age, links, link}
use tsf_go.Metric.Roll.{length-by_age}

-- The index of the `j`-th oldest bucket.
abbrev pub index_of : ℕ → ℕ → ℕ → ℕ
index_of size o j = if ltb (o + 1 + j) size then o + 1 + j else o + 1 + j - size

module _ {ℓ} {A : Type ℓ} where
  get_elem?-append_left :
      (xs ys : List A) (i : ℕ) → i < length xs → get_elem? (xs ++ ys) i ≡ get_elem? xs i
  get_elem?-append_left [] ys i h = absurd (omega arith)
  get_elem?-append_left (x ∷ xs) ys zero h = refl
  get_elem?-append_left (x ∷ xs) ys (suc i) h = get_elem?-append_left xs ys i (omega arith)

  get_elem?-append_right :
      (xs ys : List A) (i k : ℕ) → i ≡ length xs + k → get_elem? (xs ++ ys) i ≡ get_elem? ys k
  get_elem?-append_right [] ys i k h = let e : i ≡ k = omega arith in rw e refl
  get_elem?-append_right (x ∷ xs) ys zero k h = absurd (omega arith)
  get_elem?-append_right (x ∷ xs) ys (suc i) k h = get_elem?-append_right xs ys i k (omega arith)

  get_elem?-drop :
      (n : ℕ) (xs : List A) (i k : ℕ) → k ≡ n + i → get_elem? (drop n xs) i ≡ get_elem? xs k
  get_elem?-drop zero xs i k h = let e : k ≡ i = omega arith in rw e refl
  get_elem?-drop (suc n) [] i k h = refl
  get_elem?-drop (suc n) (x ∷ xs) i zero h = absurd (omega arith)
  get_elem?-drop (suc n) (x ∷ xs) i (suc k) h = get_elem?-drop n xs i k (omega arith)

  get_elem?-take : (n : ℕ) (xs : List A) (i : ℕ) → i < n → get_elem? (take n xs) i ≡ get_elem? xs i
  get_elem?-take zero xs i h = absurd (omega arith)
  get_elem?-take (suc n) [] i h = refl
  get_elem?-take (suc n) (x ∷ xs) zero h = refl
  get_elem?-take (suc n) (x ∷ xs) (suc i) h = get_elem?-take n xs i (omega arith)

  get_elem?-rotate :
      (xs : List A) (o j : ℕ)
      → o < length xs
      → j < length xs
      → get_elem? (rotate xs o) j ≡ get_elem? xs (index_of (length xs) o j)
  get_elem?-rotate xs o j ho hj = elim (Bool-cases (ltb (o + 1 + j) (length xs))) [
    | inl h ↦
        rw (h, if◌then◌else◌)
          (get_elem?-append_left (drop (suc o) xs) (take (suc o) xs) j
              (ground (arith, length-drop (suc o) xs))
            ∙ get_elem?-drop (suc o) xs j (o + 1 + j) (omega arith))
    | inr h ↦
        rw (h, if◌then◌else◌)
          (get_elem?-append_right (drop (suc o) xs) (take (suc o) xs) j (o + 1 + j - length xs)
              (ground (arith, length-drop (suc o) xs))
            ∙ get_elem?-take (suc o) xs (o + 1 + j - length xs) (omega arith))
  ]

get_elem?-links :
    (size n i j : ℕ) → j < n → get_elem? (links size n i) j ≡ some (next_offset size (i + j))
get_elem?-links size zero i j h = absurd (omega arith)
get_elem?-links size (suc n) i zero h = let e : i + 0 ≡ i = omega arith in rw e refl
get_elem?-links size (suc n) i (suc j) h =
    let e : i + 1 + j ≡ i + suc j = omega arith in
    rw e at (get_elem?-links size n (i + 1) j (omega arith))

module _ {A : Type 0} where
  next_lem :
      (w : Window A) (o i : ℕ) {b : Bucket A}
      → IsRing w o
      → i < w.size
      → get_elem? w.window i ≡ some b
      → b.next ≡ next_offset w.size i
  next_lem w o i {b} v h e =
      let z : 0 + i ≡ i = omega arith in
      let l = get_elem?-links w.size w.size 0 i h in
      cc (rw v.linked at (get_elem?-map link w.window i e), rw z at l)

  -- The fold that a reduction makes of a list of slots.
  abbrev pub fold_slots {ℓ} : {B : Type ℓ} → (B → List A → ℕ → B) → B → List (Slot A) → B
  fold_slots body acc [] = acc
  fold_slots body acc (s ∷ rest) = fold_slots body (body acc s.0 s.1) rest

  drop-slot :
      (w : Window A) (o j : ℕ) {b : Bucket A}
      → IsRing w o
      → j < w.size
      → get_elem? w.window (index_of w.size o j) ≡ some b
      → drop j (by_age w o) ≡ slot b ∷ drop (suc j) (by_age w o)
  drop-slot w o j {b} v h e =
      let r =
        get_elem?-rotate w.window o j (omega (arith, v.sized, v.inside)) (omega (arith, v.sized)) in
      let r' : get_elem? (rotate w.window o) j ≡ some b = (rw v.sized at r) ∙ e in
      drop_cons (by_age w o) j (get_elem?-map slot (rotate w.window o) j r')

module _ {ℓ} {A : Type 0} {B : Type ℓ} (body : B → List A → ℕ → B) (w : Window A) (o : ℕ)
    (v : IsRing w o) where
  -- Where the iterator stands with `m` buckets to go from the `j`-th oldest.
  abbrev At : ℕ → ℕ → Iterator → Type 0
  At m j i =
      (j + m ≡ w.size) × (i.count ≡ i.iterated_count + m) × (0 < m → i.cur ≡ index_of w.size o j)

  abbrev moved : Iterator → Bucket A → Iterator
  moved i b = record i { iterated_count = i.iterated_count + 1; cur = b.next }

  At-moved :
      (m j : ℕ) (i : Iterator) (b : Bucket A)
      → At (suc m) j i
      → get_elem? w.window (index_of w.size o j) ≡ some b
      → At m (suc j) (moved i b)
  At-moved m j i b a g = (
    omega (arith, a.0),
    omega (arith, a.1),
    λ more.
        next_lem w o (index_of w.size o j) v (ground (arith, v.inside)) g
        ∙ ground (arith, v.inside),
  )

  round_lem :
      (m fuel j : ℕ) (acc : B) (i : Iterator) (b : Bucket A) (out : B)
      → At (suc m) j i
      → get_elem? w.window (index_of w.size o j) ≡ some b
      → each_bucket fuel body (body acc b.points b.count) w (moved i b) ≡ some out
      → each_bucket (suc fuel) body acc w i ≡ some out
  unfolding each_bucket
  round_lem m fuel j acc i b out a g ih =
      let e : nat_eqb i.count i.iterated_count ≡ false = ground arith in
      rw (e, a.2 (omega arith), g, ◌>>=◌, if◌then◌else◌) ih

  pub each_bucket_lem :
      (m fuel j : ℕ) (acc : B) (i : Iterator)
      → m < fuel
      → At m j i
      → each_bucket fuel body acc w i ≡ some (fold_slots body acc (drop j (by_age w o)))
  unfolding each_bucket
  each_bucket_lem m zero j acc i h a = absurd (omega arith)
  each_bucket_lem zero (suc fuel) j acc i h a =
      let e : nat_eqb i.count i.iterated_count ≡ true = ground arith in
      rw (e, drop_all j (by_age w o) (omega (arith, length-by_age w o v))) refl
  each_bucket_lem (suc m) (suc fuel) j acc i h a =
      let (b, g) =
        get_elem?_lt w.window (index_of w.size o j) (ground (arith, v.sized, v.inside)) in
      rw (drop-slot w o j v (omega arith) g) (
        round_lem m fuel j acc i b _ a g (
          each_bucket_lem m fuel (suc j) (body acc b.points b.count) (moved i b) (omega arith)
            (At-moved m j i b a g)))
