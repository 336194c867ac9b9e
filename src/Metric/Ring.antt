-- ===== src/Metric/Ring.antt =====
-- The window as a ring: its invariant, its buckets by age, and what the writes do to both.
use tsf_go.Base.{
  ℕ, zero, suc, ◌+◌, ◌≤◌, ◌<◌, min, List, [], ◌∷◌, ◌++◌, some, ◌≡◌, refl, ap, ◌∙◌, inl, inr, arith,
  length, get_elem?, modify, map, map-append, drop, replicate, length-modify, get_elem?_lt, nat_eqb,
  int_comparable, Bool-cases, ◌>>=◌,
}
use tsf_go.Metric.Window.{Window, Bucket, reset, reset_bucket, next_offset}
use tsf_go.Metric.Rotation.{rotate, rotate-modify_next, rotate-modify_wrap}

-- What a bucket holds, without its pointer.
abbrev pub Slot : Type 0 → Type 0
Slot A = List A × ℕ

module _ {A : Type 0} where
  abbrev pub slot : Bucket A → Slot A
  slot b = (b.points, b.count)

  abbrev pub link : Bucket A → ℕ
  link b = b.next

  abbrev pub no_slot : Slot A
  no_slot = ([], 0)

  -- A bucket with a count has a first point, which Window.Add adds to.
  abbrev pub IsCounted : List (Bucket A) → Type 0
  IsCounted [] = Unit {0}
  IsCounted (b ∷ bs) = (min b.count 1 ≤ length b.points) × IsCounted bs

  -- Oldest first, when the newest bucket stands at `offset`.
  abbrev pub by_age : Window A → ℕ → List (Slot A)
  by_age w offset = map slot (rotate w.window offset)

-- The pointers that NewWindow lays from `i` on.
abbrev pub links : ℕ → ℕ → ℕ → List ℕ
links size zero i = []
links size (suc n) i = next_offset size i ∷ links size n (i + 1)

pub record IsRing {A : Type 0} (w : Window A) (offset : ℕ) : Type 0 where
  pub sized : length w.window ≡ w.size
  pub inside : offset < w.size
  pub linked : map link w.window ≡ links w.size w.size 0
  pub counted : IsCounted w.window

module _ {A : Type 0} where
  IsCounted-modify :
      (bs : List (Bucket A)) (i : ℕ) (b : Bucket A)
      → min b.count 1 ≤ length b.points
      → IsCounted bs
      → IsCounted (modify bs i (λ _. b))
  IsCounted-modify [] i b h c = tt
  IsCounted-modify (x ∷ bs) zero b h c = (h, c.1)
  IsCounted-modify (x ∷ bs) (suc i) b h c = (c.0, IsCounted-modify bs i b h c.1)

  pub IsCounted-get_elem? :
      (bs : List (Bucket A)) (i : ℕ) {b : Bucket A}
      → get_elem? bs i ≡ some b
      → IsCounted bs
      → min b.count 1 ≤ length b.points
  IsCounted-get_elem? [] i e c = cc
  IsCounted-get_elem? (x ∷ bs) zero e c = ground arith
  IsCounted-get_elem? (x ∷ bs) (suc i) e c = IsCounted-get_elem? bs i e c.1

  map-link-modify :
      (bs : List (Bucket A)) (i : ℕ) (b : Bucket A) {b0 : Bucket A}
      → get_elem? bs i ≡ some b0
      → b.next ≡ b0.next
      → map link (modify bs i (λ _. b)) ≡ map link bs
  map-link-modify [] i b e h = refl
  map-link-modify (x ∷ bs) zero b e h = ground arith
  map-link-modify (x ∷ bs) (suc i) b e h =
      ap (λ (t : List ℕ). x.next ∷ t) (map-link-modify bs i b e h)

  -- Writing a counted bucket with the old pointer keeps the ring.
  pub IsRing-modify :
      (w : Window A) (o i : ℕ) (b : Bucket A) {b0 : Bucket A}
      → IsRing w o
      → get_elem? w.window i ≡ some b0
      → b.next ≡ b0.next
      → min b.count 1 ≤ length b.points
      → i < w.size
      → IsRing (record w { window = modify w.window i (λ _. b) }) i
  IsRing-modify w o i b v e h c l = record {
    sized = length-modify w.window i (λ _. b) ∙ v.sized;
    inside = l;
    linked = map-link-modify w.window i b e h ∙ v.linked;
    counted = IsCounted-modify w.window i b c v.counted;
  }

  drop-map : (xs : List (Bucket A)) → map slot (drop 1 xs) ≡ drop 1 (map slot xs)
  drop-map [] = refl
  drop-map (x ∷ xs) = refl

  -- One step of the ring: the oldest bucket goes, and an empty one comes.
  abbrev pub Turned : Window A → ℕ → Window A → ℕ → ℕ → Type 0
  Turned w o w' o' n =
      IsRing w' o'
      × (w'.size ≡ w.size)
      × (by_age w' o' ≡ drop n (by_age w o) ++ replicate n no_slot)

  turned_by :
      (w : Window A) (o i : ℕ) {b : Bucket A}
      → IsRing w o
      → i ≡ next_offset w.size o
      → get_elem? w.window i ≡ some b
      → rotate (modify w.window i (λ _. reset b)) i ≡ drop 1 (rotate w.window o) ++ reset b ∷ []
  turned_by w o i {b} v e g = elim (Bool-cases (nat_eqb (o + 1) w.size)) [
    | inl last ↦
        let z : i ≡ 0 = ground arith in
        rw z (rotate-modify_wrap w.window o (λ _. reset b) (rw z at g) (ground (arith, v.sized)))
    | inr more ↦
        let z : i ≡ suc o = ground arith in
        rw z (rotate-modify_next w.window o (λ _. reset b) (rw z at g))
  ]

  pub reset_bucket-Turned :
      (w : Window A) (o i : ℕ)
      → IsRing w o
      → i ≡ next_offset w.size o
      → (w' : Window A) × (reset_bucket i w ≡ some w') × Turned w o w' i 1
  unfolding reset_bucket
  reset_bucket-Turned w o i v e =
      let l : i < w.size = ground (arith, v.inside) in
      let (b, g) = get_elem?_lt w.window i (omega (arith, v.sized)) in
      (
        record w { window = modify w.window i (λ _. reset b) },
        rw (g, ◌>>=◌) refl,
        (
          IsRing-modify w o i (reset b) v g refl (omega arith) l,
          refl,
          ap (map slot) (turned_by w o i v e g)
              ∙ map-append slot (drop 1 (rotate w.window o)) (reset b ∷ [])
              ∙ ap (λ (t : List (Slot A)). t ++ no_slot ∷ []) (drop-map (rotate w.window o)),
        ),
      )
