-- ===== src/Metric/Rotation.antt =====
-- The buckets of a window in the order of their age, and what one step of the ring does to it.
use tsf_go.Base.{
  ℕ, zero, suc, ◌+◌, ◌≤◌, List, [], ◌∷◌, ◌++◌, some, ◌≡◌, refl, sym, ap, arith, length, get_elem?,
  modify, take, drop, replicate, length-append, length-drop, length-take, drop_cons, take_snoc,
  drop_all, take_all, take-modify, drop-modify, drop-drop, get_elem?-modify_self, append_assoc,
}

module _ {ℓ} {A : Type ℓ} where
  -- Oldest first, when the newest entry stands at `offset`.
  abbrev pub rotate : List A → ℕ → List A
  rotate xs offset = drop (suc offset) xs ++ take (suc offset) xs

  pub length-rotate : (xs : List A) (o : ℕ) → length (rotate xs o) ≡ length xs
  length-rotate xs o = omega (
    arith,
    length-append (drop (suc o) xs) (take (suc o) xs),
    length-drop (suc o) xs,
    length-take (suc o) xs,
  )

  -- Entering the slot after `o` drops the oldest entry and puts a new one at the end.
  pub rotate-modify_next :
      (xs : List A) (o : ℕ) (f : A → A) {x : A}
      → get_elem? xs (suc o) ≡ some x
      → rotate (modify xs (suc o) f) (suc o) ≡ drop 1 (rotate xs o) ++ f x ∷ []
  rotate-modify_next xs o f {x} h =
      rw
        (
          drop-modify xs (suc o) (suc (suc o)) f (omega arith),
          take_snoc (modify xs (suc o) f) (suc o) (get_elem?-modify_self xs (suc o) f h),
          take-modify xs (suc o) (suc o) f (omega arith),
          drop_cons xs (suc o) h,
        )
        (sym (append_assoc (drop (suc (suc o)) xs) (take (suc o) xs) (f x ∷ [])))

  pub rotate-modify_wrap :
      (xs : List A) (o : ℕ) (f : A → A) {x : A}
      → get_elem? xs 0 ≡ some x
      → suc o ≡ length xs
      → rotate (modify xs 0 f) 0 ≡ drop 1 (rotate xs o) ++ f x ∷ []
  rotate-modify_wrap [] o f h e = cc
  rotate-modify_wrap (x ∷ xs) o f h e =
      rw (drop_all o xs (omega arith), take_all o xs (omega arith)) (cc)

  -- An update of the newest entry.
  pub rotate-modify_self :
      (xs : List A) (o : ℕ) (f : A → A) {x : A}
      → get_elem? xs o ≡ some x
      → (pre : List A) × (rotate xs o ≡ pre ++ x ∷ [])
        × (rotate (modify xs o f) o ≡ pre ++ f x ∷ [])
  rotate-modify_self xs o f {x} h = (
    drop (suc o) xs ++ take o xs,
    rw (take_snoc xs o h) (sym (append_assoc (drop (suc o) xs) (take o xs) (x ∷ []))),
    rw
        (
          drop-modify xs o (suc o) f (omega arith),
          take_snoc (modify xs o f) o (get_elem?-modify_self xs o f h),
          take-modify xs o o f (omega arith),
        )
        (sym (append_assoc (drop (suc o) xs) (take o xs) (f x ∷ []))),
  )

  pub drop-append : (n : ℕ) (xs ys : List A) → n ≤ length xs → drop n (xs ++ ys) ≡ drop n xs ++ ys
  drop-append zero xs ys h = refl
  drop-append (suc n) [] ys h = absurd (omega arith)
  drop-append (suc n) (x ∷ xs) ys h = drop-append n xs ys (omega arith)

  pub replicate-append : (m n : ℕ) (a : A) → replicate m a ++ replicate n a ≡ replicate (m + n) a
  replicate-append zero n a = ap (λ k. replicate k a) (omega arith)
  replicate-append (suc m) n a =
      let e : suc m + n ≡ suc (m + n) = omega arith in
      rw e (ap (λ (t : List A). a ∷ t) (replicate-append m n a))

  -- Leaving `n` entries behind and taking in `n` copies of `a`, and then `m` more.
  pub drop-replicate :
      (m n : ℕ) (xs : List A) (a : A)
      → n + m ≤ length xs
      → drop m (drop n xs ++ replicate n a) ++ replicate m a
        ≡ drop (n + m) xs ++ replicate (n + m) a
  drop-replicate m n xs a h =
      rw
        (
          drop-append m (drop n xs) (replicate n a) (omega (arith, length-drop n xs)),
          drop-drop m n xs,
          append_assoc (drop (n + m) xs) (replicate n a) (replicate m a),
          replicate-append n m a,
        )
        refl
