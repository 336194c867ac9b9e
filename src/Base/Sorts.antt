-- ===== src/Base/Sorts.antt =====
-- Sorting by a Boolean comparison, for the calls of Go's package sort.
use mathlib.Core.Path.{◌≡◌, refl}
use mathlib.Core.Bool.{Bool, true, false}
use mathlib.Core.Logic.{inl, inr, ◌≢◌}
use native.Mathlib.Omega.{arith}
use mathlib.Core.List.{List, [], ◌∷◌, Permᴰ}
use tsf_go.Base.Tests.{if◌then◌else◌, Bool-cases}
use tsf_go.Base.Every.{Each, Each-Permᴰ, Each-map, Permᴰ_self}

module _ {ℓ} {A : Type ℓ} (le : A → A → Bool) where
  unfoldable pub place : A → List A → List A
  place x [] = x ∷ []
  place x (y ∷ ys) = let rest = place x ys in if le x y then x ∷ y ∷ ys else y ∷ rest

  unfoldable pub sort : List A → List A
  unfolding place
  sort [] = []
  sort (x ∷ xs) = place x (sort xs)

  -- Each element is at most those behind it.
  abbrev pub Sorted : List A → Type 0
  Sorted [] = Unit {0}
  Sorted (x ∷ xs) = Each (λ y. le x y ≡ true) xs × Sorted xs

  place-Permᴰ : (x : A) (xs : List A) → Permᴰ (x ∷ xs) (place x xs)
  unfolding place
  place-Permᴰ x [] = Permᴰ_self (x ∷ [])
  place-Permᴰ x (y ∷ ys) = elim (Bool-cases (le x y)) [
    | inl h ↦ rw (h, if◌then◌else◌) (Permᴰ_self (x ∷ y ∷ ys))
    | inr h ↦
        rw (h, if◌then◌else◌)
          (Permᴰ.trans (Permᴰ.swap refl refl) (Permᴰ.cons refl (place-Permᴰ x ys)))
  ]

  place_nonempty : (x : A) (xs : List A) → place x xs ≢ []
  unfolding place
  place_nonempty x [] e = cc
  place_nonempty x (y ∷ ys) e = elim (Bool-cases (le x y)) [
    | inl h ↦ ground (arith, h, e)
    | inr h ↦ ground (arith, h, e)
  ]

  pub sort_nonempty : (xs : List A) → xs ≢ [] → sort xs ≢ []
  unfolding sort
  sort_nonempty [] ne = ne
  sort_nonempty (x ∷ xs) ne = place_nonempty x (sort xs)

  pub sort-Permᴰ : (xs : List A) → Permᴰ xs (sort xs)
  unfolding sort
  sort-Permᴰ [] = Permᴰ.nil
  sort-Permᴰ (x ∷ xs) = Permᴰ.trans (Permᴰ.cons refl (sort-Permᴰ xs)) (place-Permᴰ x (sort xs))

  module _ (total : (x y : A) → le x y ≡ false → le y x ≡ true)
      (transitive : (x y z : A) → le x y ≡ true → le y z ≡ true → le x z ≡ true) where
    place-Sorted : (x : A) (xs : List A) → Sorted xs → Sorted (place x xs)
    unfolding place
    place-Sorted x [] s = (tt, tt)
    place-Sorted x (y ∷ ys) s = elim (Bool-cases (le x y)) [
      | inl h ↦
          rw (h, if◌then◌else◌)
            (
              (
                h,
                Each-map (λ z. le y z ≡ true) (λ z. le x z ≡ true) (λ z. transitive x y z h) ys s.0,
              ),
              s,
            )
      | inr h ↦
          rw (h, if◌then◌else◌)
            (
              Each-Permᴰ (λ z. le y z ≡ true) (x ∷ ys) (place x ys) (place-Permᴰ x ys)
                  (total x y h, s.0),
              place-Sorted x ys s.1,
            )
    ]

    pub sort-Sorted : (xs : List A) → Sorted (sort xs)
    unfolding sort
    sort-Sorted [] = tt
    sort-Sorted (x ∷ xs) = place-Sorted x (sort xs) (sort-Sorted xs)
