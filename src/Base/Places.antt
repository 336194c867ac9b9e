-- ===== src/Base/Places.antt =====
-- What stands at a place of a list after a change, read backwards and forwards: for the stores of
-- objects that pointers name.
use Prim.Native.Nat.{ℕ, zero, suc}
use mathlib.Core.Path.{◌≡◌, refl, ap, ◌∙◌, subst}
use mathlib.Core.Logic.{◌⊎◌, inl, inr}
use mathlib.Core.List.{List, [], ◌∷◌, ◌++◌, map}
use mathlib.Core.Option.{some, some-injective}
use native.Mathlib.Omega.{arith}
use tsf_go.Base.Lists.{length, get_elem?, modify}
use tsf_go.Base.Tests.{nat_eqb, if◌then◌else◌}

nat_eqb-suc : (i j : ℕ) → nat_eqb (suc i) (suc j) ≡ nat_eqb i j
nat_eqb-suc i j = ground arith

module _ {ℓ} {A : Type ℓ} where
  pub modify_at :
      (xs : List A) (i j : ℕ) (f : A → A) {x : A}
      → get_elem? xs j ≡ some x
      → get_elem? (modify xs i f) j ≡ some (if nat_eqb i j then f x else x)
  modify_at [] i j f h = absurd (cc)
  modify_at (y ∷ xs) zero zero f h = cc
  modify_at (y ∷ xs) zero (suc j) f {x} h = h ∙ ground arith
  modify_at (y ∷ xs) (suc i) zero f h = h ∙ ground arith
  modify_at (y ∷ xs) (suc i) (suc j) f h = rw (nat_eqb-suc i j) (modify_at xs i j f h)

  pub of_modify :
      (xs : List A) (i j : ℕ) (f : A → A) {y : A}
      → get_elem? (modify xs i f) j ≡ some y
      → (x : A) × (get_elem? xs j ≡ some x) × (y ≡ (if nat_eqb i j then f x else x))
  of_modify [] i j f h = absurd (cc)
  of_modify (x ∷ xs) zero zero f h = (x, refl, cc)
  of_modify (x ∷ xs) zero (suc j) f {y} h = (y, h, ground arith)
  of_modify (x ∷ xs) (suc i) zero f {y} h = (y, h, ground arith)
  of_modify (x ∷ xs) (suc i) (suc j) f h = rw (nat_eqb-suc i j) (of_modify xs i j f h)

  pub some_append :
      (xs ys : List A) (i : ℕ) {x : A} → get_elem? xs i ≡ some x → get_elem? (xs ++ ys) i ≡ some x
  some_append [] ys i h = absurd (cc)
  some_append (x ∷ xs) ys zero h = h
  some_append (x ∷ xs) ys (suc i) h = some_append xs ys i h

  pub of_append :
      (xs : List A) (y : A) (i : ℕ) {z : A}
      → get_elem? (xs ++ (y ∷ [])) i ≡ some z
      → (get_elem? xs i ≡ some z) ⊎ ((i ≡ length xs) × (z ≡ y))
  of_append [] y zero h = inr (refl, cc)
  of_append [] y (suc i) h = absurd (cc)
  of_append (x ∷ xs) y zero h = inl h
  of_append (x ∷ xs) y (suc i) h = elim (of_append xs y i h) [
    | inl old ↦ inl old
    | inr last ↦ inr (ap suc last.0, last.1)
  ]

  pub some_lt :
      (xs : List A) (i : ℕ) {x : A} → get_elem? xs i ≡ some x → Prim.Native.Nat.◌<◌ i (length xs)
  some_lt [] i h = absurd (cc)
  some_lt (x ∷ xs) zero h = omega arith
  some_lt (x ∷ xs) (suc i) h = let below = some_lt xs i h in omega arith

module _ {ℓ κ} {A : Type ℓ} {B : Type κ} where
  -- Two lists with the same images have at each place elements with the same image.
  pub same_image :
      (g : A → B) (xs ys : List A) (i : ℕ) {x : A}
      → map g xs ≡ map g ys
      → get_elem? xs i ≡ some x
      → (y : A) × (get_elem? ys i ≡ some y) × (g y ≡ g x)
  same_image g [] ys i e h = absurd (cc)
  same_image g (x ∷ xs) [] i e h = absurd (cc)
  same_image g (x ∷ xs) (y ∷ ys) zero e h = (y, refl, cc)
  same_image g (x ∷ xs) (y ∷ ys) (suc i) e h = same_image g xs ys i (cc) h

module _ {ℓ} {A : Type ℓ} where
  pub modify-modify :
      (xs : List A) (i : ℕ) (f g : A → A) → modify (modify xs i f) i g ≡ modify xs i (λ x. g (f x))
  modify-modify [] i f g = refl
  modify-modify (x ∷ xs) zero f g = refl
  modify-modify (x ∷ xs) (suc i) f g = ap (λ ys. x ∷ ys) (modify-modify xs i f g)

  pub modify_nothing : (xs : List A) (i : ℕ) → modify xs i (λ x. x) ≡ xs
  modify_nothing [] i = refl
  modify_nothing (x ∷ xs) zero = refl
  modify_nothing (x ∷ xs) (suc i) = ap (λ ys. x ∷ ys) (modify_nothing xs i)

module _ {ℓ κ} {A : Type ℓ} where
  -- What holds of the elements holds after a change that keeps it.
  pub all_modify :
      (P : A → Type κ) (xs : List A) (i : ℕ) (f : A → A)
      → ((x : A) → get_elem? xs i ≡ some x → P (f x))
      → ((j : ℕ) (x : A) → get_elem? xs j ≡ some x → P x)
      → (j : ℕ) (x : A) → get_elem? (modify xs i f) j ≡ some x
      → P x
  all_modify P [] i f h all j x at = absurd (cc)
  all_modify P (y ∷ xs) zero f h all zero x at = subst P (some-injective (f y) x at) (h y refl)
  all_modify P (y ∷ xs) zero f h all (suc j) x at = all (suc j) x at
  all_modify P (y ∷ xs) (suc i) f h all zero x at = all zero x at
  all_modify P (y ∷ xs) (suc i) f h all (suc j) x at =
      all_modify P xs i f h (λ k z e. all (suc k) z e) j x at
