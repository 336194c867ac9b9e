-- ===== src/Base/Floats.antt =====
-- float64 and the conversions that the code makes. IEEE arithmetic is not modelled: the type and
-- its operations are a parameter, and each theorem names the laws that it needs.
use Prim.Native.Nat.{ℕ, ◌+◌, ◌-◌, ◌*◌, ◌/◌, ◌^◌, ◌<◌}
use mathlib.Core.Path.{◌≡◌, refl}
use mathlib.Core.Bool.{Bool}
use tsf_go.Base.Tests.{ltb, nat_eqb}

pub record Float : Type 1 where
  pub F : Type 0
  pub plus : F → F → F
  pub minus : F → F → F
  pub times : F → F → F
  pub over : F → F → F
  pub below : F → F → Bool
  pub is_zero : F → Bool
  -- The conversion of a non-negative integer.
  pub of_int : ℕ → F
  -- The conversion of a non-negative float, which drops the fraction.
  pub to_int : F → ℕ
  -- A literal with a fraction: the numerator and the denominator.
  pub lit : ℕ → ℕ → F

-- Whole numbers below 2^53 are exact in a float64, and so are their sums below it.
pub record IsExact (fl : Float) : Type 0 where
  pub plus_exact :
      (a b : ℕ) → a + b < 2 ^ 53 → fl.plus (fl.of_int a) (fl.of_int b) ≡ fl.of_int (a + b)
  pub to_int_exact : (a : ℕ) → a < 2 ^ 53 → fl.to_int (fl.of_int a) ≡ a

-- Whole numbers in place of floats, for runs and for witnesses.
abbrev pub whole : Float
whole = record {
  F = ℕ;
  plus = λ a b. a + b;
  minus = λ a b. a - b;
  times = λ a b. a * b;
  over = λ a b. a / b;
  below = ltb;
  is_zero = λ a. nat_eqb a 0;
  of_int = λ n. n;
  to_int = λ n. n;
  lit = λ n d. n / d;
}

pub whole-IsExact : IsExact whole
whole-IsExact = record { plus_exact = λ a b h. refl; to_int_exact = λ a h. refl }
