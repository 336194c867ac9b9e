-- ===== src/Base/Texts.antt =====
-- The functions of Go's package strings that the code calls, over the characters of a text.
use Prim.Native.Char.{code}
use Prim.Native.String.{String}
use mathlib.Core.Bool.{Bool, true, false, ◌||◌, ◌&&◌}
use mathlib.Core.Option.{Option, none, some}
use mathlib.Core.Path.{◌≡◌, refl}
use Prim.Native.Nat.{ℕ, zero, suc, ◌+◌, ◌/◌, ◌%◌}
use Prim.Native.String.{◌++◌ as text_append}
use tsf_go.Base.Tests.{ltb, nat_eqb, if◌then◌else◌}

-- strings.HasPrefix s prefix
unfoldable pub has_prefix : String → String → Bool
has_prefix s String.[] = true
has_prefix String.[] (String.◌∷◌ p prefix) = false
has_prefix (String.◌∷◌ c s) (String.◌∷◌ p prefix) = nat_eqb (code c) (code p) && has_prefix s prefix

-- The rest of a text behind a prefix as long as the second text.
unfoldable pub behind : String → String → String
behind s String.[] = s
behind String.[] (String.◌∷◌ p prefix) = String.[]
behind (String.◌∷◌ c s) (String.◌∷◌ p prefix) = behind s prefix

-- strings.TrimPrefix s prefix
unfoldable pub trim_prefix : String → String → String
unfolding has_prefix behind
trim_prefix s prefix = if has_prefix s prefix then behind s prefix else s

-- strings.Contains s sub
unfoldable pub contains : String → String → Bool
unfolding has_prefix
contains String.[] sub = has_prefix String.[] sub
contains (String.◌∷◌ c s) sub = has_prefix (String.◌∷◌ c s) sub || contains s sub

-- strings.SplitN s "/" 2, if it has two parts.
unfoldable pub split_slash : String → Option (String × String)
split_slash String.[] = none
split_slash (String.◌∷◌ c s) =
    let rest = split_slash s in
    if nat_eqb (code c) 47
    then some (String.[], s)
    else elim rest [ none ↦ none | some (a, b) ↦ some (String.◌∷◌ c a, b) ]

pub has_prefix-nil : (s : String) → has_prefix s String.[] ≡ true
unfolding has_prefix
has_prefix-nil String.[] = refl
has_prefix-nil (String.◌∷◌ c s) = refl

-- Every text contains the empty one.
pub contains-nil : (s : String) → contains s String.[] ≡ true
unfolding contains
contains-nil String.[] = refl
contains-nil (String.◌∷◌ c s) = refl

abbrev digit : ℕ → String
digit d =
    if nat_eqb d 0
    then "0"
    else if nat_eqb d 1
    then "1"
    else if nat_eqb d 2
    then "2"
    else if nat_eqb d 3
    then "3"
    else if nat_eqb d 4
    then "4"
    else if nat_eqb d 5
    then "5"
    else if nat_eqb d 6
    then "6"
    else if nat_eqb d 7
    then "7"
    else if nat_eqb d 8
    then "8"
    else "9"

unfoldable pub digits : ℕ → ℕ → String
digits zero n = ""
digits (suc fuel) n =
    let front = digits fuel (n / 10) in
    if ltb n 10 then digit n else text_append front (digit (n % 10))

-- strconv.Itoa of a natural number; each digit takes one step, so n + 1 steps are enough.
unfoldable pub itoa : ℕ → String
unfolding digits
itoa n = digits (n + 1) n
