-- ===== src/Base/Numbers.antt =====
-- strconv.ParseInt s 10 64, and the decimal text of a signed number.
use Prim.Native.Char.{code}
use Prim.Native.Nat.{ℕ, zero, suc, ◌+◌, ◌-◌, ◌*◌, ◌^◌}
use Prim.Native.String.{String, ◌++◌ as text_append}
use mathlib.Core.Bool.{Bool, true, false, ◌||◌}
use mathlib.Core.Option.{Option, none, some}
use tsf_go.Base.Int.{ℤ, pos, negsuc}
use tsf_go.Base.Tests.{leb, ltb, nat_eqb, if◌then◌else◌}
use tsf_go.Base.Texts.{itoa}

-- The digits' value as strconv.ParseUint scans them: `none` at a character that is no digit, the
-- largest word as soon as the value passes it.
unfoldable pub scan : ℕ → String → Option ℕ
scan acc String.[] = some acc
scan acc (String.◌∷◌ c s) =
    let next = acc * 10 + (code c - 48) in
    let rest = scan next s in
    if ltb (code c) 48 || ltb 57 (code c)
    then none
    else if ltb next (2 ^ 64)
    then rest
    else some (2 ^ 64 - 1)

unfoldable pub scan_all : String → Option ℕ
unfolding scan
scan_all String.[] = none
scan_all (String.◌∷◌ c s) = scan 0 (String.◌∷◌ c s)

-- - n, as an integer.
abbrev pub negate : ℕ → ℤ
negate zero = pos 0
negate (suc n) = negsuc n

-- The value, with its sign, and whether there is an error: out of range the value is the nearest one.
abbrev pub with_sign : Bool → Option ℕ → ℤ × Bool
with_sign negative none = (pos 0, true)
with_sign false (some n) = if ltb n (2 ^ 63) then (pos n, false) else (pos (2 ^ 63 - 1), true)
with_sign true (some n) = if leb n (2 ^ 63) then (negate n, false) else (negate (2 ^ 63), true)

unfoldable pub parse_int : String → ℤ × Bool
unfolding scan_all
parse_int String.[] = (pos 0, true)
parse_int (String.◌∷◌ c s) =
    if nat_eqb (code c) 43
    then with_sign false (scan_all s)
    else if nat_eqb (code c) 45
    then with_sign true (scan_all s)
    else with_sign false (scan_all (String.◌∷◌ c s))

-- strconv.FormatInt i 10
unfoldable pub format_int : ℤ → String
unfolding itoa
format_int (pos n) = itoa n
format_int (negsuc n) = text_append "-" (itoa (suc n))
