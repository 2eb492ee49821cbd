-- ===== src/Base/Text.antt =====
-- The functions of Go's `strings` and `strconv` that the program uses, over ASCII text.
use Prim.Native.Nat.{ℕ, ◌+◌, ◌-◌, ◌*◌, ◌^◌}
use Prim.Native.Char.{code}
use Prim.Native.String.{String}
use mathlib.Core.Bool.{Bool, false, ◌&&◌}
use mathlib.Core.Option.{Option, none, some}
use ffstream.Base.Tests.{ltb, leb, ◌==◌, if◌then◌else◌}

-- `strings.HasPrefix(s, "-")`
unfoldable pub has_dash : String → Bool
has_dash String.[] = false
has_dash (String.◌∷◌ c s) = code c == b'-'

-- `s[1:]` of a text that is not empty
unfoldable pub tail : String → String
tail String.[] = ""
tail (String.◌∷◌ c s) = s

-- `strings.TrimPrefix(s, "-")`
unfoldable pub trim_dash : String → String
unfolding has_dash tail
trim_dash s = if has_dash s then tail s else s

-- `strings.SplitN(s, ":", 2)`; with no colon there is one part.
unfoldable pub cut_colon : String → Option (String × String)
cut_colon String.[] = none
cut_colon (String.◌∷◌ c s) =
    let rest = cut_colon s in
    if code c == b':'
    then some ("", s)
    else elim rest [ none ↦ none | some (a, b) ↦ some (String.◌∷◌ c a, b) ]

unfoldable pub is_digit : ℕ → Bool
is_digit c = leb b'0' c && leb c b'9'

-- The value of decimal digits, or `none` at any other character.
unfoldable pub digits_value : ℕ → String → Option ℕ
unfolding is_digit
digits_value n String.[] = some n
digits_value n (String.◌∷◌ c s) =
    let rest = digits_value (n * 10 + (code c - b'0')) s in if is_digit (code c) then rest else none

abbrev below : ℕ → Option ℕ → Option ℕ
below bound none = none
below bound (some n) = if ltb n bound then some n else none

-- `strconv.ParseUint(s, 10, bits)`; `none` is its error, for bad syntax and for overflow.
unfoldable pub parse_uint : ℕ → String → Option ℕ
unfolding digits_value
parse_uint bits String.[] = none
parse_uint bits (String.◌∷◌ c s) = below (2 ^ bits) (digits_value 0 (String.◌∷◌ c s))
