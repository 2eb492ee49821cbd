-- ===== src/Base/Numerals.antt =====
-- Decimal numerals: `fmt.Sprintf("%d", n)`, `strconv.ParseInt`, and that a numeral is read back.
use Prim.Native.Nat.{ℕ, zero, suc, ◌+◌, ◌-◌, ◌*◌, ◌/◌, ◌%◌, ◌^◌, ◌<◌}
use Prim.Native.Char.{Char, code}
use Prim.Native.String.{String}
use mathlib.Core.Path.{◌≡◌, refl, subst}
use mathlib.Core.Bool.{true}
use mathlib.Core.Logic.{◌≢◌, inl, inr}
use mathlib.Core.Option.{Option, none, some}
use native.Mathlib.Omega.{arith}
use ffstream.Base.Tests.{ltb, leb, ◌==◌, if◌then◌else◌, Bool-cases, lt→ltb}
use ffstream.Base.Text.{is_digit, digits_value, parse_uint}
use ffstream.Base.Words.{ℤ, pos, negsuc}
use ffstream.Base.Replace.{IsPlain}

unfoldable pub digit : ℕ → Char
digit zero = "0"
digit (suc zero) = "1"
digit (suc (suc zero)) = "2"
digit (suc (suc (suc zero))) = "3"
digit (suc (suc (suc (suc zero)))) = "4"
digit (suc (suc (suc (suc (suc zero))))) = "5"
digit (suc (suc (suc (suc (suc (suc zero)))))) = "6"
digit (suc (suc (suc (suc (suc (suc (suc zero))))))) = "7"
digit (suc (suc (suc (suc (suc (suc (suc (suc zero)))))))) = "8"
digit _ = "9"

-- The digits of a number in front of a text. The fuel is above the number.
unfoldable pub print_onto : ℕ → ℕ → String → String
unfolding digit
print_onto zero n rest = rest
print_onto (suc f) n rest =
    let text = String.◌∷◌ (digit (n % 10)) rest in
    let more = print_onto f (n / 10) text in if n / 10 == 0 then text else more

unfoldable pub print_uint : ℕ → String
unfolding print_onto
print_uint n = print_onto (suc n) n ""

code-digit : (d : ℕ) → d < 10 → code (digit d) ≡ b'0' + d
unfolding digit
code-digit zero h = refl
code-digit (suc zero) h = refl
code-digit (suc (suc zero)) h = refl
code-digit (suc (suc (suc zero))) h = refl
code-digit (suc (suc (suc (suc zero)))) h = refl
code-digit (suc (suc (suc (suc (suc zero))))) h = refl
code-digit (suc (suc (suc (suc (suc (suc zero)))))) h = refl
code-digit (suc (suc (suc (suc (suc (suc (suc zero))))))) h = refl
code-digit (suc (suc (suc (suc (suc (suc (suc (suc zero)))))))) h = refl
code-digit (suc (suc (suc (suc (suc (suc (suc (suc (suc zero))))))))) h = refl
code-digit (suc (suc (suc (suc (suc (suc (suc (suc (suc (suc n)))))))))) h = absurd (omega arith)

is_digit-add : (d : ℕ) → d < 10 → is_digit (b'0' + d) ≡ true
unfolding is_digit
is_digit-add d h = ground arith

digits_value-digit :
    (n d : ℕ) (rest : String)
    → d < 10
    → digits_value n (String.◌∷◌ (digit d) rest) ≡ digits_value (n * 10 + d) rest
unfolding digits_value
digits_value-digit n d rest h =
    let e : b'0' + d - b'0' ≡ d = omega arith in
    rw (code-digit d h) (rw (is_digit-add d h) (rw e refl))

-- Enough fuel prints the whole number.
pub digits_value-print_onto :
    (f n : ℕ) (rest : String) → n < f → digits_value 0 (print_onto f n rest) ≡ digits_value n rest
unfolding print_onto
digits_value-print_onto zero n rest h = elim h [ ]
digits_value-print_onto (suc f) n rest h = ground (
  arith,
  digits_value-print_onto f (n / 10) (String.◌∷◌ (digit (n % 10)) rest),
  digits_value-digit (n / 10) (n % 10) rest,
  digits_value-digit 0 (n % 10) rest,
)

pub print_onto-IsPlain : (f n : ℕ) (rest : String) → IsPlain rest → IsPlain (print_onto f n rest)
unfolding print_onto
print_onto-IsPlain zero n rest h = h
print_onto-IsPlain (suc f) n rest h =
    let other : b'$' ≢ code (digit (n % 10)) = ground (arith, code-digit (n % 10)) in
    let text = String.◌∷◌ (digit (n % 10)) rest in
    let more : IsPlain (print_onto f (n / 10) text) =
      print_onto-IsPlain f (n / 10) text (other, h) in
    elim (Bool-cases (n / 10 == 0)) [ inl e ↦ rw e (other, h) | inr e ↦ rw e more ]

print_onto-cons :
    (f n : ℕ) (rest : String)
    → n < f
    → (c : Char) × (s : String) × (print_onto f n rest ≡ String.◌∷◌ c s)
unfolding print_onto
print_onto-cons zero n rest h = elim h [ ]
print_onto-cons (suc f) n rest h = elim (Bool-cases (n / 10 == 0)) [
  | inl e ↦ (digit (n % 10), rest, rw e refl)
  | inr e ↦ rw e (print_onto-cons f (n / 10) (String.◌∷◌ (digit (n % 10)) rest) (ground arith))
]

-- A numeral that fits is read back.
pub parse_uint-print_uint : (bits n : ℕ) → n < 2 ^ bits → parse_uint bits (print_uint n) ≡ some n
unfolding parse_uint print_uint digits_value
parse_uint-print_uint bits n h =
    let (c, s, e) = print_onto-cons (suc n) n "" (omega arith) in
    let v : digits_value 0 (String.◌∷◌ c s) ≡ some n =
      subst (λ t. digits_value 0 t ≡ some n) e
        (digits_value-print_onto (suc n) n "" (omega arith)) in
    rw e (rw v (rw (lt→ltb n (2 ^ bits) h) refl))

-- `strconv.ParseInt(s, 10, 64)`; `none` is its error.
abbrev non_negative : Option ℕ → Option ℤ
non_negative none = none
non_negative (some n) = if ltb n (2 ^ 63) then some (pos n) else none

abbrev negative : Option ℕ → Option ℤ
negative none = none
negative (some n) =
    if n == 0 then some (pos 0) else if leb n (2 ^ 63) then some (negsuc (n - 1)) else none

unfoldable pub parse_int : String → Option ℤ
unfolding parse_uint
parse_int String.[] = none
parse_int (String.◌∷◌ c s) =
    if code c == b'-'
    then negative (parse_uint 64 s)
    else non_negative (parse_uint 64 (if code c == b'+' then s else String.◌∷◌ c s))
