-- ===== src/Control/Monitor/Durations.antt =====
-- commands.go: `avconvDuration`, in the arithmetic of `int64`.
use ffstream.Base.{
  ℕ, zero, suc, ◌-◌, ◌*◌, ◌/◌, ◌%◌, ◌^◌, ◌≤◌, ◌<◌, ◌≡◌, ◌∙◌, ap, Option, none, some, Result, ok,
  panic, ℤ, pos, negsuc, i64, u64, IsInt64, i64-u64, arith,
}

-- `Rational`
pub record TimeBase : Type 0 where
  pub n : ℤ
  pub d : ℤ

-- The product of two `int64`, which wraps around.
unfoldable pub mul64 : ℤ → ℤ → ℤ
unfolding i64 u64
mul64 a b = i64 ((u64 a * u64 b) % 2 ^ 64)

abbrev pub neg : ℕ → ℤ
neg zero = pos 0
neg (suc n) = negsuc n

-- The quotient, rounded towards zero, of two integers of which the second is not zero.
abbrev pub quotient : ℤ → ℤ → ℤ
quotient (pos a) (pos b) = pos (a / b)
quotient (pos a) (negsuc b) = neg (a / suc b)
quotient (negsuc a) (pos b) = neg (suc a / b)
quotient (negsuc a) (negsuc b) = pos (suc a / suc b)

-- Division of `int64`: a zero divisor panics, and the least number by -1 wraps around.
unfoldable pub div64 {ℓ} : {E : Type ℓ} → ℤ → ℤ → Result E ℤ
unfolding i64 u64
div64 a (pos zero) = panic
div64 a (pos (suc b)) = ok (i64 (u64 (quotient a (pos (suc b)))))
div64 a (negsuc b) = ok (i64 (u64 (quotient a (negsuc b))))

-- `int64(time.Second)`
abbrev pub second : ℕ
second = 1_000_000_000

unfoldable pub avconv_duration {ℓ} : {E : Type ℓ} → ℤ → Option TimeBase → Result E ℤ
unfolding mul64 div64
avconv_duration pts none = panic
avconv_duration pts (some base) = div64 (mul64 (mul64 (pos second) pts) base.n) base.d

mul64_small :
    (a b : ℕ) → a < 2 ^ 63 → b < 2 ^ 63 → a * b < 2 ^ 63 → mul64 (pos a) (pos b) ≡ pos (a * b)
unfolding mul64 i64 u64
mul64_small a b ha hb h =
    let ea : a % 2 ^ 64 ≡ a = omega arith in
    let eb : b % 2 ^ 64 ≡ b = omega arith in rw ea (rw eb (ground arith))

div64_small :
    {E : Type 0} (a b : ℕ) → a < 2 ^ 63 → div64 {E = E} (pos a) (pos (suc b)) ≡ ok (pos (a / suc b))
unfolding div64 i64 u64
div64_small a b h =
    let q : a / suc b ≤ a = grind arith in
    let e : (a / suc b) % 2 ^ 64 ≡ a / suc b = omega arith in rw e (ground arith)

mul-le : (a b : ℕ) → a ≤ a * suc b
mul-le a b = grind arith

-- The duration that is printed is that of the timestamp in the time base, rounded down to a nanosecond,
-- for timestamps that are not negative and a positive time base, if the product of a second, the
-- timestamp and the numerator fits an `int64`.
pub avconv_duration_exact :
    {E : Type 0} (pts n d : ℕ)
    → suc n < 2 ^ 63
    → second * pts * suc n < 2 ^ 63
    → avconv_duration {E = E} (pos pts) (some (record { n = pos (suc n); d = pos (suc d) }))
      ≡ ok (pos (second * pts * suc n / suc d))
unfolding avconv_duration
avconv_duration_exact {E} pts n d hn h =
    let small : second * pts < 2 ^ 63 = omega (arith, mul-le (second * pts) n) in
    let product : mul64 (pos second) (pos pts) ≡ pos (second * pts) =
      mul64_small second pts (omega arith) (omega arith) small in
    ap (λ z. div64 {E = E} (mul64 z (pos (suc n))) (pos (suc d))) product
    ∙ ap (λ z. div64 {E = E} z (pos (suc d))) (mul64_small (second * pts) (suc n) small hn h)
    ∙ div64_small {E = E} (second * pts * suc n) d h

mul64_wraps :
    (pts : ℕ)
    → 2 ^ 63 ≤ second * pts
    → second * pts < 2 ^ 64
    → mul64 (pos second) (pos pts) ≡ negsuc (2 ^ 64 - second * pts - 1)
unfolding mul64 i64 u64
mul64_wraps pts h k = let e : pts % 2 ^ 64 ≡ pts = omega arith in rw e (ground arith)

mul64_one : (z : ℤ) → IsInt64 z → mul64 z (pos 1) ≡ z
unfolding mul64 i64 u64
mul64_one (pos n) h = ground arith
mul64_one (negsuc n) h = ground arith

neg-IsInt64 : (q : ℕ) → q ≤ 2 ^ 63 → IsInt64 (neg q)
neg-IsInt64 zero h = omega arith
neg-IsInt64 (suc q) h = omega arith

-- For a time base of one unit in d, a timestamp whose product with a second is from 2 ^ 63 to 2 ^ 64, such
-- as one of three hours in microseconds, is printed as a duration that is not positive.
pub avconv_duration_wraps :
    {E : Type 0} (pts d : ℕ)
    → 2 ^ 63 ≤ second * pts
    → second * pts < 2 ^ 64
    → avconv_duration {E = E} (pos pts) (some (record { n = pos 1; d = pos (suc d) }))
      ≡ ok (neg ((2 ^ 64 - second * pts) / suc d))
unfolding avconv_duration div64
avconv_duration_wraps {E} pts d h k =
    let m = 2 ^ 64 - second * pts in
    let q : m / suc d ≤ m = grind arith in
    let e : suc (m - 1) ≡ m = omega arith in
    ap (λ z. div64 {E = E} (mul64 z (pos 1)) (pos (suc d))) (mul64_wraps pts h k)
    ∙ ap (λ z. div64 {E = E} z (pos (suc d))) (mul64_one (negsuc (m - 1)) (omega arith))
    ∙ ap (λ n. ok (i64 (u64 (neg (n / suc d))))) e
    ∙ ap ok (i64-u64 (neg (m / suc d)) (neg-IsInt64 (m / suc d) (omega arith)))
