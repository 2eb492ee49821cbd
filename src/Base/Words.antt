-- ===== src/Base/Words.antt =====
-- Machine integers. A `uint64`, `uint32` or `uint` is its value below 2 ^ 64 or 2 ^ 32; an `int` or
-- `int64` is an integer, and a conversion between the two keeps the 64-bit pattern.
use Prim.Native.Nat.{ℕ, ◌+◌, ◌-◌, ◌%◌, ◌^◌, ◌<◌}
use mathlib.Core.Path.{◌≡◌}
use native.Mathlib.Omega.{arith}
use ffstream.Base.Tests.{ltb, if◌then◌else◌}

-- `negsuc n` is -(n + 1).
pub data ℤ : Type 0 where
  pos : ℕ → ℤ
  negsuc : ℕ → ℤ

-- The addition of two `uint64`
unfoldable pub add64 : ℕ → ℕ → ℕ
add64 a b = (a + b) % 2 ^ 64

-- `uint32(n)`
unfoldable pub u32 : ℕ → ℕ
u32 n = n % 2 ^ 32

-- `int64(n)` and `int(n)` of a `uint64`
unfoldable pub i64 : ℕ → ℤ
i64 n = if ltb n (2 ^ 63) then pos n else negsuc (2 ^ 64 - n - 1)

-- `uint64(z)` of an `int64`
unfoldable pub u64 : ℤ → ℕ
u64 (pos n) = n % 2 ^ 64
u64 (negsuc n) = 2 ^ 64 - 1 - n % 2 ^ 64

-- The integers of the type `int64`
abbrev pub IsInt64 : ℤ → Type 0
IsInt64 (pos n) = n < 2 ^ 63
IsInt64 (negsuc n) = n < 2 ^ 63

pub i64-u64 : (z : ℤ) → IsInt64 z → i64 (u64 z) ≡ z
unfolding i64 u64
i64-u64 (pos n) h = ground arith
i64-u64 (negsuc n) h = ground arith

pub u64-i64 : (n : ℕ) → n < 2 ^ 64 → u64 (i64 n) ≡ n
unfolding i64 u64
u64-i64 n h = ground arith

pub i64-IsInt64 : (n : ℕ) → n < 2 ^ 64 → IsInt64 (i64 n)
unfolding i64
i64-IsInt64 n h = ground arith
