-- ===== src/Base/Int.antt =====
-- Signed integers over the native numbers, under the library's names, and the two's-complement
-- conversions int32/uint32 and int64/uint64 of Go.
use hush_go.Base.Tests.{ltb, leb, if◌then◌else◌}
use Prim.Native.Nat.{ℕ, suc, ◌+◌, ◌-◌, ◌*◌, ◌/◌, ◌%◌, ◌^◌, ◌≤◌, ◌<◌}
use mathlib.Core.Path.{◌≡◌}
use mathlib.Core.Bool.{Bool}
use native.Mathlib.Omega.{arith}

-- `negsuc n` is -(n + 1).
pub data ℤ : Type 0 where
  pos : ℕ → ℤ
  negsuc : ℕ → ℤ

abbrev pub pos_part : ℤ → ℕ
pos_part (pos n) = n
pos_part (negsuc n) = 0

abbrev pub neg_part : ℤ → ℕ
neg_part (pos n) = 0
neg_part (negsuc n) = suc n

-- a - b, as an integer.
abbrev pub sub_ℕ : ℕ → ℕ → ℤ
sub_ℕ a b = if leb b a then pos (a - b) else negsuc (b - a - 1)

infixl 65 ◌-ℤ◌ ◌+ℤ◌
infix 50 ◌≤ℤ◌
unfoldable pub ◌-ℤ◌ : ℤ → ℤ → ℤ
a -ℤ b = sub_ℕ (pos_part a + neg_part b) (neg_part a + pos_part b)

unfoldable pub ◌+ℤ◌ : ℤ → ℤ → ℤ
a +ℤ b = sub_ℕ (pos_part a + pos_part b) (neg_part a + neg_part b)

abbrev pub ◌≤ℤ◌ : ℤ → ℤ → Type 0
a ≤ℤ b = pos_part a + neg_part b ≤ pos_part b + neg_part a

abbrev pub ltb_ℤ : ℤ → ℤ → Bool
ltb_ℤ a b = ltb (pos_part a + neg_part b) (pos_part b + neg_part a)

pub -ℤ_parts :
    (a b : ℤ)
    → pos_part (a -ℤ b) + neg_part a + pos_part b ≡ neg_part (a -ℤ b) + pos_part a + neg_part b
unfolding ◌-ℤ◌
-ℤ_parts a b = ground arith

pub eq_of_parts : (a b : ℤ) → pos_part a + neg_part b ≡ pos_part b + neg_part a → a ≡ b
eq_of_parts a b h = ground arith

-- uint32(n) of an int32, and int32(u) of a uint32.
abbrev pub IsInt32 : ℤ → Type 0
IsInt32 (pos n) = n < 2 ^ 31
IsInt32 (negsuc n) = n < 2 ^ 31

unfoldable pub u32_of_int : ℤ → ℕ
u32_of_int (pos n) = n % 2 ^ 32
u32_of_int (negsuc n) = 2 ^ 32 - 1 - n % 2 ^ 32

unfoldable pub int_of_u32 : ℕ → ℤ
int_of_u32 u = if ltb u (2 ^ 31) then pos u else negsuc (2 ^ 32 - 1 - u)

pub int_of_u32-u32_of_int : (z : ℤ) → IsInt32 z → int_of_u32 (u32_of_int z) ≡ z
unfolding int_of_u32 u32_of_int
int_of_u32-u32_of_int (pos n) h = ground arith
int_of_u32-u32_of_int (negsuc n) h = ground arith

pub u32_of_int-lt : (z : ℤ) → u32_of_int z < 2 ^ 32
unfolding u32_of_int
u32_of_int-lt (pos n) = omega arith
u32_of_int-lt (negsuc n) = omega arith

-- uint64(n) of an int64, and int64(u) of a uint64.
abbrev pub IsInt64 : ℤ → Type 0
IsInt64 (pos n) = n < 2 ^ 63
IsInt64 (negsuc n) = n < 2 ^ 63

unfoldable pub u64_of_int : ℤ → ℕ
u64_of_int (pos n) = n % 2 ^ 64
u64_of_int (negsuc n) = 2 ^ 64 - 1 - n % 2 ^ 64

unfoldable pub int_of_u64 : ℕ → ℤ
int_of_u64 u = if ltb u (2 ^ 63) then pos u else negsuc (2 ^ 64 - 1 - u)

pub int_of_u64-u64_of_int : (z : ℤ) → IsInt64 z → int_of_u64 (u64_of_int z) ≡ z
unfolding int_of_u64 u64_of_int
int_of_u64-u64_of_int (pos n) h = ground arith
int_of_u64-u64_of_int (negsuc n) h = ground arith

pub u64_of_int-lt : (z : ℤ) → u64_of_int z < 2 ^ 64
unfolding u64_of_int
u64_of_int-lt (pos n) = omega arith
u64_of_int-lt (negsuc n) = omega arith

-- A time.Time is its distance from 1970 in nanoseconds. UnixMilli rounds it down to milliseconds,
-- and time.UnixMilli takes milliseconds back to a time.
unfoldable pub unix_milli : ℤ → ℤ
unix_milli (pos ns) = pos (ns / 1_000_000)
unix_milli (negsuc ns) = negsuc (ns / 1_000_000)

unfoldable pub of_unix_milli : ℤ → ℤ
of_unix_milli (pos ms) = pos (ms * 1_000_000)
of_unix_milli (negsuc ms) = negsuc (ms * 1_000_000 + 999_999)

pub unix_milli-of_unix_milli : (ms : ℤ) → unix_milli (of_unix_milli ms) ≡ ms
unfolding unix_milli of_unix_milli
unix_milli-of_unix_milli (pos n) = ground arith
unix_milli-of_unix_milli (negsuc n) = ground arith
