-- ===== src/Base/BigEndian.antt =====
-- encoding/binary's BigEndian: fixed-width unsigned integers as bytes, highest first.
use hush_go.Base.Lists.{Bytes, length, All}
use Prim.Native.Nat.{ℕ, ◌+◌, ◌*◌, ◌/◌, ◌%◌, ◌^◌, ◌<◌}
use mathlib.Core.Path.{◌≡◌, refl}
use mathlib.Core.List.{[], ◌∷◌, ◌++◌}
use native.Mathlib.Omega.{arith}

abbrev pub IsByte : ℕ → Type 0
IsByte b = b < 256

-- PutUint16, PutUint32 and PutUint64.
unfoldable pub put_u16 : ℕ → Bytes
put_u16 x = x / 256 % 256 ∷ x % 256 ∷ []

unfoldable pub put_u32 : ℕ → Bytes
put_u32 x = (x / 2 ^ 24 % 256) ∷ (x / 2 ^ 16 % 256) ∷ (x / 2 ^ 8 % 256) ∷ (x % 256) ∷ []

unfoldable pub put_u64 : ℕ → Bytes
unfolding put_u32
put_u64 x = put_u32 (x / 2 ^ 32) ++ put_u32 (x % 2 ^ 32)

-- Uint16, Uint32 and Uint64 of a slice of that many bytes; the source slices it to length first.
unfoldable pub get_u16 : Bytes → ℕ
get_u16 (a ∷ b ∷ rest) = a * 256 + b
get_u16 _ = 0

unfoldable pub get_u32 : Bytes → ℕ
get_u32 (a ∷ b ∷ c ∷ d ∷ rest) = a * 2 ^ 24 + b * 2 ^ 16 + c * 2 ^ 8 + d
get_u32 _ = 0

unfoldable pub get_u64 : Bytes → ℕ
unfolding get_u32
get_u64 (a ∷ b ∷ c ∷ d ∷ rest) = get_u32 (a ∷ b ∷ c ∷ d ∷ []) * 2 ^ 32 + get_u32 rest
get_u64 _ = 0

pub get_u16-put_u16 : (x : ℕ) → x < 2 ^ 16 → get_u16 (put_u16 x) ≡ x
unfolding get_u16 put_u16
get_u16-put_u16 x h = omega arith

pub get_u32-put_u32 : (x : ℕ) → x < 2 ^ 32 → get_u32 (put_u32 x) ≡ x
unfolding get_u32 put_u32
get_u32-put_u32 x h = omega arith

pub get_u64-put_u64 : (x : ℕ) → x < 2 ^ 64 → get_u64 (put_u64 x) ≡ x
unfolding get_u64 put_u64
get_u64-put_u64 x h = omega (arith, get_u32-put_u32 (x / 2 ^ 32), get_u32-put_u32 (x % 2 ^ 32))

pub length-put_u32 : (x : ℕ) → length (put_u32 x) ≡ 4
unfolding put_u32
length-put_u32 x = refl

pub length-put_u16 : (x : ℕ) → length (put_u16 x) ≡ 2
unfolding put_u16
length-put_u16 x = refl

pub length-put_u64 : (x : ℕ) → length (put_u64 x) ≡ 8
unfolding put_u64
length-put_u64 x = refl

four_bytes :
    (a b c d : ℕ)
    → IsByte a
    → IsByte b
    → IsByte c
    → IsByte d
    → put_u32 (a * 2 ^ 24 + b * 2 ^ 16 + c * 2 ^ 8 + d) ≡ a ∷ b ∷ c ∷ d ∷ []
unfolding put_u32
four_bytes a b c d ha hb hc hd = four_eq (omega arith) (omega arith) (omega arith) (omega arith)
  where
    four_eq :
        {a' b' c' d' : ℕ}
        → a' ≡ a
        → b' ≡ b
        → c' ≡ c
        → d' ≡ d
        → a' ∷ b' ∷ c' ∷ d' ∷ [] ≡ a ∷ b ∷ c ∷ d ∷ []
    four_eq p q r s = cc

-- Four bytes are the big-endian form of the number that they stand for.
pub put_u32-get_u32 : (bs : Bytes) → All IsByte bs → length bs ≡ 4 → put_u32 (get_u32 bs) ≡ bs
unfolding put_u32 get_u32
put_u32-get_u32 (a ∷ b ∷ c ∷ d ∷ []) h e = four_bytes a b c d h.0 h.1.0 h.1.1.0 h.1.1.1.0
put_u32-get_u32 [] h e = absurd (omega arith)
put_u32-get_u32 (a ∷ []) h e = absurd (omega arith)
put_u32-get_u32 (a ∷ b ∷ []) h e = absurd (omega arith)
put_u32-get_u32 (a ∷ b ∷ c ∷ []) h e = absurd (omega arith)
put_u32-get_u32 (a ∷ b ∷ c ∷ d ∷ x ∷ rest) h e = absurd (omega arith)

pub get_u32-lt : (bs : Bytes) → All IsByte bs → get_u32 bs < 2 ^ 32
unfolding get_u32
get_u32-lt (a ∷ b ∷ c ∷ d ∷ rest) h = omega arith
get_u32-lt _ h = omega arith
