-- ===== src/Base/Uvarint.antt =====
-- encoding/binary's unsigned varints: seven bits a byte, lowest group first, ten bytes at most.
use hush_go.Base.Tests.{ltb, lt→ltb, ltb→lt, ◌==◌, if◌then◌else◌, Bool-cases}
use mathlib.Core.Logic.{inl, inr}
use hush_go.Base.Lists.{Bytes, length, All}
use hush_go.Base.BigEndian.{IsByte}
use Prim.Native.Nat.{ℕ, zero, suc, ◌+◌, ◌-◌, ◌*◌, ◌/◌, ◌%◌, ◌^◌, ◌≤◌, ◌<◌}
use mathlib.Core.Path.{◌≡◌, refl, ◌∙◌, ap}
use mathlib.Core.Bool.{◌&&◌}
use mathlib.Core.List.{[], ◌∷◌, ◌++◌}
use native.Mathlib.Omega.{arith}

-- PutUvarint; a uint64 takes `fuel` = 10 bytes at most.
unfoldable pub put_groups : ℕ → ℕ → Bytes
put_groups zero x = []
put_groups (suc fuel) x =
    let more = put_groups fuel (x / 128) in if ltb x 128 then x ∷ [] else (x % 128 + 128) ∷ more

unfoldable pub put_uvarint : ℕ → Bytes
unfolding put_groups
put_uvarint x = put_groups 10 x

-- Uvarint with room for `room` more bytes: the value, and the number of bytes read or 0 where Go
-- returns 0 (the input ends inside the number) or less (the number does not fit 64 bits).
get_groups : ℕ → Bytes → ℕ × ℕ
get_groups room [] = (0, 0)
get_groups zero (b ∷ bs) = (0, 0)
get_groups (suc room) (b ∷ bs) =
    let rest = get_groups room bs in
    if ltb b 128
    then (if room == 0 && ltb 1 b then (0, 0) else (b, 1))
    else (if rest.1 == 0 then (0, 0) else (b - 128 + 128 * rest.0, suc rest.1))

unfoldable pub uvarint : Bytes → ℕ × ℕ
unfolding get_groups
uvarint bs = get_groups 10 bs

-- One round on a last byte, and on a byte with the top bit set over the group `g`.
last_group :
    (room b : ℕ) (bs : Bytes)
    → b < 128
    → (room ≡ 0 → b ≤ 1)
    → get_groups (suc room) (b ∷ bs) ≡ (b, 1)
unfolding get_groups
last_group room b bs h fits = ground arith

inner_group :
    (room g v n : ℕ) (bs : Bytes)
    → get_groups room bs ≡ (v, n)
    → 0 < n
    → get_groups (suc room) ((g + 128) ∷ bs) ≡ (g + 128 * v, suc n)
unfolding get_groups
inner_group room g v n bs e h = rw (e, get_groups) (ground arith)

put_groups_pos : (j x : ℕ) → 0 < length (put_groups (suc j) x)
unfolding put_groups
put_groups_pos j x = ground arith

-- With room for j + 1 bytes a number fits if it is below 2 * 128 ^ j.
get_groups-put_groups :
    (j x : ℕ) (rest : Bytes)
    → x < 2 * 128 ^ j
    → get_groups (suc j) (put_groups (suc j) x ++ rest) ≡ (x, length (put_groups (suc j) x))
unfolding put_groups
get_groups-put_groups zero x rest h =
    rw (lt→ltb x 128 (omega arith)) (last_group 0 x rest (omega arith) (λ _. omega arith))
get_groups-put_groups (suc j) x rest h = elim (Bool-cases (ltb x 128)) [
  | inl last ↦ rw last (last_group (suc j) x rest (ltb→lt x 128 last) (λ e. absurd (omega arith)))
  | inr more ↦ rw more (
      inner_group (suc j) (x % 128) (x / 128) _ _
        (get_groups-put_groups j (x / 128) rest (omega arith)) (put_groups_pos j (x / 128))
      ∙ ap (λ (y : ℕ). (y, suc (length (put_groups (suc j) (x / 128))))) (omega arith))
]

-- Uvarint reads back the uint64 that PutUvarint wrote, and says how many bytes that took.
pub uvarint-put_uvarint :
    (x : ℕ) (rest : Bytes)
    → x < 2 ^ 64
    → uvarint (put_uvarint x ++ rest) ≡ (x, length (put_uvarint x))
uvarint-put_uvarint x rest h = unfold uvarint put_uvarint in get_groups-put_groups 9 x rest h

length-put_groups :
    (j x : ℕ) → (1 ≤ length (put_groups (suc j) x)) × (length (put_groups (suc j) x) ≤ suc j)
unfolding put_groups
length-put_groups zero x = ground arith
length-put_groups (suc j) x = ground (arith, length-put_groups j (x / 128))

pub length-put_uvarint : (x : ℕ) → (1 ≤ length (put_uvarint x)) × (length (put_uvarint x) ≤ 10)
unfolding put_uvarint
length-put_uvarint x = length-put_groups 9 x

get_groups-le :
    (room : ℕ) (bs : Bytes) → ((get_groups room bs).1 ≤ length bs) × ((get_groups room bs).1 ≤ room)
unfolding get_groups
get_groups-le room [] = omega arith
get_groups-le zero (b ∷ bs) = omega arith
get_groups-le (suc room) (b ∷ bs) = ground (arith, get_groups-le room bs)

-- Uvarint takes 10 bytes at most, and no more than there are.
pub uvarint-le : (bs : Bytes) → ((uvarint bs).1 ≤ length bs) × ((uvarint bs).1 ≤ 10)
unfolding uvarint
uvarint-le bs = get_groups-le 10 bs

get_groups_no_room : (bs : Bytes) → get_groups 0 bs ≡ (0, 0)
unfolding get_groups
get_groups_no_room [] = refl
get_groups_no_room (b ∷ bs) = refl

pow_pos : (j : ℕ) → 0 < 2 * 128 ^ j
pow_pos zero = omega arith
pow_pos (suc j) = omega (arith, pow_pos j)

get_groups-lt : (j : ℕ) (bs : Bytes) → All IsByte bs → (get_groups (suc j) bs).0 < 2 * 128 ^ j
unfolding get_groups
get_groups-lt j [] h = pow_pos j
get_groups-lt zero (b ∷ bs) h = ground (arith, get_groups_no_room bs)
get_groups-lt (suc j) (b ∷ bs) h = ground (arith, get_groups-lt j bs h.1, pow_pos j)

-- Uvarint's value is a uint64.
pub uvarint-lt : (bs : Bytes) → All IsByte bs → (uvarint bs).0 < 2 ^ 64
unfolding uvarint
uvarint-lt bs h = get_groups-lt 9 bs h
