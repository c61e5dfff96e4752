-- ===== src/Base/ReadUvarint.antt =====
-- encoding/binary's ReadUvarint on a stream: on an error it keeps the groups read so far.
use hush_go.Base.Tests.{ltb, lt→ltb, le→ltb, ltb→lt, ◌==◌, if◌then◌else◌, Bool-cases}
use hush_go.Base.Lists.{Bytes, length}
use hush_go.Base.Calls.{Error, eof, unexpected_eof, varint_overflow}
use hush_go.Base.Uvarint.{put_groups, put_uvarint}
use Prim.Native.Nat.{ℕ, zero, suc, ◌+◌, ◌-◌, ◌*◌, ◌/◌, ◌%◌, ◌^◌, ◌≤◌, ◌<◌}
use mathlib.Core.Path.{◌≡◌, ◌∙◌, ap}
use mathlib.Core.Logic.{inl, inr}
use mathlib.Core.Bool.{Bool, true, false, ◌&&◌}
use mathlib.Core.Option.{Option, none, some}
use mathlib.Core.List.{[], ◌∷◌, ◌++◌}
use native.Mathlib.Omega.{arith}

-- The number, the error and the rest of the stream, where `room` more bytes may come. `first` says
-- that no byte was read.
unfoldable pub read_groups : ℕ → Bool → Bytes → ℕ × Option Error × Bytes
read_groups zero first bs = (0, some varint_overflow, bs)
read_groups (suc room) first [] = (0, some (if first then eof else unexpected_eof), [])
read_groups (suc room) first (b ∷ bs) =
    let more = read_groups room false bs in
    if ltb b 128
    then (if room == 0 && ltb 1 b then (0, some varint_overflow, bs) else (b, none, bs))
    else (b - 128 + 128 * more.0, more.1, more.2)

unfoldable pub read_uvarint : Bytes → ℕ × Option Error × Bytes
unfolding read_groups
read_uvarint bs = let r = read_groups 10 true bs in (r.0 % 2 ^ 64, r.1, r.2)

last_group :
    (room b : ℕ) (first : Bool) (bs : Bytes)
    → b < 128
    → (room ≡ 0 → b ≤ 1)
    → read_groups (suc room) first (b ∷ bs) ≡ (b, none, bs)
unfolding read_groups
last_group room b first bs h fits = ground arith

inner_group :
    (room g v : ℕ) (first : Bool) (bs : Bytes) (e : Option Error) (rest : Bytes)
    → read_groups room false bs ≡ (v, e, rest)
    → read_groups (suc room) first ((g + 128) ∷ bs) ≡ (g + 128 * v, e, rest)
unfolding read_groups
inner_group room g v first bs e rest h =
    rw (le→ltb (g + 128) 128 (omega arith), h) (ap (λ n. (n, e, rest)) (omega arith))

read_groups-put_groups :
    (j x : ℕ) (first : Bool) (rest : Bytes)
    → x < 2 * 128 ^ j
    → read_groups (suc j) first (put_groups (suc j) x ++ rest) ≡ (x, none, rest)
unfolding put_groups
read_groups-put_groups zero x first rest h =
    rw (lt→ltb x 128 (omega arith)) (last_group 0 x first rest (omega arith) (λ _. omega arith))
read_groups-put_groups (suc j) x first rest h = elim (Bool-cases (ltb x 128)) [
  | inl last ↦
      rw last (last_group (suc j) x first rest (ltb→lt x 128 last) (λ e. absurd (omega arith)))
  | inr more ↦ rw more (
      inner_group (suc j) (x % 128) (x / 128) first _ none rest
        (read_groups-put_groups j (x / 128) false rest (omega arith))
      ∙ ap (λ (y : ℕ). (y, none, rest)) (omega arith))
]

-- ReadUvarint reads back the uint64 that PutUvarint wrote, and leaves the bytes behind it.
pub read_uvarint-put_uvarint :
    (x : ℕ) (rest : Bytes) → x < 2 ^ 64 → read_uvarint (put_uvarint x ++ rest) ≡ (x, none, rest)
unfolding read_uvarint put_uvarint
read_uvarint-put_uvarint x rest h =
    rw (read_groups-put_groups 9 x true rest h) (ap (λ (n : ℕ). (n, none, rest)) (omega arith))

length-read_groups :
    (room : ℕ) (first : Bool) (bs : Bytes) → length (read_groups room first bs).2 ≤ length bs
unfolding read_groups
length-read_groups zero first bs = omega arith
length-read_groups (suc room) first [] = omega arith
length-read_groups (suc room) first (b ∷ bs) = ground (arith, length-read_groups room false bs)

-- No byte is read twice.
pub length-read_uvarint : (bs : Bytes) → length (read_uvarint bs).2 ≤ length bs
unfolding read_uvarint
length-read_uvarint bs = length-read_groups 10 true bs
