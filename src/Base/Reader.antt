-- ===== src/Base/Reader.antt =====
-- io.ReadFull on a stream that is the list of the bytes still to come and then ends.
use hush_go.Base.Tests.{ltb, le→ltb, ◌==◌, if◌then◌else◌}
use hush_go.Base.Lists.{
  Bytes, length, take, drop, length-append, take-append_length, drop-append_length, length-take,
  take-append-drop,
}
use hush_go.Base.Calls.{Outcome, ok, err, eof, unexpected_eof, Ensures, returns, fails, Ensures-if}
use Prim.Native.Nat.{ℕ}
use mathlib.Core.Path.{◌≡◌, sym}
use mathlib.Core.List.{◌++◌}
use native.Mathlib.Omega.{arith}

-- The `n` bytes in front and those behind; io.EOF if there is none, io.ErrUnexpectedEOF if there
-- are too few.
unfoldable pub read_full : ℕ → Bytes → Outcome (Bytes × Bytes)
read_full n bs =
    if ltb (length bs) n
    then (if length bs == 0 then err eof else err unexpected_eof)
    else ok (take n bs, drop n bs)

pub read_full-append :
    (n : ℕ) (xs rest : Bytes) → length xs ≡ n → read_full n (xs ++ rest) ≡ ok (xs, rest)
unfolding read_full
read_full-append n xs rest e = rw (
  ← e,
  le→ltb (length (xs ++ rest)) (length xs) (omega (arith, length-append {0} xs rest)),
  take-append_length xs rest,
  drop-append_length xs rest,
)

-- A successful read splits the stream.
pub read_full-Ensures :
    (n : ℕ) (bs : Bytes)
    → Ensures (λ (xs, rest). (bs ≡ xs ++ rest) × (length xs ≡ n)) (read_full n bs)
unfolding read_full
read_full-Ensures n bs =
    Ensures-if (ltb (length bs) n) (λ _. Ensures-if (length bs == 0) (λ _. fails) (λ _. fails))
      (λ enough. returns (sym (take-append-drop n bs), ground (arith, length-take {0} n bs)))
