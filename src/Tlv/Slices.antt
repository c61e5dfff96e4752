-- ===== src/Tlv/Slices.antt =====
-- DecodeBytes on any byte slice: it panics in one case only.
use hush_go.Base.{
  ◌+◌, ◌^◌, ◌%◌, ◌≤◌, ◌<◌, Bytes, [], ◌∷◌, length, All, Ensures, fails, Ensures-if,
  Ensures-ne-panics, panics, ◌≡◌, ltb, ◌==◌, lt→ltb, le→ltb, ne→==, arith, ◌↔◌,
}
use native.Mathlib.Decide.{dec_lt, dec_le}
use hush_go.Base.BigEndian.{IsByte}
use hush_go.Base.Uvarint.{uvarint, uvarint-le, uvarint-lt}
use hush_go.Tlv.Types.{type_of_byte}
use hush_go.Tlv.Decode.{decode_bytes, decode_fuel}
use hush_go.Tlv.Total.{IsDecoded, decode_value_total}

-- The header of `buf` announces a payload whose end passes the largest uint64.
abbrev pub EndWraps : Bytes → Type 0
EndWraps [] = ⊥
EndWraps (t ∷ tail) = (0 < (uvarint tail).1) × (2 ^ 64 ≤ 1 + (uvarint tail).1 + (uvarint tail).0)

dec_EndWraps : (buf : Bytes) → Dec (EndWraps buf)
dec_EndWraps [] = no (λ w. w)
dec_EndWraps (t ∷ tail) = elim (dec_lt 0 (uvarint tail).1) [
  | yes p ↦ elim (dec_le (2 ^ 64) (1 + (uvarint tail).1 + (uvarint tail).0)) [
    | yes q ↦ yes (p, q)
    | no q ↦ no (λ w. q w.1)
  ]
  | no p ↦ no (λ w. p w.0)
]

-- Where the end does not wrap, DecodeBytes returns: an error, or a value within 64 levels whose maps
-- have distinct keys.
pub decode_bytes_total : (buf : Bytes) → ¬ EndWraps buf → Ensures (IsDecoded 0) (decode_bytes buf)
unfolding decode_bytes
decode_bytes_total [] fits = fails
decode_bytes_total (t ∷ tail) fits =
    let len = (uvarint tail).0 in
    let n = (uvarint tail).1 in
    Ensures-if (n == 0) (λ _. fails)
      λ some_bytes.
        Ensures-if (ltb (length (t ∷ tail)) ((1 + n + len) % 2 ^ 64)) (λ _. fails)
          λ _.
            Ensures-if (ltb ((1 + n + len) % 2 ^ 64) (1 + n))
              (λ wraps. absurd (fits (ground arith)))
              (λ _. decode_value_total decode_fuel 0 (type_of_byte t) _ (omega arith) (omega arith))

decode_bytes_wraps : (buf : Bytes) → All IsByte buf → EndWraps buf → decode_bytes buf ≡ panics
unfolding decode_bytes
decode_bytes_wraps [] bs w = absurd w
decode_bytes_wraps (t ∷ tail) bs (some_bytes, wraps) =
    let below = uvarint-lt tail bs.1 in
    let within = uvarint-le tail in
    rw (
      ne→== (uvarint tail).1 0 (omega arith),
      le→ltb (length (t ∷ tail)) ((1 + (uvarint tail).1 + (uvarint tail).0) % 2 ^ 64)
          (omega (arith, below, within)),
      lt→ltb ((1 + (uvarint tail).1 + (uvarint tail).0) % 2 ^ 64) (1 + (uvarint tail).1)
          (omega (arith, below, within)),
    )

-- On bytes, DecodeBytes panics exactly when the announced end wraps: the slice bounds are then out
-- of order.
pub decode_bytes-panics_iff :
    (buf : Bytes) → All IsByte buf → (decode_bytes buf ≡ panics) ↔ EndWraps buf
decode_bytes-panics_iff buf bs = (
  λ e. elim (dec_EndWraps buf) [
    | yes w ↦ w
    | no fits ↦ absurd (Ensures-ne-panics (decode_bytes_total buf fits) e)
  ],
  decode_bytes_wraps buf bs,
)
