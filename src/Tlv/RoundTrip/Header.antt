-- ===== src/Tlv/RoundTrip/Header.antt =====
-- decodeValueBytes on a header and a payload.
use hush_go.Base.{
  ℕ, zero, suc, ◌+◌, ◌≤◌, ◌<◌, Bytes, ◌∷◌, ◌++◌, append_assoc, length, take, drop, length-append,
  take-append_length, drop-append_length, ok, ◌>>=◌, ◌≡◌, refl, ap, ◌∙◌, le→ltb, ne→==, arith,
}
use hush_go.Base.Uvarint.{uvarint, put_uvarint, uvarint-put_uvarint, length-put_uvarint}
use hush_go.Tlv.Types.{code, type_of_byte, TypeCode, other}
use hush_go.Tlv.Encode.{with_header}
use hush_go.Tlv.Decode.{Decoder, max_payload, decode_value_bytes}

-- The byte of a type code stands for that type code.
pub type_of_byte-code : (t : TypeCode) → type_of_byte (code t) ≡ t
unfolding type_of_byte code
type_of_byte-code (other zero) = refl
type_of_byte-code (other (suc n)) = ground arith
type_of_byte-code _ = refl

pub length-with_header :
    (t : TypeCode) (p : Bytes)
    → length (with_header t p) ≡ 1 + length (put_uvarint (length p)) + length p
unfolding with_header
length-with_header t p = omega (arith, length-append {0} (put_uvarint (length p)) p)

-- Behind its header lies the payload.
pub drop-header : (c : ℕ) (u q : Bytes) → drop (1 + length u) (c ∷ (u ++ q)) ≡ q
drop-header c u q =
    rw (let e : 1 + length u ≡ suc (length u) = omega arith in e) (drop-append_length u q)

-- decodeValueBytes where every test passes.
pub decode_value_bytes_passes :
    (decode : Decoder) (t : ℕ) (tail : Bytes) (depth len n : ℕ)
    → uvarint tail ≡ (len, n)
    → len ≤ max_payload
    → 0 < n
    → 1 + n + len ≤ length (t ∷ tail)
    → decode_value_bytes decode (t ∷ tail) depth ≡ (do
      v ← decode (type_of_byte t) (take len (drop (1 + n) (t ∷ tail))) (depth + 1)
      ok (v, 1 + n + len))
unfolding decode_value_bytes
decode_value_bytes_passes decode t tail depth len n e small some_bytes enough = rw (
  e,
  le→ltb max_payload len small,
  ne→== n 0 (omega arith),
  le→ltb (length (t ∷ tail)) (1 + n + len) enough,
)

pub decode_header :
    (decode : Decoder) (t : TypeCode) (p rest : Bytes) (depth : ℕ)
    → length p ≤ max_payload
    → decode_value_bytes decode (with_header t p ++ rest) depth
      ≡ (do v ← decode t p (depth + 1); ok (v, length (with_header t p)))
unfolding with_header
decode_header decode t p rest depth small =
    let u = put_uvarint (length p) in
    rw (append_assoc u p rest) (
      decode_value_bytes_passes decode (code t) (u ++ (p ++ rest)) depth (length p) (length u)
        (uvarint-put_uvarint (length p) (p ++ rest) (omega arith)) small
        (omega (arith, length-put_uvarint (length p)))
        (omega (arith, length-append {0} u (p ++ rest), length-append {0} p rest))
      ∙ rw
          (
            drop-header (code t) u (p ++ rest),
            take-append_length p rest,
            type_of_byte-code t,
            length-append u p,
          )
          (ap (λ (n : ℕ). decode t p (depth + 1) >>= λ v. ok (v, n)) (omega arith)))
