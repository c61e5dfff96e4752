-- ===== src/Tlv/Stream/RoundTrip.antt =====
-- DecodeAll on what Encode wrote, whole or cut short.
use hush_go.Base.{
  ℕ, zero, suc, ◌≤◌, ◌<◌, Bytes, List, [], ◌∷◌, ◌++◌, append_assoc, append-nil, length,
  length-append, All, Outcome, ok, err, ◌>>=◌, ◌≡◌, refl, lt→ltb, le→ltb, arith, none,
}
use hush_go.Base.{eof}
use hush_go.Base.Uvarint.{put_uvarint}
use hush_go.Base.ReadUvarint.{read_uvarint, read_uvarint-put_uvarint}
use hush_go.Base.Reader.{read_full, read_full-append}
use hush_go.Tlv.Types.{Value, TypeCode, typ}
use hush_go.Tlv.Encode.{with_header, marshal_value}
use hush_go.Tlv.Decode.{max_payload, max_decode_depth, decode_fuel, decode_value}
use hush_go.Tlv.Wire.{payload_bytes, on_wire, nesting, IsWire}
use hush_go.Tlv.RoundTrip.{marshal_value_total}
use hush_go.Tlv.RoundTrip.Header.{type_of_byte-code, length-with_header}
use hush_go.Tlv.RoundTrip.Levels.{reads_back}
use hush_go.Tlv.Stream.{read_payload, decode_reader, after_round, decode_rounds, decode_all}

-- What calls of Encode on one writer write.
abbrev pub encode_all : List Value → Outcome Bytes
encode_all [] = ok []
encode_all (v ∷ vs) = do buf ← marshal_value v; bufs ← encode_all vs; ok (buf ++ bufs)

-- Values that the stream's reader takes back.
abbrev pub IsStreamable : Value → Type 0
IsStreamable v =
    IsWire v × (nesting v ≤ max_decode_depth) × (length (payload_bytes v) ≤ max_payload)

abbrev pub on_wire_all : List Value → List Value
on_wire_all [] = []
on_wire_all (v ∷ vs) = on_wire v ∷ on_wire_all vs

abbrev pub written : List Value → Bytes
written [] = []
written (v ∷ vs) = with_header (typ v) (payload_bytes v) ++ written vs

encode_all-written : (vs : List Value) → All IsStreamable vs → encode_all vs ≡ ok (written vs)
encode_all-written [] h = refl
encode_all-written (v ∷ vs) (s, h) = rw (marshal_value_total v s.0, encode_all-written vs h)

read_payload-append : (p rest : Bytes) → read_payload (length p) (p ++ rest) ≡ ok (p, rest)
unfolding read_payload
read_payload-append [] rest = refl
read_payload-append (b ∷ p) rest =
    rw (lt→ltb 0 (length (b ∷ p)) (omega arith))
      (read_full-append (length (b ∷ p)) (b ∷ p) rest refl)

decode_reader-with_header :
    (t : TypeCode) (p rest : Bytes)
    → length p ≤ max_payload
    → decode_reader (with_header t p ++ rest)
      ≡ (do v ← decode_value decode_fuel t p 0; ok (v, rest))
unfolding decode_reader with_header
decode_reader-with_header t p rest small =
    let len = length p in
    let header : read_uvarint (put_uvarint len ++ p ++ rest) ≡ (len, none, p ++ rest) =
      rw (append_assoc (put_uvarint len) p rest)
        (read_uvarint-put_uvarint len (p ++ rest) (omega arith)) in
    rw (
      header,
      header,
      le→ltb max_payload len small,
      read_payload-append p rest,
      type_of_byte-code t,
    )

decode_reader-written :
    (v : Value) (rest : Bytes)
    → IsStreamable v
    → decode_reader (with_header (typ v) (payload_bytes v) ++ rest) ≡ ok (on_wire v, rest)
decode_reader-written v rest h = rw (
  decode_reader-with_header (typ v) (payload_bytes v) rest h.2,
  reads_back v decode_fuel 0 h.0 (omega arith) (omega arith),
)

decode_rounds-written :
    (vs : List Value) (rounds : ℕ) (tail : Bytes)
    → length vs < rounds
    → All IsStreamable vs
    → decode_reader tail ≡ err eof
    → decode_rounds rounds (written vs ++ tail) ≡ ok (on_wire_all vs)
unfolding decode_rounds after_round
decode_rounds-written vs zero tail h s e = absurd (omega arith)
decode_rounds-written [] (suc rounds) tail h s e = rw e
decode_rounds-written (v ∷ vs) (suc rounds) tail h (s, ss) e = rw (
  append_assoc (with_header (typ v) (payload_bytes v)) (written vs) tail,
  decode_reader-written v (written vs ++ tail) s,
  decode_rounds-written vs rounds tail (omega arith) ss e,
)

length-written : (vs : List Value) → length vs ≤ length (written vs)
length-written [] = omega arith
length-written (v ∷ vs) = omega (
  arith,
  length-written vs,
  length-append {0} (with_header (typ v) (payload_bytes v)) (written vs),
  length-with_header (typ v) (payload_bytes v),
)

decode_all-written :
    (vs : List Value) (tail : Bytes)
    → All IsStreamable vs
    → decode_reader tail ≡ err eof
    → decode_all (written vs ++ tail) ≡ ok (on_wire_all vs)
unfolding decode_all
decode_all-written vs tail s e =
    decode_rounds-written vs _ tail
      (omega (arith, length-written vs, length-append {0} (written vs) tail)) s e

decode_reader_at_end : decode_reader [] ≡ err eof
unfolding decode_reader
decode_reader_at_end = refl

decode_reader_type_only : (t : ℕ) → decode_reader (t ∷ []) ≡ err eof
unfolding decode_reader read_uvarint
decode_reader_type_only t = refl

decode_reader_header_only :
    (t n : ℕ) → 0 < n → n ≤ max_payload → decode_reader (t ∷ put_uvarint n) ≡ err eof
unfolding decode_reader read_payload read_full
decode_reader_header_only t n pos small =
    let e : read_uvarint (put_uvarint n) ≡ (n, none, []) =
      rw (← append-nil (put_uvarint n)) (read_uvarint-put_uvarint n [] (omega arith)) in
    rw (e, e, le→ltb max_payload n small, lt→ltb 0 n pos)

-- DecodeAll gives back what calls of Encode wrote, with timestamps cut to milliseconds: for values
-- that the format carries, at most 64 levels deep and with payloads of at most 524288 bytes.
pub decode_all-encode_all :
    (vs : List Value)
    → All IsStreamable vs
    → (do bufs ← encode_all vs; decode_all bufs) ≡ ok (on_wire_all vs)
decode_all-encode_all vs s =
    rw (encode_all-written vs s, ← append-nil (written vs))
      (decode_all-written vs [] s decode_reader_at_end)

-- A stream that ends behind a type byte, or behind the header of a payload that is not empty, is decoded with no
-- error to the values in front of them.
pub decode_all-cut_short :
    (vs : List Value) (t n : ℕ)
    → All IsStreamable vs
    → 0 < n
    → n ≤ max_payload
    → ((do bufs ← encode_all vs; decode_all (bufs ++ (t ∷ []))) ≡ ok (on_wire_all vs))
      × ((do bufs ← encode_all vs; decode_all (bufs ++ (t ∷ put_uvarint n))) ≡ ok (on_wire_all vs))
decode_all-cut_short vs t n s pos small = (
  rw (encode_all-written vs s) (decode_all-written vs (t ∷ []) s (decode_reader_type_only t)),
  rw (encode_all-written vs s)
      (decode_all-written vs (t ∷ put_uvarint n) s (decode_reader_header_only t n pos small)),
)
