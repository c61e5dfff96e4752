-- ===== src/Tlv/Stream.antt =====
-- tlv/decode.go: decoding from a stream, which is the list of the bytes still to come. bufio.Reader
-- only reads ahead.
pub mod RoundTrip
pub mod Total
mod Tests
use hush_go.Base.{
  ℕ, zero, suc, Bytes, List, [], ◌∷◌, length, Outcome, ok, err, panics, out_of_fuel, ◌>>=◌, ltb,
  if◌then◌else◌, none, some,
}
use hush_go.Base.{eof, payload_too_large}
use hush_go.Base.ReadUvarint.{read_uvarint}
use hush_go.Base.Reader.{read_full}
use hush_go.Tlv.Types.{Value, type_of_byte}
use hush_go.Tlv.Decode.{max_payload, decode_fuel, decode_value}

-- The payload of `len` bytes; nothing is read for an empty one.
unfoldable pub read_payload : ℕ → Bytes → Outcome (Bytes × Bytes)
read_payload len stream = if ltb 0 len then read_full len stream else ok ([], stream)

-- decodeReader: the value and the bytes behind it. The length is tested before the error that came
-- with it.
unfoldable pub decode_reader : Bytes → Outcome (Value × Bytes)
decode_reader [] = err eof
decode_reader (t ∷ tail) =
    let (len, failed, after) = read_uvarint tail in
    let decoded = (do
      (payload, rest) ← read_payload len after
      v ← decode_value decode_fuel (type_of_byte t) payload 0
      ok (v, rest)) in
    if ltb max_payload len
    then err payload_too_large
    else elim failed [ some e ↦ err e | none ↦ decoded ]

-- Decode
unfoldable pub decode : Bytes → Outcome Value
decode stream = do (v, _) ← decode_reader stream; ok v

-- DecodeAll; `go_on` is the rest of its loop. A round that goes on takes a byte at least, so one more
-- round than there are bytes is enough.
unfoldable pub after_round :
    (Bytes → Outcome (List Value)) → Outcome (Value × Bytes) → Outcome (List Value)
after_round go_on (ok (v, rest)) = do vs ← go_on rest; ok (v ∷ vs)
after_round go_on (err eof) = ok []
after_round go_on (err e) = err e
after_round go_on panics = panics
after_round go_on out_of_fuel = out_of_fuel

unfoldable pub decode_rounds : ℕ → Bytes → Outcome (List Value)
decode_rounds zero stream = out_of_fuel
decode_rounds (suc rounds) stream = after_round (decode_rounds rounds) (decode_reader stream)

unfoldable pub decode_all : Bytes → Outcome (List Value)
decode_all stream = decode_rounds (suc (length stream)) stream
