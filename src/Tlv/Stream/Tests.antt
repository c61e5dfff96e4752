-- ===== src/Tlv/Stream/Tests.antt =====
-- The theorems on streams at concrete inputs.
use hush_go.Base.{true, List, [], ◌∷◌, ◌++◌, All, ok, ◌>>=◌, ◌≡◌, arith}
use hush_go.Base.{Ensures}
use hush_go.Base.Uvarint.{put_uvarint}
use hush_go.Tlv.Types.{typ, code, Value, uint8, string, bool, array, nil, cons}
use hush_go.Tlv.Encode.{with_header}
use hush_go.Tlv.Wire.{payload_bytes, nesting}
use hush_go.Tlv.Total.{IsDecoded}
use hush_go.Tlv.Stream.{decode_all}
use hush_go.Tlv.Stream.RoundTrip.{
  IsStreamable, encode_all, on_wire_all, decode_all-encode_all, decode_all-cut_short,
}
use hush_go.Tlv.Stream.Total.{decode_all-Ensures}

abbrev two_values : List Value
two_values = uint8 7 ∷ array (cons (bool true) (cons (string (104 ∷ 105 ∷ [])) nil)) ∷ []

two_values-IsStreamable : All IsStreamable two_values
unfolding nesting payload_bytes with_header put_uvarint typ code
two_values-IsStreamable = omega arith

decode_all-encode_all_example :
    (do bufs ← encode_all two_values; decode_all bufs) ≡ ok (on_wire_all two_values)
decode_all-encode_all_example = decode_all-encode_all two_values two_values-IsStreamable

decode_all-cut_short_example :
    ((do bufs ← encode_all two_values; decode_all (bufs ++ (1 ∷ []))) ≡ ok (on_wire_all two_values))
    × ((do bufs ← encode_all two_values; decode_all (bufs ++ (1 ∷ put_uvarint 300)))
        ≡ ok (on_wire_all two_values))
decode_all-cut_short_example =
    decode_all-cut_short two_values 1 300 two_values-IsStreamable (omega arith) (omega arith)

decode_all-Ensures_example : Ensures (All (IsDecoded 0)) (decode_all (1 ∷ 2 ∷ 3 ∷ []))
decode_all-Ensures_example = decode_all-Ensures (1 ∷ 2 ∷ 3 ∷ [])
