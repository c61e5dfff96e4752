-- ===== src/Tlv/Tests.antt =====
-- Runs of the codec, and its theorems at concrete inputs.
use hush_go.Base.{
  ℕ, zero, suc, ◌≤◌, Bytes, [], ◌∷◌, Ensures, ◌>>=◌, ok, panics, ◌≡◌, refl, arith, str_eq, ◌↔◌,
}
use hush_go.Base.Int.{pos, negsuc, unix_milli}
use hush_go.Base.BigEndian.{put_u32, put_u64}
use hush_go.Base.Uvarint.{uvarint, put_uvarint}
use hush_go.Base.{OnOk, ◌==◌}
use hush_go.Tlv.Typed.{opens, decode_bytes-opens}
use hush_go.Tlv.Types.{
  Value, Map, code, typ, string, int32, array, map, timestamp, nil, cons, no_entries, entry,
  type_array,
}
use hush_go.Tlv.Map.{get}
use hush_go.Tlv.Encode.{marshal_value, with_header, marshal_payload}
use hush_go.Tlv.Decode.{decode_bytes, decode_value, max_decode_depth}
use hush_go.Tlv.Wire.{payload_bytes, on_wire, nesting, IsWire}
use hush_go.Tlv.RoundTrip.{decode_bytes-marshal_value}
use hush_go.Tlv.Total.{decode_value_total, IsDecoded}
use hush_go.Tlv.Slices.{decode_bytes-panics_iff, EndWraps}

abbrev key_a : Bytes
key_a = 0x61 ∷ []

abbrev key_b : Bytes
key_b = 0x62 ∷ []

-- {"a": [-2, 1.5 ms], "b": "hi"}
abbrev sample : Map
sample =
    entry key_a (array (cons (int32 (negsuc 1)) (cons (timestamp (pos 1_500_000)) nil)))
      (entry key_b (string (0x68 ∷ 0x69 ∷ [])) no_entries)

sample-IsWire : IsWire (map sample)
unfolding get str_eq payload_bytes with_header put_uvarint unix_milli put_u32 put_u64 typ code
sample-IsWire = ((refl, (refl, tt)), omega arith)

sample-nesting : nesting (map sample) ≤ max_decode_depth
unfolding nesting
sample-nesting = omega arith

marshal_sample : marshal_value (string (0x68 ∷ 0x69 ∷ [])) ≡ ok (0x01 ∷ 0x02 ∷ 0x68 ∷ 0x69 ∷ [])
unfolding marshal_value marshal_payload with_header put_uvarint typ code
marshal_sample = refl

-- An empty map inside 32 others is 64 levels deep; one more is too deep.
abbrev nested_maps : ℕ → Value
nested_maps zero = map no_entries
nested_maps (suc n) = map (entry [] (nested_maps n) no_entries)

nested_maps_limit : (nesting (nested_maps 32) ≡ 64) × (nesting (nested_maps 33) ≡ 66)
unfolding nesting
nested_maps_limit = (refl, refl)

-- A length of 2 ^ 64 - 1 in ten bytes.
abbrev wrapping : Bytes
wrapping = 0x01 ∷ 0xff ∷ 0xff ∷ 0xff ∷ 0xff ∷ 0xff ∷ 0xff ∷ 0xff ∷ 0xff ∷ 0xff ∷ 0x01 ∷ []

wrapping_runs : decode_bytes wrapping ≡ panics
unfolding decode_bytes uvarint
wrapping_runs = refl

decode_bytes-marshal_value_example :
    (do buf ← marshal_value (map sample); decode_bytes buf) ≡ ok (on_wire (map sample))
unfolding payload_bytes with_header put_uvarint put_u32 put_u64
decode_bytes-marshal_value_example =
    decode_bytes-marshal_value (map sample) sample-IsWire sample-nesting (omega arith)

decode_bytes-panics_iff_example : (decode_bytes wrapping ≡ panics) ↔ EndWraps wrapping
decode_bytes-panics_iff_example = decode_bytes-panics_iff wrapping (omega arith)

decode_value_total_example :
    Ensures (IsDecoded 63) (decode_value 3 type_array (0x0e ∷ 0x00 ∷ []) 63)
decode_value_total_example =
    decode_value_total 3 63 type_array (0x0e ∷ 0x00 ∷ []) (omega arith) (omega arith)

-- An array of one null.
decode_bytes-opens_example :
    OnOk
      (λ v. opens type_array v ≡ (code type_array == 0x0c))
      (decode_bytes (0x0c ∷ 0x02 ∷ 0x0e ∷ 0x00 ∷ []))
decode_bytes-opens_example = decode_bytes-opens 0x0c (0x02 ∷ 0x0e ∷ 0x00 ∷ []) type_array
