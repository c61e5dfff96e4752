-- ===== src/Tlv/RoundTrip.antt =====
-- What marshalValue wrote, DecodeBytes reads back.
pub mod Header
pub mod Loops
pub mod Levels
use hush_go.Base.{
  ℕ, ◌+◌, ◌-◌, ◌^◌, ◌≤◌, ◌<◌, Bytes, ◌∷◌, ◌++◌, length, take, drop, length-append, take-length, ok,
  ◌>>=◌, ◌≡◌, ap, ◌∙◌, ◌==◌, le→ltb, ne→==, arith,
}
use hush_go.Base.Int.{
  u32_of_int, u64_of_int, int_of_u32, int_of_u64, of_unix_milli, unix_milli, u32_of_int-lt,
  u64_of_int-lt, int_of_u32-u32_of_int, int_of_u64-u64_of_int,
}
use hush_go.Base.BigEndian.{
  put_u16, put_u32, put_u64, get_u16, get_u32, get_u64, get_u16-put_u16, get_u32-put_u32,
  get_u64-put_u64,
}
use hush_go.Base.Uvarint.{uvarint, put_uvarint, uvarint-put_uvarint, length-put_uvarint}
use hush_go.Tlv.Types.{
  type_map, Value, Items, Map, code, typ, type_of_byte, TypeCode, other, string, bytes, uint8,
  uint16, uint32, uint64, int32, int64, float32, float64, bool, array, map, null, timestamp,
  unknown, nil, cons, no_entries, entry, type_string,
}
use hush_go.Tlv.Map.{get, set}
use hush_go.Tlv.Map.Laws.{IsDistinct}
use hush_go.Tlv.Encode.{with_header, marshal_value, must_encode, must_encode_map}
use native.Mathlib.Nat.{mod-eq_of_lt}
use hush_go.Tlv.Decode.{
  Decoder, max_payload, decode_value_bytes, decode_items, decode_entry, decode_entries,
  decode_fixed, decode_payload, decode_value, decode_bytes, decode_map, append_item,
  max_decode_depth, decode_fuel,
}
use hush_go.Tlv.Wire.{
  entries_bytes, payload_bytes, items_bytes, entries_bytes, on_wire, items_on_wire, map_on_wire,
  nesting, nesting_items, nesting_map, IsWire, IsWireItems, IsWireMap, marshal_payload_total,
}
use Header.{decode_header, type_of_byte-code, drop-header}
use Loops.{
  append_items, append_items-append_item, append_items-nil, append_map, append_map-no_entries,
  append_map-set, IsFresh, IsFresh-no_entries, IsFresh-set, decode_items_step, decode_entries_step,
}
use Levels.{reads_back}

decode_bytes_passes :
    (t : ℕ) (tail : Bytes) (len n : ℕ)
    → uvarint tail ≡ (len, n)
    → 0 < n
    → 1 + n + len ≡ length (t ∷ tail)
    → 1 + n + len < 2 ^ 64
    → decode_bytes (t ∷ tail)
      ≡ decode_value decode_fuel (type_of_byte t) (take len (drop (1 + n) (t ∷ tail))) 0
unfolding decode_bytes
decode_bytes_passes t tail len n e some_bytes whole small =
    rw
      (
        e,
        ne→== n 0 (omega arith),
        mod-eq_of_lt small,
        le→ltb (length (t ∷ tail)) (1 + n + len) (omega arith),
        le→ltb (1 + n + len) (1 + n) (omega arith),
      )
      (ap
        (λ (k : ℕ). decode_value decode_fuel (type_of_byte t) (take k (drop (1 + n) (t ∷ tail))) 0)
        (omega arith))

decode_bytes-with_header :
    (t : TypeCode) (p : Bytes)
    → length p < 2 ^ 63
    → decode_bytes (with_header t p) ≡ decode_value decode_fuel t p 0
unfolding with_header
decode_bytes-with_header t p small =
    let u = put_uvarint (length p) in
    decode_bytes_passes (code t) (u ++ p) (length p) (length u)
      (uvarint-put_uvarint (length p) p (omega arith))
      (omega (arith, length-put_uvarint (length p))) (omega (arith, length-append {0} u p))
      (omega (arith, length-put_uvarint (length p)))
    ∙ rw (drop-header (code t) u p, take-length p, type_of_byte-code t)

-- DecodeBytes gives back what marshalValue wrote, with timestamps cut to milliseconds: for a value
-- that the format carries, at most 64 levels deep and with a payload length that is a Go int.
pub decode_bytes-marshal_value :
    (v : Value)
    → IsWire v
    → nesting v ≤ max_decode_depth
    → length (payload_bytes v) < 2 ^ 63
    → (do buf ← marshal_value v; decode_bytes buf) ≡ ok (on_wire v)
unfolding marshal_value
decode_bytes-marshal_value v h n small =
    rw (marshal_payload_total v h, decode_bytes-with_header (typ v) (payload_bytes v) small)
      (reads_back v decode_fuel 0 h (omega arith) (omega arith))

must_encode-ok : (v : Value) {buf : Bytes} → marshal_value v ≡ ok buf → must_encode v ≡ ok buf
unfolding must_encode
must_encode-ok v e = rw (e, must_encode)

pub marshal_value_total :
    (v : Value) → IsWire v → marshal_value v ≡ ok (with_header (typ v) (payload_bytes v))
unfolding marshal_value
marshal_value_total v h = rw (marshal_payload_total v h)

-- The bytes of a map behind its header.
abbrev pub map_bytes : Map → Bytes
map_bytes m = with_header type_map (entries_bytes m)

pub must_encode_map-map_bytes : (m : Map) → IsWire (map m) → must_encode_map m ≡ ok (map_bytes m)
unfolding must_encode_map payload_bytes typ
must_encode_map-map_bytes m h = must_encode-ok (map m) (marshal_value_total (map m) h)

-- DecodeMap gives back a map that the format carries, within the depth limit, from its bytes.
pub decode_map-map_bytes :
    (m : Map)
    → IsWire (map m)
    → nesting (map m) ≤ max_decode_depth
    → length (entries_bytes m) < 2 ^ 63
    → decode_map (map_bytes m) ≡ ok (map_on_wire m)
unfolding decode_map on_wire payload_bytes typ
decode_map-map_bytes m h n small = rw (
  decode_bytes-with_header type_map (entries_bytes m) small,
  reads_back (map m) decode_fuel 0 h (omega arith) (omega arith),
)

-- DecodeMap gives back what MustEncodeMap wrote, with timestamps cut to milliseconds: for a map that
-- the format carries, at most 64 levels deep and with a payload length that is a Go int.
pub decode_map-must_encode_map :
    (m : Map)
    → IsWire (map m)
    → nesting (map m) ≤ max_decode_depth
    → length (entries_bytes m) < 2 ^ 63
    → (do buf ← must_encode_map m; decode_map buf) ≡ ok (map_on_wire m)
decode_map-must_encode_map m h n small =
    rw (must_encode_map-map_bytes m h) (decode_map-map_bytes m h n small)
