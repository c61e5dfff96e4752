-- ===== src/Tlv/Decode.antt =====
-- tlv/decode.go: decoding from a byte slice.
use hush_go.Base.{
  ℕ, zero, suc, ◌+◌, ◌%◌, ◌^◌, ◌-◌, Bool, true, false, not, Bytes, [], ◌∷◌, length, take, drop,
  Outcome, ok, err, panics, out_of_fuel, ◌>>=◌, ltb, ◌==◌, if◌then◌else◌, unexpected_eof,
  payload_too_large, invalid_varint, nested_too_deep, short_payload, key_not_string, missing_value,
  expected_map, unknown_type,
}
use hush_go.Base.Int.{int_of_u32, int_of_u64, of_unix_milli}
use hush_go.Base.BigEndian.{get_u16, get_u32, get_u64}
use hush_go.Base.Uvarint.{uvarint}
use hush_go.Tlv.Types.{
  Value, Items, Map, code, typ, type_of_byte, TypeCode, other, type_string, type_bytes, type_uint8,
  type_uint16, type_uint32, type_uint64, type_int32, type_int64, type_float32, type_float64,
  type_bool, type_array, type_map, type_null, type_timestamp, string, bytes, uint8, uint16, uint32,
  uint64, int32, int64, float32, float64, bool, array, map, null, timestamp, nil, cons, string_of,
  map_of,
}
use hush_go.Tlv.Map.{new_map, set}

abbrev pub max_decode_depth : ℕ
max_decode_depth = 64

-- The largest payload of a nested or streamed value.
abbrev pub max_payload : ℕ
max_payload = 524288

-- decodeValue on a nested payload, at a given depth.
abbrev pub Decoder : Type 0
Decoder = TypeCode → Bytes → ℕ → Outcome Value

-- decodeValueBytes: the value at the front of `buf` and the number of bytes it takes.
unfoldable pub decode_value_bytes : Decoder → Bytes → ℕ → Outcome (Value × ℕ)
decode_value_bytes decode [] depth = err unexpected_eof
decode_value_bytes decode (t ∷ tail) depth =
    let (len, n) = uvarint tail in
    let start = 1 + n in
    if ltb max_payload len
    then err payload_too_large
    else if n == 0
    then err invalid_varint
    else if ltb (length (t ∷ tail)) (start + len)
    then err unexpected_eof
    else do
      v ← decode (type_of_byte t) (take len (drop start (t ∷ tail))) (depth + 1)
      ok (v, start + len)

abbrev pub append_item : Items → Value → Items
append_item nil v = cons v nil
append_item (cons w vs) v = cons w (append_item vs v)

-- The loops of decodeValue over the payload of an array and of a map. Each round takes two bytes
-- at least, so as many rounds as there are bytes are enough.
unfoldable pub decode_items : (Bytes → Outcome (Value × ℕ)) → ℕ → Bytes → Items → Outcome Items
decode_items next rounds [] elems = ok elems
decode_items next zero (b ∷ bs) elems = out_of_fuel
decode_items next (suc rounds) (b ∷ bs) elems = do
  (v, n) ← next (b ∷ bs)
  decode_items next rounds (drop n (b ∷ bs)) (append_item elems v)

abbrev pub is_string : TypeCode → Bool
is_string type_string = true
is_string _ = false

-- One round over a map's payload: a key, its value, and the bytes behind them.
unfoldable pub decode_entry :
    (Bytes → Outcome (Value × ℕ)) → Bytes → Outcome (Bytes × Value × Bytes)
unfolding typ string_of
decode_entry next buf = do
  (key, n) ← next buf
  let rest = drop n buf
  let entry_of = do (val, n2) ← next rest; name ← string_of key; ok (name, val, drop n2 rest)
  if not (is_string (typ key))
      then err key_not_string
      else if length rest == 0
      then err missing_value
      else entry_of

unfoldable pub decode_entries : (Bytes → Outcome (Value × ℕ)) → ℕ → Bytes → Map → Outcome Map
unfolding decode_entry
decode_entries next rounds [] m = ok m
decode_entries next zero (b ∷ bs) m = out_of_fuel
decode_entries next (suc rounds) (b ∷ bs) m = do
  (name, val, rest) ← decode_entry next (b ∷ bs)
  decode_entries next rounds rest (set m name val)

-- A fixed-width value reads the first `width` bytes of its payload.
unfoldable pub decode_fixed : ℕ → Bytes → (Bytes → Value) → Outcome Value
decode_fixed width payload read =
    if ltb (length payload) width then err short_payload else ok (read (take width payload))

first_byte : Bytes → ℕ
first_byte [] = 0
first_byte (b ∷ bs) = b

-- The switch of decodeValue, behind its test of the depth.
unfoldable pub decode_payload : Decoder → TypeCode → Bytes → ℕ → Outcome Value
unfolding decode_fixed first_byte
decode_payload decode type_string payload depth = ok (string payload)
decode_payload decode type_bytes payload depth = ok (bytes payload)
decode_payload decode type_uint8 payload depth = decode_fixed 1 payload (λ p. uint8 (first_byte p))
decode_payload decode type_uint16 payload depth = decode_fixed 2 payload (λ p. uint16 (get_u16 p))
decode_payload decode type_uint32 payload depth = decode_fixed 4 payload (λ p. uint32 (get_u32 p))
decode_payload decode type_uint64 payload depth = decode_fixed 8 payload (λ p. uint64 (get_u64 p))
decode_payload decode type_int32 payload depth =
    decode_fixed 4 payload (λ p. int32 (int_of_u32 (get_u32 p)))
decode_payload decode type_int64 payload depth =
    decode_fixed 8 payload (λ p. int64 (int_of_u64 (get_u64 p)))
decode_payload decode type_float32 payload depth = decode_fixed 4 payload (λ p. float32 (get_u32 p))
decode_payload decode type_float64 payload depth = decode_fixed 8 payload (λ p. float64 (get_u64 p))
decode_payload decode type_bool payload depth =
    decode_fixed 1 payload (λ p. bool (not (first_byte p == 0)))
decode_payload decode type_null payload depth = ok null
decode_payload decode type_timestamp payload depth =
    decode_fixed 8 payload (λ p. timestamp (of_unix_milli (int_of_u64 (get_u64 p))))
decode_payload decode type_array payload depth = do
  let next = λ (buf : Bytes). decode_value_bytes decode buf depth
  elems ← decode_items next (length payload) payload nil
  ok (array elems)
decode_payload decode type_map payload depth = do
  let next = λ (buf : Bytes). decode_value_bytes decode buf (depth + 1)
  m ← decode_entries next (length payload) payload new_map
  ok (map m)
decode_payload decode (other n) payload depth = err (unknown_type (code (other n)))

-- decodeValue. A nested call is one level deeper at least, so that 66 - depth units of fuel are
-- enough.
unfoldable pub decode_value : ℕ → Decoder
decode_value zero t payload depth = out_of_fuel
decode_value (suc fuel) t payload depth =
    if ltb max_decode_depth depth
    then err nested_too_deep
    else decode_payload (decode_value fuel) t payload depth

abbrev pub decode_fuel : ℕ
decode_fuel = 66

-- DecodeBytes. The end of the payload is a uint64 sum, which wraps, and a slice whose bounds are
-- out of order panics.
unfoldable pub decode_bytes : Bytes → Outcome Value
decode_bytes [] = err unexpected_eof
decode_bytes (t ∷ tail) =
    let (len, n) = uvarint tail in
    let start = 1 + n in
    let end = (start + len) % 2 ^ 64 in
    if n == 0
    then err invalid_varint
    else if ltb (length (t ∷ tail)) end
    then err unexpected_eof
    else if ltb end start
    then panics
    else decode_value decode_fuel (type_of_byte t) (take (end - start) (drop start (t ∷ tail))) 0

-- MustDecode
unfoldable pub must_decode : Bytes → Outcome Value
must_decode buf = elim (decode_bytes buf) [
  | ok v ↦ ok v
  | err e ↦ panics
  | panics ↦ panics
  | out_of_fuel ↦ out_of_fuel
]

abbrev pub is_map : TypeCode → Bool
is_map type_map = true
is_map _ = false

-- DecodeMap
unfoldable pub decode_map : Bytes → Outcome Map
unfolding typ map_of
decode_map buf = do v ← decode_bytes buf; if is_map (typ v) then map_of v else err expected_map
