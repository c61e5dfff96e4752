-- ===== src/Tlv/Encode.antt =====
-- tlv/types.go and tlv/encode.go: marshalling.
use hush_go.Base.{
  Bytes, [], ◌∷◌, ◌++◌, length, Outcome, ok, err, panics, out_of_fuel, ◌>>=◌, unknown_type,
  if◌then◌else◌,
}
use hush_go.Base.Int.{u32_of_int, u64_of_int, unix_milli}
use hush_go.Base.BigEndian.{put_u16, put_u32, put_u64}
use hush_go.Base.Uvarint.{put_uvarint}
use hush_go.Tlv.Types.{
  Value, Items, Map, code, typ, TypeCode, other, string, bytes, uint8, uint16, uint32, uint64,
  int32, int64, float32, float64, bool, array, map, null, timestamp, unknown, nil, cons, no_entries,
  entry,
}

-- The part of marshalValue behind the call of marshalPayload: type, length and payload.
unfoldable pub with_header : TypeCode → Bytes → Bytes
with_header t payload = code t ∷ (put_uvarint (length payload) ++ payload)

-- marshalPayload. The call marshalValue(elem) in a loop is marshalPayload with its header, and
-- marshalValue(String(key)) is the key with its header, since marshalPayload returns a string as
-- it is.
unfoldable mutual
  pub marshal_payload : Value → Outcome Bytes
  marshal_payload (string s) = ok s
  marshal_payload (bytes b) = ok b
  marshal_payload (uint8 n) = ok (n ∷ [])
  marshal_payload (uint16 n) = ok (put_u16 n)
  marshal_payload (uint32 n) = ok (put_u32 n)
  marshal_payload (uint64 n) = ok (put_u64 n)
  marshal_payload (int32 n) = ok (put_u32 (u32_of_int n))
  marshal_payload (int64 n) = ok (put_u64 (u64_of_int n))
  marshal_payload (float32 f) = ok (put_u32 f)
  marshal_payload (float64 f) = ok (put_u64 f)
  marshal_payload (bool b) = ok ((if b then 1 else 0) ∷ [])
  marshal_payload null = ok []
  marshal_payload (timestamp t) = ok (put_u64 (u64_of_int (unix_milli t)))
  marshal_payload (array vs) = marshal_items vs
  marshal_payload (map m) = marshal_entries m
  marshal_payload (unknown n) = err (unknown_type (code (other n)))

  pub marshal_items : Items → Outcome Bytes
  marshal_items nil = ok []
  marshal_items (cons v vs) = do
    payload ← marshal_payload v
    rest ← marshal_items vs
    ok (with_header (typ v) payload ++ rest)

  pub marshal_entries : Map → Outcome Bytes
  marshal_entries no_entries = ok []
  marshal_entries (entry key v m) = do
    payload ← marshal_payload v
    rest ← marshal_entries m
    ok (with_header (typ (string key)) key ++ (with_header (typ v) payload ++ rest))

-- marshalValue
unfoldable pub marshal_value : Value → Outcome Bytes
marshal_value v = do payload ← marshal_payload v; ok (with_header (typ v) payload)

-- Encode to a writer that has taken the bytes `written`. (A writer that fails is the caller's.)
unfoldable pub encode : Bytes → Value → Outcome Bytes
encode written v = do buf ← marshal_value v; ok (written ++ buf)

-- MustEncode
unfoldable pub must_encode : Value → Outcome Bytes
must_encode v = elim (marshal_value v) [
  | ok buf ↦ ok buf
  | err e ↦ panics
  | panics ↦ panics
  | out_of_fuel ↦ out_of_fuel
]

-- EncodeMap and MustEncodeMap
unfoldable pub encode_map : Bytes → Map → Outcome Bytes
encode_map written m = encode written (map m)

unfoldable pub must_encode_map : Map → Outcome Bytes
must_encode_map m = must_encode (map m)
