-- ===== src/Tlv/Wire.antt =====
-- The wire form of a value by itself: the bytes of its payload, the value that a reader gets back,
-- how deep it nests, and which values the format carries.
use hush_go.Base.{
  ℕ, ◌+◌, ◌^◌, ◌≤◌, ◌<◌, max, Bytes, [], ◌∷◌, ◌++◌, length, ok, ◌≡◌, refl, if◌then◌else◌,
}
use hush_go.Base.Int.{u32_of_int, u64_of_int, unix_milli, of_unix_milli, IsInt32, IsInt64}
use hush_go.Base.BigEndian.{put_u16, put_u32, put_u64}
use hush_go.Tlv.Types.{
  Value, Items, Map, typ, string, bytes, uint8, uint16, uint32, uint64, int32, int64, float32,
  float64, bool, array, map, null, timestamp, unknown, nil, cons, no_entries, entry,
}
use hush_go.Tlv.Map.Laws.{IsDistinct}
use hush_go.Tlv.Encode.{with_header, marshal_payload, marshal_items, marshal_entries}
use hush_go.Tlv.Decode.{max_payload}

unfoldable mutual
  pub payload_bytes : Value → Bytes
  payload_bytes (string s) = s
  payload_bytes (bytes b) = b
  payload_bytes (uint8 n) = n ∷ []
  payload_bytes (uint16 n) = put_u16 n
  payload_bytes (uint32 n) = put_u32 n
  payload_bytes (uint64 n) = put_u64 n
  payload_bytes (int32 n) = put_u32 (u32_of_int n)
  payload_bytes (int64 n) = put_u64 (u64_of_int n)
  payload_bytes (float32 f) = put_u32 f
  payload_bytes (float64 f) = put_u64 f
  payload_bytes (bool b) = (if b then 1 else 0) ∷ []
  payload_bytes (array vs) = items_bytes vs
  payload_bytes (map m) = entries_bytes m
  payload_bytes null = []
  payload_bytes (timestamp t) = put_u64 (u64_of_int (unix_milli t))
  payload_bytes (unknown n) = []

  pub items_bytes : Items → Bytes
  items_bytes nil = []
  items_bytes (cons v vs) = with_header (typ v) (payload_bytes v) ++ items_bytes vs

  pub entries_bytes : Map → Bytes
  entries_bytes no_entries = []
  entries_bytes (entry k v m) =
      with_header (typ (string k)) k ++ (with_header (typ v) (payload_bytes v) ++ entries_bytes m)

-- What a reader gets back: the value itself, but for timestamps, which lose what is below a
-- millisecond.
unfoldable mutual
  pub on_wire : Value → Value
  on_wire (timestamp t) = timestamp (of_unix_milli (unix_milli t))
  on_wire (array vs) = array (items_on_wire vs)
  on_wire (map m) = map (map_on_wire m)
  on_wire (string s) = string s
  on_wire (bytes b) = bytes b
  on_wire (uint8 n) = uint8 n
  on_wire (uint16 n) = uint16 n
  on_wire (uint32 n) = uint32 n
  on_wire (uint64 n) = uint64 n
  on_wire (int32 n) = int32 n
  on_wire (int64 n) = int64 n
  on_wire (float32 f) = float32 f
  on_wire (float64 f) = float64 f
  on_wire (bool b) = bool b
  on_wire null = null
  on_wire (unknown n) = unknown n

  pub items_on_wire : Items → Items
  items_on_wire nil = nil
  items_on_wire (cons v vs) = cons (on_wire v) (items_on_wire vs)

  pub map_on_wire : Map → Map
  map_on_wire no_entries = no_entries
  map_on_wire (entry k v m) = entry k (on_wire v) (map_on_wire m)

-- The depth that decodeValue reaches on a value: an array's elements lie one level deeper, the
-- keys and values of a map two.
unfoldable mutual
  pub nesting : Value → ℕ
  nesting (array vs) = nesting_items vs
  nesting (map m) = nesting_map m
  nesting _ = 0

  pub nesting_items : Items → ℕ
  nesting_items nil = 0
  nesting_items (cons v vs) = max (1 + nesting v) (nesting_items vs)

  pub nesting_map : Map → ℕ
  nesting_map no_entries = 0
  nesting_map (entry k v m) = max (2 + nesting v) (nesting_map m)

-- The values that the format carries: numbers in the range of their Go type, keys distinct, nested
-- payloads within the decoder's limit, and no Typ outside the table.
abbrev mutual
  pub IsWire : Value → Type 0
  IsWire (uint8 n) = n < 2 ^ 8
  IsWire (uint16 n) = n < 2 ^ 16
  IsWire (uint32 n) = n < 2 ^ 32
  IsWire (uint64 n) = n < 2 ^ 64
  IsWire (int32 n) = IsInt32 n
  IsWire (int64 n) = IsInt64 n
  IsWire (float32 f) = f < 2 ^ 32
  IsWire (float64 f) = f < 2 ^ 64
  IsWire (timestamp t) = IsInt64 (unix_milli t)
  IsWire (array vs) = IsWireItems vs
  IsWire (map m) = IsDistinct m × IsWireMap m
  IsWire (unknown n) = ⊥
  IsWire _ = Unit

  pub IsWireItems : Items → Type 0
  IsWireItems nil = Unit
  IsWireItems (cons v vs) = IsWire v × (length (payload_bytes v) ≤ max_payload) × IsWireItems vs

  pub IsWireMap : Map → Type 0
  IsWireMap no_entries = Unit
  IsWireMap (entry k v m) =
      (length k ≤ max_payload) × IsWire v × (length (payload_bytes v) ≤ max_payload) × IsWireMap m

-- The scalars, whose payload does not nest.
abbrev pub IsScalar : Value → Type 0
IsScalar (array vs) = ⊥
IsScalar (map m) = ⊥
IsScalar _ = Unit

-- Marshalling succeeds on every value that the format carries, with that payload.
mutual
  unfolding marshal_payload payload_bytes

  marshal_payload-payload_bytes : (v : Value) → IsWire v → marshal_payload v ≡ ok (payload_bytes v)
  marshal_payload-payload_bytes (array vs) h = marshal_items-items_bytes vs h
  marshal_payload-payload_bytes (map m) h = marshal_entries-entries_bytes m h.1
  marshal_payload-payload_bytes (unknown n) h = absurd h
  marshal_payload-payload_bytes _ h = refl

  marshal_items-items_bytes : (vs : Items) → IsWireItems vs → marshal_items vs ≡ ok (items_bytes vs)
  marshal_items-items_bytes nil h = refl
  marshal_items-items_bytes (cons v vs) h =
      rw (marshal_payload-payload_bytes v h.0, marshal_items-items_bytes vs h.2)

  marshal_entries-entries_bytes : (m : Map) → IsWireMap m → marshal_entries m ≡ ok (entries_bytes m)
  marshal_entries-entries_bytes no_entries h = refl
  marshal_entries-entries_bytes (entry k v m) h =
      rw (marshal_payload-payload_bytes v h.1, marshal_entries-entries_bytes m h.3)

pub marshal_payload_total : (v : Value) → IsWire v → marshal_payload v ≡ ok (payload_bytes v)
marshal_payload_total = marshal_payload-payload_bytes
