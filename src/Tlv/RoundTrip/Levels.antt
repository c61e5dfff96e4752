-- ===== src/Tlv/RoundTrip/Levels.antt =====
-- decodeValue on the payload of a value: the scalars, then arrays and maps by induction.
use hush_go.Base.{
  ℕ, zero, suc, ◌+◌, ◌≤◌, ◌<◌, true, false, Bytes, ◌∷◌, ◌++◌, length, length-le-append, ok, ◌≡◌,
  refl, ap, sym, ◌∙◌, le→ltb, arith,
}
use hush_go.Base.Int.{
  u32_of_int, u64_of_int, int_of_u32, int_of_u64, of_unix_milli, unix_milli, u32_of_int-lt,
  u64_of_int-lt, int_of_u32-u32_of_int, int_of_u64-u64_of_int,
}
use hush_go.Base.BigEndian.{
  put_u16, put_u32, put_u64, get_u16-put_u16, get_u32-put_u32, get_u64-put_u64,
}
use hush_go.Base.Uvarint.{put_uvarint}
use hush_go.Tlv.Types.{
  Value, Items, Map, code, typ, TypeCode, string, bytes, uint8, uint16, uint32, uint64, int32,
  int64, float32, float64, bool, array, map, null, timestamp, unknown, nil, cons, no_entries, entry,
  type_string,
}
use hush_go.Tlv.Map.{set}
use hush_go.Tlv.Map.Laws.{IsDistinct}
use hush_go.Tlv.Encode.{with_header}
use hush_go.Tlv.Decode.{
  Decoder, decode_value_bytes, decode_items, decode_entries, decode_payload, decode_value,
  append_item, max_decode_depth,
}
use hush_go.Tlv.Wire.{
  IsScalar, payload_bytes, items_bytes, entries_bytes, on_wire, items_on_wire, map_on_wire, nesting,
  nesting_items, nesting_map, IsWire, IsWireItems, IsWireMap,
}
use hush_go.Tlv.RoundTrip.Header.{decode_header}
use hush_go.Tlv.RoundTrip.Loops.{
  append_items, append_items-append_item, append_items-nil, append_map, append_map-no_entries,
  append_map-set, IsFresh, IsFresh-no_entries, IsFresh-set, decode_items_step, decode_entries_step,
}

decode_payload_scalar :
    (decode : Decoder) (v : Value) (depth : ℕ)
    → IsScalar v
    → IsWire v
    → decode_payload decode (typ v) (payload_bytes v) depth ≡ ok (on_wire v)
unfolding decode_payload typ payload_bytes on_wire put_u16 put_u32 put_u64
decode_payload_scalar decode (array vs) depth s h = absurd s
decode_payload_scalar decode (map m) depth s h = absurd s
decode_payload_scalar decode (unknown n) depth s h = absurd h
decode_payload_scalar decode (uint16 n) depth s h = ap (λ x. ok (uint16 x)) (get_u16-put_u16 n h)
decode_payload_scalar decode (uint32 n) depth s h = ap (λ x. ok (uint32 x)) (get_u32-put_u32 n h)
decode_payload_scalar decode (float32 n) depth s h = ap (λ x. ok (float32 x)) (get_u32-put_u32 n h)
decode_payload_scalar decode (uint64 n) depth s h = ap (λ x. ok (uint64 x)) (get_u64-put_u64 n h)
decode_payload_scalar decode (float64 n) depth s h = ap (λ x. ok (float64 x)) (get_u64-put_u64 n h)
decode_payload_scalar decode (int32 n) depth s h =
    ap (λ x. ok (int32 x))
      (ap int_of_u32 (get_u32-put_u32 (u32_of_int n) (u32_of_int-lt n)) ∙ int_of_u32-u32_of_int n h)
decode_payload_scalar decode (int64 n) depth s h =
    ap (λ x. ok (int64 x))
      (ap int_of_u64 (get_u64-put_u64 (u64_of_int n) (u64_of_int-lt n)) ∙ int_of_u64-u64_of_int n h)
decode_payload_scalar decode (timestamp t) depth s h =
    ap (λ x. ok (timestamp (of_unix_milli x)))
      (ap int_of_u64 (get_u64-put_u64 (u64_of_int (unix_milli t)) (u64_of_int-lt (unix_milli t)))
        ∙ int_of_u64-u64_of_int (unix_milli t) h)
decode_payload_scalar decode (bool true) depth s h = refl
decode_payload_scalar decode (bool false) depth s h = refl
decode_payload_scalar decode _ depth s h = refl

-- Below the depth limit and with fuel left, decodeValue is its switch.
decode_value_switch :
    (f : ℕ) (t : TypeCode) (p : Bytes) (depth : ℕ)
    → depth ≤ max_decode_depth
    → decode_value (suc f) t p depth ≡ decode_payload (decode_value f) t p depth
unfolding decode_value
decode_value_switch f t p depth h = rw (le→ltb max_decode_depth depth h)

-- With `f` units of fuel, decodeValue reads the payload of `v` back at each depth where the levels
-- of `v` keep to the limit.
abbrev pub ReadsBack : Value → Type 0
ReadsBack v =
    (f depth : ℕ)
    → IsWire v
    → nesting v + depth ≤ max_decode_depth
    → max_decode_depth < depth + f
    → decode_value f (typ v) (payload_bytes v) depth ≡ ok (on_wire v)

abbrev pub ReadsBackItems : Items → Type 0
ReadsBackItems vs =
    (f depth rounds : ℕ) (acc : Items)
    → IsWireItems vs
    → nesting_items vs + depth ≤ max_decode_depth
    → max_decode_depth ≤ depth + f
    → length (items_bytes vs) ≤ rounds
    → decode_items (λ buf. decode_value_bytes (decode_value f) buf depth) rounds (items_bytes vs)
        acc
      ≡ ok (append_items acc (items_on_wire vs))

abbrev pub ReadsBackMap : Map → Type 0
ReadsBackMap m =
    (f depth rounds : ℕ) (acc : Map)
    → IsWireMap m
    → IsDistinct m
    → IsFresh acc m
    → nesting_map m + depth ≤ max_decode_depth
    → max_decode_depth ≤ depth + suc f
    → length (entries_bytes m) ≤ rounds
    → decode_entries (λ buf. decode_value_bytes (decode_value f) buf (depth + 1)) rounds
        (entries_bytes m) acc
      ≡ ok (append_map acc (map_on_wire m))

ReadsBack-scalar : (v : Value) → IsScalar v → ReadsBack v
ReadsBack-scalar v s zero depth h n f = absurd (omega arith)
ReadsBack-scalar v s (suc f) depth h n e =
    decode_value_switch f (typ v) (payload_bytes v) depth (omega arith)
    ∙ decode_payload_scalar (decode_value f) v depth s h

array_step : (vs : Items) → ReadsBackItems vs → ReadsBack (array vs)
unfolding payload_bytes on_wire nesting typ
array_step vs ih zero depth h n e = absurd (omega arith)
array_step vs ih (suc f) depth h n e =
    decode_value_switch f _ (items_bytes vs) depth (omega arith)
    ∙ unfold decode_payload in
      rw (ih f depth (length (items_bytes vs)) nil h n (omega arith) (omega arith))

map_step : (m : Map) → ReadsBackMap m → ReadsBack (map m)
unfolding payload_bytes on_wire nesting typ
map_step m ih zero depth h n e = absurd (omega arith)
map_step m ih (suc f) depth h n e =
    decode_value_switch f _ (entries_bytes m) depth (omega arith)
    ∙ unfold decode_payload in
      rw (
        ih f depth (length (entries_bytes m)) no_entries h.1 h.0 (IsFresh-no_entries m) n
          (omega arith) (omega arith))

-- An encoded value behind its type.
abbrev header : Value → Bytes
header v = put_uvarint (length (payload_bytes v)) ++ payload_bytes v

cons_step : (v : Value) (vs : Items) → ReadsBack v → ReadsBackItems vs → ReadsBackItems (cons v vs)
unfolding payload_bytes on_wire nesting with_header
cons_step v vs ihv ihs f depth zero acc h n e r = absurd (omega arith)
cons_step v vs ihv ihs f depth (suc rounds) acc h n e r =
    decode_items_step _ rounds (code (typ v)) _ (items_bytes vs) acc (on_wire v) (
      decode_header (decode_value f) (typ v) (payload_bytes v) (items_bytes vs) depth h.1
      ∙ rw (ihv f (depth + 1) h.0 (omega arith) (omega arith)))
    ∙ ihs f depth rounds (append_item acc (on_wire v)) h.2 (omega arith) e
        (omega (arith, length-le-append {0} (header v) (items_bytes vs)))
    ∙ ap ok (append_items-append_item acc (on_wire v) (items_on_wire vs))

entry_step :
    (k : Bytes) (v : Value) (m : Map) → ReadsBack v → ReadsBackMap m → ReadsBackMap (entry k v m)
unfolding payload_bytes on_wire nesting with_header typ
entry_step k v m ihv ihm f depth zero acc h d fresh n e r = absurd (omega arith)
entry_step k v m ihv ihm f depth (suc rounds) acc h d fresh n e r =
    decode_entries_step _ rounds (code type_string) (code (typ v)) _ _ (entries_bytes m) acc k
      (on_wire v)
      (decode_header (decode_value f) type_string k _ (depth + 1) h.0
        ∙ rw (ReadsBack-scalar (string k) tt f (depth + 1 + 1) tt (omega arith) (omega arith)))
      (decode_header (decode_value f) (typ v) (payload_bytes v) (entries_bytes m) (depth + 1) h.2
        ∙ rw (ihv f (depth + 1 + 1) h.1 (omega arith) (omega arith)))
    ∙ ihm f depth rounds (set acc k (on_wire v)) h.3 d.1
        (IsFresh-set acc k (on_wire v) m d.0 fresh.1) (omega arith) e
        (omega (
          arith,
          length-le-append {0} (put_uvarint (length k) ++ k)
              (code (typ v) ∷ (header v ++ entries_bytes m)),
          length-le-append {0} (header v) (entries_bytes m),
        ))
    ∙ ap ok (append_map-set acc k (on_wire v) (map_on_wire m) fresh.0)

pub reads_back : (v : Value) → ReadsBack v
unfolding payload_bytes on_wire nesting
reads_back v = elim v as ReadsBack ReadsBackItems ReadsBackMap [
  | array (vs → ih) ↦ array_step vs ih
  | map (m → ih) ↦ map_step m ih
  | nil ↦ λ f depth rounds acc h n e r. unfold decode_items in ap ok (sym (append_items-nil acc))
  | cons (v → ihv) (vs → ihs) ↦ cons_step v vs ihv ihs
  | no_entries ↦ λ f depth rounds acc h d fresh n e r.
      unfold decode_entries in ap ok (sym (append_map-no_entries acc))
  | entry k (v → ihv) (m → ihm) ↦ entry_step k v m ihv ihm
  | unknown n ↦ λ f depth h. absurd h
  | string s ↦ ReadsBack-scalar (string s) tt
  | bytes b ↦ ReadsBack-scalar (bytes b) tt
  | uint8 n ↦ ReadsBack-scalar (uint8 n) tt
  | uint16 n ↦ ReadsBack-scalar (uint16 n) tt
  | uint32 n ↦ ReadsBack-scalar (uint32 n) tt
  | uint64 n ↦ ReadsBack-scalar (uint64 n) tt
  | int32 n ↦ ReadsBack-scalar (int32 n) tt
  | int64 n ↦ ReadsBack-scalar (int64 n) tt
  | float32 n ↦ ReadsBack-scalar (float32 n) tt
  | float64 n ↦ ReadsBack-scalar (float64 n) tt
  | bool b ↦ ReadsBack-scalar (bool b) tt
  | null ↦ ReadsBack-scalar null tt
  | timestamp t ↦ ReadsBack-scalar (timestamp t) tt
]
