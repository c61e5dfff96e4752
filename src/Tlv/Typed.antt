-- ===== src/Tlv/Typed.antt =====
-- Decoded values have the type that their first byte names.
use hush_go.Base.{
  ℕ, zero, suc, ◌+◌, ◌-◌, ◌^◌, ◌%◌, Bool, true, false, Bytes, ◌∷◌, length, take, drop, Outcome, ok,
  err, panics, out_of_fuel, ◌>>=◌, ◌≡◌, refl, ap, ◌∙◌, ltb, ◌==◌, if◌then◌else◌, arith, Bool-cases,
  inl, inr,
}
use hush_go.Base.{OnOk, short_payload}
use hush_go.Base.{◌>>=◌}
use hush_go.Tlv.Types.{
  Value, Items, Map, TypeCode, type_string, type_bytes, type_uint8, type_uint16, type_uint32,
  type_uint64, type_int32, type_int64, type_float32, type_float64, type_bool, type_array, type_map,
  type_null, type_timestamp, other, code, type_of_byte, typ, is_null, array, map, unknown,
  string_of, bytes_of, uint8_of, uint16_of, uint32_of, uint64_of, int32_of, int64_of, float32_of,
  float64_of, bool_of, array_of, map_of, timestamp_of,
}
use hush_go.Base.Uvarint.{uvarint}
use hush_go.Tlv.Decode.{
  Decoder, decode_fixed, decode_payload, decode_value, decode_bytes, decode_fuel, max_decode_depth,
}

-- The accessor of a type returns, and does not panic; IsNull is that of null.
abbrev returned_by {ℓ} : {A : Type ℓ} → Outcome A → Bool
returned_by (ok a) = true
returned_by _ = false

abbrev pub opens : TypeCode → Value → Bool
opens type_string v = returned_by (string_of v)
opens type_bytes v = returned_by (bytes_of v)
opens type_uint8 v = returned_by (uint8_of v)
opens type_uint16 v = returned_by (uint16_of v)
opens type_uint32 v = returned_by (uint32_of v)
opens type_uint64 v = returned_by (uint64_of v)
opens type_int32 v = returned_by (int32_of v)
opens type_int64 v = returned_by (int64_of v)
opens type_float32 v = returned_by (float32_of v)
opens type_float64 v = returned_by (float64_of v)
opens type_bool v = returned_by (bool_of v)
opens type_array v = returned_by (array_of v)
opens type_map v = returned_by (map_of v)
opens type_null v = is_null v
opens type_timestamp v = returned_by (timestamp_of v)
opens (other n) v = false

-- A value of this type, which is one of the table.
abbrev IsTyped : TypeCode → Value → Type 0
IsTyped t v = (typ v ≡ t) × (ltb 0 (code t) ≡ true) × (ltb (code t) 16 ≡ true)

-- A value of fixed width, an array and a map, if there are any.
fixed_typ :
    (t : TypeCode) (short : Bool) (v : Value)
    → IsTyped t v
    → OnOk (IsTyped t) (if short then err short_payload else ok v)
fixed_typ t true v h = tt
fixed_typ t false v h = h

array_typ : (o : Outcome Items) → OnOk (IsTyped type_array) (do vs ← o; ok (array vs))
unfolding typ code
array_typ (ok vs) = (refl, refl, refl)
array_typ _ = tt

map_typ : (o : Outcome Map) → OnOk (IsTyped type_map) (do m ← o; ok (map m))
unfolding typ code
map_typ (ok m) = (refl, refl, refl)
map_typ _ = tt

decode_payload-typ :
    (decode : Decoder) (t : TypeCode) (payload : Bytes) (depth : ℕ)
    → OnOk (IsTyped t) (decode_payload decode t payload depth)
unfolding decode_payload decode_fixed typ code
decode_payload-typ decode type_string payload depth = (refl, refl, refl)
decode_payload-typ decode type_bytes payload depth = (refl, refl, refl)
decode_payload-typ decode type_null payload depth = (refl, refl, refl)
decode_payload-typ decode (other n) payload depth = tt
decode_payload-typ decode type_array payload depth = array_typ _
decode_payload-typ decode type_map payload depth = map_typ _
decode_payload-typ decode t payload depth =
    fixed_typ t (ltb (length payload) _) _ (refl, refl, refl)

opens-code :
    (u : TypeCode) (v : Value)
    → ltb 0 (code (typ v)) ≡ true
    → ltb (code (typ v)) 16 ≡ true
    → opens u v ≡ (code u == code (typ v))
unfolding code typ is_null string_of bytes_of uint8_of uint16_of uint32_of uint64_of int32_of
    int64_of float32_of float64_of bool_of array_of map_of timestamp_of
opens-code (other zero) _ h k = ground arith
opens-code (other (suc n)) _ h k = ground arith
opens-code u (unknown zero) h k = absurd (cc)
opens-code u (unknown (suc n)) h k = absurd (ground arith)
opens-code _ _ h k = refl

decode_value-typ :
    (fuel : ℕ) (t : TypeCode) (payload : Bytes) (depth : ℕ)
    → OnOk (IsTyped t) (decode_value fuel t payload depth)
unfolding decode_value
decode_value-typ zero t payload depth = tt
decode_value-typ (suc fuel) t payload depth = elim (Bool-cases (ltb max_decode_depth depth)) [
  | inl deep ↦ rw deep tt
  | inr within ↦ rw within (decode_payload-typ (decode_value fuel) t payload depth)
]

decode_bytes-typ :
    (t : ℕ) (tail : Bytes) → OnOk (IsTyped (type_of_byte t)) (decode_bytes (t ∷ tail))
unfolding decode_bytes
decode_bytes-typ t tail =
    let (len, n) = uvarint tail in
    let end = (1 + n + len) % 2 ^ 64 in
    elim (Bool-cases (n == 0)) [
      | inl nothing ↦ rw nothing tt
      | inr some_bytes ↦ elim (Bool-cases (ltb (length (t ∷ tail)) end)) [
        | inl short ↦ rw (some_bytes, short) tt
        | inr long ↦ elim (Bool-cases (ltb end (1 + n))) [
          | inl wraps ↦ rw (some_bytes, long, wraps) tt
          | inr fits ↦
              rw (some_bytes, long, fits)
                (decode_value-typ decode_fuel (type_of_byte t)
                  (take (end - (1 + n)) (drop (1 + n) (t ∷ tail))) 0)
        ]
      ]
    ]

code-type_of_byte : (b : ℕ) → code (type_of_byte b) ≡ b
unfolding code type_of_byte
code-type_of_byte b = ground arith

-- A value that DecodeBytes returns has the type that its first byte names: of the accessors String,
-- Bytes, the ten of numbers, Bool, Array, Map and Timestamp and the test IsNull, exactly that of the
-- type of this code opens it, and the others panic, or are false.
pub decode_bytes-opens :
    (t : ℕ) (tail : Bytes) (u : TypeCode)
    → OnOk (λ v. opens u v ≡ (code u == t)) (decode_bytes (t ∷ tail))
decode_bytes-opens t tail u = from (decode_bytes (t ∷ tail)) (decode_bytes-typ t tail)
  where
    opened : (v : Value) → IsTyped (type_of_byte t) v → opens u v ≡ (code u == t)
    opened v (same, above, below) =
        opens-code u v (rw same above) (rw same below)
        ∙ ap (λ n. code u == n) (ap code same ∙ code-type_of_byte t)

    from :
        (o : Outcome Value)
        → OnOk (IsTyped (type_of_byte t)) o
        → OnOk (λ v. opens u v ≡ (code u == t)) o
    from (ok v) h = opened v h
    from (err e) h = tt
    from panics h = tt
    from out_of_fuel h = tt
