-- ===== src/Tlv/Total.antt =====
-- Decoding of any payload: it ends within its fuel with no panic, and what it returns keeps to the
-- depth limit and has distinct keys.
use hush_go.Base.{
  ℕ, zero, suc, ◌+◌, ◌≤◌, ◌<◌, Bool, true, not, Bytes, [], ◌∷◌, length, drop, Ensures, returns,
  fails, Ensures-bind, Ensures-if, length-drop, Outcome, ok, err, ◌≡◌, refl, ltb, ◌==◌,
  if◌then◌else◌, arith, str_eq, Bool-cases, inl, inr,
}
use hush_go.Base.{short_payload}
use hush_go.Base.Uvarint.{uvarint}
use hush_go.Tlv.Types.{
  Value, Items, Map, typ, type_of_byte, TypeCode, other, string, array, map, nil, cons, no_entries,
  entry, type_string, type_bytes, type_array, type_map, type_null, string_of,
}
use hush_go.Tlv.Map.{set}
use hush_go.Tlv.Map.Laws.{IsDistinct, set-IsDistinct}
use hush_go.Tlv.Decode.{
  Decoder, max_payload, decode_value_bytes, decode_items, decode_entry, decode_entries,
  decode_payload, decode_value, append_item, max_decode_depth, is_string,
}
use hush_go.Tlv.Wire.{nesting, nesting_items, nesting_map}

-- Every map inside the value has distinct keys.
abbrev mutual
  pub HasDistinctKeys : Value → Type 0
  HasDistinctKeys (array vs) = HasDistinctKeysItems vs
  HasDistinctKeys (map m) = IsDistinct m × HasDistinctKeysMap m
  HasDistinctKeys _ = Unit

  pub HasDistinctKeysItems : Items → Type 0
  HasDistinctKeysItems nil = Unit
  HasDistinctKeysItems (cons v vs) = HasDistinctKeys v × HasDistinctKeysItems vs

  pub HasDistinctKeysMap : Map → Type 0
  HasDistinctKeysMap no_entries = Unit
  HasDistinctKeysMap (entry k v m) = HasDistinctKeys v × HasDistinctKeysMap m

-- A value as decodeValue returns it at `depth`.
abbrev pub IsDecoded : ℕ → Value → Type 0
IsDecoded depth v = (nesting v + depth ≤ max_decode_depth) × HasDistinctKeys v

-- What decodeValue promises on the payloads at `depth`.
abbrev Decodes : Decoder → ℕ → Type 0
Decodes decode depth = (t : TypeCode) (p : Bytes) → Ensures (IsDecoded depth) (decode t p depth)

-- decodeValueBytes returns a decoded value of the level below, and takes a byte at least.
decode_value_bytes-Ensures :
    (decode : Decoder) (buf : Bytes) (depth : ℕ)
    → Decodes decode (depth + 1)
    → Ensures (λ (v, n). IsDecoded (depth + 1) v × (0 < n)) (decode_value_bytes decode buf depth)
unfolding decode_value_bytes
decode_value_bytes-Ensures decode [] depth h = fails
decode_value_bytes-Ensures decode (t ∷ tail) depth h =
    Ensures-if (ltb max_payload (uvarint tail).0) (λ _. fails)
      λ _.
        Ensures-if ((uvarint tail).1 == 0) (λ _. fails)
          λ _.
            Ensures-if (ltb (length (t ∷ tail)) (1 + (uvarint tail).1 + (uvarint tail).0))
              (λ _. fails) λ _. Ensures-bind (h (type_of_byte t) _) λ v p. returns (p, omega arith)

-- The loop over an array keeps what it has decoded.
abbrev IsDecodedItems : ℕ → Items → Type 0
IsDecodedItems depth vs = (nesting_items vs + depth ≤ max_decode_depth) × HasDistinctKeysItems vs

append_item-IsDecodedItems :
    (depth : ℕ) (vs : Items) (v : Value)
    → IsDecodedItems depth vs
    → IsDecoded (depth + 1) v
    → IsDecodedItems depth (append_item vs v)
unfolding nesting
append_item-IsDecodedItems depth nil v (n, d) (n', d') = (omega arith, (d', tt))
append_item-IsDecodedItems depth (cons w vs) v (n, d) p =
    let (m, e) = append_item-IsDecodedItems depth vs v (omega arith, d.1) p in
    (omega arith, (d.0, e))

decode_items-Ensures :
    (next : Bytes → Outcome (Value × ℕ)) (depth rounds : ℕ) (buf : Bytes) (acc : Items)
    → ((b : Bytes) → Ensures (λ (v, n). IsDecoded (depth + 1) v × (0 < n)) (next b))
    → length buf ≤ rounds
    → IsDecodedItems depth acc
    → Ensures (IsDecodedItems depth) (decode_items next rounds buf acc)
unfolding decode_items
decode_items-Ensures next depth rounds [] acc h r p = returns p
decode_items-Ensures next depth zero (b ∷ bs) acc h r p = absurd (omega arith)
decode_items-Ensures next depth (suc rounds) (b ∷ bs) acc h r p =
    Ensures-bind (h (b ∷ bs)) λ (v, n) q.
      decode_items-Ensures next depth rounds (drop n (b ∷ bs)) (append_item acc v) h
        (omega (arith, length-drop {0} n (b ∷ bs))) (append_item-IsDecodedItems depth acc v p q.0)

-- The loop over a map keeps what it has decoded, and its keys distinct.
abbrev IsDecodedMap : ℕ → Map → Type 0
IsDecodedMap depth m =
    (nesting_map m + depth ≤ max_decode_depth) × IsDistinct m × HasDistinctKeysMap m

nesting_map-set :
    (depth : ℕ) (m : Map) (k : Bytes) (v : Value)
    → nesting_map m + depth ≤ max_decode_depth
    → nesting v + (depth + 1 + 1) ≤ max_decode_depth
    → nesting_map (set m k v) + depth ≤ max_decode_depth
unfolding nesting set
nesting_map-set depth no_entries k v n n' = omega arith
nesting_map-set depth (entry j w m) k v n n' = elim (Bool-cases (str_eq j k)) [
  | inl same ↦ rw same (omega arith)
  | inr differs ↦ rw differs (omega (arith, nesting_map-set depth m k v (omega arith) n'))
]

HasDistinctKeysMap-set :
    (m : Map) (k : Bytes) (v : Value)
    → HasDistinctKeysMap m
    → HasDistinctKeys v
    → HasDistinctKeysMap (set m k v)
unfolding set
HasDistinctKeysMap-set no_entries k v d d' = (d', tt)
HasDistinctKeysMap-set (entry j w m) k v d d' = elim (Bool-cases (str_eq j k)) [
  | inl same ↦ rw same (d', d.1)
  | inr differs ↦ rw differs (d.0, HasDistinctKeysMap-set m k v d.1 d')
]

string_of-Ensures :
    (key : Value) → is_string (typ key) ≡ true → Ensures (λ s. Unit {0}) (string_of key)
unfolding typ string_of
string_of-Ensures (string s) e = returns tt
string_of-Ensures _ e = cc

decode_entry-Ensures :
    (next : Bytes → Outcome (Value × ℕ)) (depth : ℕ) (buf : Bytes)
    → ((b : Bytes) → Ensures (λ (v, n). IsDecoded (depth + 1 + 1) v × (0 < n)) (next b))
    → Ensures
        (λ (name, val, rest). IsDecoded (depth + 1 + 1) val × (length rest < length buf))
        (decode_entry next buf)
unfolding decode_entry
decode_entry-Ensures next depth buf h = Ensures-bind (h buf) λ (key, n) q.
    Ensures-if (not (is_string (typ key))) (λ _. fails)
      λ is_key.
        Ensures-if (length (drop n buf) == 0) (λ _. fails)
          λ more. Ensures-bind (h (drop n buf)) λ (val, n2) q2.
            Ensures-bind (string_of-Ensures key (ground arith)) λ name _.
              returns (q2.0, ground (arith, length-drop {0} n buf, length-drop {0} n2 (drop n buf)))

decode_entries-Ensures :
    (next : Bytes → Outcome (Value × ℕ)) (depth rounds : ℕ) (buf : Bytes) (acc : Map)
    → ((b : Bytes) → Ensures (λ (v, n). IsDecoded (depth + 1 + 1) v × (0 < n)) (next b))
    → length buf ≤ rounds
    → IsDecodedMap depth acc
    → Ensures (IsDecodedMap depth) (decode_entries next rounds buf acc)
unfolding decode_entries
decode_entries-Ensures next depth rounds [] acc h r p = returns p
decode_entries-Ensures next depth zero (b ∷ bs) acc h r p = absurd (omega arith)
decode_entries-Ensures next depth (suc rounds) (b ∷ bs) acc h r p =
    Ensures-bind (decode_entry-Ensures next depth (b ∷ bs) h) λ (name, val, rest) q.
      decode_entries-Ensures next depth rounds rest (set acc name val) h (omega (arith, q.1)) (
        nesting_map-set depth acc name val p.0 q.0.0,
        set-IsDistinct acc name val p.1,
        HasDistinctKeysMap-set acc name val p.2 q.0.1,
      )

scalar-Ensures :
    (depth : ℕ) (short : Bool) (v : Value)
    → depth ≤ max_decode_depth
    → nesting v ≡ 0
    → HasDistinctKeys v
    → Ensures (IsDecoded depth) (if short then err short_payload else ok v)
scalar-Ensures depth short v d flat keys =
    Ensures-if short (λ _. fails) (λ _. returns (omega arith, keys))

decode_payload-Ensures :
    (decode : Decoder) (t : TypeCode) (p : Bytes) (depth : ℕ)
    → Decodes decode (depth + 1)
    → Decodes decode (depth + 1 + 1)
    → depth ≤ max_decode_depth
    → Ensures (IsDecoded depth) (decode_payload decode t p depth)
unfolding decode_payload nesting
decode_payload-Ensures decode type_array p depth h h' d =
    Ensures-bind
      (decode_items-Ensures _ depth (length p) p nil
        (λ b. decode_value_bytes-Ensures decode b depth h) (omega arith) (omega arith, tt))
      λ vs q. returns q
decode_payload-Ensures decode type_map p depth h h' d =
    Ensures-bind
      (decode_entries-Ensures _ depth (length p) p no_entries
        (λ b. decode_value_bytes-Ensures decode b (depth + 1) h') (omega arith)
        (omega arith, tt, tt))
      λ m q. returns (q.0, (q.1, q.2))
decode_payload-Ensures decode type_string p depth h h' d = returns (omega arith, tt)
decode_payload-Ensures decode type_bytes p depth h h' d = returns (omega arith, tt)
decode_payload-Ensures decode type_null p depth h h' d = returns (omega arith, tt)
decode_payload-Ensures decode (other n) p depth h h' d = fails
decode_payload-Ensures decode _ p depth h h' d = scalar-Ensures depth _ _ d refl tt

decode_value-Ensures :
    (fuel depth : ℕ)
    → 0 < fuel
    → suc max_decode_depth < depth + fuel
    → Decodes (decode_value fuel) depth
unfolding decode_value
decode_value-Ensures zero depth pos e t p = absurd (omega arith)
decode_value-Ensures (suc fuel) depth pos e t p =
    Ensures-if (ltb max_decode_depth depth) (λ _. fails)
      λ shallow.
        decode_payload-Ensures (decode_value fuel) t p depth
          (decode_value-Ensures fuel (depth + 1) (ground arith) (omega arith))
          (decode_value-Ensures fuel (depth + 1 + 1) (ground arith) (omega arith)) (ground arith)

-- With fuel for the levels that are left, decodeValue returns on every payload: an error, or a value
-- that keeps to the depth limit from `depth` on and whose maps have distinct keys. It never panics.
pub decode_value_total :
    (fuel depth : ℕ) (t : TypeCode) (payload : Bytes)
    → 0 < fuel
    → suc max_decode_depth < depth + fuel
    → Ensures (IsDecoded depth) (decode_value fuel t payload depth)
decode_value_total fuel depth t payload pos e = decode_value-Ensures fuel depth pos e t payload
