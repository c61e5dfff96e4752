-- ===== src/Tlv/Types.antt =====
-- tlv/types.go: type codes, values and their accessors.
-- A Go string or byte slice is a list of bytes; a float is its IEEE 754 bit pattern, which is what
-- math.Float32bits and math.Float64bits return; a time is nanoseconds since 1970. A nil slice is
-- not told apart from an empty one.
use hush_go.Base.{
  ℕ, zero, suc, ◌+◌, ◌-◌, Bool, true, false, Bytes, Outcome, ok, panics, ◌==◌, if◌then◌else◌,
}
use hush_go.Base.Int.{ℤ}

-- Type. `other` holds the bytes that no constant names: 0, and 0x10 and up.
pub data TypeCode : Type 0 where
  type_string type_bytes type_uint8 type_uint16 type_uint32 type_uint64 : TypeCode
  type_int32 type_int64 type_float32 type_float64 type_bool type_array type_map : TypeCode
  type_null type_timestamp : TypeCode
  other : ℕ → TypeCode

-- byte(t): `other 0` is the byte 0, and `other (n + 1)` the byte 0x10 + n.
unfoldable pub code : TypeCode → ℕ
code type_string = 0x01
code type_bytes = 0x02
code type_uint8 = 0x03
code type_uint16 = 0x04
code type_uint32 = 0x05
code type_uint64 = 0x06
code type_int32 = 0x07
code type_int64 = 0x08
code type_float32 = 0x09
code type_float64 = 0x0a
code type_bool = 0x0b
code type_array = 0x0c
code type_map = 0x0d
code type_null = 0x0e
code type_timestamp = 0x0f
code (other zero) = 0
code (other (suc n)) = 0x10 + n

-- Type(b) of a byte.
unfoldable pub type_of_byte : ℕ → TypeCode
type_of_byte b =
    if b == 0x01
    then type_string
    else if b == 0x02
    then type_bytes
    else if b == 0x03
    then type_uint8
    else if b == 0x04
    then type_uint16
    else if b == 0x05
    then type_uint32
    else if b == 0x06
    then type_uint64
    else if b == 0x07
    then type_int32
    else if b == 0x08
    then type_int64
    else if b == 0x09
    then type_float32
    else if b == 0x0a
    then type_float64
    else if b == 0x0b
    then type_bool
    else if b == 0x0c
    then type_array
    else if b == 0x0d
    then type_map
    else if b == 0x0e
    then type_null
    else if b == 0x0f
    then type_timestamp
    else other (b - 0x0f)

-- Value: a constructor for each type, and `unknown` for a Typ outside the table, such as that of
-- the zero Value{}. Items is []Value, and Map the ordered entries of a Map.
mutual
  pub data Value : Type 0 where
    string : Bytes → Value
    bytes : Bytes → Value
    uint8 uint16 uint32 uint64 : ℕ → Value
    int32 int64 : ℤ → Value
    float32 float64 : ℕ → Value
    bool : Bool → Value
    array : Items → Value
    map : Map → Value
    null : Value
    timestamp : ℤ → Value
    unknown : ℕ → Value

  pub data Items : Type 0 where
    nil : Items
    cons : Value → Items → Items

  pub data Map : Type 0 where
    no_entries : Map
    entry : Bytes → Value → Map → Map

-- v.Typ
unfoldable pub typ : Value → TypeCode
typ (string s) = type_string
typ (bytes b) = type_bytes
typ (uint8 n) = type_uint8
typ (uint16 n) = type_uint16
typ (uint32 n) = type_uint32
typ (uint64 n) = type_uint64
typ (int32 n) = type_int32
typ (int64 n) = type_int64
typ (float32 f) = type_float32
typ (float64 f) = type_float64
typ (bool b) = type_bool
typ (array vs) = type_array
typ (map m) = type_map
typ null = type_null
typ (timestamp t) = type_timestamp
typ (unknown n) = other n

-- v.IsNull()
unfoldable pub is_null : Value → Bool
is_null null = true
is_null _ = false

-- The accessors panic on another type: a failed type assertion.
unfoldable pub string_of : Value → Outcome Bytes
string_of (string s) = ok s
string_of _ = panics

unfoldable pub bytes_of : Value → Outcome Bytes
bytes_of (bytes b) = ok b
bytes_of _ = panics

unfoldable pub uint64_of : Value → Outcome ℕ
uint64_of (uint64 n) = ok n
uint64_of _ = panics

unfoldable pub map_of : Value → Outcome Map
map_of (map m) = ok m
map_of _ = panics

unfoldable pub uint8_of : Value → Outcome ℕ
uint8_of (uint8 n) = ok n
uint8_of _ = panics

unfoldable pub uint16_of : Value → Outcome ℕ
uint16_of (uint16 n) = ok n
uint16_of _ = panics

unfoldable pub uint32_of : Value → Outcome ℕ
uint32_of (uint32 n) = ok n
uint32_of _ = panics

unfoldable pub int32_of : Value → Outcome ℤ
int32_of (int32 n) = ok n
int32_of _ = panics

unfoldable pub int64_of : Value → Outcome ℤ
int64_of (int64 n) = ok n
int64_of _ = panics

unfoldable pub float32_of : Value → Outcome ℕ
float32_of (float32 f) = ok f
float32_of _ = panics

unfoldable pub float64_of : Value → Outcome ℕ
float64_of (float64 f) = ok f
float64_of _ = panics

unfoldable pub bool_of : Value → Outcome Bool
bool_of (bool b) = ok b
bool_of _ = panics

unfoldable pub array_of : Value → Outcome Items
array_of (array vs) = ok vs
array_of _ = panics

unfoldable pub timestamp_of : Value → Outcome ℤ
timestamp_of (timestamp t) = ok t
timestamp_of _ = panics
