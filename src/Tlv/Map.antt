-- ===== src/Tlv/Map.antt =====
-- tlv/types.go: the operations of Map, an ordered map with string keys.
pub mod Laws
use hush_go.Base.{Bool, Bytes, Option, none, some, str_eq, if◌then◌else◌}
use hush_go.Base.{ℕ}
use hush_go.Tlv.Types.{Value, Map, no_entries, entry, string, uint64, bytes, map}

-- NewMap
abbrev pub new_map : Map
new_map = no_entries

-- Set: overwrites in place, or appends.
unfoldable pub set : Map → Bytes → Value → Map
set no_entries key v = entry key v no_entries
set (entry k w m) key v = if str_eq k key then entry k v m else entry k w (set m key v)

-- Get: `none` is (Value{}, false).
unfoldable pub get : Map → Bytes → Option Value
get no_entries key = none
get (entry k v m) key = if str_eq k key then some v else get m key

-- GetString, GetUint64, GetBytes, GetMap: `none` also on a value of another type.
unfoldable pub get_string : Map → Bytes → Option Bytes
unfolding get
get_string m key = elim (get m key) [ some (string s) ↦ some s | _ ↦ none ]

unfoldable pub get_uint64 : Map → Bytes → Option ℕ
unfolding get
get_uint64 m key = elim (get m key) [ some (uint64 n) ↦ some n | _ ↦ none ]

unfoldable pub get_bytes : Map → Bytes → Option Bytes
unfolding get
get_bytes m key = elim (get m key) [ some (bytes b) ↦ some b | _ ↦ none ]

unfoldable pub get_map : Map → Bytes → Option Map
unfolding get
get_map m key = elim (get m key) [ some (map sub) ↦ some sub | _ ↦ none ]

-- Iter, over the state `s` that the callback changes; it stops at the first `false`.
unfoldable pub iter {ℓ} : {S : Type ℓ} → Map → (Bytes → Value → S → S × Bool) → S → S
iter no_entries f s = s
iter (entry k v m) f s =
    let (s', more) = f k v s in let rest = iter m f s' in if more then rest else s'

-- Clone: copies entry by entry.
unfoldable pub clone : Map → Map
clone no_entries = no_entries
clone (entry k v m) = entry k v (clone m)
