-- ===== src/Tlv/Map/Laws.antt =====
-- Map as a finite map: what Get sees after Set, and that Set keeps the keys distinct.
use hush_go.Base.{Bytes, none, some, ◌≡◌, refl, ap, ◌≢◌, arith, str_eq, str_eq_iff, if◌then◌else◌}
use hush_go.Tlv.Types.{Value, Map, no_entries, entry}
use hush_go.Tlv.Map.{set, get, clone}

-- What `Get` returns after `Set`: the new value at its key, and what was there at any other.
pub get-set :
    (m : Map) (k j : Bytes) (v : Value)
    → get (set m k v) j ≡ (if str_eq k j then some v else get m j)
unfolding get set
get-set no_entries k j v = refl
get-set (entry i w m) k j v =
    ground (arith, str_eq_iff i k, str_eq_iff i j, str_eq_iff k j, get-set m k j v)

-- No key occurs twice, as in a Map that Set built.
abbrev pub IsDistinct : Map → Type 0
IsDistinct no_entries = Unit
IsDistinct (entry k v m) = (get m k ≡ none) × IsDistinct m

pub get-set_other :
    (m : Map) (k j : Bytes) (v : Value) → k ≢ j → get m j ≡ none → get (set m k v) j ≡ none
get-set_other m k j v ne e = ground (arith, get-set m k j v, str_eq_iff k j)

-- `Set` keeps the keys distinct.
pub set-IsDistinct : (m : Map) (k : Bytes) (v : Value) → IsDistinct m → IsDistinct (set m k v)
unfolding get set
set-IsDistinct no_entries k v h = (refl, tt)
set-IsDistinct (entry i w m) k v (fresh, h) =
    ground (arith, str_eq_iff i k, get-set_other m k i v, set-IsDistinct m k v h)

-- `Clone` returns a map with the same entries in the same order.
pub clone-eq : (m : Map) → clone m ≡ m
unfolding clone
clone-eq no_entries = refl
clone-eq (entry k v m) = ap (entry k v) (clone-eq m)
