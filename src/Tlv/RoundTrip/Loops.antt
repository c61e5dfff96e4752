-- ===== src/Tlv/RoundTrip/Loops.antt =====
-- The loops of decodeValue over an array's and a map's payload, one round at a time, and what they
-- build up.
use hush_go.Base.{
  ne→==, Outcome, ok, ◌∷◌, ◌++◌, ℕ, suc, sym, length, drop-append_length, Bytes, ◌≡◌, ◌≢◌, refl, ap,
  arith, none, str_eq_iff,
}
use hush_go.Tlv.Types.{string, Value, Items, Map, nil, cons, no_entries, entry}
use hush_go.Tlv.Map.{get, set}
use hush_go.Tlv.Map.Laws.{get-set_other}
use hush_go.Tlv.Decode.{decode_items, decode_entry, decode_entries, append_item}

abbrev pub append_items : Items → Items → Items
append_items nil ws = ws
append_items (cons v vs) ws = cons v (append_items vs ws)

pub append_items-append_item :
    (acc : Items) (v : Value) (vs : Items)
    → append_items (append_item acc v) vs ≡ append_items acc (cons v vs)
append_items-append_item nil v vs = refl
append_items-append_item (cons w acc) v vs = ap (cons w) (append_items-append_item acc v vs)

pub append_items-nil : (acc : Items) → append_items acc nil ≡ acc
append_items-nil nil = refl
append_items-nil (cons w acc) = ap (cons w) (append_items-nil acc)

abbrev pub append_map : Map → Map → Map
append_map no_entries n = n
append_map (entry k v m) n = entry k v (append_map m n)

pub append_map-no_entries : (m : Map) → append_map m no_entries ≡ m
append_map-no_entries no_entries = refl
append_map-no_entries (entry k v m) = ap (entry k v) (append_map-no_entries m)

-- A key that is not there goes to the end.
pub append_map-set :
    (acc : Map) (k : Bytes) (v : Value) (m : Map)
    → get acc k ≡ none
    → append_map (set acc k v) m ≡ append_map acc (entry k v m)
unfolding get set
append_map-set no_entries k v m h = refl
append_map-set (entry j w acc) k v m h = ground (arith, append_map-set acc k v m)

-- No key of `m` is in `acc`.
abbrev pub IsFresh : Map → Map → Type 0
IsFresh acc no_entries = Unit
IsFresh acc (entry k v m) = (get acc k ≡ none) × IsFresh acc m

get-tail : (k j : Bytes) (v : Value) (m : Map) → get (entry k v m) j ≡ none → get m j ≡ none
unfolding get
get-tail k j v m h = ground arith

get-ne : (k j : Bytes) (v : Value) (m : Map) → get (entry k v m) j ≡ none → k ≢ j
unfolding get
get-ne k j v m h = ground (arith, str_eq_iff k j)

pub IsFresh-set :
    (acc : Map) (k : Bytes) (v : Value) (m : Map)
    → get m k ≡ none
    → IsFresh acc m
    → IsFresh (set acc k v) m
IsFresh-set acc k v no_entries e h = tt
IsFresh-set acc k v (entry j w m) e (fresh, h) = (
  get-set_other acc k j v (λ p. get-ne j k w m e (sym p)) fresh,
  IsFresh-set acc k v m (get-tail j k w m e) h,
)

pub IsFresh-no_entries : (m : Map) → IsFresh no_entries m
unfolding get
IsFresh-no_entries no_entries = tt
IsFresh-no_entries (entry k v m) = (refl, IsFresh-no_entries m)

-- One round over an array: an element `c ∷ w` at the front.
pub decode_items_step :
    (next : Bytes → Outcome (Value × ℕ)) (rounds c : ℕ) (w rest : Bytes) (acc : Items) (v : Value)
    → next (c ∷ (w ++ rest)) ≡ ok (v, length (c ∷ w))
    → decode_items next (suc rounds) (c ∷ (w ++ rest)) acc
      ≡ decode_items next rounds rest (append_item acc v)
unfolding decode_items
decode_items_step next rounds c w rest acc v e =
    rw e (ap (λ buf. decode_items next rounds buf (append_item acc v)) (drop-append_length w rest))

-- One round over a map: a key `c ∷ w` and a value `d ∷ x` at the front.
pub decode_entries_step :
    (next : Bytes → Outcome (Value × ℕ)) (rounds c d : ℕ) (w x rest : Bytes) (acc : Map) (k : Bytes)
    (v : Value)
    → next (c ∷ (w ++ d ∷ (x ++ rest))) ≡ ok (string k, length (c ∷ w))
    → next (d ∷ (x ++ rest)) ≡ ok (v, length (d ∷ x))
    → decode_entries next (suc rounds) (c ∷ (w ++ d ∷ (x ++ rest))) acc
      ≡ decode_entries next rounds rest (set acc k v)
unfolding decode_entries decode_entry
decode_entries_step next rounds c d w x rest acc k v e e' =
    rw
      (
        e,
        drop-append_length w (d ∷ (x ++ rest)),
        ne→== (length (d ∷ (x ++ rest))) 0 (omega arith),
        e',
      )
      (ap (λ buf. decode_entries next rounds buf (set acc k v)) (drop-append_length x rest))
