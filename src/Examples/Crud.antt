-- ===== src/Examples/Crud.antt =====
-- examples/crud/main.go: the notes server. `Notes` are the variables behind its mutex, which each handler
-- locks at most once, so a call of a handler is one step. Go ranges over the map in any order:
-- `range` is that order.
pub mod Promise
pub mod Service
use hush_go.Base.{
  ℕ, ◌+◌, ◌^◌, ◌%◌, Bool, true, false, not, Bytes, [], ◌∷◌, length, ◌==◌, if◌then◌else◌, Option,
  none, some,
}
use hush_go.Base.Text.{codes}
use hush_go.Base.Dict
use hush_go.Base.Dict.{Dict, Key, number_key, lookup, insert}
use hush_go.Tlv.Types.{Value, Map, string, uint64, bool, array, map, Items, nil, cons}
use hush_go.Tlv.Map.{new_map, set, get_string, get_uint64}
use hush_go.Frame.Responses.{Response, status_bad_request, status_not_found}
use hush_go.Session.Handshake.{Exchange}
use hush_go.Server.Handlers.{Reply, returned, panicked, HandleHush, error_response, new_response}
use hush_go.Server.Registry.{Server, handle_func}

-- notes and nextID
pub record Notes : Type 0 where
  pub notes : Dict ℕ Bytes
  pub next_id : ℕ

abbrev pub no_notes : Notes
no_notes = record { notes = []; next_id = 1 }

-- A value and the zero value that stands with `false`.
abbrev pub or_empty : Option Bytes → Bytes
or_empty none = []
or_empty (some s) = s

abbrev pub or_zero : Option ℕ → ℕ
or_zero none = 0
or_zero (some n) = n

abbrev pub rejected : ℕ → Bytes → Reply (Option Response)
rejected status message = returned (some (error_response status message))

abbrev pub replied : Map → Reply (Option Response)
replied payload = returned (some (new_response (some payload)))

-- A handler that reads its payload; on a nil map GetString and GetUint64 panic.
abbrev pub reading :
    (Map → Notes → Reply (Option Response) × Notes)
    → Option Map
    → Notes
    → Reply (Option Response) × Notes
reading body none n = (panicked, n)
reading body (some m) n = body m n

-- 0x0001: Create
abbrev pub add_note : Bytes → Notes → Reply (Option Response) × Notes
add_note text n =
    if length text == 0 then (rejected status_bad_request (codes "text required"), n) else (
      replied (set new_map (codes "id") (uint64 n.next_id)),
      record { notes = insert n.next_id text n.notes; next_id = (n.next_id + 1) % 2 ^ 64 },
    )

unfoldable pub create_note : HandleHush Notes
create_note ctx req n =
    reading (λ m. add_note (or_empty (get_string m (codes "text")))) req.request.payload n

-- 0x0002: List
abbrev pub note_item : ℕ → Bytes → Value
note_item id text = map (set (set new_map (codes "id") (uint64 id)) (codes "text") (string text))

abbrev pub note_items : Dict ℕ Bytes → Items
note_items [] = nil
note_items ((id, text) ∷ m) = cons (note_item id text) (note_items m)

abbrev pub listing : Dict ℕ Bytes → Map
listing m =
    set (set new_map (codes "notes") (array (note_items m))) (codes "count") (uint64 (length m))

unfoldable pub list_notes : (Dict ℕ Bytes → Dict ℕ Bytes) → HandleHush Notes
list_notes range ctx req n = (replied (listing (range n.notes)), n)

-- 0x0003: Get
abbrev pub note_reply : ℕ → Option Bytes → Reply (Option Response)
note_reply id none = rejected status_not_found (codes "note not found")
note_reply id (some text) =
    replied (set (set new_map (codes "id") (uint64 id)) (codes "text") (string text))

abbrev pub find_note : ℕ → Notes → Reply (Option Response) × Notes
find_note id n =
    if id == 0
    then (rejected status_bad_request (codes "id required"), n)
    else (note_reply id (lookup id n.notes), n)

unfoldable pub get_note : HandleHush Notes
get_note ctx req n =
    reading (λ m. find_note (or_zero (get_uint64 m (codes "id")))) req.request.payload n

-- 0x0004: Update
abbrev pub overwrite : ℕ → Bytes → Notes → Option Bytes → Reply (Option Response) × Notes
overwrite id text n none = (rejected status_not_found (codes "note not found"), n)
overwrite id text n (some old) = (
  replied (set (set new_map (codes "id") (uint64 id)) (codes "updated") (bool true)),
  record n { notes = insert id text n.notes },
)

abbrev pub change_note : ℕ → Bytes → Notes → Reply (Option Response) × Notes
change_note id text n =
    if id == 0
    then (rejected status_bad_request (codes "id required"), n)
    else if length text == 0
    then (rejected status_bad_request (codes "text required"), n)
    else overwrite id text n (lookup id n.notes)

unfoldable pub update_note : HandleHush Notes
update_note ctx req n =
    reading
      (λ m.
        change_note (or_zero (get_uint64 m (codes "id"))) (or_empty (get_string m (codes "text"))))
      req.request.payload n

-- 0x0005: Delete
abbrev pub is_there : Option Bytes → Bool
is_there none = false
is_there (some text) = true

abbrev pub drop_note : ℕ → Notes → Reply (Option Response) × Notes
drop_note id n = if id == 0 then (rejected status_bad_request (codes "id required"), n) else (
  replied (set new_map (codes "deleted") (bool (is_there (lookup id n.notes)))),
  record n { notes = Dict.delete id n.notes },
)

unfoldable pub delete_note : HandleHush Notes
delete_note ctx req n =
    reading (λ m. drop_note (or_zero (get_uint64 m (codes "id")))) req.request.payload n

-- The calls of HandleFunc in runServer.
unfoldable pub register_notes :
    {x : Exchange} → (Dict ℕ Bytes → Dict ℕ Bytes) → Server x Notes → Server x Notes
register_notes range s = handle_func 0x0005 delete_note (
    handle_func 0x0004 update_note (
      handle_func 0x0003 get_note
        (handle_func 0x0002 (list_notes range) (handle_func 0x0001 create_note s))))
