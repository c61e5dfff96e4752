-- ===== src/Examples/Crud/Promise.antt =====
-- What the notes server promises: a shelf of numbered notes.
use hush_go.Base.{
  ℕ, ◌+◌, Bool, true, false, Bytes, List, [], ◌∷◌, length, ◌≡◌, ◌==◌, if◌then◌else◌, Option, none,
  some,
}
use hush_go.Base.Text.{codes}
use hush_go.Base.Dict.{Dict, number_key, lookup, IsUnique}
use hush_go.Tlv.Types.{Map, string, uint64, bool, array, map, Items, nil, cons, entry, no_entries}
use hush_go.Tlv.Map.{new_map, set}
use hush_go.Frame.Responses.{Response, status_success, status_bad_request, status_not_found}
use hush_go.Server.Handlers.{Reply, returned, ServerRequest}
use hush_go.Examples.Crud.{Notes}

-- A request of a client, as runClient writes it.
pub data NoteCall : Type 0 where
  creating : Bytes → NoteCall
  listing_all : NoteCall
  getting : ℕ → NoteCall
  updating : ℕ → Bytes → NoteCall
  deleting : ℕ → NoteCall

abbrev pub opcode_of : NoteCall → ℕ
opcode_of (creating text) = 0x0001
opcode_of listing_all = 0x0002
opcode_of (getting id) = 0x0003
opcode_of (updating id text) = 0x0004
opcode_of (deleting id) = 0x0005

abbrev pub payload_of : NoteCall → Option Map
payload_of (creating text) = some (set new_map (codes "text") (string text))
payload_of listing_all = none
payload_of (getting id) = some (set new_map (codes "id") (uint64 id))
payload_of (updating id text) =
    some (set (set new_map (codes "id") (uint64 id)) (codes "text") (string text))
payload_of (deleting id) = some (set new_map (codes "id") (uint64 id))

abbrev pub request_of : ℕ → Bytes → NoteCall → ServerRequest
request_of session_id api_key_id c = record {
  request = record { opcode = opcode_of c; payload = payload_of c };
  session_id = session_id;
  api_key_id = api_key_id;
}

-- The shelf: how many notes were made, and the text of each that is there.
pub record Shelf : Type 0 where
  pub made : ℕ
  pub text_of : ℕ → Option Bytes

abbrev pub empty_shelf : Shelf
empty_shelf = record { made = 0; text_of = λ _. none }

abbrev pub written : ℕ → Option Bytes → Shelf → Shelf
written id text f = record f { text_of = λ j. if id == j then text else f.text_of j }

abbrev pub rewritten : ℕ → Bytes → Shelf → Option Bytes → Shelf
rewritten id text f none = f
rewritten id text f (some old) = written id (some text) f

-- The shelf behind a request: numbers are given out from 1 on, and never twice.
abbrev pub promised : NoteCall → Shelf → Shelf
promised (creating text) f =
    if length text == 0
    then f
    else written (f.made + 1) (some text) (record f { made = f.made + 1 })
promised listing_all f = f
promised (getting id) f = f
promised (updating id text) f =
    if id == 0 then f else if length text == 0 then f else rewritten id text f (f.text_of id)
promised (deleting id) f = if id == 0 then f else written id none f

-- What the client is told.
pub data Answer : Type 0 where
  made_as : ℕ → Answer
  reads : ℕ → Bytes → Answer
  changed : ℕ → Answer
  dropped : Bool → Answer
  asks_for : Bytes → Answer
  no_such_note : Answer

abbrev pub text_answer : ℕ → Option Bytes → Answer
text_answer id none = no_such_note
text_answer id (some text) = reads id text

abbrev pub change_answer : ℕ → Option Bytes → Answer
change_answer id none = no_such_note
change_answer id (some text) = changed id

abbrev pub drop_answer : Option Bytes → Answer
drop_answer none = dropped false
drop_answer (some text) = dropped true

-- The responses, field by field.
abbrev succeeded : Map → Reply (Option Response)
succeeded payload =
    returned (some (record { status = status_success; payload = some payload; seq = 0 }))

abbrev refused : ℕ → Bytes → Reply (Option Response)
refused status message = returned (
    some (record {
      status = status;
      payload = some (entry (codes "error") (string message) no_entries);
      seq = 0;
    }))

abbrev pub encoded : Answer → Reply (Option Response)
encoded (made_as id) = succeeded (entry (codes "id") (uint64 id) no_entries)
encoded (reads id text) =
    succeeded (entry (codes "id") (uint64 id) (entry (codes "text") (string text) no_entries))
encoded (changed id) =
    succeeded (entry (codes "id") (uint64 id) (entry (codes "updated") (bool true) no_entries))
encoded (dropped there) = succeeded (entry (codes "deleted") (bool there) no_entries)
encoded (asks_for field) = refused status_bad_request field
encoded no_such_note = refused status_not_found (codes "note not found")

-- The items that show the notes, one for each, in their order.
abbrev pub AreItems : Dict ℕ Bytes → Items → Type 0
AreItems [] nil = Unit
AreItems ((id, text) ∷ entries) (cons v items) =
    (v ≡ map (entry (codes "id") (uint64 id) (entry (codes "text") (string text) no_entries)))
    × AreItems entries items
AreItems _ _ = ⊥

-- A list of the notes in some order, each of them once, and their count.
pub record IsListing (f : Shelf) (reply : Reply (Option Response)) : Type 0 where
  pub entries : Dict ℕ Bytes
  pub items : Items
  pub once : IsUnique entries
  pub all : (id : ℕ) → lookup id entries ≡ f.text_of id
  pub shown : AreItems entries items
  pub told :
      reply
      ≡ succeeded (
          entry
            (codes "notes")
            (array items)
            (entry (codes "count") (uint64 (length entries)) no_entries))

abbrev pub IsAnswer : Shelf → NoteCall → Reply (Option Response) → Type 0
IsAnswer f (creating text) reply =
    reply
    ≡ encoded (if length text == 0 then asks_for (codes "text required") else made_as (f.made + 1))
IsAnswer f listing_all reply = IsListing f reply
IsAnswer f (getting id) reply =
    reply
    ≡ encoded (if id == 0 then asks_for (codes "id required") else text_answer id (f.text_of id))
IsAnswer f (updating id text) reply =
    reply
    ≡ encoded (
        if id == 0
        then asks_for (codes "id required")
        else if length text == 0
        then asks_for (codes "text required")
        else change_answer id (f.text_of id))
IsAnswer f (deleting id) reply =
    reply ≡ encoded (if id == 0 then asks_for (codes "id required") else drop_answer (f.text_of id))

abbrev pub AreAnswers : Shelf → List NoteCall → List (Reply (Option Response)) → Type 0
AreAnswers f [] [] = Unit
AreAnswers f (c ∷ calls) (reply ∷ replies) =
    IsAnswer f c reply × AreAnswers (promised c f) calls replies
AreAnswers f _ _ = ⊥

-- The notes that the shelf shows.
pub record IsShelf (f : Shelf) (n : Notes) : Type 0 where
  pub next : n.next_id ≡ f.made + 1
  pub once : IsUnique n.notes
  pub same : (id : ℕ) → lookup id n.notes ≡ f.text_of id

-- A range over a map visits every entry once.
pub record IsRange (range : Dict ℕ Bytes → Dict ℕ Bytes) : Type 0 where
  pub once : (m : Dict ℕ Bytes) → IsUnique m → IsUnique (range m)
  pub all : (m : Dict ℕ Bytes) (id : ℕ) → IsUnique m → lookup id (range m) ≡ lookup id m
