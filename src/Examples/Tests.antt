-- ===== src/Examples/Tests.antt =====
-- The theorems on the examples at concrete inputs.
use hush_go.Base.{true, List, [], ◌∷◌, ◌≡◌, refl, none, arith, str_eq}
use hush_go.Base.Text.{codes}
use hush_go.Base.Dict
use hush_go.Base.Dict.{number_key, lookup, insert}
use hush_go.Tlv.Map.{set, get, get_string, get_uint64}
use hush_go.Server.Handlers.{handler_func, handle_hush, new_response, error_response}
use hush_go.Server.Registry.{Server, handle_func, wrap_down}
use hush_go.Session.ToyExchange.{toy_exchange}
use hush_go.Base.Int.{pos}
use hush_go.Examples.Crud.{
  Notes, no_notes, create_note, list_notes, get_note, update_note, delete_note, register_notes,
}
use hush_go.Examples.Crud.Promise.{
  NoteCall, creating, getting, updating, deleting, empty_shelf, encoded, made_as, reads, dropped,
  no_such_note, changed, AreAnswers, IsRange,
}
use hush_go.Examples.Crud.Service.{replies, notes_service}

abbrev notes_server : Server toy_exchange Notes
notes_server = record {
  handlers = [];
  sessions = record {
    config = record { idle_timeout = pos 100; max_lifetime = pos 1000; gc_interval = pos 10 };
    sessions = [];
  };
  middlewares = [];
  stream_middlewares = [];
  key_store = λ _. none;
  server_priv = 4;
  media_store = none;
  session_cfg = record { idle_timeout = pos 100; max_lifetime = pos 1000; gc_interval = pos 10 };
}

abbrev calls : List NoteCall
calls =
    creating (codes "a")
    ∷ creating (codes "b")
    ∷ updating 1 (codes "c")
    ∷ getting 1
    ∷ deleting 1
    ∷ getting 1
    ∷ []

in_order-IsRange : IsRange (λ m. m)
in_order-IsRange = record { once = λ m h. h; all = λ m id h. refl }

notes_service_example :
    AreAnswers empty_shelf calls
      (replies (register_notes (λ m. m) notes_server) [] 7 (codes "k") calls no_notes)
notes_service_example =
    notes_service (λ m. m) notes_server [] 7 (codes "k") calls in_order-IsRange refl (omega arith)

calls_replied :
    replies (register_notes (λ m. m) notes_server) [] 7 (codes "k") calls no_notes
    ≡ encoded (made_as 1)
      ∷ encoded (made_as 2)
      ∷ encoded (changed 1)
      ∷ encoded (reads 1 (codes "c"))
      ∷ encoded (dropped true)
      ∷ encoded no_such_note
      ∷ []
unfolding register_notes handle_func wrap_down lookup insert handler_func handle_hush create_note
    list_notes get_note update_note delete_note get get_string get_uint64 set str_eq Dict.delete
    new_response error_response
calls_replied = refl
