-- ===== src/Examples/Crud/Service.antt =====
-- The notes server over any sequence of requests.
use hush_go.Base.{
  ℕ, ◌+◌, ◌^◌, ◌≤◌, ◌<◌, Bytes, List, [], ◌∷◌, length, ◌≡◌, refl, ◌∙◌, ◌==◌, arith, Option, none,
  some, str_eq, Bool-cases, Option-cases, inl, inr,
}
use hush_go.Base.Dict.{
  Dict, number_key, lookup, lookup-insert, insert-IsUnique, lookup-delete, delete-IsUnique,
}
use hush_go.Tlv.Types.{bool}
use hush_go.Base.Text.{codes}
use hush_go.Tlv.Map.{new_map, set, get, get_string, get_uint64}
use hush_go.Frame.Responses.{Response}
use hush_go.Session.Handshake.{Exchange}
use hush_go.Server.Handlers.{
  Reply, failed, ServerRequest, Context, Handler, HandleHush, handler_func, handle_hush,
  new_response, error_response,
}
use hush_go.Server.Registry.{Server, handle_func, wrap_down}
use hush_go.Examples.Crud.{
  Notes, no_notes, create_note, list_notes, note_reply, get_note, overwrite, update_note,
  delete_note, register_notes, add_note, find_note, change_note, drop_note, note_items, is_there,
  replied,
}
use hush_go.Examples.Crud.Promise.{
  NoteCall, creating, listing_all, getting, updating, deleting, opcode_of, request_of, Shelf,
  empty_shelf, rewritten, promised, text_answer, change_answer, encoded, drop_answer, AreItems,
  IsAnswer, AreAnswers, IsShelf, IsRange,
}

-- What the server calls for an opcode.
abbrev pub run_handler :
    {S : Type 0} → Option (Handler S) → Context → ServerRequest → S → Reply (Option Response) × S
run_handler none ctx req s = (failed, s)
run_handler (some h) ctx req s = handle_hush h ctx req s

-- A run of requests: the replies in order.
abbrev pub replies :
    {x : Exchange}
    → Server x Notes
    → Context
    → ℕ
    → Bytes
    → List NoteCall
    → Notes
    → List (Reply (Option Response))
replies srv ctx id key [] n = []
replies srv ctx id key (c ∷ calls) n =
    let (reply, n') = run_handler (lookup (opcode_of c) srv.handlers) ctx (request_of id key c) n in
    reply ∷ replies srv ctx id key calls n'

module _ (range : Dict ℕ Bytes → Dict ℕ Bytes) where
  abbrev body_of : NoteCall → HandleHush Notes
  body_of (creating text) = create_note
  body_of listing_all = list_notes range
  body_of (getting id) = get_note
  body_of (updating id text) = update_note
  body_of (deleting id) = delete_note

  registered :
      {x : Exchange} (srv : Server x Notes) (c : NoteCall)
      → srv.middlewares ≡ []
      → lookup (opcode_of c) (register_notes range srv).handlers ≡ some (handler_func (body_of c))
  unfolding register_notes handle_func wrap_down
  registered srv (creating text) e = simp (e, lookup-insert)
  registered srv listing_all e = simp (e, lookup-insert)
  registered srv (getting id) e = simp (e, lookup-insert)
  registered srv (updating id text) e = simp (e, lookup-insert)
  registered srv (deleting id) e = simp (e, lookup-insert)

  -- One request, and the shelf that stands behind it.
  abbrev IsServed : Shelf → NoteCall → Reply (Option Response) × Notes → Type 0
  IsServed f c (reply, n) = IsAnswer f c reply × IsShelf (promised c f) n

  module _ (f : Shelf) (n : Notes) (k : IsShelf f n) where
    create-IsServed :
        (text : Bytes) → f.made + 2 < 2 ^ 64 → IsServed f (creating text) (add_note text n)
    unfolding set str_eq new_response error_response
    create-IsServed text room = elim (Bool-cases (length text == 0)) [
      | inl nothing ↦ rw nothing (refl, k)
      | inr some_text ↦
          rw (some_text, k.next)
            (
              refl,
              record {
                next = omega arith;
                once = insert-IsUnique (f.made + 1) text n.notes k.once;
                same = λ j. rw (lookup-insert (f.made + 1) j text n.notes, k.same j) refl;
              },
            )
    ]

    get-IsServed : (id : ℕ) → IsServed f (getting id) (find_note id n)
    unfolding set str_eq new_response error_response
    get-IsServed id = elim (Bool-cases (id == 0)) [
      | inl zero_id ↦ rw zero_id (refl, k)
      | inr one ↦ rw (one, k.same id) (told (f.text_of id), k)
    ]
      where
        told : (o : Option Bytes) → note_reply id o ≡ encoded (text_answer id o)
        told none = refl
        told (some text) = refl

    update-IsServed :
        (id : ℕ) (text : Bytes) → IsServed f (updating id text) (change_note id text n)
    unfolding set str_eq new_response error_response
    update-IsServed id text = elim (Bool-cases (id == 0)) [
      | inl zero_id ↦ rw zero_id (refl, k)
      | inr one ↦ elim (Bool-cases (length text == 0)) [
        | inl nothing ↦ rw (one, nothing) (refl, k)
        | inr some_text ↦ rw (one, some_text, k.same id) (from (f.text_of id) refl)
      ]
    ]
      where
        from :
            (o : Option Bytes)
            → f.text_of id ≡ o
            → ((overwrite id text n o).0 ≡ encoded (change_answer id o))
              × IsShelf (rewritten id text f o) (overwrite id text n o).1
        from none e = (refl, k)
        from (some old) e = (
          refl,
          record {
            next = k.next;
            once = insert-IsUnique id text n.notes k.once;
            same = λ j. rw (lookup-insert id j text n.notes, k.same j) refl;
          },
        )

    delete-IsServed : (id : ℕ) → IsServed f (deleting id) (drop_note id n)
    unfolding set str_eq new_response error_response
    delete-IsServed id = elim (Bool-cases (id == 0)) [
      | inl zero_id ↦ rw zero_id (refl, k)
      | inr one ↦
          rw (one, k.same id)
            (
              told (f.text_of id),
              record {
                next = k.next;
                once = delete-IsUnique id n.notes k.once;
                same = λ j. rw (lookup-delete id j n.notes k.once, k.same j) refl;
              },
            )
    ]
      where
        told :
            (o : Option Bytes)
            → replied (set new_map (codes "deleted") (bool (is_there o))) ≡ encoded (drop_answer o)
        told none = refl
        told (some text) = refl

    note_items-AreItems : (entries : Dict ℕ Bytes) → AreItems entries (note_items entries)
    unfolding set str_eq
    note_items-AreItems [] = tt
    note_items-AreItems ((id, text) ∷ entries) = (refl, note_items-AreItems entries)

    -- Any request, at the handler that is registered for it.
    step-IsServed :
        (range_law : IsRange range) (c : NoteCall) (ctx : Context) (id : ℕ) (key : Bytes)
        → f.made + 2 < 2 ^ 64
        → IsServed f c (handle_hush (handler_func (body_of c)) ctx (request_of id key c) n)
    unfolding handler_func handle_hush create_note list_notes get_note update_note delete_note get
        get_string get_uint64 set str_eq new_response
    step-IsServed range_law (creating text) ctx id key room = create-IsServed text room
    step-IsServed range_law listing_all ctx id key room = (
      record {
        entries = range n.notes;
        items = note_items (range n.notes);
        shown = note_items-AreItems (range n.notes);
        once = range_law.once n.notes k.once;
        all = λ i. range_law.all n.notes i k.once ∙ k.same i;
        told = refl;
      },
      k,
    )
    step-IsServed range_law (getting i) ctx id key room = get-IsServed i
    step-IsServed range_law (updating i text) ctx id key room = update-IsServed i text
    step-IsServed range_law (deleting i) ctx id key room = delete-IsServed i

  made_more : (c : NoteCall) (f : Shelf) → (promised c f).made ≤ f.made + 1
  made_more (creating text) f = ground arith
  made_more listing_all f = omega arith
  made_more (getting id) f = omega arith
  made_more (updating id text) f = elim (Option-cases (f.text_of id)) [
    | inl gone ↦ rw gone (ground arith)
    | inr (old, there) ↦ rw there (ground arith)
  ]
  made_more (deleting id) f = ground arith

  module _ {x : Exchange} (srv : Server x Notes) (fresh : srv.middlewares ≡ [])
      (range_law : IsRange range) (ctx : Context) (id : ℕ) (key : Bytes) where
    replies-AreAnswers :
        (calls : List NoteCall) (f : Shelf) (n : Notes)
        → IsShelf f n
        → f.made + length calls + 1 < 2 ^ 64
        → AreAnswers f calls (replies (register_notes range srv) ctx id key calls n)
    replies-AreAnswers [] f n k room = tt
    replies-AreAnswers (c ∷ calls) f n k room =
        let (answer, k') = step-IsServed f n k range_law c ctx id key (omega arith) in
        rw (registered srv c fresh)
          (answer, replies-AreAnswers calls (promised c f) _ k' (omega (arith, made_more c f)))

-- A server without middlewares, behind runServer's calls of HandleFunc, keeps the notes' promise
-- over every sequence of fewer than 2 ^ 64 - 1 requests, each with a payload as runClient writes
-- it: a Create gives out the next number from 1 on and an Update, a Delete and a Get of a number
-- act on the last text that was written under it; an empty text and the number 0 are answered by an
-- error that names them, and a Get or an Update of a number without a note by one that there is
-- none, and change nothing; a Delete tells whether there was a note; and a List shows every note
-- exactly once, by its number and its text, and their count, in whichever order Go ranges over the
-- map.
pub notes_service :
    (range : Dict ℕ Bytes → Dict ℕ Bytes) {x : Exchange} (srv : Server x Notes) (ctx : Context)
    (id : ℕ) (key : Bytes) (calls : List NoteCall)
    → IsRange range
    → srv.middlewares ≡ []
    → length calls + 1 < 2 ^ 64
    → AreAnswers empty_shelf calls (replies (register_notes range srv) ctx id key calls no_notes)
unfolding lookup
notes_service range srv ctx id key calls range_law fresh room =
    replies-AreAnswers range srv fresh range_law ctx id key calls empty_shelf no_notes
      (record { next = refl; once = tt; same = λ i. refl }) (omega arith)
