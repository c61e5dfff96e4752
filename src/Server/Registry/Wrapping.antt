-- ===== src/Server/Registry/Wrapping.antt =====
-- Registered handlers are wrapped in the order of Use, the first middleware outermost.
use hush_go.Base.{
  ℕ, zero, suc, List, [], ◌∷◌, ◌++◌, append_assoc, append-nil, length, ◌≡◌, refl, ap, sym, ◌∙◌,
  ◌==◌, if◌then◌else◌, none, some,
}
use hush_go.Server.Handlers.{failed, HandleHush, HandleHushStream, Handler, handler_func}
use hush_go.Base.{get_elem?}
use hush_go.Base.Dict.{number_key, lookup, lookup-insert}
use hush_go.Session.Handshake.{Exchange}
use hush_go.Server.Middleware.{Middleware, StreamMiddleware, StreamHandler}
use hush_go.Server.Registry.{
  Server, wrap_down, use_middleware, use_stream, handle, handle_func, handle_stream,
  handle_stream_func, of_stream_handler,
}

-- The first middleware applied last: it is the outermost.
abbrev pub in_order : {H : Type 0} → List (H → H) → H → H
in_order [] h = h
in_order (mw ∷ mws) h = mw (in_order mws h)

wrap_down_cons :
    {H : Type 0} (mw : H → H) (mws : List (H → H)) (i : ℕ) (h : H)
    → wrap_down (mw ∷ mws) (suc i) h ≡ mw (wrap_down mws i h)
unfolding wrap_down
wrap_down_cons mw mws zero h = refl
wrap_down_cons mw mws (suc i) h =
    wrap_down_cons mw mws i (elim (get_elem? mws i) [ none ↦ h | some m ↦ m h ])

-- The loop from the last index down is the composition in order.
wrap_down-in_order :
    {H : Type 0} (mws : List (H → H)) (h : H) → wrap_down mws (length mws) h ≡ in_order mws h
unfolding wrap_down
wrap_down-in_order [] h = refl
wrap_down-in_order (mw ∷ mws) h =
    wrap_down_cons mw mws (length mws) h ∙ ap mw (wrap_down-in_order mws h)

module _ {x : Exchange} {S : Type 0} where
  -- Calls of Use and UseStream, one after the other.
  abbrev pub use_all : List (Middleware S) → Server x S → Server x S
  use_all [] s = s
  use_all (mw ∷ mws) s = use_all mws (use_middleware mw s)

  abbrev pub use_all_stream : List (StreamMiddleware S) → Server x S → Server x S
  use_all_stream [] s = s
  use_all_stream (mw ∷ mws) s = use_all_stream mws (use_stream mw s)

  use_all_lem :
      (mws : List (Middleware S)) (s : Server x S)
      → use_all mws s ≡ record s { middlewares = s.middlewares ++ mws }
  unfolding use_middleware
  use_all_lem [] s = ap (λ l. record s { middlewares = l }) (sym (append-nil s.middlewares))
  use_all_lem (mw ∷ mws) s =
      use_all_lem mws (record s { middlewares = s.middlewares ++ (mw ∷ []) })
      ∙ ap (λ l. record s { middlewares = l }) (append_assoc s.middlewares (mw ∷ []) mws)

  use_all_stream_lem :
      (mws : List (StreamMiddleware S)) (s : Server x S)
      → use_all_stream mws s ≡ record s { stream_middlewares = s.stream_middlewares ++ mws }
  unfolding use_stream
  use_all_stream_lem [] s =
      ap (λ l. record s { stream_middlewares = l }) (sym (append-nil s.stream_middlewares))
  use_all_stream_lem (mw ∷ mws) s =
      use_all_stream_lem mws (record s { stream_middlewares = s.stream_middlewares ++ (mw ∷ []) })
      ∙ ap (λ l. record s { stream_middlewares = l })
          (append_assoc s.stream_middlewares (mw ∷ []) mws)

  -- What a registration puts in the table.
  abbrev pub IsRegistered : Server x S → ℕ → Handler S → Server x S → Type 0
  IsRegistered s opcode h s' =
      (j : ℕ) → lookup j s'.handlers ≡ (if opcode == j then some h else lookup j s.handlers)

  -- After any calls of Use and UseStream, each of Handle, HandleFunc, HandleStream and HandleStreamFunc
  -- puts under its opcode the handler wrapped in the middlewares used so far, the first one
  -- outermost, and leaves the other opcodes as they were.
  pub handle-in_order :
      (s : Server x S) (mws : List (Middleware S)) (smws : List (StreamMiddleware S)) (opcode : ℕ)
      (h : Handler S) (fn : HandleHush S) (sh : StreamHandler S) (sfn : HandleHushStream S)
      → IsRegistered s opcode (in_order (s.middlewares ++ mws) h) (handle opcode h (use_all mws s))
        × IsRegistered s opcode
            (in_order (s.middlewares ++ mws) (handler_func fn))
            (handle_func opcode fn (use_all mws s))
        × IsRegistered s opcode
            (of_stream_handler (in_order (s.stream_middlewares ++ smws) sh))
            (handle_stream opcode sh (use_all_stream smws s))
        × IsRegistered s opcode
            (of_stream_handler
              (in_order (s.stream_middlewares ++ smws) ((λ _ _ s'. (failed, s')), sfn)))
            (handle_stream_func opcode sfn (use_all_stream smws s))
  unfolding handle handle_func handle_stream handle_stream_func
  handle-in_order s mws smws opcode h fn sh sfn =
      let mw = wrap_down-in_order (s.middlewares ++ mws) in
      let smw = wrap_down-in_order (s.stream_middlewares ++ smws) in
      rw (use_all_lem mws s, use_all_stream_lem smws s)
        (
          (λ j. rw (mw h) (lookup-insert opcode j _ s.handlers)),
          (λ j. rw (mw (handler_func fn)) (lookup-insert opcode j _ s.handlers)),
          (λ j. rw (smw sh) (lookup-insert opcode j _ s.handlers)),
          (λ j. rw (smw ((λ _ _ s'. (failed, s')), sfn)) (lookup-insert opcode j _ s.handlers)),
        )
