-- ===== src/Server/Middleware/Guards.antt =====
-- RequireAPIKeyID and RecoveryMiddleware around the handlers of a server.
use hush_go.Base.{
  ℕ, Bool, true, false, Bytes, List, [], ◌∷◌, ◌≡◌, ◌↔◌, ◌⊎◌, refl, ◌∙◌, ==_iff, Option, none, some,
  Bool-cases, inl, inr, str_eq, str_eq_iff, sym, arith,
}
use mathlib.Core.List.{Memᴰ}
use mathlib.Core.List.Memᴰ
use mathlib.Core.Bool.{true≢false}
use hush_go.Server.Handlers.{
  Reply, returned, failed, panicked, ServerRequest, Context, Handler, handle_hush, handler_func,
}
use hush_go.Base.Dict.{number_key, lookup}
use hush_go.Frame.Responses.{Response}
use hush_go.Session.Handshake.{Exchange}
use hush_go.Server.Middleware.{
  Middleware, not_authorized, contains, recovered, recovery_middleware, require_api_key_id,
}
use hush_go.Server.Registry.{Server, handle}
use hush_go.Server.Registry.Wrapping.{in_order, use_all, handle-in_order}

-- What the list of RequireAPIKeyID holds.
contains-cases :
    (allowed : List Bytes) (id : Bytes)
    → (Memᴰ id allowed × (contains allowed id ≡ true))
      ⊎ ((Memᴰ id allowed → ⊥) × (contains allowed id ≡ false))
unfolding contains
contains-cases [] id = inr (Memᴰ.not-nil, refl)
contains-cases (a ∷ allowed) id = elim (Bool-cases (str_eq a id)) [
  | inl same ↦ inl (Memᴰ.head (sym ((str_eq_iff a id).0 same)), simp same)
  | inr differs ↦ elim (contains-cases allowed id) [
    | inl (listed, holds) ↦ inl (Memᴰ.tail listed, simp (differs, holds))
    | inr (other, lacks) ↦ inr (
      λ m. elim (Memᴰ.cases_cons m) [
        | inl e ↦ absurd (true≢false (sym ((str_eq_iff a id).1 (sym e)) ∙ differs))
        | inr m' ↦ other m'
      ],
      simp (differs, lacks),
    )
  ]
]

module _ {S : Type 0} where
  -- HandleHush of what is registered under an opcode.
  abbrev called :
      Context → ServerRequest → S → Option (Handler S) → Option (Reply (Option Response) × S)
  called ctx req s none = none
  called ctx req s (some h) = some (handle_hush h ctx req s)

  -- Where a call behind RecoveryMiddleware ends in a panic, for what the handler behind it does.
  recovered-panics_iff :
      (on_panic : ServerRequest → S → Bool × S) (req : ServerRequest)
      (r : Reply (Option Response) × S) (s : S)
      → (some (recovered on_panic req r) ≡ some (panicked, s))
        ↔ ((s' : S) × (r ≡ (panicked, s')) × (on_panic req s' ≡ (true, s)))
  unfolding recovered
  recovered-panics_iff on_panic req (returned resp, s₀) s =
      (λ e. absurd cc, λ (s', e, p). absurd cc)
  recovered-panics_iff on_panic req (failed, s₀) s = (λ e. absurd cc, λ (s', e, p). absurd cc)
  recovered-panics_iff on_panic req (panicked, s₀) s = elim (Bool-cases (on_panic req s₀).0) [
    | inl breaks ↦ (λ e. (s₀, refl, grind (arith, breaks)), λ p. grind (arith, breaks))
    | inr calm ↦ (λ e. grind (arith, calm), λ p. grind (arith, calm))
  ]

module _ {x : Exchange} {S : Type 0} where
  abbrev pub call_opcode :
      Server x S → ℕ → Context → ServerRequest → S → Option (Reply (Option Response) × S)
  call_opcode srv opcode ctx req s = called ctx req s (lookup opcode srv.handlers)

  call_opcode-handle :
      (srv : Server x S) (mws : List (Middleware S)) (opcode : ℕ) (h : Handler S) (ctx : Context)
      (req : ServerRequest) (s : S)
      → srv.middlewares ≡ []
      → call_opcode (handle opcode h (use_all mws srv)) opcode ctx req s
        ≡ some (handle_hush (in_order mws h) ctx req s)
  call_opcode-handle srv mws opcode h ctx req s first = rw (
    (handle-in_order srv mws [] opcode h (λ _ _ s'. (failed, s'))
          ((λ _ _ s'. (failed, s')), (λ _ _ _ stream s'. (failed, stream, s')))
          (λ _ _ _ stream s'. (failed, stream, s'))).0
        opcode,
    (==_iff opcode opcode).1 refl,
    first,
  )

  -- On a server that used RequireAPIKeyID first, then any middlewares, and registered any handler: a
  -- request whose key id is an entry of the list gets what the handler behind the other middlewares
  -- replies; one whose key id is none of them gets the response that it is not authorized, and none of
  -- them runs.
  pub guarded_by_api_key_id :
      (srv : Server x S) (allowed : List Bytes) (mws : List (Middleware S)) (opcode : ℕ)
      (h : Handler S) (ctx : Context) (req : ServerRequest) (s : S)
      → srv.middlewares ≡ []
      → (Memᴰ req.api_key_id allowed
          × (call_opcode
                (handle opcode h (use_all (require_api_key_id allowed ∷ mws) srv))
                opcode
                ctx
                req
                s
              ≡ some (handle_hush (in_order mws h) ctx req s)))
        ⊎ ((Memᴰ req.api_key_id allowed → ⊥)
            × (call_opcode
                  (handle opcode h (use_all (require_api_key_id allowed ∷ mws) srv))
                  opcode
                  ctx
                  req
                  s
                ≡ some (returned (some not_authorized), s)))
  unfolding require_api_key_id handle_hush handler_func
  guarded_by_api_key_id srv allowed mws opcode h ctx req s first =
      let called =
        call_opcode-handle srv (require_api_key_id allowed ∷ mws) opcode h ctx req s first in
      elim (contains-cases allowed req.api_key_id) [
        | inl (listed, holds) ↦ inl (listed, called ∙ simp holds)
        | inr (other, lacks) ↦ inr (other, called ∙ simp lacks)
      ]

  -- On a server that used RecoveryMiddleware first, then any middlewares, and registered any handler: a
  -- call of what is registered ends in a panic exactly where what stands behind panics and onPanic,
  -- called on the state that this leaves, panics itself.
  pub recovery_panics_iff :
      (srv : Server x S) (on_panic : ServerRequest → S → Bool × S) (mws : List (Middleware S))
      (opcode : ℕ) (h : Handler S) (ctx : Context) (req : ServerRequest) (s s' : S)
      → srv.middlewares ≡ []
      → (call_opcode
            (handle opcode h (use_all (recovery_middleware on_panic ∷ mws) srv))
            opcode
            ctx
            req
            s
          ≡ some (panicked, s'))
        ↔ ((s'' : S) × (handle_hush (in_order mws h) ctx req s ≡ (panicked, s''))
            × (on_panic req s'' ≡ (true, s')))
  unfolding recovery_middleware handle_hush handler_func
  recovery_panics_iff srv on_panic mws opcode h ctx req s s' first =
      rw (call_opcode-handle srv (recovery_middleware on_panic ∷ mws) opcode h ctx req s first)
        (recovered-panics_iff on_panic req (handle_hush (in_order mws h) ctx req s) s')
