-- ===== src/Server/Registry.antt =====
-- server/server.go: the server's state, its options and the registration of handlers. TLS settings,
-- the logger and the base URL of media links are left out: they only go to other packages. The
-- numbers from nextID are arguments.
pub mod Wrapping
use hush_go.Base.{
  ℕ, zero, suc, ◌+◌, true, false, Bytes, List, [], ◌∷◌, ◌++◌, length, Outcome, ok, err, Option,
  none, some,
}
use hush_go.Server.Handlers.{
  failed, HandleHush, HandleHushStream, Handler, stream_handler, handler_func,
}
use hush_go.Base.{no_randomness, media_not_enabled, get_elem?}
use hush_go.Base.Int.{ℤ, pos}
use hush_go.Base.Dict.{Dict, Key, number_key, lookup, insert}
use hush_go.Session.Handshake.{Exchange}
use hush_go.Session.Store
use hush_go.Session.Store.{SessionConfig, SessionStore, new_session_store}
use hush_go.Media.Tokens
use hush_go.Media.Tokens.{Token, TokenStore, new_token_store}
use hush_go.Server.Middleware.{Middleware, StreamMiddleware, StreamHandler}

pub record Server (x : Exchange) (S : Type 0) : Type 0 where
  pub handlers : Dict ℕ (Handler S)
  pub sessions : SessionStore
  pub middlewares : List (Middleware S)
  pub stream_middlewares : List (StreamMiddleware S)
  pub key_store : Bytes → Option Bytes
  pub server_priv : x.PrivateKey
  pub media_store : Option (TokenStore SessionStore)
  pub session_cfg : SessionConfig

-- SessionConfig{}
abbrev pub zero_config : SessionConfig
zero_config = record { idle_timeout = pos 0; max_lifetime = pos 0; gc_interval = pos 0 }

-- An interface value as a StreamHandler, and back.
abbrev pub of_stream_handler : {S : Type 0} → StreamHandler S → Handler S
of_stream_handler (f, g) = stream_handler f g

-- The loops over the middlewares: the last one is applied first. `i` counts those still to apply.
unfoldable pub wrap_down : {H : Type 0} → List (H → H) → ℕ → H → H
wrap_down mws zero h = h
wrap_down mws (suc i) h = wrap_down mws i (elim (get_elem? mws i) [ none ↦ h | some mw ↦ mw h ])

module _ {x : Exchange} {S : Type 0} where
  -- WithSessionConfig and WithMediaSupport; the check of the token store reads the sessions as they are
  -- when Validate calls it.
  unfoldable pub with_session_config : SessionConfig → Server x S → Server x S
  with_session_config cfg s = record s { session_cfg = cfg }

  unfoldable pub with_media_support : Server x S → Server x S
  with_media_support s = record s {
    media_store = some (
        new_token_store
          (some (λ sessions id. elim (Store.get sessions id) [ none ↦ false | some _ ↦ true ])));
  }

  abbrev pub apply_options : List (Server x S → Server x S) → Server x S → Server x S
  apply_options [] s = s
  apply_options (opt ∷ opts) s = apply_options opts (opt s)

  -- NewServer; `priv` is what GenerateKeyPair gives, and a nil key store has no key.
  unfoldable pub new_server :
      Option (Bytes → Option Bytes)
      → Option x.PrivateKey
      → List (Server x S → Server x S)
      → Outcome (Server x S)
  new_server key_store none opts = err no_randomness
  new_server key_store (some priv) opts =
      let s : Server x S = apply_options opts (record {
        handlers = [];
        sessions = new_session_store zero_config;
        middlewares = [];
        stream_middlewares = [];
        key_store = (elim key_store [ none ↦ (λ _. none) | some keys ↦ keys ]);
        server_priv = priv;
        media_store = none;
        session_cfg = zero_config;
      }) in
      let store = new_session_store s.session_cfg in
      ok (record s { sessions = store; session_cfg = store.config })

  -- Use and UseStream
  unfoldable pub use_middleware : Middleware S → Server x S → Server x S
  use_middleware mw s = record s { middlewares = s.middlewares ++ (mw ∷ []) }

  unfoldable pub use_stream : StreamMiddleware S → Server x S → Server x S
  use_stream mw s = record s { stream_middlewares = s.stream_middlewares ++ (mw ∷ []) }

  -- Handle, HandleFunc, HandleStream and HandleStreamFunc
  unfoldable pub handle : ℕ → Handler S → Server x S → Server x S
  handle opcode h s =
      let wrapped = wrap_down s.middlewares (length s.middlewares) h in
      record s { handlers = insert opcode wrapped s.handlers }

  unfoldable pub handle_func : ℕ → HandleHush S → Server x S → Server x S
  handle_func opcode fn s =
      let wrapped = wrap_down s.middlewares (length s.middlewares) (handler_func fn) in
      record s { handlers = insert opcode wrapped s.handlers }

  unfoldable pub handle_stream : ℕ → StreamHandler S → Server x S → Server x S
  handle_stream opcode h s =
      let wrapped = wrap_down s.stream_middlewares (length s.stream_middlewares) h in
      record s { handlers = insert opcode (of_stream_handler wrapped) s.handlers }

  unfoldable pub handle_stream_func : ℕ → HandleHushStream S → Server x S → Server x S
  handle_stream_func opcode fn s =
      let wrapped =
        wrap_down s.stream_middlewares (length s.stream_middlewares)
          ((λ _ _ s'. (failed, s')), fn) in
      record s { handlers = insert opcode (of_stream_handler wrapped) s.handlers }

  -- MediaTokenStore and IssueMediaToken
  unfoldable pub media_token_store : Server x S → Option (TokenStore SessionStore)
  media_token_store s = s.media_store

  unfoldable pub issue_media_token :
      Server x S → Option Bytes → ℤ → ℕ → Bytes → Server x S × Outcome Token
  issue_media_token s random now session_id track_id = elim s.media_store [
    | none ↦ (s, err media_not_enabled)
    | some ts ↦
        let (ts', tok) = Tokens.issue ts random now session_id track_id in
        (record s { media_store = some ts' }, tok)
  ]
