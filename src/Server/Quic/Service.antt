-- ===== src/Server/Quic/Service.antt =====
-- handleConnection from its first stream on.
use hush_go.Base.{
  ℕ, Bytes, List, All, Outcome, ok, err, panics, out_of_fuel, ◌≡◌, refl, ap, sym, subst, Option,
  none, some,
}
use hush_go.Base.{OnOk-Ensures, Ensures-map}
use hush_go.Session.Handshake.{ExchangeLaws, negotiate_server}
use hush_go.Session.Handshake.Refusal.{negotiate_server-Ensures}
use hush_go.Session.Store
use hush_go.Session.Store.{new_session, SessionStore}
use hush_go.Session.Store.Around.{lookup-delete-set}
use hush_go.Base.Dict.{IsUnique}
use hush_go.Server.Quic.{serve_quic, handle_connection}
use hush_go.Server.Quic.Schedules.{steps-IsDesk}
use hush_go.Base.{OnOk}
use hush_go.Base.Int.{ℤ}
use hush_go.Base.Dict.{number_key, lookup}
use hush_go.Session.Crypto.{Aead, AeadLaws, KeepsBytes}
use hush_go.Session.Handshake.{Exchange}
use hush_go.Session.Store.{Session, touch}
use hush_go.Frame.Sealing.{IsKey}
use hush_go.Server.Handlers.{Context, Handler}
use hush_go.Server.Registry.{Server}
use hush_go.Server.Dispatch.Hearing.{IsFitting}
use hush_go.Server.Quic.{QuicConnection, QuicStep, new_connection}
use hush_go.Server.Quic.Promise.{desk_steps, new_desk, IsQuicStep, IsDesk}

-- The server while the session is in its table.
abbrev pub during : {x : Exchange} {S : Type 0} → Server x S → Session → Server x S
during srv sess = record srv { sessions = Store.set srv.sessions sess }

-- handleConnection, for a client whose handshake gives a session with a key of a size that AES
-- takes or with none, on handlers that are no stream handlers and whose responses fit a frame,
-- where rand.Reader gives the nonces: whatever streams the client opens, whatever bytes it writes
-- on them, and in whichever order the goroutines check the session and do the rest, every stream
-- that is through carries exactly one readable response, and the handlers' state is the one that
-- the calls leave. Both are those of a machine that checks the session of each stream at the same
-- point and answers it in one step, with the bytes of the stream read as ReadRequest reads them
-- under the session's key: session expired where the session was over, a bad request where
-- ReadRequest returns an error, not found for an opcode without a handler, else what the handler
-- replies to the request, on the state that the call before left, an internal error for its error,
-- and an internal server error under 0 for its panic or a nil response. Frames, nonces, the sealing
-- of responses and the goroutines' recover are not in the machine.
pub handle_connection-IsDesk :
    (aead : Aead) (laws : AeadLaws aead) (keeps : KeepsBytes aead) {x : Exchange} {S : Type 0}
    (srv : Server x S) (ctx : Context) (remote_addr : Bytes) (s : S) (id : ℕ) (now : ℤ)
    (steps : List QuicStep) (incoming response rest : Bytes) (sess : Session)
    → ((opcode : ℕ) (h : Handler S) → lookup opcode srv.handlers ≡ some h → IsFitting h)
    → negotiate_server x srv.server_priv srv.key_store id now incoming ≡ ok (sess, response, rest)
    → IsKey sess.key
    → All IsQuicStep steps
    → (c : QuicConnection S) × ((handle_connection aead srv ctx remote_addr s id now steps
          (some incoming)).connection
        ≡ some c)
      × IsDesk aead sess.key
          (desk_steps aead (during srv sess) ctx remote_addr steps (new_desk sess s))
          c
unfolding handle_connection serve_quic lookup
handle_connection-IsDesk aead laws keeps srv ctx remote_addr s id now steps incoming response rest
      sess fits e good h =
    rw e (
      _,
      refl,
      steps-IsDesk aead laws keeps (during srv sess) ctx remote_addr fits sess.key good steps
          (new_desk sess s) (new_connection sess s) h
          (record {
            same_sess = refl;
            same_key = refl;
            same_opened = refl;
            same_state = refl;
            shows = λ i. tt;
          }),
    )

module _ (aead : Aead) {x : Exchange} {S : Type 0} (srv : Server x S) (ctx : Context)
    (remote_addr : Bytes) (s : S) where
  serve_quic-lookup :
      (id j : ℕ) (steps : List QuicStep) (incoming : Bytes)
      (got : Outcome (Session × Bytes × Bytes))
      → IsUnique srv.sessions.sessions
      → lookup id srv.sessions.sessions ≡ none
      → OnOk (λ r. r.0.id ≡ id) got
      → lookup j (serve_quic aead srv ctx remote_addr s steps incoming got).server.sessions.sessions
        ≡ lookup j srv.sessions.sessions
  unfolding serve_quic
  serve_quic-lookup id j steps incoming (ok (sess, response, rest)) unique fresh same =
      lookup-delete-set j srv.sessions sess unique
        (subst (λ i. lookup i srv.sessions.sessions ≡ none) (sym same) fresh)
  serve_quic-lookup id j steps incoming (err e) unique fresh same = refl
  serve_quic-lookup id j steps incoming panics unique fresh same = refl
  serve_quic-lookup id j steps incoming out_of_fuel unique fresh same = refl

  -- Where no other connection, no handler and no gcLoop touches the table of sessions meanwhile:
  -- whatever arrives on a QUIC connection and however its goroutines run, once handleConnection is
  -- through, every number leads to the session that it led to before, and the connection's own,
  -- which is new, to none.
  pub handle_connection-lookup :
      ExchangeLaws x
      → (id j : ℕ) (now : ℤ) (steps : List QuicStep) (first : Option Bytes)
      → IsUnique srv.sessions.sessions
      → lookup id srv.sessions.sessions ≡ none
      → lookup j
          (handle_connection aead srv ctx remote_addr s id now steps first).server.sessions.sessions
        ≡ lookup j srv.sessions.sessions
  unfolding handle_connection new_session
  handle_connection-lookup laws id j now steps none unique fresh = refl
  handle_connection-lookup laws id j now steps (some incoming) unique fresh =
      serve_quic-lookup id j steps incoming
        (negotiate_server x srv.server_priv srv.key_store id now incoming) unique fresh
        (OnOk-Ensures (
          Ensures-map
            (negotiate_server-Ensures x laws srv.server_priv srv.key_store id now incoming)
            (λ r accepted. ap (λ t. t.0.id) accepted.served.is_result)))
