-- ===== src/Server/Tcp.antt =====
-- server/server.go: handleTCPConnection, which serves the requests of one TLS connection one after
-- the other. `clock`, `nonce` and `cancelled` give the time, the nonce and the state of the context
-- in each round of its loop. A panic is recovered nowhere on this path: it ends the process.
pub mod Rounds
pub mod Loop
pub mod Answers
pub mod Table
pub mod Crashes
pub mod Termination
pub mod Pipeline
use hush_go.Base.{
  ℕ, zero, suc, Bool, true, false, Bytes, [], Outcome, ok, err, if◌then◌else◌, Option, none, some,
}
use hush_go.Server.Handlers.{
  Reply, returned, failed, panicked, Context, Handler, handler, stream_handler, Stream,
}
use hush_go.Base.Int.{ℤ}
use hush_go.Base.Dict.{Dict, Key, number_key, lookup}
use hush_go.Session.Crypto.{Aead}
use hush_go.Session.Handshake.{Exchange, negotiate_server}
use hush_go.Session.Store
use hush_go.Session.Store.{Session, SessionStore, touch}
use hush_go.Frame.Requests.{Request, read_request}
use hush_go.Frame.Responses.{Response}
use hush_go.Server.Registry.{Server}
use hush_go.Server.Dispatch.{
  session_expired, not_found, internal_error, request_context, respond, server_request, close,
  is_over,
}

-- How the loop ends; `out_of_rounds` is no ending of the program but a bound of the model.
pub data Ending : Type 0 where
  context_done session_over client_gone write_failed crashed out_of_rounds : Ending

-- What follows a round.
pub data Next : Type 0 where
  go_on : Next
  stop : Ending → Next

-- Where a round leaves the connection, the session, the context and the state.
pub record Round (S : Type 0) : Type 0 where
  pub stream : Stream
  pub sess : Session
  pub ctx : Context
  pub state : S
  pub next : Next

-- A response whose error is ignored, and one whose error ends the loop.
abbrev pub ignoring : Reply (Unit {0}) → Next
ignoring panicked = stop crashed
ignoring _ = go_on

abbrev pub checking : Reply (Unit {0}) → Next
checking (returned _) = go_on
checking failed = stop write_failed
checking panicked = stop crashed

module _ (aead : Aead) {x : Exchange} {S : Type 0} (srv : Server x S) where
  -- The reply of a request handler, written to the connection. A nil response panics where its
  -- status is logged.
  unfoldable pub answer_tcp :
      Option Bytes → Session → ℕ → Reply (Option Response) → Stream → Next × Stream
  answer_tcp random sess seq (returned (some resp)) stream =
      let (reply, stream') = respond aead random sess.key seq resp stream in
      (checking reply, stream')
  answer_tcp random sess seq failed stream =
      let (reply, stream') = respond aead random sess.key seq internal_error stream in
      (ignoring reply, stream')
  answer_tcp random sess seq _ stream = (stop crashed, stream)

  -- A round behind the lookup of the handler. A stream handler gets the context of the connection.
  unfoldable pub route_tcp :
      Option Bytes
      → Context
      → Context
      → Session
      → Request
      → ℕ
      → Stream
      → S
      → Option (Handler S)
      → Round S
  route_tcp random stream_ctx ctx sess req seq stream s none =
      let (reply, stream') = respond aead random sess.key seq (not_found req.opcode) stream in
      record { stream = stream'; sess = sess; ctx = ctx; state = s; next = ignoring reply }
  route_tcp random stream_ctx ctx sess req seq stream s (some (stream_handler f g)) =
      let (reply, stream', s') = g stream_ctx (server_request sess req) sess.key stream s in
      record { stream = stream'; sess = sess; ctx = ctx; state = s'; next = ignoring reply }
  route_tcp random stream_ctx ctx sess req seq stream s (some (handler f)) =
      let (reply, s') = f ctx (server_request sess req) s in
      let (next, stream') = answer_tcp random sess seq reply stream in
      record { stream = stream'; sess = sess; ctx = ctx; state = s'; next = next }

  -- A round by what ReadRequest gave. The context gets the metadata once more in every round.
  unfoldable pub after_read_tcp :
      Option Bytes
      → Context
      → Context
      → Session
      → Bytes
      → Stream
      → S
      → Outcome (Request × ℕ × Bytes)
      → Round S
  after_read_tcp random stream_ctx ctx sess remote_addr stream s (ok (req, seq, rest)) =
      route_tcp random stream_ctx (request_context ctx sess remote_addr) sess req seq
        (record stream { incoming = rest }) s (lookup req.opcode srv.handlers)
  after_read_tcp random stream_ctx ctx sess remote_addr stream s (err e) = record {
    stream = stream;
    sess = sess;
    ctx = ctx;
    state = s;
    next = stop client_gone;
  }
  after_read_tcp random stream_ctx ctx sess remote_addr stream s _ = record {
    stream = stream;
    sess = sess;
    ctx = ctx;
    state = s;
    next = stop crashed;
  }

  -- The body of the loop behind the test of the context.
  unfoldable pub tcp_round :
      Option Bytes → ℤ → Context → Context → Session → Bytes → Stream → S → Round S
  tcp_round random now stream_ctx ctx sess remote_addr stream s =
      let (reply, stream') = respond aead random sess.key 0 session_expired stream in
      if is_over aead srv now sess
      then record {
        stream = close stream';
        sess = sess;
        ctx = ctx;
        state = s;
        next = stop session_over;
      }
      else after_read_tcp random stream_ctx ctx (touch now sess) remote_addr stream s
          (read_request aead sess.key stream.incoming)

  module _ (cancelled : ℕ → Bool) (clock : ℕ → ℤ) (nonce : ℕ → Option Bytes) (stream_ctx : Context)
      (remote_addr : Bytes) where
    -- The loop from round `i` on. A round that goes on has read a frame of eight bytes at least.
    unfoldable pub tcp_rounds : ℕ → ℕ → Context → Session → Stream → S → Round S
    tcp_rounds zero i ctx sess stream s = record {
      stream = stream;
      sess = sess;
      ctx = ctx;
      state = s;
      next = stop out_of_rounds;
    }
    tcp_rounds (suc rounds) i ctx sess stream s =
        let t = tcp_round (nonce i) (clock i) stream_ctx ctx sess remote_addr stream s in
        let rest = tcp_rounds rounds (suc i) t.ctx t.sess t.stream t.state in
        if cancelled i
        then record { stream = stream; sess = sess; ctx = ctx; state = s; next = stop context_done }
        else elim t.next [ go_on ↦ rest | stop e ↦ t ]

-- The server with its table of sessions changed.
abbrev with_sessions :
    {x : Exchange} {S : Type 0} → (SessionStore → SessionStore) → Server x S → Server x S
with_sessions f srv = record srv { sessions = f srv.sessions }

-- What a connection leaves behind; `ending` is none if the handshake failed.
pub record Served (x : Exchange) (S : Type 0) : Type 0 where
  pub server : Server x S
  pub stream : Stream
  pub state : S
  pub ending : Option Ending

module _ (aead : Aead) {x : Exchange} {S : Type 0} (cancelled : ℕ → Bool) (clock : ℕ → ℤ)
    (nonce : ℕ → Option Bytes) (rounds : ℕ) (ctx : Context) (remote_addr incoming : Bytes) (s : S)
    (srv : Server x S) where
  -- handleTCPConnection behind the handshake: the session is in the table while the loop runs.
  unfoldable pub serve_connection : Outcome (Session × Bytes × Bytes) → Served x S
  serve_connection (ok (sess, response, rest)) =
      let during = with_sessions (λ ss. Store.set ss sess) srv in
      let stream : Stream = record { incoming = rest; written = response; closed = false } in
      let t =
        tcp_rounds aead during cancelled clock nonce ctx remote_addr rounds 0 ctx sess stream s in
      record {
        server = with_sessions (λ ss. Store.delete ss sess.id) during;
        stream = t.stream;
        state = t.state;
        ending = some (elim t.next [ go_on ↦ out_of_rounds | stop e ↦ e ]);
      }
  serve_connection (err e) = record {
    server = srv;
    stream = record { incoming = incoming; written = []; closed = true };
    state = s;
    ending = none;
  }
  serve_connection _ = record {
    server = srv;
    stream = record { incoming = incoming; written = []; closed = false };
    state = s;
    ending = some crashed;
  }

  -- handleTCPConnection at the time `now`, with the number `id` from nextID, where no other connection
  -- works on the table of sessions meanwhile.
  unfoldable pub handle_tcp_connection : ℕ → ℤ → Served x S
  handle_tcp_connection id now =
      serve_connection (negotiate_server x srv.server_priv srv.key_store id now incoming)
