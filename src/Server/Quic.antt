-- ===== src/Server/Quic.antt =====
-- server/server.go: handleConnection, which serves a QUIC connection. Every stream behind the first has a
-- goroutine of its own that runs handleStream; what these do to the session and to the handlers' state
-- is interleaved in any order, in two parts: the check of the session up to its Touch, and the rest.
pub mod Promise
pub mod Finishing
pub mod Schedules
pub mod Service
mod Tests
use hush_go.Base.{
  ℕ, suc, Bool, true, false, Bytes, List, [], ◌∷◌, Outcome, ok, err, if◌then◌else◌, Option, none,
  some,
}
use hush_go.Base.Int.{ℤ}
use hush_go.Base.Dict.{Dict, Key, number_key, lookup, insert}
use hush_go.Session.Crypto.{Aead}
use hush_go.Session.Handshake.{Exchange, negotiate_server}
use hush_go.Session.Store
use hush_go.Session.Store.{Session, SessionStore, touch}
use hush_go.Frame.Requests.{read_request}
use hush_go.Server.Handlers.{Context, Stream}
use hush_go.Server.Registry.{Server}
use hush_go.Server.Dispatch.{
  session_expired, respond, closing, close, is_over, after_read, recover_turn,
}

-- Where the goroutine of a stream is: it has not begun, it found the session over or alive, or it is
-- through.
pub data Phase : Type 0 where
  accepted : Stream → Phase
  checked : Bool → Stream → Phase
  through : Stream → Phase

-- What the goroutines of a connection share, and the streams in the order of their AcceptStream.
pub record QuicConnection (S : Type 0) : Type 0 where
  pub sess : Session
  pub streams : Dict ℕ Phase
  pub opened : ℕ
  pub state : S

-- A step: AcceptStream gives a stream on which the client writes these bytes, a goroutine checks the
-- session at some time, and a goroutine does the rest with these nonces.
pub data QuicStep : Type 0 where
  accepts : Bytes → QuicStep
  checks : ℕ → ℤ → QuicStep
  finishes : ℕ → Option Bytes → Option Bytes → QuicStep

module _ (aead : Aead) {x : Exchange} {S : Type 0} (srv : Server x S) where
  -- handleStream behind the check of the session and its Touch, with its recover.
  unfoldable pub finish_stream :
      Bool → Option Bytes → Option Bytes → Context → Session → Bytes → Stream → S → Stream × S
  finish_stream over random again ctx sess remote_addr stream s = recover_turn aead srv again sess (
      if over
      then closing s (respond aead random sess.key 0 session_expired stream)
      else after_read aead srv random ctx sess remote_addr stream s
          (read_request aead sess.key stream.incoming))

  abbrev pub check_phase : ℕ → ℤ → QuicConnection S → Option Phase → QuicConnection S
  check_phase i now c (some (accepted stream)) = record c {
    sess = (if is_over aead srv now c.sess then c.sess else touch now c.sess);
    streams = insert i (checked (is_over aead srv now c.sess) stream) c.streams;
  }
  check_phase i now c _ = c

  abbrev pub finish_phase :
      ℕ
      → Option Bytes
      → Option Bytes
      → Context
      → Bytes
      → QuicConnection S
      → Option Phase
      → QuicConnection S
  finish_phase i random again ctx remote_addr c (some (checked over stream)) =
      let (stream', s') = finish_stream over random again ctx c.sess remote_addr stream c.state in
      record c { streams = insert i (through stream') c.streams; state = s' }
  finish_phase i random again ctx remote_addr c _ = c

  -- The loop of handleConnection and its goroutines.
  unfoldable pub quic_step : Context → Bytes → QuicStep → QuicConnection S → QuicConnection S
  quic_step ctx remote_addr (accepts bytes) c = record c {
    streams =
        insert c.opened (accepted (record { incoming = bytes; written = []; closed = false }))
          c.streams;
    opened = suc c.opened;
  }
  quic_step ctx remote_addr (checks i now) c = check_phase i now c (lookup i c.streams)
  quic_step ctx remote_addr (finishes i random again) c =
      finish_phase i random again ctx remote_addr c (lookup i c.streams)

  unfoldable pub quic_steps : Context → Bytes → List QuicStep → QuicConnection S → QuicConnection S
  quic_steps ctx remote_addr [] c = c
  quic_steps ctx remote_addr (step ∷ steps) c =
      quic_steps ctx remote_addr steps (quic_step ctx remote_addr step c)

-- What handleConnection leaves: the server, the handshake's stream, and the connection if there was one.
pub record QuicServed (x : Exchange) (S : Type 0) : Type 0 where
  pub server : Server x S
  pub first : Option Stream
  pub connection : Option (QuicConnection S)
  pub state : S

abbrev pub new_connection : {S : Type 0} → Session → S → QuicConnection S
new_connection sess s = record { sess = sess; streams = []; opened = 0; state = s }

module _ (aead : Aead) {x : Exchange} {S : Type 0} (srv : Server x S) (ctx : Context)
    (remote_addr : Bytes) (s : S) where
  -- handleConnection behind the handshake, whose stream is closed first of all.
  unfoldable pub serve_quic :
      List QuicStep → Bytes → Outcome (Session × Bytes × Bytes) → QuicServed x S
  serve_quic steps incoming (ok (sess, response, rest)) =
      let during = Store.set srv.sessions sess in
      let c =
        quic_steps aead (record srv { sessions = during }) ctx remote_addr steps
          (new_connection sess s) in
      record {
        server = record srv { sessions = Store.delete during sess.id };
        first = some (record { incoming = rest; written = response; closed = true });
        connection = some c;
        state = c.state;
      }
  serve_quic steps incoming (err e) = record {
    server = srv;
    first = some (record { incoming = incoming; written = []; closed = true });
    connection = none;
    state = s;
  }
  serve_quic steps incoming _ = record {
    server = srv;
    first = some (record { incoming = incoming; written = []; closed = false });
    connection = none;
    state = s;
  }

  -- handleConnection at the time `now`, with the number `id` from nextID; `first` is what the client
  -- writes on the first stream, if AcceptStream gives one. No other connection works on the table of
  -- sessions meanwhile.
  unfoldable pub handle_connection : ℕ → ℤ → List QuicStep → Option Bytes → QuicServed x S
  handle_connection id now steps none = record {
    server = srv;
    first = none;
    connection = none;
    state = s;
  }
  handle_connection id now steps (some incoming) =
      serve_quic steps incoming (negotiate_server x srv.server_priv srv.key_store id now incoming)
