-- ===== src/Server/Dispatch.antt =====
-- server/server.go: handleStream, which answers the request on a QUIC stream, and what
-- handleTCPConnection does in the same way. The clock and the nonces are arguments; what is logged is
-- left out. The outcome `out_of_fuel` of a read does not occur and stands with the panics.
pub mod Own
pub mod Hearing
pub mod Answers
use hush_go.Base.{
  ℕ, ◌+◌, Bool, true, false, ◌||◌, Bytes, ◌++◌, length, Outcome, ok, err, panics, out_of_fuel, ◌==◌,
  if◌then◌else◌, Option, none, some,
}
use hush_go.Server.Handlers.{
  Reply, returned, failed, panicked, ServerRequest, Context, with_value, ctx_session_id,
  ctx_api_key_id, ctx_remote_addr, number, text, Handler, handler, stream_handler, error_response,
  Stream,
}
use hush_go.Base.Int.{ℤ}
use hush_go.Base.Text.{codes}
use hush_go.Base.Dict.{Dict, Key, number_key, lookup}
use hush_go.Tlv.Types.{Value, Map, uint16}
use hush_go.Tlv.Map.{new_map, set}
use hush_go.Session.Crypto.{Aead}
use hush_go.Session.Handshake.{Exchange, negotiate_server}
use hush_go.Session.Store
use hush_go.Session.Store.{Session, SessionStore, touch, is_expired, is_idle_dead}
use hush_go.Frame.Requests.{Request, read_request}
use hush_go.Frame.Responses.{
  Response, write_response, status_not_found, status_session_expired, status_bad_request,
  status_internal_error,
}
use hush_go.Server.Registry.{Server}

-- The responses that the server makes itself.
abbrev pub session_expired : Response
session_expired = record { status = status_session_expired; payload = none; seq = 0 }

abbrev pub bad_request : Response
bad_request = error_response status_bad_request (codes "bad request")

abbrev pub not_found : ℕ → Response
not_found opcode = record {
  status = status_not_found;
  payload = some (set new_map (codes "opcode") (uint16 opcode));
  seq = 0;
}

abbrev pub internal_error : Response
internal_error = error_response status_internal_error (codes "internal error")

abbrev pub internal_server_error : Response
internal_server_error = error_response status_internal_error (codes "internal server error")

-- The context with the metadata of a session and a remote address.
unfoldable pub request_context : Context → Session → Bytes → Context
request_context ctx sess remote_addr =
    let named =
      with_value (with_value ctx ctx_session_id (number sess.id)) ctx_api_key_id
        (text sess.api_key_id) in
    if length remote_addr == 0 then named else with_value named ctx_remote_addr (text remote_addr)

-- A Write of bytes, unless the call that made them returned an error or panicked.
abbrev pub sent : Outcome Bytes → Stream → Stream
sent (ok bytes) stream = record stream { written = stream.written ++ bytes }
sent _ stream = stream

abbrev pub close : Stream → Stream
close stream = record stream { closed = true }

-- How WriteResponse ended.
abbrev pub as_reply : Outcome Bytes → Reply (Unit {0})
as_reply (ok bytes) = returned tt
as_reply (err e) = failed
as_reply panics = panicked
as_reply out_of_fuel = panicked

-- WriteResponse on a stream.
unfoldable pub respond :
    Aead → Option Bytes → Option Bytes → ℕ → Response → Stream → Reply (Unit {0}) × Stream
respond aead random key seq resp stream =
    let bytes = write_response aead random key seq resp in (as_reply bytes, sent bytes stream)

-- Where handleStream is when it returns or panics.
pub record Turn (S : Type 0) : Type 0 where
  pub stream : Stream
  pub state : S
  pub panicking : Bool

abbrev pub server_request : Session → Request → ServerRequest
server_request sess req = record {
  request = req;
  session_id = sess.id;
  api_key_id = sess.api_key_id;
}

-- A stream that is closed after a call, unless the call panicked.
abbrev pub closing : {A S : Type 0} → S → Reply A × Stream → Turn S
closing s (panicked, stream) = record { stream = stream; state = s; panicking = true }
closing s (_, stream) = record { stream = close stream; state = s; panicking = false }

module _ (aead : Aead) {x : Exchange} {S : Type 0} (srv : Server x S) where
  unfoldable pub is_over : ℤ → Session → Bool
  is_over now sess = is_expired srv.sessions now sess || is_idle_dead srv.sessions now sess

  -- The answer to the reply of a request handler. A nil response panics where its status is logged.
  unfoldable pub answer :
      Option Bytes → Session → ℕ → Reply (Option Response) → Stream → Reply (Unit {0}) × Stream
  answer random sess seq (returned (some resp)) stream =
      respond aead random sess.key seq resp stream
  answer random sess seq (returned none) stream = (panicked, stream)
  answer random sess seq failed stream = respond aead random sess.key seq internal_error stream
  answer random sess seq panicked stream = (panicked, stream)

  -- handleStream from the handler on. A stream handler gets the context without the metadata.
  unfoldable pub call_handler :
      Option Bytes → Context → Session → Bytes → Request → ℕ → Stream → S → Handler S → Turn S
  call_handler random ctx sess remote_addr req seq stream s (stream_handler f g) =
      let (reply, stream', s') = g ctx (server_request sess req) sess.key stream s in
      closing s' (reply, stream')
  call_handler random ctx sess remote_addr req seq stream s (handler f) =
      let (reply, s') = f (request_context ctx sess remote_addr) (server_request sess req) s in
      closing s' (answer random sess seq reply stream)

  -- handleStream behind the lookup of the handler.
  unfoldable pub route :
      Option Bytes
      → Context
      → Session
      → Bytes
      → Request
      → ℕ
      → Stream
      → S
      → Option (Handler S)
      → Turn S
  route random ctx sess remote_addr req seq stream s none =
      closing s (respond aead random sess.key seq (not_found req.opcode) stream)
  route random ctx sess remote_addr req seq stream s (some h) =
      call_handler random ctx sess remote_addr req seq stream s h

  -- handleStream behind the check of the session, by what ReadRequest gave.
  unfoldable pub after_read :
      Option Bytes → Context → Session → Bytes → Stream → S → Outcome (Request × ℕ × Bytes) → Turn S
  after_read random ctx sess remote_addr stream s (ok (req, seq, rest)) =
      route random ctx sess remote_addr req seq (record stream { incoming = rest }) s
        (lookup req.opcode srv.handlers)
  after_read random ctx sess remote_addr stream s (err e) =
      closing s (respond aead random sess.key 0 bad_request stream)
  after_read random ctx sess remote_addr stream s panics = record {
    stream = stream;
    state = s;
    panicking = true;
  }
  after_read random ctx sess remote_addr stream s out_of_fuel = record {
    stream = stream;
    state = s;
    panicking = true;
  }

  -- handleStream without its recover.
  unfoldable pub serve_stream : Option Bytes → ℤ → Context → Session → Bytes → Stream → S → Turn S
  serve_stream random now ctx sess remote_addr stream s =
      if is_over now sess
      then closing s (respond aead random sess.key 0 session_expired stream)
      else after_read random ctx (touch now sess) remote_addr stream s
          (read_request aead sess.key stream.incoming)

  -- The deferred function of handleStream: a panic is answered, and leaves the stream open.
  unfoldable pub recover_turn : Option Bytes → Session → Turn S → Stream × S
  recover_turn random sess t =
      if t.panicking
      then ((respond aead random sess.key 0 internal_server_error t.stream).1, t.state)
      else (t.stream, t.state)

  -- handleStream; `again` is the nonce for the answer to a panic.
  unfoldable pub handle_quic_stream :
      Option Bytes → Option Bytes → ℤ → Context → Session → Bytes → Stream → S → Stream × S
  handle_quic_stream random again now ctx sess remote_addr stream s =
      recover_turn again sess (serve_stream random now ctx sess remote_addr stream s)
