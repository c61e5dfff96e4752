-- ===== src/Server/Dispatch/Hearing.antt =====
-- What a client reads after each step of handleStream, for handlers whose responses fit a frame.
use hush_go.Base.{
  ℕ, ◌^◌, ◌<◌, true, Bytes, [], ◌++◌, append-nil, length, Outcome, ok, err, panics, out_of_fuel,
  ◌≡◌, refl, arith, Option, none, some,
}
use hush_go.Server.Handlers.{
  Reply, returned, failed, panicked, ServerRequest, Context, Handler, handler, stream_handler,
  Stream,
}
use hush_go.Base.{OnOk}
use hush_go.Frame.Bounds.{IsBounded}
use hush_go.Base.Dict.{number_key, lookup}
use hush_go.Session.Crypto.{Aead, AeadLaws, nonce_size}
use hush_go.Session.Handshake.{Exchange}
use hush_go.Session.Store.{Session}
use hush_go.Frame.Framing.{wire}
use hush_go.Frame.Sealing.{IsKey, sealed_bytes}
use hush_go.Frame.Requests.{Request}
use hush_go.Frame.Responses.{
  Response, IsResponse, response_bytes, response_on_wire, write_response_total, read_response,
  read_response-wire,
}
use hush_go.Server.Registry.{Server}
use hush_go.Server.Dispatch.{
  bad_request, not_found, internal_error, internal_server_error, request_context, respond, Turn,
  server_request, closing, answer, call_handler, route, after_read, recover_turn,
}
use hush_go.Server.Dispatch.Own.{
  not_found-IsResponse, bad_request-IsResponse, internal_error-IsResponse,
  internal_server_error-IsResponse,
}

-- A reply whose response, if there is one, fits a frame.
abbrev pub FitsReply : Reply (Option Response) → Type 0
FitsReply (returned (some resp)) = IsResponse resp
FitsReply _ = Unit

-- A handler that is no StreamHandler, with such replies only.
abbrev pub IsFitting : {S : Type 0} → Handler S → Type 0
IsFitting {S} (handler f) =
    (ctx : Context) (req : ServerRequest) (s : S) → FitsReply (f ctx req s).0
IsFitting (stream_handler f g) = ⊥

-- Which response answers a reply, and under which number: a panic, and a nil response, are answered
-- by an internal server error under 0.
abbrev pub answer_to_reply : ℕ → Reply (Option Response) → ℕ × Response
answer_to_reply seq (returned (some resp)) = (seq, resp)
answer_to_reply seq (returned none) = (0, internal_server_error)
answer_to_reply seq failed = (seq, internal_error)
answer_to_reply seq panicked = (0, internal_server_error)

module _ {x : Exchange} {S : Type 0} (srv : Server x S) (ctx : Context) (sess : Session)
    (remote_addr : Bytes) where
  abbrev pub answer_of_handler : ℕ → Request → S → Option (Handler S) → ℕ × Response
  answer_of_handler seq req s none = (seq, not_found req.opcode)
  answer_of_handler seq req s (some (handler f)) =
      answer_to_reply seq (f (request_context ctx sess remote_addr) (server_request sess req) s).0
  answer_of_handler seq req s (some (stream_handler f g)) = (0, internal_server_error)

  abbrev pub answer_to_read : S → Outcome (Request × ℕ × Bytes) → ℕ × Response
  answer_to_read s (ok (req, seq, rest)) =
      answer_of_handler seq req s (lookup req.opcode srv.handlers)
  answer_to_read s (err e) = (0, bad_request)
  answer_to_read s _ = (0, internal_server_error)

-- What a client reads: exactly one response, which is the one named.
abbrev pub Hears : Aead → Option Bytes → Bytes → ℕ × Response → Type 0
Hears aead key written (seq, resp) =
    read_response aead key written ≡ ok (response_on_wire seq resp, [])

module _ (aead : Aead) (laws : AeadLaws aead) where
  pub respond_lem :
      (key : Option Bytes) (nonce : Bytes) (seq : ℕ) (resp : Response) (stream : Stream)
      → IsKey key
      → length nonce ≡ nonce_size
      → IsResponse resp
      → respond aead (some nonce) key seq resp stream ≡ (
        returned tt,
        record stream {
          written =
              stream.written ++ wire seq (sealed_bytes aead laws key nonce (response_bytes resp));
        },
      )
  unfolding respond
  respond_lem key nonce seq resp stream good size h =
      rw (write_response_total aead laws key nonce seq resp good size h)

  wire-Hears :
      (key : Option Bytes) (nonce : Bytes) (seq : ℕ) (resp : Response)
      → IsKey key
      → length nonce ≡ nonce_size
      → seq < 2 ^ 32
      → IsResponse resp
      → Hears aead key
          (wire seq (sealed_bytes aead laws key nonce (response_bytes resp)))
          (seq, resp)
  wire-Hears key nonce seq resp good size hs h =
      rw (← append-nil (wire seq (sealed_bytes aead laws key nonce (response_bytes resp))))
        (read_response-wire aead laws key nonce seq resp [] good size hs h)

module _ (aead : Aead) (laws : AeadLaws aead) {x : Exchange} {S : Type 0} (srv : Server x S)
    (sess : Session) (nonce again : Bytes) (good : IsKey sess.key)
    (size : length nonce ≡ nonce_size) (size_again : length again ≡ nonce_size) where
  -- What the client reads once handleStream is through its recover.
  abbrev pub Heard : Turn S → ℕ × Response → Type 0
  Heard t answer = Hears aead sess.key (recover_turn aead srv (some again) sess t).0.written answer

  pub respond-Heard :
      (stream : Stream) (s : S) (seq : ℕ) (resp : Response)
      → stream.written ≡ []
      → seq < 2 ^ 32
      → IsResponse resp
      → Heard (closing s (respond aead (some nonce) sess.key seq resp stream)) (seq, resp)
  unfolding recover_turn
  respond-Heard stream s seq resp fresh hs h =
      rw (respond_lem aead laws sess.key nonce seq resp stream good size h, fresh)
        (wire-Hears aead laws sess.key nonce seq resp good size hs h)

  panicking-Heard :
      (stream : Stream) (s : S)
      → stream.written ≡ []
      → Heard (record { stream = stream; state = s; panicking = true }) (0, internal_server_error)
  unfolding recover_turn
  panicking-Heard stream s fresh =
      rw
        (
          respond_lem aead laws sess.key again 0 internal_server_error stream good size_again
              internal_server_error-IsResponse,
          fresh,
        )
        (wire-Hears aead laws sess.key again 0 internal_server_error good size_again (omega arith)
          internal_server_error-IsResponse)

  answer-Heard :
      (stream : Stream) (s : S) (seq : ℕ) (reply : Reply (Option Response))
      → stream.written ≡ []
      → seq < 2 ^ 32
      → FitsReply reply
      → Heard
          (closing s (answer aead srv (some nonce) sess seq reply stream))
          (answer_to_reply seq reply)
  unfolding answer
  answer-Heard stream s seq (returned (some resp)) fresh hs h =
      respond-Heard stream s seq resp fresh hs h
  answer-Heard stream s seq (returned none) fresh hs h = panicking-Heard stream s fresh
  answer-Heard stream s seq failed fresh hs h =
      respond-Heard stream s seq internal_error fresh hs internal_error-IsResponse
  answer-Heard stream s seq panicked fresh hs h = panicking-Heard stream s fresh

  handler-Heard :
      (ctx : Context) (remote_addr : Bytes) (req : Request) (seq : ℕ) (stream : Stream) (s : S)
      (h : Handler S)
      → stream.written ≡ []
      → seq < 2 ^ 32
      → IsFitting h
      → Heard
          (call_handler aead srv (some nonce) ctx sess remote_addr req seq stream s h)
          (answer_of_handler srv ctx sess remote_addr seq req s (some h))
  unfolding call_handler
  handler-Heard ctx remote_addr req seq stream s (handler f) fresh hs h =
      answer-Heard stream _ seq
        (f (request_context ctx sess remote_addr) (server_request sess req) s).0 fresh hs
        (h (request_context ctx sess remote_addr) (server_request sess req) s)
  handler-Heard ctx remote_addr req seq stream s (stream_handler f g) fresh hs h = absurd h

  route-Heard :
      (ctx : Context) (remote_addr : Bytes) (req : Request) (seq : ℕ) (stream : Stream) (s : S)
      (found : Option (Handler S))
      → stream.written ≡ []
      → req.opcode < 2 ^ 16
      → seq < 2 ^ 32
      → ((h : Handler S) → found ≡ some h → IsFitting h)
      → Heard
          (route aead srv (some nonce) ctx sess remote_addr req seq stream s found)
          (answer_of_handler srv ctx sess remote_addr seq req s found)
  unfolding route
  route-Heard ctx remote_addr req seq stream s none fresh ho hs fits =
      respond-Heard stream s seq (not_found req.opcode) fresh hs
        (not_found-IsResponse req.opcode ho)
  route-Heard ctx remote_addr req seq stream s (some h) fresh ho hs fits =
      handler-Heard ctx remote_addr req seq stream s h fresh hs (fits h refl)

  pub after_read-Heard :
      (ctx : Context) (remote_addr : Bytes) (stream : Stream) (s : S)
      (got : Outcome (Request × ℕ × Bytes))
      → stream.written ≡ []
      → OnOk IsBounded got
      → ((opcode : ℕ) (h : Handler S) → lookup opcode srv.handlers ≡ some h → IsFitting h)
      → Heard
          (after_read aead srv (some nonce) ctx sess remote_addr stream s got)
          (answer_to_read srv ctx sess remote_addr s got)
  unfolding after_read
  after_read-Heard ctx remote_addr stream s (ok (req, seq, rest)) fresh b fits =
      route-Heard ctx remote_addr req seq (record stream { incoming = rest }) s
        (lookup req.opcode srv.handlers) fresh b.0 b.1 (fits req.opcode)
  after_read-Heard ctx remote_addr stream s (err e) fresh b fits =
      respond-Heard stream s 0 bad_request fresh (omega arith) bad_request-IsResponse
  after_read-Heard ctx remote_addr stream s panics fresh b fits = panicking-Heard stream s fresh
  after_read-Heard ctx remote_addr stream s out_of_fuel fresh b fits =
      panicking-Heard stream s fresh
