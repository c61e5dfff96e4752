-- ===== src/Server/Dispatch/Answers.antt =====
-- What handleStream answers, for handlers whose responses fit a frame.
use hush_go.Base.{
  ℕ, false, Bytes, [], length, All, ◌≡◌, refl, if◌then◌else◌, arith, some, Bool-cases, inl, inr,
}
use hush_go.Server.Handlers.{Context, Handler, Stream}
use hush_go.Base.{OnOk}
use hush_go.Base.Int.{ℤ}
use hush_go.Base.BigEndian.{IsByte}
use hush_go.Session.Crypto.{KeepsBytes}
use hush_go.Frame.Bounds.{IsBounded, read_request-IsBounded}
use hush_go.Base.Dict.{number_key, lookup}
use hush_go.Session.Crypto.{Aead, AeadLaws, nonce_size}
use hush_go.Session.Handshake.{Exchange}
use hush_go.Session.Store.{Session, touch}
use hush_go.Frame.Sealing.{IsKey}
use hush_go.Frame.Requests.{read_request}
use hush_go.Frame.Responses.{Response}
use hush_go.Server.Registry.{Server}
use hush_go.Server.Dispatch.{
  session_expired, request_context, is_over, serve_stream, recover_turn, handle_quic_stream,
}
use hush_go.Server.Dispatch.Own.{session_expired-IsResponse}
use hush_go.Server.Dispatch.Hearing.{
  IsFitting, answer_to_read, Hears, respond-Heard, after_read-Heard,
}

-- The response to what stands on a stream, for a session that is not over or is.
abbrev pub expected_answer :
    Aead
    → {x : Exchange} {S : Type 0} → Server x S
    → ℤ
    → Context
    → Session
    → Bytes
    → Bytes
    → S
    → ℕ × Response
expected_answer aead srv now ctx sess remote_addr incoming s =
    if is_over aead srv now sess
    then (0, session_expired)
    else answer_to_read srv ctx sess remote_addr s (read_request aead sess.key incoming)

abbrev pub fresh_stream : Bytes → Stream
fresh_stream incoming = record { incoming = incoming; written = []; closed = false }

module _ (aead : Aead) (laws : AeadLaws aead) {x : Exchange} {S : Type 0} (srv : Server x S)
    (now : ℤ) (ctx : Context) (sess : Session) (remote_addr nonce again incoming : Bytes) (s : S)
    (good : IsKey sess.key) (size : length nonce ≡ nonce_size)
    (size_again : length again ≡ nonce_size)
    (fits : (opcode : ℕ) (h : Handler S) → lookup opcode srv.handlers ≡ some h → IsFitting h) where
  -- The answer, where what is read has an opcode and a number in their ranges.
  pub handle_quic_stream-Hears :
      OnOk IsBounded (read_request aead sess.key incoming)
      → Hears aead sess.key
          (handle_quic_stream aead srv
            (some nonce)
            (some again)
            now
            ctx
            sess
            remote_addr
            (fresh_stream incoming)
            s).0.written
          (expected_answer aead srv now ctx sess remote_addr incoming s)
  unfolding handle_quic_stream serve_stream touch recover_turn request_context
  handle_quic_stream-Hears bounded = elim (Bool-cases (is_over aead srv now sess)) [
    | inl over ↦ rw over (
        respond-Heard aead laws srv sess nonce again good size size_again (fresh_stream incoming) s
          0 session_expired refl (omega arith) session_expired-IsResponse)
    | inr alive ↦ rw alive (
        after_read-Heard aead laws srv (touch now sess) nonce again good size size_again ctx
          remote_addr (fresh_stream incoming) s (read_request aead sess.key incoming) refl bounded
          fits)
  ]

-- Whatever bytes stand on a new stream, handleStream writes exactly one response: session expired
-- for a session that is over, bad request for a request that cannot be read, not found for an
-- opcode without a handler, the handler's own response, an internal error for its error, and an
-- internal server error under number 0 for a panic of the decoder or the handler and for a nil
-- response. The handlers are no stream handlers and their responses fit a frame.
pub handle_quic_stream_answers :
    (aead : Aead) (laws : AeadLaws aead) (keeps : KeepsBytes aead) {x : Exchange} {S : Type 0}
    (srv : Server x S) (now : ℤ) (ctx : Context) (sess : Session)
    (remote_addr nonce again incoming : Bytes) (s : S)
    → IsKey sess.key
    → length nonce ≡ nonce_size
    → length again ≡ nonce_size
    → All IsByte incoming
    → ((opcode : ℕ) (h : Handler S) → lookup opcode srv.handlers ≡ some h → IsFitting h)
    → Hears aead sess.key
        (handle_quic_stream aead srv
          (some nonce)
          (some again)
          now
          ctx
          sess
          remote_addr
          (fresh_stream incoming)
          s).0.written
        (expected_answer aead srv now ctx sess remote_addr incoming s)
handle_quic_stream_answers aead laws keeps srv now ctx sess remote_addr nonce again incoming s good
      size size_again h fits =
    handle_quic_stream-Hears aead laws srv now ctx sess remote_addr nonce again incoming s good size
      size_again fits (read_request-IsBounded aead keeps sess.key incoming h)
