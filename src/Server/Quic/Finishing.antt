-- ===== src/Server/Quic/Finishing.antt =====
-- What a goroutine of a QUIC connection does behind its check of the session.
use hush_go.Base.{
  ℕ, Bool, true, false, Bytes, [], length, All, Outcome, ok, err, panics, out_of_fuel, ◌≡◌, refl,
  ◌∙◌, arith, Option, none, some, Bool-cases, inl, inr,
}
use hush_go.Base.BigEndian.{IsByte}
use hush_go.Base.Dict.{number_key, lookup}
use hush_go.Session.Crypto.{Aead, AeadLaws, KeepsBytes, nonce_size}
use hush_go.Session.Handshake.{Exchange}
use hush_go.Session.Store.{Session}
use hush_go.Frame.Sealing.{IsKey}
use hush_go.Frame.Bounds.{read_request-IsBounded}
use hush_go.Frame.Requests.{Request, read_request}
use hush_go.Server.Handlers.{
  Reply, returned, failed, panicked, Context, Handler, handler, stream_handler, Stream,
}
use hush_go.Server.Registry.{Server}
use hush_go.Server.Dispatch.{
  session_expired, closing, after_read, route, call_handler, recover_turn, Turn,
}
use hush_go.Server.Dispatch.Own.{session_expired-IsResponse}
use hush_go.Server.Dispatch.Hearing.{IsFitting, Hears, respond-Heard, after_read-Heard}
use hush_go.Server.Quic.{finish_stream}
use hush_go.Server.Quic.Promise.{state_behind_handler, state_behind, answer_at}

closing_state : {A S : Type 0} (s : S) (r : Reply A × Stream) → (closing s r).state ≡ s
closing_state s (returned a, stream) = refl
closing_state s (failed, stream) = refl
closing_state s (panicked, stream) = refl

module _ (aead : Aead) {x : Exchange} {S : Type 0} (srv : Server x S) (ctx : Context)
    (remote_addr : Bytes)
    (fits : (opcode : ℕ) (h : Handler S) → lookup opcode srv.handlers ≡ some h → IsFitting h) where
  recover_turn_state :
      (again : Option Bytes) (sess : Session) (t : Turn S)
      → (recover_turn aead srv again sess t).1 ≡ t.state
  unfolding recover_turn
  recover_turn_state again sess t = elim (Bool-cases t.panicking) [
    | inl broken ↦ rw broken refl
    | inr whole ↦ rw whole refl
  ]

  route_state :
      (random : Option Bytes) (sess : Session) (req : Request) (seq : ℕ) (stream : Stream) (s : S)
      (o : Option (Handler S))
      → ((h : Handler S) → o ≡ some h → IsFitting h)
      → (route aead srv random ctx sess remote_addr req seq stream s o).state
        ≡ state_behind_handler aead srv ctx remote_addr sess req s o
  unfolding route call_handler
  route_state random sess req seq stream s none fit = closing_state s _
  route_state random sess req seq stream s (some (handler f)) fit = closing_state _ _
  route_state random sess req seq stream s (some (stream_handler f g)) fit =
      absurd (fit (stream_handler f g) refl)

  after_read_state :
      (random : Option Bytes) (sess : Session) (stream : Stream) (s : S)
      (got : Outcome (Request × ℕ × Bytes))
      → (after_read aead srv random ctx sess remote_addr stream s got).state
        ≡ state_behind aead srv ctx remote_addr sess s got
  unfolding after_read
  after_read_state random sess stream s (ok (req, seq, rest)) =
      route_state random sess req seq _ s (lookup req.opcode srv.handlers) (fits req.opcode)
  after_read_state random sess stream s (err e) = closing_state s _
  after_read_state random sess stream s panics = refl
  after_read_state random sess stream s out_of_fuel = refl

  module _ (laws : AeadLaws aead) (keeps : KeepsBytes aead) where
    -- What a goroutine does behind the check: one answer on its stream, and the handler's step.
    pub finish_stream-answer :
        (over : Bool) (nonce again : Bytes) (sess : Session) (stream : Stream) (s : S)
        → IsKey sess.key
        → length nonce ≡ nonce_size
        → length again ≡ nonce_size
        → stream.written ≡ []
        → All IsByte stream.incoming
        → let (stream', s') =
            finish_stream aead srv over (some nonce) (some again) ctx sess remote_addr stream s in
          let (answer, s'') = answer_at aead srv ctx remote_addr over stream.incoming sess s in
          Hears aead sess.key stream'.written answer × (s' ≡ s'')
    unfolding finish_stream
    finish_stream-answer true nonce again sess stream s good size size_again fresh bytes = (
      respond-Heard aead laws srv sess nonce again good size size_again stream s 0 session_expired
          fresh (omega arith) session_expired-IsResponse,
      recover_turn_state (some again) sess _ ∙ closing_state s _,
    )
    finish_stream-answer false nonce again sess stream s good size size_again fresh bytes = (
      after_read-Heard aead laws srv sess nonce again good size size_again ctx remote_addr stream s
          (read_request aead sess.key stream.incoming) fresh
          (read_request-IsBounded aead keeps sess.key stream.incoming bytes) fits,
      recover_turn_state (some again) sess _
          ∙ after_read_state (some nonce) sess stream s
              (read_request aead sess.key stream.incoming),
    )
