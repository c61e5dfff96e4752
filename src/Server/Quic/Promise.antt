-- ===== src/Server/Quic/Promise.antt =====
-- What a QUIC connection promises: a machine that answers each stream in one step, with its bytes read
-- as ReadRequest reads them, without frames, nonces, the sealing of responses and recover.
use hush_go.Base.{
  ℕ, suc, Bool, Bytes, List, [], ◌∷◌, length, All, Outcome, ok, ◌≡◌, ◌==◌, if◌then◌else◌, Option,
  none, some,
}
use hush_go.Base.Int.{ℤ}
use hush_go.Base.BigEndian.{IsByte}
use hush_go.Base.Dict.{number_key, lookup}
use hush_go.Session.Crypto.{Aead, nonce_size}
use hush_go.Session.Handshake.{Exchange}
use hush_go.Session.Store.{Session, touch}
use hush_go.Frame.Requests.{Request, read_request}
use hush_go.Frame.Responses.{Response}
use hush_go.Server.Handlers.{Context, Handler, handler}
use hush_go.Server.Registry.{Server}
use hush_go.Server.Dispatch.{session_expired, request_context, server_request, is_over}
use hush_go.Server.Dispatch.Hearing.{answer_to_read, Hears}
use hush_go.Server.Quic.{
  Phase, accepted, checked, through, QuicConnection, QuicStep, accepts, checks, finishes,
}

-- A stream: the bytes asked, the question admitted or not, or the answer.
pub data Question : Type 0 where
  asked : Bytes → Question
  admitted : Bool → Bytes → Question
  answered : ℕ × Response → Question

pub record Desk (S : Type 0) : Type 0 where
  pub sess : Session
  pub questions : ℕ → Option Question
  pub opened : ℕ
  pub state : S

abbrev pub put : ℕ → Question → (ℕ → Option Question) → ℕ → Option Question
put i q f j = if i == j then some q else f j

module _ (aead : Aead) {x : Exchange} {S : Type 0} (srv : Server x S) (ctx : Context)
    (remote_addr : Bytes) where
  -- The handlers' state behind a request.
  abbrev pub state_behind_handler : Session → Request → S → Option (Handler S) → S
  state_behind_handler sess req s (some (handler f)) =
      (f (request_context ctx sess remote_addr) (server_request sess req) s).1
  state_behind_handler sess req s _ = s

  abbrev pub state_behind : Session → S → Outcome (Request × ℕ × Bytes) → S
  state_behind sess s (ok (req, seq, rest)) =
      state_behind_handler sess req s (lookup req.opcode srv.handlers)
  state_behind sess s _ = s

  -- The answer and the state where the session was found over, or alive.
  abbrev pub answer_at : Bool → Bytes → Session → S → (ℕ × Response) × S
  answer_at over incoming sess s =
      let got = read_request aead sess.key incoming in
      if over
      then ((0, session_expired), s)
      else (answer_to_read srv ctx sess remote_addr s got, state_behind sess s got)

  abbrev pub check_question : ℕ → ℤ → Desk S → Option Question → Desk S
  check_question i now d (some (asked bytes)) = record d {
    sess = (if is_over aead srv now d.sess then d.sess else touch now d.sess);
    questions = put i (admitted (is_over aead srv now d.sess) bytes) d.questions;
  }
  check_question i now d _ = d

  abbrev pub answer_question : ℕ → Desk S → Option Question → Desk S
  answer_question i d (some (admitted over bytes)) =
      let (answer, s) = answer_at over bytes d.sess d.state in
      record d { questions = put i (answered answer) d.questions; state = s }
  answer_question i d _ = d

  abbrev pub desk_step : QuicStep → Desk S → Desk S
  desk_step (accepts bytes) d = record d {
    questions = put d.opened (asked bytes) d.questions;
    opened = suc d.opened;
  }
  desk_step (checks i now) d = check_question i now d (d.questions i)
  desk_step (finishes i random again) d = answer_question i d (d.questions i)

  abbrev pub desk_steps : List QuicStep → Desk S → Desk S
  desk_steps [] d = d
  desk_steps (step ∷ steps) d = desk_steps steps (desk_step step d)

abbrev pub new_desk : {S : Type 0} → Session → S → Desk S
new_desk sess s = record { sess = sess; questions = λ _. none; opened = 0; state = s }

-- The bytes asked are bytes, and nonces have their size.
abbrev pub IsNonce : Option Bytes → Type 0
IsNonce none = ⊥
IsNonce (some nonce) = length nonce ≡ nonce_size

abbrev pub IsQuicStep : QuicStep → Type 0
IsQuicStep (accepts bytes) = All IsByte bytes
IsQuicStep (checks i now) = Unit
IsQuicStep (finishes i random again) = IsNonce random × IsNonce again

-- A stream as the question shows it. On one that is through, the client reads exactly the answer.
abbrev pub Shows : Aead → Option Bytes → Option Phase → Option Question → Type 0
Shows aead key none none = Unit
Shows aead key (some (accepted stream)) (some (asked bytes)) =
    (stream.incoming ≡ bytes) × (stream.written ≡ []) × All IsByte bytes
Shows aead key (some (checked over stream)) (some (admitted was_over bytes)) =
    (over ≡ was_over) × (stream.incoming ≡ bytes) × (stream.written ≡ []) × All IsByte bytes
Shows aead key (some (through stream)) (some (answered answer)) =
    Hears aead key stream.written answer
Shows aead key _ _ = ⊥

-- The connection as the desk shows it.
pub record IsDesk (aead : Aead) {S : Type 0} (key : Option Bytes) (d : Desk S)
    (c : QuicConnection S) : Type 0 where
  pub same_sess : c.sess ≡ d.sess
  pub same_key : d.sess.key ≡ key
  pub same_opened : c.opened ≡ d.opened
  pub same_state : c.state ≡ d.state
  pub shows : (i : ℕ) → Shows aead key (lookup i c.streams) (d.questions i)
