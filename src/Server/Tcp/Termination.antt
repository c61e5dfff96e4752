-- ===== src/Server/Tcp/Termination.antt =====
-- The rounds of handleTCPConnection, counted by what is left to be read.
use hush_go.Base.{ℕ, ◌<◌, Bytes, ◌++◌, length, err, ◌≡◌, refl, Option, none, some}
use hush_go.Server.Handlers.{
  Reply, returned, failed, panicked, Context, Handler, handler, stream_handler, Stream,
}
use hush_go.Base.Int.{ℤ}
use hush_go.Base.Reader.{read_full}
use hush_go.Base.Dict.{number_key, lookup}
use hush_go.Session.Crypto.{Aead}
use hush_go.Session.Handshake.{Exchange}
use hush_go.Session.Store.{Session, touch}
use hush_go.Frame.Framing.{read}
use hush_go.Frame.Requests.{Request, read_request}
use hush_go.Frame.Responses.{Response}
use hush_go.Server.Registry.{Server}
use hush_go.Server.Dispatch.{not_found, internal_error, request_context, server_request, is_over}
use hush_go.Server.Tcp.{go_on, stop, Round, answer_tcp, route_tcp, after_read_tcp, tcp_round}
use hush_go.Base.{
  ℕ, zero, suc, Bool, Bool-cases, inl, inr, ltb, arith, ◌≢◌, ok, panics, out_of_fuel, Outcome, OnOk,
  OnOk-bind, OnOk-if, OnOk-Ensures, OnOk-any, length-append, ◌+◌,
}
use hush_go.Base.Reader.{read_full-Ensures}
use hush_go.Base.BigEndian.{get_u32}
use hush_go.Frame.Framing.{max_frame_size, frame_min_data}
use hush_go.Frame.Requests.{decrypt_request}
use hush_go.Frame.Responses.{write_response}
use hush_go.Server.Dispatch.{respond, sent}
use hush_go.Server.Tcp.{Next, out_of_rounds, tcp_rounds, checking, ignoring}

abbrev IsSplit : ℕ → Bytes → Bytes × Bytes → Type 0
IsSplit n bs (xs, rest) = (bs ≡ xs ++ rest) × (length xs ≡ n)

-- A handler that is no StreamHandler.
abbrev pub IsRequestHandler : {S : Type 0} → Handler S → Type 0
IsRequestHandler (handler f) = Unit
IsRequestHandler (stream_handler f g) = ⊥

-- What is read is shorter by four bytes at least.
abbrev IsShorter : {A : Type 0} → Bytes → A × Bytes → Type 0
IsShorter stream (a, rest) = length rest < length stream

split-shorter : (n : ℕ) (bs xs rest : Bytes) → IsSplit n bs (xs, rest) → length bs ≡ n + length rest
split-shorter n bs xs rest (e, l) = rw e (ground (arith, length-append {0} xs rest))

read-IsShorter : (stream : Bytes) → OnOk (IsShorter stream) (read stream)
unfolding read
read-IsShorter stream =
    OnOk-bind (IsSplit 4 stream) (IsShorter stream) (read_full 4 stream) _
      (OnOk-Ensures (read_full-Ensures 4 stream))
      λ (len_buf, bs) first.
        OnOk-if (IsShorter stream) (ltb max_frame_size (get_u32 len_buf)) _ _ tt λ small.
          OnOk-if (IsShorter stream) (ltb (get_u32 len_buf) frame_min_data) _ _ tt λ long.
            OnOk-bind (IsSplit (get_u32 len_buf) bs) (IsShorter stream)
              (read_full (get_u32 len_buf) bs) _
              (OnOk-Ensures (read_full-Ensures (get_u32 len_buf) bs))
              λ (body, rest) second. omega (
                arith,
                split-shorter 4 stream len_buf bs first,
                split-shorter (get_u32 len_buf) bs body rest second,
              )

abbrev IsShorterRequest : Bytes → Request × ℕ × Bytes → Type 0
IsShorterRequest stream (req, seq, rest) = length rest < length stream

read_request-IsShorter :
    (aead : Aead) (key : Option Bytes) (stream : Bytes)
    → OnOk (IsShorterRequest stream) (read_request aead key stream)
unfolding read_request
read_request-IsShorter aead key stream =
    OnOk-bind (IsShorter stream) (IsShorterRequest stream) (read stream) _ (read-IsShorter stream)
      λ (f, rest) shorter.
        OnOk-bind (λ _. Unit {0}) (IsShorterRequest stream) (decrypt_request aead key f) _
          (OnOk-any (decrypt_request aead key f)) λ req _. shorter

module _ (aead : Aead) {x : Exchange} {S : Type 0} (srv : Server x S) (stream_ctx : Context)
    (remote_addr : Bytes) where
  -- Responses leave what is to be read as it is.
  respond_incoming :
      (random key : Option Bytes) (seq : ℕ) (resp : Response) (stream : Stream)
      → (respond aead random key seq resp stream).1.incoming ≡ stream.incoming
  unfolding respond
  respond_incoming random key seq resp stream = by_bytes (write_response aead random key seq resp)
    where
      by_bytes : (bytes : Outcome Bytes) → (sent bytes stream).incoming ≡ stream.incoming
      by_bytes (ok bytes) = refl
      by_bytes (err e) = refl
      by_bytes panics = refl
      by_bytes out_of_fuel = refl

  answer_tcp_incoming :
      (random : Option Bytes) (sess : Session) (seq : ℕ) (reply : Reply (Option Response))
      (stream : Stream)
      → (answer_tcp aead srv random sess seq reply stream).1.incoming ≡ stream.incoming
  unfolding answer_tcp
  answer_tcp_incoming random sess seq (returned (some resp)) stream =
      respond_incoming random sess.key seq resp stream
  answer_tcp_incoming random sess seq (returned none) stream = refl
  answer_tcp_incoming random sess seq failed stream =
      respond_incoming random sess.key seq internal_error stream
  answer_tcp_incoming random sess seq panicked stream = refl

  route_tcp_incoming :
      (random : Option Bytes) (ctx : Context) (sess : Session) (req : Request) (seq : ℕ)
      (stream : Stream) (s : S) (found : Option (Handler S))
      → ((h : Handler S) → found ≡ some h → IsRequestHandler h)
      → (route_tcp aead srv random stream_ctx ctx sess req seq stream s found).stream.incoming
        ≡ stream.incoming
  unfolding route_tcp
  route_tcp_incoming random ctx sess req seq stream s none plain =
      respond_incoming random sess.key seq (not_found req.opcode) stream
  route_tcp_incoming random ctx sess req seq stream s (some (handler f)) plain =
      answer_tcp_incoming random sess seq (f ctx (server_request sess req) s).0 stream
  route_tcp_incoming random ctx sess req seq stream s (some (stream_handler f g)) plain =
      absurd (plain (stream_handler f g) refl)

  -- A round that goes on leaves less to be read.
  abbrev Advances : Bytes → Round S → Type 0
  Advances incoming t = t.next ≡ go_on → length t.stream.incoming < length incoming

  after_read_tcp-Advances :
      (random : Option Bytes) (ctx : Context) (sess : Session) (stream : Stream) (s : S)
      (got : Outcome (Request × ℕ × Bytes))
      → ((opcode : ℕ) (h : Handler S) → lookup opcode srv.handlers ≡ some h → IsRequestHandler h)
      → OnOk (IsShorterRequest stream.incoming) got
      → Advances stream.incoming
          (after_read_tcp aead srv random stream_ctx ctx sess remote_addr stream s got)
  unfolding after_read_tcp request_context
  after_read_tcp-Advances random ctx sess stream s (ok (req, seq, rest)) plain shorter e =
      rw
        (route_tcp_incoming random (request_context ctx sess remote_addr) sess req seq
          (record stream { incoming = rest }) s (lookup req.opcode srv.handlers) (plain req.opcode))
        shorter
  after_read_tcp-Advances random ctx sess stream s (err e') plain shorter e = absurd (cc)
  after_read_tcp-Advances random ctx sess stream s panics plain shorter e = absurd (cc)
  after_read_tcp-Advances random ctx sess stream s out_of_fuel plain shorter e = absurd (cc)

  tcp_round-Advances :
      (random : Option Bytes) (now : ℤ) (ctx : Context) (sess : Session) (stream : Stream) (s : S)
      → ((opcode : ℕ) (h : Handler S) → lookup opcode srv.handlers ≡ some h → IsRequestHandler h)
      → Advances stream.incoming
          (tcp_round aead srv random now stream_ctx ctx sess remote_addr stream s)
  unfolding tcp_round
  tcp_round-Advances random now ctx sess stream s plain =
      elim (Bool-cases (is_over aead srv now sess)) [
        | inl over ↦ rw over (λ e. absurd (cc))
        | inr alive ↦ rw alive (
            after_read_tcp-Advances random ctx (touch now sess) stream s
              (read_request aead sess.key stream.incoming) plain
              (read_request-IsShorter aead sess.key stream.incoming))
      ]

  -- No round stops at the model's bound by itself.
  checking_ne : (reply : Reply (Unit {0})) → checking reply ≢ stop out_of_rounds
  checking_ne (returned _) = cc
  checking_ne failed = cc
  checking_ne panicked = cc

  ignoring_ne : (reply : Reply (Unit {0})) → ignoring reply ≢ stop out_of_rounds
  ignoring_ne (returned _) = cc
  ignoring_ne failed = cc
  ignoring_ne panicked = cc

  answer_tcp_ne :
      (random : Option Bytes) (sess : Session) (seq : ℕ) (reply : Reply (Option Response))
      (stream : Stream)
      → (answer_tcp aead srv random sess seq reply stream).0 ≢ stop out_of_rounds
  unfolding answer_tcp
  answer_tcp_ne random sess seq (returned (some resp)) stream =
      checking_ne (respond aead random sess.key seq resp stream).0
  answer_tcp_ne random sess seq (returned none) stream = cc
  answer_tcp_ne random sess seq failed stream =
      ignoring_ne (respond aead random sess.key seq internal_error stream).0
  answer_tcp_ne random sess seq panicked stream = cc

  route_tcp_ne :
      (random : Option Bytes) (ctx : Context) (sess : Session) (req : Request) (seq : ℕ)
      (stream : Stream) (s : S) (found : Option (Handler S))
      → (route_tcp aead srv random stream_ctx ctx sess req seq stream s found).next
        ≢ stop out_of_rounds
  unfolding route_tcp
  route_tcp_ne random ctx sess req seq stream s none =
      ignoring_ne (respond aead random sess.key seq (not_found req.opcode) stream).0
  route_tcp_ne random ctx sess req seq stream s (some (handler f)) =
      answer_tcp_ne random sess seq (f ctx (server_request sess req) s).0 stream
  route_tcp_ne random ctx sess req seq stream s (some (stream_handler f g)) =
      ignoring_ne (g stream_ctx (server_request sess req) sess.key stream s).0

  after_read_tcp_ne :
      (random : Option Bytes) (ctx : Context) (sess : Session) (stream : Stream) (s : S)
      (got : Outcome (Request × ℕ × Bytes))
      → (after_read_tcp aead srv random stream_ctx ctx sess remote_addr stream s got).next
        ≢ stop out_of_rounds
  unfolding after_read_tcp
  after_read_tcp_ne random ctx sess stream s (ok (req, seq, rest)) =
      route_tcp_ne random (request_context ctx sess remote_addr) sess req seq
        (record stream { incoming = rest }) s (lookup req.opcode srv.handlers)
  after_read_tcp_ne random ctx sess stream s (err e') = cc
  after_read_tcp_ne random ctx sess stream s panics = cc
  after_read_tcp_ne random ctx sess stream s out_of_fuel = cc

  tcp_round_ne :
      (random : Option Bytes) (now : ℤ) (ctx : Context) (sess : Session) (stream : Stream) (s : S)
      → (tcp_round aead srv random now stream_ctx ctx sess remote_addr stream s).next
        ≢ stop out_of_rounds
  unfolding tcp_round
  tcp_round_ne random now ctx sess stream s = elim (Bool-cases (is_over aead srv now sess)) [
    | inl over ↦ rw over (cc)
    | inr alive ↦ rw alive (
        after_read_tcp_ne random ctx (touch now sess) stream s
          (read_request aead sess.key stream.incoming))
  ]

-- Whatever arrives, whatever the clock, the nonces and the context do, and whatever the handlers reply,
-- if they are no stream handlers: the loop of handleTCPConnection comes to an end of its own within one
-- round more than there are bytes to be read.
pub tcp_rounds-ends :
    (aead : Aead) {x : Exchange} {S : Type 0} (srv : Server x S) (cancelled : ℕ → Bool)
    (clock : ℕ → ℤ) (nonce : ℕ → Option Bytes) (stream_ctx : Context) (remote_addr : Bytes)
    (rounds i : ℕ) (ctx : Context) (sess : Session) (stream : Stream) (s : S)
    → ((opcode : ℕ) (h : Handler S) → lookup opcode srv.handlers ≡ some h → IsRequestHandler h)
    → length stream.incoming < rounds
    → (tcp_rounds aead srv cancelled clock nonce stream_ctx remote_addr rounds i ctx sess stream
        s).next
      ≢ stop out_of_rounds
unfolding tcp_rounds
tcp_rounds-ends aead srv cancelled clock nonce stream_ctx remote_addr zero i ctx sess stream s plain
      enough =
    absurd (omega arith)
tcp_rounds-ends aead {S} srv cancelled clock nonce stream_ctx remote_addr (suc rounds) i ctx sess
      stream s plain enough =
    elim (Bool-cases (cancelled i)) [
      | inl done ↦ rw done (cc)
      | inr running ↦ rw running (
          by_next t.next refl λ shorter.
            tcp_rounds-ends aead srv cancelled clock nonce stream_ctx remote_addr rounds (suc i)
              t.ctx t.sess t.stream t.state plain (omega (arith, shorter)))
    ]
  where
    t : Round S
    t = tcp_round aead srv (nonce i) (clock i) stream_ctx ctx sess remote_addr stream s

    by_next :
        (next : Next)
        → t.next ≡ next
        → (length t.stream.incoming < length stream.incoming
            → (tcp_rounds aead srv cancelled clock nonce stream_ctx remote_addr rounds
                (suc i)
                t.ctx
                t.sess
                t.stream
                t.state).next
              ≢ stop out_of_rounds)
        → (elim next as (λ _. Round S) [
          | go_on ↦
              tcp_rounds aead srv cancelled clock nonce stream_ctx remote_addr rounds
                (suc i)
                t.ctx
                t.sess
                t.stream
                t.state
          | stop e ↦ t
        ]).next
          ≢ stop out_of_rounds
    by_next go_on e ih = ih (
        tcp_round-Advances aead srv stream_ctx remote_addr (nonce i) (clock i) ctx sess stream s
          plain e)
    by_next (stop e') e ih =
        tcp_round_ne aead srv stream_ctx remote_addr (nonce i) (clock i) ctx sess stream s
