-- ===== src/Client/Roundtrip.antt =====
-- Do of a client on a QUIC stream that handleStream of a server answers.
use hush_go.Base.{
  ℕ, ◌^◌, ◌<◌, true, Bytes, [], append-nil, length, ok, ◌≡◌, refl, sym, subst, if◌then◌else◌, arith,
  Option, some,
}
use hush_go.Server.Handlers.{Context, Handler}
use hush_go.Base.{OnOk}
use hush_go.Base.Int.{ℤ}
use hush_go.Base.Dict.{number_key, lookup}
use hush_go.Tlv.Types.{Map}
use hush_go.Session.Crypto.{Aead, AeadLaws, nonce_size}
use hush_go.Session.Handshake.{Exchange}
use hush_go.Session.Store.{Session, touch}
use hush_go.Frame.Framing.{wire}
use hush_go.Frame.Sealing.{IsKey, sealed_bytes}
use hush_go.Frame.Bounds.{IsBounded}
use hush_go.Frame.Requests.{
  Request, IsRequest, request_bytes, request_on_wire, read_request, read_request-wire,
  write_request_total,
}
use hush_go.Frame.Responses.{Response, response_on_wire}
use hush_go.Server.Registry.{Server}
use hush_go.Server.Dispatch.{session_expired, is_over, handle_quic_stream}
use hush_go.Server.Dispatch.Hearing.{IsFitting, answer_of_handler, Hears}
use hush_go.Server.Dispatch.Answers.{fresh_stream, expected_answer, handle_quic_stream-Hears}
use hush_go.Client.{Client}
use hush_go.Client.Do.{Peer, next_seq, new_request, do_quic, exchange_quic}

-- A server at the other end of a new stream.
abbrev pub quic_peer :
    Aead
    → {x : Exchange} {S : Type 0} → Server x S
    → Bytes
    → Bytes
    → ℤ
    → Context
    → Session
    → Bytes
    → S
    → Peer
quic_peer aead srv nonce again now ctx sess remote_addr s incoming =
    some
      (handle_quic_stream aead srv (some nonce) (some again) now ctx sess remote_addr
        (fresh_stream incoming) s).0.written

-- The answer to a request, for a session that is over or is not.
abbrev pub answer_of_server :
    Aead
    → {x : Exchange} {S : Type 0} → Server x S
    → ℤ
    → Context
    → Session
    → Bytes
    → S
    → ℕ
    → Request
    → ℕ × Response
answer_of_server aead srv now ctx sess remote_addr s seq r =
    if is_over aead srv now sess
    then (0, session_expired)
    else answer_of_handler srv ctx sess remote_addr seq (request_on_wire r) s
        (lookup r.opcode srv.handlers)

module _ (aead : Aead) (laws : AeadLaws aead) {x : Exchange} {S : Type 0} (srv : Server x S)
    (now : ℤ) (ctx : Context) (sess : Session) (remote_addr cnonce nonce again : Bytes) (s : S)
    (r : Request) (seq : ℕ) (good : IsKey sess.key) (csize : length cnonce ≡ nonce_size)
    (size : length nonce ≡ nonce_size) (size_again : length again ≡ nonce_size)
    (fits : (opcode : ℕ) (h : Handler S) → lookup opcode srv.handlers ≡ some h → IsFitting h)
    (hs : seq < 2 ^ 32) (h : IsRequest r) where
  abbrev sent_bytes : Bytes
  sent_bytes = wire seq (sealed_bytes aead laws sess.key cnonce (request_bytes r))

  read_request-sent : read_request aead sess.key sent_bytes ≡ ok (request_on_wire r, seq, [])
  read_request-sent =
      rw (← append-nil sent_bytes)
        (read_request-wire aead laws sess.key cnonce seq r [] good csize hs h)

  expected_answer-sent :
      expected_answer aead srv now ctx sess remote_addr sent_bytes s
      ≡ answer_of_server aead srv now ctx sess remote_addr s seq r
  expected_answer-sent = rw read_request-sent refl

  bounded : OnOk IsBounded (read_request aead sess.key sent_bytes)
  bounded = subst (OnOk IsBounded) (sym read_request-sent) (h.opcode_range, hs)

  quic_peer-Hears :
      Hears aead sess.key
        (handle_quic_stream aead srv
          (some nonce)
          (some again)
          now
          ctx
          sess
          remote_addr
          (fresh_stream sent_bytes)
          s).0.written
        (answer_of_server aead srv now ctx sess remote_addr s seq r)
  quic_peer-Hears = subst (Hears aead sess.key _) expected_answer-sent (
      handle_quic_stream-Hears aead laws srv now ctx sess remote_addr nonce again sent_bytes s good
        size size_again fits bounded)

-- Do on a QUIC client that is dialed, with a stream that opens and a request that a frame carries,
-- where the server has the client's key and its handlers are no stream handlers and their responses
-- fit a frame: Do returns the server's answer, and no error. The answer has the client's next
-- sequence number, or 0 where the server has no number: for a session that is over, and after a
-- panic. The client's session is touched, and its counter stands one higher, modulo 2 ^ 32.
pub do_quic-quic_peer :
    (aead : Aead) (laws : AeadLaws aead) {x : Exchange} {S : Type 0} (srv : Server x S)
    (now cnow : ℤ) (ctx : Context) (sess csess : Session) (remote_addr cnonce nonce again : Bytes)
    (s : S) (opcode : ℕ) (payload : Option Map) (c : Client)
    → IsKey sess.key
    → csess.key ≡ sess.key
    → length cnonce ≡ nonce_size
    → length nonce ≡ nonce_size
    → length again ≡ nonce_size
    → ((opcode : ℕ) (h : Handler S) → lookup opcode srv.handlers ≡ some h → IsFitting h)
    → c.dialed ≡ true
    → c.conn ≡ some tt
    → c.sess ≡ some csess
    → IsRequest (new_request opcode payload)
    → let (seq, resp) =
        answer_of_server aead srv now ctx sess remote_addr s
          (next_seq c)
          (new_request opcode payload) in
      do_quic aead
        (some cnonce)
        cnow
        true
        (quic_peer aead srv nonce again now ctx sess remote_addr s)
        opcode
        payload
        c
      ≡ (
        record c { sess = some (touch cnow csess); seq = next_seq c },
        ok (response_on_wire seq resp),
      )
unfolding do_quic exchange_quic
do_quic-quic_peer aead laws srv now cnow ctx sess csess remote_addr cnonce nonce again s opcode
      payload c good same csize size size_again fits dialed conn known h =
    let r = new_request opcode payload in
    simp (
      dialed,
      conn,
      known,
      same,
      write_request_total aead laws sess.key cnonce (next_seq c) r good csize h,
      quic_peer-Hears aead laws srv now ctx sess remote_addr cnonce nonce again s r (next_seq c)
          good csize size size_again fits (omega arith) h,
    )
