-- ===== src/Server/Tcp/Answers.antt =====
-- What handleTCPConnection answers to requests that were all written before the first response.
use hush_go.Base.{
  ℕ, suc, ◌^◌, ◌<◌, Bool, false, Bytes, List, [], ◌∷◌, length, All, Outcome, ok, ◌>>=◌, ◌≡◌, refl,
  ap, Option, none, some,
}
use hush_go.Server.Handlers.{
  Reply, returned, failed, panicked, Context, Handler, handler, stream_handler,
}
use hush_go.Base.Int.{ℤ}
use hush_go.Base.Dict.{number_key, lookup}
use hush_go.Session.Crypto.{Aead, AeadLaws, nonce_size}
use hush_go.Session.Handshake.{Exchange}
use hush_go.Session.Store.{Session, touch}
use hush_go.Frame.Sealing.{IsKey}
use hush_go.Frame.Requests.{Request, request_on_wire}
use hush_go.Frame.Responses.{Response, IsResponse}
use hush_go.Server.Registry.{Server}
use hush_go.Server.Dispatch.{request_context, server_request, is_over}
use hush_go.Server.Dispatch.Own.{not_found-IsResponse, internal_error-IsResponse}
use hush_go.Server.Tcp.{tcp_rounds}
use hush_go.Server.Tcp.Pipeline.{
  IsAnswer, IsAnswering, response_to, Numbered, IsNumbered, serve_one, serve_all, write_all,
  read_all, on_wire_all, requests_wire, write_all-requests_wire, IsSendable,
  read_all-responses_wire,
}
use hush_go.Server.Dispatch.Answers.{fresh_stream}
use hush_go.Server.Tcp.Loop.{tcp_rounds-served}

-- What the client reads: the requests are written, the loop runs from its first round on, and the
-- responses are read.
abbrev pub exchange_all :
    (aead : Aead) {x : Exchange} {S : Type 0} (srv : Server x S) (cancelled : ℕ → Bool)
    (clock : ℕ → ℤ) (nonce : ℕ → Option Bytes) (cnonce : Bytes) (stream_ctx ctx : Context)
    (remote_addr : Bytes) (sess : Session) (s : S) (rs : List Numbered)
    → Outcome (List Response × Bytes)
exchange_all aead srv cancelled clock nonce cnonce stream_ctx ctx remote_addr sess s rs = do
  bytes ← write_all aead sess.key cnonce rs
  let t =
      tcp_rounds aead srv cancelled clock nonce stream_ctx remote_addr (suc (length rs)) 0 ctx sess
        (fresh_stream bytes) s
  read_all aead sess.key (length rs) t.stream.written

module _ {x : Exchange} {S : Type 0} (srv : Server x S) (sess : Session) (remote_addr : Bytes)
    (fits : (opcode : ℕ) (h : Handler S)
      → lookup opcode srv.handlers ≡ some h
      → IsAnswering h) where
  response_to-IsAnswer :
      (reply : Reply (Option Response)) → IsAnswer reply → IsResponse (response_to reply)
  response_to-IsAnswer (returned (some resp)) h = h
  response_to-IsAnswer (returned none) h = absurd h
  response_to-IsAnswer failed h = internal_error-IsResponse
  response_to-IsAnswer panicked h = absurd h

  serve_one-IsResponse :
      (ctx : Context) (r : Request) (s : S) (found : Option (Handler S))
      → r.opcode < 2 ^ 16
      → ((h : Handler S) → found ≡ some h → IsAnswering h)
      → IsResponse (serve_one srv sess remote_addr ctx r s found).0
  serve_one-IsResponse ctx r s none small h = not_found-IsResponse r.opcode small
  serve_one-IsResponse ctx r s (some (handler f)) small h =
      response_to-IsAnswer (f ctx (server_request sess r) s).0
        (h (handler f) refl ctx (server_request sess r) s)
  serve_one-IsResponse ctx r s (some (stream_handler f g)) small h =
      absurd (h (stream_handler f g) refl)

  serve_all-IsSendable :
      (rs : List Numbered) (ctx : Context) (s : S)
      → All IsNumbered rs
      → All IsSendable (serve_all srv sess remote_addr ctx s rs)
  serve_all-IsSendable [] ctx s h = tt
  serve_all-IsSendable ((seq, r) ∷ rs) ctx s (h, hs) = (
    (
      h.0,
      serve_one-IsResponse (request_context ctx sess remote_addr) (request_on_wire r) s
          (lookup r.opcode srv.handlers) h.1.opcode_range (fits r.opcode),
    ),
    serve_all-IsSendable rs _ _ hs,
  )

  length-serve_all :
      (rs : List Numbered) (ctx : Context) (s : S)
      → length (serve_all srv sess remote_addr ctx s rs) ≡ length rs
  length-serve_all [] ctx s = refl
  length-serve_all (r ∷ rs) ctx s = ap (λ n. suc n) (length-serve_all rs _ _)

-- On a TCP connection whose context is not cancelled and whose session is never over, with handlers
-- that are no stream handlers, do not panic, and return no nil response and no response that is too
-- large: a client that writes any list of requests reads exactly one response to each, in their order
-- and under their sequence numbers, and no byte more. The responses are those of the handlers called
-- one after the other, each on the state that the one before left; not found for an opcode without a
-- handler, and an internal error where a handler fails.
pub exchange_all-serve_all :
    (aead : Aead) (laws : AeadLaws aead) {x : Exchange} {S : Type 0} (srv : Server x S)
    (cancelled : ℕ → Bool) (clock : ℕ → ℤ) (nonce : ℕ → Bytes) (cnonce : Bytes)
    (stream_ctx ctx : Context) (remote_addr : Bytes) (sess : Session) (s : S) (rs : List Numbered)
    → IsKey sess.key
    → ((i : ℕ) → cancelled i ≡ false)
    → ((i : ℕ) → length (nonce i) ≡ nonce_size)
    → length cnonce ≡ nonce_size
    → ((opcode : ℕ) (h : Handler S) → lookup opcode srv.handlers ≡ some h → IsAnswering h)
    → All IsNumbered rs
    → is_over aead srv (clock 0) sess ≡ false
    → ((i : ℕ) → is_over aead srv (clock (suc i)) (touch (clock i) sess) ≡ false)
    → exchange_all aead srv cancelled clock
        (λ i. some (nonce i))
        cnonce
        stream_ctx
        ctx
        remote_addr
        sess
        s
        rs
      ≡ ok (on_wire_all (serve_all srv sess remote_addr ctx s rs), [])
exchange_all-serve_all aead laws srv cancelled clock nonce cnonce stream_ctx ctx remote_addr sess s
      rs good running size csize fits h alive later =
    let resps = serve_all srv sess remote_addr ctx s rs in
    let bytes = requests_wire aead laws sess.key cnonce rs in
    rw
      (
        write_all-requests_wire aead laws sess.key cnonce rs good csize h,
        (tcp_rounds-served aead laws srv stream_ctx remote_addr cancelled clock nonce cnonce running
            size csize fits rs 0 ctx sess (fresh_stream bytes) s good h alive later refl).0,
        ← length-serve_all srv sess remote_addr fits rs ctx s,
      )
      (read_all-responses_wire aead laws sess.key nonce 0 resps good size
        (serve_all-IsSendable srv sess remote_addr fits rs ctx s h))
