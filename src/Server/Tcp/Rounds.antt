-- ===== src/Server/Tcp/Rounds.antt =====
-- The rounds of handleTCPConnection on requests that can be read, and their handlers' responses.
use hush_go.Base.{eof}
use hush_go.Base.{
  ℕ, ◌^◌, ◌<◌, false, Bytes, List, [], ◌∷◌, ◌++◌, length, err, ◌≡◌, refl, ap, Option, none, some,
}
use hush_go.Server.Handlers.{
  Reply, returned, failed, panicked, Context, Handler, handler, stream_handler, Stream,
}
use hush_go.Base.Int.{ℤ}
use hush_go.Base.Reader.{read_full}
use hush_go.Base.Dict.{number_key, lookup}
use hush_go.Session.Crypto.{Aead, AeadLaws, nonce_size}
use hush_go.Session.Handshake.{Exchange}
use hush_go.Session.Store.{Session, touch}
use hush_go.Frame.Framing.{read}
use hush_go.Frame.Sealing.{IsKey}
use hush_go.Frame.Requests.{Request, request_on_wire, read_request, read_request-wire}
use hush_go.Frame.Responses.{Response}
use hush_go.Server.Registry.{Server}
use hush_go.Server.Dispatch.{not_found, internal_error, request_context, server_request, is_over}
use hush_go.Server.Dispatch.Own.{not_found-IsResponse, internal_error-IsResponse}
use hush_go.Server.Dispatch.Hearing.{respond_lem}
use hush_go.Server.Tcp.{
  client_gone, go_on, stop, Round, answer_tcp, route_tcp, after_read_tcp, tcp_round,
}
use hush_go.Server.Tcp.Pipeline.{
  IsAnswer, IsAnswering, response_to, Numbered, IsNumbered, serve_one, serve_all, request_wire,
  response_wire,
}

module _ (aead : Aead) (laws : AeadLaws aead) {x : Exchange} {S : Type 0} (srv : Server x S)
    (stream_ctx : Context) (remote_addr : Bytes) where
  -- Where a round is that wrote a response.
  abbrev pub answered : Bytes → Context → Session → ℕ → Stream → Response × S → Round S
  answered nonce ctx sess seq stream (resp, s) = record {
    stream = record stream {
      written = stream.written ++ response_wire aead laws sess.key nonce (seq, resp);
    };
    sess = sess;
    ctx = ctx;
    state = s;
    next = go_on;
  }

  answer_tcp-IsAnswer :
      (nonce : Bytes) (sess : Session) (seq : ℕ) (reply : Reply (Option Response)) (stream : Stream)
      → IsKey sess.key
      → length nonce ≡ nonce_size
      → IsAnswer reply
      → answer_tcp aead srv (some nonce) sess seq reply stream ≡ (
        go_on,
        record stream {
          written =
              stream.written ++ response_wire aead laws sess.key nonce (seq, response_to reply);
        },
      )
  unfolding answer_tcp
  answer_tcp-IsAnswer nonce sess seq (returned (some resp)) stream good size h =
      rw (respond_lem aead laws sess.key nonce seq resp stream good size h)
  answer_tcp-IsAnswer nonce sess seq (returned none) stream good size h = absurd h
  answer_tcp-IsAnswer nonce sess seq failed stream good size h = rw (
      respond_lem aead laws sess.key nonce seq internal_error stream good size
        internal_error-IsResponse)
  answer_tcp-IsAnswer nonce sess seq panicked stream good size h = absurd h

  route_tcp-answered :
      (nonce : Bytes) (ctx : Context) (sess : Session) (req : Request) (seq : ℕ) (stream : Stream)
      (s : S) (found : Option (Handler S))
      → IsKey sess.key
      → length nonce ≡ nonce_size
      → req.opcode < 2 ^ 16
      → ((h : Handler S) → found ≡ some h → IsAnswering h)
      → route_tcp aead srv (some nonce) stream_ctx ctx sess req seq stream s found
        ≡ answered nonce ctx sess seq stream (serve_one srv sess remote_addr ctx req s found)
  unfolding route_tcp
  route_tcp-answered nonce ctx sess req seq stream s none good size small h = rw (
      respond_lem aead laws sess.key nonce seq (not_found req.opcode) stream good size
        (not_found-IsResponse req.opcode small))
  route_tcp-answered nonce ctx sess req seq stream s (some (handler f)) good size small h = rw (
      answer_tcp-IsAnswer nonce sess seq (f ctx (server_request sess req) s).0 stream good size
        (h (handler f) refl ctx (server_request sess req) s))
  route_tcp-answered nonce ctx sess req seq stream s (some (stream_handler f g)) good size small h =
      absurd (h (stream_handler f g) refl)

  pub tcp_round-answered :
      (nonce : Bytes) (now : ℤ) (ctx : Context) (sess : Session) (seq : ℕ) (r : Request)
      (rest : Bytes) (cnonce : Bytes) (stream : Stream) (s : S)
      → IsKey sess.key
      → length nonce ≡ nonce_size
      → length cnonce ≡ nonce_size
      → IsNumbered (seq, r)
      → ((opcode : ℕ) (h : Handler S) → lookup opcode srv.handlers ≡ some h → IsAnswering h)
      → is_over aead srv now sess ≡ false
      → stream.incoming ≡ request_wire aead laws sess.key cnonce (seq, r) ++ rest
      → tcp_round aead srv (some nonce) now stream_ctx ctx sess remote_addr stream s
        ≡ answered nonce
            (request_context ctx sess remote_addr)
            (touch now sess)
            seq
            (record stream { incoming = rest })
            (serve_one srv sess remote_addr
              (request_context ctx sess remote_addr)
              (request_on_wire r)
              s
              (lookup r.opcode srv.handlers))
  unfolding tcp_round after_read_tcp touch request_context
  tcp_round-answered nonce now ctx sess seq r rest cnonce stream s good size csize (hs, h) fits
        alive arrives =
      rw (alive, arrives, read_request-wire aead laws sess.key cnonce seq r rest good csize hs h)
        (route_tcp-answered nonce (request_context ctx sess remote_addr) (touch now sess)
          (request_on_wire r) seq (record stream { incoming = rest }) s
          (lookup r.opcode srv.handlers) good size h.opcode_range (fits r.opcode))

  serve_one-touch :
      (now : ℤ) (sess : Session) (ctx : Context) (r : Request) (s : S) (found : Option (Handler S))
      → serve_one srv (touch now sess) remote_addr ctx r s found
        ≡ serve_one srv sess remote_addr ctx r s found
  unfolding touch
  serve_one-touch now sess ctx r s none = refl
  serve_one-touch now sess ctx r s (some (handler f)) = refl
  serve_one-touch now sess ctx r s (some (stream_handler f g)) = refl

  pub serve_all-touch :
      (now : ℤ) (sess : Session) (ctx : Context) (s : S) (rs : List Numbered)
      → serve_all srv (touch now sess) remote_addr ctx s rs
        ≡ serve_all srv sess remote_addr ctx s rs
  unfolding touch request_context
  serve_all-touch now sess ctx s [] = refl
  serve_all-touch now sess ctx s ((seq, r) ∷ rs) =
      let ctx' = request_context ctx sess remote_addr in
      let one =
        serve_one srv sess remote_addr ctx' (request_on_wire r) s (lookup r.opcode srv.handlers) in
      rw (serve_one-touch now sess ctx' (request_on_wire r) s (lookup r.opcode srv.handlers))
        (ap (λ t. (seq, one.0) ∷ t) (serve_all-touch now sess ctx' one.1 rs))

  read_request-nil : (key : Option Bytes) → read_request aead key [] ≡ err eof
  unfolding read_request read read_full
  read_request-nil key = refl

  pub tcp_round-nil :
      (random : Option Bytes) (now : ℤ) (ctx : Context) (sess : Session) (stream : Stream) (s : S)
      → is_over aead srv now sess ≡ false
      → stream.incoming ≡ []
      → tcp_round aead srv random now stream_ctx ctx sess remote_addr stream s ≡ record {
        stream = stream;
        sess = touch now sess;
        ctx = ctx;
        state = s;
        next = stop client_gone;
      }
  unfolding tcp_round after_read_tcp
  tcp_round-nil random now ctx sess stream s alive arrives =
      rw (alive, arrives, read_request-nil sess.key)
