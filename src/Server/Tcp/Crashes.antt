-- ===== src/Server/Tcp/Crashes.antt =====
-- A handler that panics on a TCP connection, behind RecoveryMiddleware.
use hush_go.Base.{
  ℕ, Bool, false, Bool-cases, ◌⊎◌, inl, inr, Bytes, ◌++◌, length, ◌≡◌, refl, Option, none, some,
}
use hush_go.Server.Handlers.{Reply, returned, failed, panicked, Context, Handler, Stream}
use hush_go.Base.Int.{ℤ}
use hush_go.Base.Dict.{number_key, lookup}
use hush_go.Session.Crypto.{Aead, AeadLaws, nonce_size}
use hush_go.Session.Handshake.{Exchange}
use hush_go.Session.Store.{Session, touch}
use hush_go.Frame.Sealing.{IsKey}
use hush_go.Frame.Requests.{Request, request_on_wire, read_request-wire}
use hush_go.Frame.Responses.{Response}
use hush_go.Server.Registry.{Server}
use hush_go.Server.Dispatch.{request_context, server_request, is_over}
use hush_go.Server.Tcp.{crashed, stop, answer_tcp, route_tcp, after_read_tcp, tcp_round}
use hush_go.Server.Tcp.Pipeline.{IsNumbered, request_wire}
use hush_go.Server.Handlers.{ServerRequest, handle_hush, handler_func}
use hush_go.Server.Middleware.{recovered, recovery_middleware}

module _ (aead : Aead) (laws : AeadLaws aead) {x : Exchange} {S : Type 0} (srv : Server x S)
    (stream_ctx : Context) (remote_addr : Bytes) where
  -- What a panic behind RecoveryMiddleware leaves for the server: no response, or onPanic's own panic.
  recovered-panicked :
      (on_panic : ServerRequest → S → Bool × S) (req : ServerRequest)
      (r : Reply (Option Response) × S)
      → r.0 ≡ panicked
      → ((recovered on_panic req r).0 ≡ returned none) ⊎ ((recovered on_panic req r).0 ≡ panicked)
  unfolding recovered
  recovered-panicked on_panic req (returned resp, s) e = absurd (cc)
  recovered-panicked on_panic req (failed, s) e = absurd (cc)
  recovered-panicked on_panic req (panicked, s) e = elim (Bool-cases (on_panic req s).0) [
    | inl breaks ↦ inr (simp breaks)
    | inr calm ↦ inl (simp calm)
  ]

  answer_tcp-nil :
      (random : Option Bytes) (sess : Session) (seq : ℕ) (reply : Reply (Option Response))
      (stream : Stream)
      → (reply ≡ returned none) ⊎ (reply ≡ panicked)
      → (answer_tcp aead srv random sess seq reply stream).0 ≡ stop crashed
  unfolding answer_tcp
  answer_tcp-nil random sess seq reply stream (inl e) = rw e refl
  answer_tcp-nil random sess seq reply stream (inr e) = rw e refl

  route_tcp-recovery :
      (random : Option Bytes) (ctx : Context) (sess : Session) (req : Request) (seq : ℕ)
      (stream : Stream) (s : S) (on_panic : ServerRequest → S → Bool × S) (h : Handler S)
      (found : Option (Handler S))
      → found ≡ some (recovery_middleware on_panic h)
      → ((ctx' : Context) (req' : ServerRequest) (s' : S)
          → (handle_hush h ctx' req' s').0 ≡ panicked)
      → (route_tcp aead srv random stream_ctx ctx sess req seq stream s found).next ≡ stop crashed
  unfolding route_tcp recovery_middleware handler_func
  route_tcp-recovery random ctx sess req seq stream s on_panic h found e breaks = rw e (
      answer_tcp-nil random sess seq _ stream (
        recovered-panicked on_panic (server_request sess req)
          (handle_hush h ctx (server_request sess req) s) (breaks ctx (server_request sess req) s)))

  -- Where the handler of a request, behind RecoveryMiddleware, panics: the round ends in a panic of the
  -- server itself, which nothing recovers, since the recovered call leaves a nil response, or a panic
  -- of onPanic's own goes on. The session is not over and the request is one that a frame carries.
  pub tcp_round-recovery_middleware :
      (random : Option Bytes) (now : ℤ) (ctx : Context) (sess : Session) (seq : ℕ) (r : Request)
      (rest : Bytes) (cnonce : Bytes) (stream : Stream) (s : S)
      (on_panic : ServerRequest → S → Bool × S) (h : Handler S)
      → IsKey sess.key
      → length cnonce ≡ nonce_size
      → IsNumbered (seq, r)
      → lookup r.opcode srv.handlers ≡ some (recovery_middleware on_panic h)
      → ((ctx' : Context) (req' : ServerRequest) (s' : S)
          → (handle_hush h ctx' req' s').0 ≡ panicked)
      → is_over aead srv now sess ≡ false
      → stream.incoming ≡ request_wire aead laws sess.key cnonce (seq, r) ++ rest
      → (tcp_round aead srv random now stream_ctx ctx sess remote_addr stream s).next ≡ stop crashed
  unfolding tcp_round after_read_tcp touch request_context
  tcp_round-recovery_middleware random now ctx sess seq r rest cnonce stream s on_panic h good csize
        (hs, wf) found breaks alive arrives =
      rw (alive, arrives, read_request-wire aead laws sess.key cnonce seq r rest good csize hs wf)
        (route_tcp-recovery random (request_context ctx sess remote_addr) (touch now sess)
          (request_on_wire r) seq (record stream { incoming = rest }) s on_panic h
          (lookup r.opcode srv.handlers) found breaks)
