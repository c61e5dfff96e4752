-- ===== src/Server/Tcp/Pipeline.antt =====
-- A pipeline of requests on one TCP connection.
use hush_go.Base.{
  ℕ, zero, suc, ◌^◌, ◌<◌, Bytes, List, [], ◌∷◌, ◌++◌, length, All, Outcome, ok, ◌>>=◌, ◌≡◌, refl,
  Option, none, some,
}
use hush_go.Server.Handlers.{
  Reply, returned, failed, panicked, ServerRequest, Context, Handler, handler, stream_handler,
}
use hush_go.Base.Dict.{number_key, lookup}
use hush_go.Session.Crypto.{Aead, AeadLaws, nonce_size}
use hush_go.Session.Handshake.{Exchange}
use hush_go.Session.Store.{Session}
use hush_go.Frame.Framing.{wire}
use hush_go.Frame.Sealing.{IsKey, sealed_bytes}
use hush_go.Frame.Requests.{
  Request, IsRequest, request_bytes, request_on_wire, write_request, write_request_total,
}
use hush_go.Frame.Responses.{
  Response, IsResponse, response_bytes, response_on_wire, read_response, read_response-wire,
}
use hush_go.Server.Registry.{Server}
use hush_go.Server.Dispatch.{not_found, internal_error, request_context, server_request}

-- A reply that a TCP connection survives: an error, or a response that fits a frame.
abbrev pub IsAnswer : Reply (Option Response) → Type 0
IsAnswer (returned (some resp)) = IsResponse resp
IsAnswer (returned none) = ⊥
IsAnswer failed = Unit
IsAnswer panicked = ⊥

abbrev pub IsAnswering : {S : Type 0} → Handler S → Type 0
IsAnswering {S} (handler f) =
    (ctx : Context) (req : ServerRequest) (s : S) → IsAnswer (f ctx req s).0
IsAnswering (stream_handler f g) = ⊥

abbrev pub response_to : Reply (Option Response) → Response
response_to (returned (some resp)) = resp
response_to _ = internal_error

-- A request with its sequence number.
abbrev pub Numbered : Type 0
Numbered = ℕ × Request

abbrev pub IsNumbered : Numbered → Type 0
IsNumbered (seq, r) = (seq < 2 ^ 32) × IsRequest r

module _ {x : Exchange} {S : Type 0} (srv : Server x S) (sess : Session) (remote_addr : Bytes) where
  -- One request: its response, and the state behind it.
  abbrev pub serve_one : Context → Request → S → Option (Handler S) → Response × S
  serve_one ctx r s none = (not_found r.opcode, s)
  serve_one ctx r s (some (handler f)) =
      let (reply, s') = f ctx (server_request sess r) s in (response_to reply, s')
  serve_one ctx r s (some (stream_handler f g)) = (internal_error, s)

  -- The responses to requests in order, with their sequence numbers.
  abbrev pub serve_all : Context → S → List Numbered → List (ℕ × Response)
  serve_all ctx s [] = []
  serve_all ctx s ((seq, r) ∷ rs) =
      let ctx' = request_context ctx sess remote_addr in
      let (resp, s') = serve_one ctx' (request_on_wire r) s (lookup r.opcode srv.handlers) in
      (seq, resp) ∷ serve_all ctx' s' rs

-- What the client writes: each request in a frame, under nonces of its own.
abbrev pub write_all : Aead → Option Bytes → Bytes → List Numbered → Outcome Bytes
write_all aead key nonce [] = ok []
write_all aead key nonce ((seq, r) ∷ rs) = do
  bytes ← write_request aead (some nonce) key seq r
  more ← write_all aead key nonce rs
  ok (bytes ++ more)

-- What the client reads: as many responses as it sent requests.
abbrev pub read_all : Aead → Option Bytes → ℕ → Bytes → Outcome (List Response × Bytes)
read_all aead key zero stream = ok ([], stream)
read_all aead key (suc n) stream = do
  (resp, rest) ← read_response aead key stream
  (resps, rest') ← read_all aead key n rest
  ok (resp ∷ resps, rest')

abbrev pub on_wire_all : List (ℕ × Response) → List Response
on_wire_all [] = []
on_wire_all ((seq, resp) ∷ resps) = response_on_wire seq resp ∷ on_wire_all resps

abbrev pub IsSendable : ℕ × Response → Type 0
IsSendable (seq, resp) = (seq < 2 ^ 32) × IsResponse resp

module _ (aead : Aead) (laws : AeadLaws aead) where
  abbrev pub request_wire : Option Bytes → Bytes → Numbered → Bytes
  request_wire key nonce (seq, r) = wire seq (sealed_bytes aead laws key nonce (request_bytes r))

  abbrev pub response_wire : Option Bytes → Bytes → ℕ × Response → Bytes
  response_wire key nonce (seq, resp) =
      wire seq (sealed_bytes aead laws key nonce (response_bytes resp))

  abbrev pub requests_wire : Option Bytes → Bytes → List Numbered → Bytes
  requests_wire key nonce [] = []
  requests_wire key nonce (r ∷ rs) = request_wire key nonce r ++ requests_wire key nonce rs

  abbrev pub responses_wire : Option Bytes → (ℕ → Bytes) → ℕ → List (ℕ × Response) → Bytes
  responses_wire key nonce i [] = []
  responses_wire key nonce i (r ∷ rs) =
      response_wire key (nonce i) r ++ responses_wire key nonce (suc i) rs

  pub write_all-requests_wire :
      (key : Option Bytes) (nonce : Bytes) (rs : List Numbered)
      → IsKey key
      → length nonce ≡ nonce_size
      → All IsNumbered rs
      → write_all aead key nonce rs ≡ ok (requests_wire key nonce rs)
  write_all-requests_wire key nonce [] good size h = refl
  write_all-requests_wire key nonce ((seq, r) ∷ rs) good size (n, h) = rw (
    write_request_total aead laws key nonce seq r good size n.1,
    write_all-requests_wire key nonce rs good size h,
  )

  pub read_all-responses_wire :
      (key : Option Bytes) (nonce : ℕ → Bytes) (i : ℕ) (resps : List (ℕ × Response))
      → IsKey key
      → ((j : ℕ) → length (nonce j) ≡ nonce_size)
      → All IsSendable resps
      → read_all aead key (length resps) (responses_wire key nonce i resps)
        ≡ ok (on_wire_all resps, [])
  read_all-responses_wire key nonce i [] good size h = refl
  read_all-responses_wire key nonce i ((seq, resp) ∷ resps) good size (p, h) = rw (
    read_response-wire aead laws key (nonce i) seq resp (responses_wire key nonce (suc i) resps)
        good (size i) p.0 p.1,
    read_all-responses_wire key nonce (suc i) resps good size h,
  )
