-- ===== src/Frame/Responses.antt =====
-- frame/response.go: responses on a stream.
use hush_go.Base.{
  ℕ, ◌^◌, ◌≤◌, ◌<◌, Bytes, [], ◌∷◌, ◌++◌, length, response_too_short, Outcome, ok, err, ◌>>=◌, ◌≡◌,
  arith, Option, none, some,
}
use hush_go.Session.Crypto.{Aead, AeadLaws, nonce_size}
use hush_go.Tlv.Types.{Map}
use hush_go.Frame.Framing.{Frame, read, write, read-wire, max_safe_payload, wire}
use hush_go.Frame.Sealing.{
  plaintext, seal_frame, open_frame, decode_rest, IsPayload, payload_on_wire, plaintext_bytes,
  decode_rest-plaintext_bytes, IsKey, sealed_bytes, send_total, open_frame-sealed_bytes,
  length-sealed_bytes,
}

-- The constants of StatusCode, which is a uint8; application errors start at 0x80.
abbrev pub status_success : ℕ
status_success = 0x00

abbrev pub status_bad_request : ℕ
status_bad_request = 0x01

abbrev pub status_unauthenticated : ℕ
status_unauthenticated = 0x02

abbrev pub status_permission_denied : ℕ
status_permission_denied = 0x03

abbrev pub status_not_found : ℕ
status_not_found = 0x04

abbrev pub status_session_expired : ℕ
status_session_expired = 0x05

abbrev pub status_rate_limited : ℕ
status_rate_limited = 0x06

abbrev pub status_internal_error : ℕ
status_internal_error = 0x07

-- Response; a nil Payload is `none`, and Seq is the frame's sequence number.
pub record Response : Type 0 where
  pub status : ℕ
  pub payload : Option Map
  pub seq : ℕ

-- EncodeResponse; `random` is what rand.Reader gives for the nonce.
unfoldable pub encode_response : Aead → Option Bytes → Option Bytes → Response → Outcome Bytes
encode_response aead random key r = do
  bytes ← plaintext (r.status ∷ []) r.payload
  seal_frame aead random key bytes

-- WriteResponse
unfoldable pub write_response : Aead → Option Bytes → Option Bytes → ℕ → Response → Outcome Bytes
write_response aead random key seq r = do bytes ← encode_response aead random key r; write seq bytes

-- DecryptResponse behind the decryption, of a frame with the sequence number `seq`.
unfoldable pub parse_response : ℕ → Bytes → Outcome Response
parse_response seq [] = err response_too_short
parse_response seq (status ∷ bytes) = do
  payload ← decode_rest 1 (status ∷ bytes)
  ok (record { status = status; payload = payload; seq = seq })

-- DecryptResponse
unfoldable pub decrypt_response : Aead → Option Bytes → Frame → Outcome Response
decrypt_response aead key f = do
  bytes ← open_frame aead key f.body
  parse_response f.sequence_number bytes

-- ReadResponse: the response and the bytes behind it.
unfoldable pub read_response : Aead → Option Bytes → Bytes → Outcome (Response × Bytes)
read_response aead key stream = do
  (f, rest) ← read stream
  resp ← decrypt_response aead key f
  ok (resp, rest)

abbrev pub response_bytes : Response → Bytes
response_bytes r = plaintext_bytes (r.status ∷ []) r.payload

-- A response that a frame carries.
pub record IsResponse (r : Response) : Type 0 where
  pub status_range : r.status < 2 ^ 8
  pub payload_wire : IsPayload r.payload
  pub fits : length (response_bytes r) ≤ max_safe_payload

-- What a reader gets back from the frame with the sequence number `seq`.
abbrev pub response_on_wire : ℕ → Response → Response
response_on_wire seq r = record r { payload = payload_on_wire r.payload; seq = seq }

parse_response_cons :
    (seq status : ℕ) (p : Option Map)
    → IsPayload p
    → length (plaintext_bytes (status ∷ []) p) ≤ max_safe_payload
    → parse_response seq (plaintext_bytes (status ∷ []) p)
      ≡ ok (record { status = status; payload = payload_on_wire p; seq = seq })
unfolding parse_response
parse_response_cons seq status none h fits =
    rw (decode_rest-plaintext_bytes (status ∷ []) none h (omega arith))
parse_response_cons seq status (some m) h fits =
    rw (decode_rest-plaintext_bytes (status ∷ []) (some m) h (omega arith))

module _ (aead : Aead) (laws : AeadLaws aead) where
  pub write_response_total :
      (key : Option Bytes) (nonce : Bytes) (seq : ℕ) (r : Response)
      → IsKey key
      → length nonce ≡ nonce_size
      → IsResponse r
      → write_response aead (some nonce) key seq r
        ≡ ok (wire seq (sealed_bytes aead laws key nonce (response_bytes r)))
  unfolding write_response encode_response
  write_response_total key nonce seq r good size h =
      send_total aead laws key nonce seq (r.status ∷ []) r.payload good size h.payload_wire h.fits

  -- ReadResponse gives back what WriteResponse wrote under the same key, encrypted or not: the status,
  -- the payload with its timestamps cut to milliseconds and the frame's sequence number, and it leaves
  -- the bytes behind the frame. The response must be one that a frame carries.
  pub read_response-write_response :
      (key : Option Bytes) (nonce : Bytes) (seq : ℕ) (r : Response) (rest : Bytes)
      → IsKey key
      → length nonce ≡ nonce_size
      → seq < 2 ^ 32
      → IsResponse r
      → (do
        written ← write_response aead (some nonce) key seq r
        read_response aead key (written ++ rest))
        ≡ ok (response_on_wire seq r, rest)
  unfolding read_response decrypt_response
  read_response-write_response key nonce seq r rest good size hs h =
      let sealed = sealed_bytes aead laws key nonce (response_bytes r) in
      rw (
        write_response_total key nonce seq r good size h,
        read-wire seq sealed rest hs (length-sealed_bytes aead laws key nonce _ size h.fits),
        open_frame-sealed_bytes aead laws key nonce (response_bytes r) good size,
        parse_response_cons seq r.status r.payload h.payload_wire h.fits,
      )

  -- The same on the bytes of the frame.
  pub read_response-wire :
      (key : Option Bytes) (nonce : Bytes) (seq : ℕ) (r : Response) (rest : Bytes)
      → IsKey key
      → length nonce ≡ nonce_size
      → seq < 2 ^ 32
      → IsResponse r
      → read_response aead key
          (wire seq (sealed_bytes aead laws key nonce (response_bytes r)) ++ rest)
        ≡ ok (response_on_wire seq r, rest)
  read_response-wire key nonce seq r rest good size hs h =
      rw (write_response_total key nonce seq r good size h) at
        (read_response-write_response key nonce seq r rest good size hs h)
