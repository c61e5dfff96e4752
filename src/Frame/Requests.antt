-- ===== src/Frame/Requests.antt =====
-- frame/request.go: requests on a stream.
use hush_go.Base.{
  ℕ, ◌^◌, ◌≤◌, ◌<◌, Bytes, ◌++◌, length, take, request_too_short, Outcome, ok, err, ◌>>=◌, ◌≡◌,
  subst, ltb, le→ltb, if◌then◌else◌, arith, Option, some,
}
use hush_go.Base.BigEndian.{put_u16, get_u16, get_u16-put_u16, length-put_u16}
use hush_go.Session.Crypto.{Aead, AeadLaws, nonce_size}
use hush_go.Tlv.Types.{Map}
use hush_go.Frame.Framing.{Frame, read, write, read-wire, max_safe_payload, wire}
use hush_go.Frame.Sealing.{
  plaintext, seal_frame, open_frame, decode_rest, take-plaintext_bytes, length-le-plaintext_bytes,
  send_total, IsPayload, payload_on_wire, plaintext_bytes, decode_rest-plaintext_bytes, IsKey,
  sealed_bytes, open_frame-sealed_bytes, length-sealed_bytes,
}

-- Request; a nil Payload is `none`.
pub record Request : Type 0 where
  pub opcode : ℕ
  pub payload : Option Map

-- EncodeRequest; `random` is what rand.Reader gives for the nonce.
unfoldable pub encode_request : Aead → Option Bytes → Option Bytes → Request → Outcome Bytes
encode_request aead random key r = do
  bytes ← plaintext (put_u16 r.opcode) r.payload
  seal_frame aead random key bytes

-- WriteRequest
unfoldable pub write_request : Aead → Option Bytes → Option Bytes → ℕ → Request → Outcome Bytes
write_request aead random key seq r = do bytes ← encode_request aead random key r; write seq bytes

-- DecryptRequest behind the decryption.
unfoldable pub parse_request : Bytes → Outcome Request
parse_request bytes =
    let parsed = (do
      payload ← decode_rest 2 bytes
      ok (record { opcode = get_u16 (take 2 bytes); payload = payload })) in
    if ltb (length bytes) 2 then err request_too_short else parsed

-- DecryptRequest
unfoldable pub decrypt_request : Aead → Option Bytes → Frame → Outcome Request
decrypt_request aead key f = do bytes ← open_frame aead key f.body; parse_request bytes

-- ReadRequest: the request, its sequence number and the bytes behind it.
unfoldable pub read_request : Aead → Option Bytes → Bytes → Outcome (Request × ℕ × Bytes)
read_request aead key stream = do
  (f, rest) ← read stream
  req ← decrypt_request aead key f
  ok (req, f.sequence_number, rest)

abbrev pub request_bytes : Request → Bytes
request_bytes r = plaintext_bytes (put_u16 r.opcode) r.payload

-- A request that a frame carries: a uint16 opcode, and a payload that the format carries and that
-- fits the frame with its overhead.
pub record IsRequest (r : Request) : Type 0 where
  pub opcode_range : r.opcode < 2 ^ 16
  pub payload_wire : IsPayload r.payload
  pub fits : length (request_bytes r) ≤ max_safe_payload

abbrev pub request_on_wire : Request → Request
request_on_wire r = record r { payload = payload_on_wire r.payload }

parse_request-request_bytes :
    (r : Request) → IsRequest r → parse_request (request_bytes r) ≡ ok (request_on_wire r)
unfolding parse_request
parse_request-request_bytes r h =
    let fields = put_u16 r.opcode in
    let two : length fields ≡ 2 = length-put_u16 r.opcode in
    rw (
      le→ltb (length (request_bytes r)) 2
          (omega (arith, length-le-plaintext_bytes fields r.payload, two)),
      subst (λ n. decode_rest n (request_bytes r) ≡ ok (payload_on_wire r.payload)) two
          (decode_rest-plaintext_bytes fields r.payload h.payload_wire (omega (arith, h.fits))),
      subst (λ n. take n (request_bytes r) ≡ fields) two (take-plaintext_bytes fields r.payload),
      get_u16-put_u16 r.opcode h.opcode_range,
    )

module _ (aead : Aead) (laws : AeadLaws aead) where
  pub write_request_total :
      (key : Option Bytes) (nonce : Bytes) (seq : ℕ) (r : Request)
      → IsKey key
      → length nonce ≡ nonce_size
      → IsRequest r
      → write_request aead (some nonce) key seq r
        ≡ ok (wire seq (sealed_bytes aead laws key nonce (request_bytes r)))
  unfolding write_request encode_request
  write_request_total key nonce seq r good size h =
      send_total aead laws key nonce seq (put_u16 r.opcode) r.payload good size h.payload_wire
        h.fits

  -- ReadRequest gives back what WriteRequest wrote under the same key, encrypted or not: the opcode,
  -- the payload with its timestamps cut to milliseconds and the sequence number, and it leaves the
  -- bytes behind the frame. The request must be one that a frame carries.
  pub read_request-write_request :
      (key : Option Bytes) (nonce : Bytes) (seq : ℕ) (r : Request) (rest : Bytes)
      → IsKey key
      → length nonce ≡ nonce_size
      → seq < 2 ^ 32
      → IsRequest r
      → (do
        written ← write_request aead (some nonce) key seq r
        read_request aead key (written ++ rest))
        ≡ ok (request_on_wire r, seq, rest)
  unfolding read_request decrypt_request
  read_request-write_request key nonce seq r rest good size hs h =
      let sealed = sealed_bytes aead laws key nonce (request_bytes r) in
      rw (
        write_request_total key nonce seq r good size h,
        read-wire seq sealed rest hs (length-sealed_bytes aead laws key nonce _ size h.fits),
        open_frame-sealed_bytes aead laws key nonce (request_bytes r) good size,
        parse_request-request_bytes r h,
      )

  -- The same on the bytes of the frame.
  pub read_request-wire :
      (key : Option Bytes) (nonce : Bytes) (seq : ℕ) (r : Request) (rest : Bytes)
      → IsKey key
      → length nonce ≡ nonce_size
      → seq < 2 ^ 32
      → IsRequest r
      → read_request aead key
          (wire seq (sealed_bytes aead laws key nonce (request_bytes r)) ++ rest)
        ≡ ok (request_on_wire r, seq, rest)
  read_request-wire key nonce seq r rest good size hs h =
      rw (write_request_total key nonce seq r good size h) at
        (read_request-write_request key nonce seq r rest good size hs h)
