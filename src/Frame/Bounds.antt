-- ===== src/Frame/Bounds.antt =====
-- The numbers of a request that was read from bytes.
use hush_go.Base.{
  ℕ, ◌+◌, ◌^◌, ◌<◌, Bytes, [], ◌∷◌, ◌++◌, length, take, drop, All, ok, err, ◌>>=◌, ◌≡◌, refl, subst,
  ltb, arith, Option, none, some,
}
use hush_go.Base.{
  OnOk, OnOk-any, not_authentic, OnOk-bind, OnOk-if, OnOk-Ensures, All-take, All-drop,
  All-append_inv,
}
use hush_go.Base.BigEndian.{IsByte, get_u16, put_u32}
use hush_go.Session.Crypto.{Aead, KeepsBytes, decrypt, nonce_size, tag_size, is_aes_key}
use hush_go.Frame.Framing.{read, read-Ensures, IsReadFrom, wire}
use hush_go.Frame.Sealing.{open_frame, decode_rest}
use hush_go.Frame.Requests.{Request, read_request, decrypt_request, parse_request}

abbrev pub IsBounded : Request × ℕ × Bytes → Type 0
IsBounded (req, seq, rest) = (req.opcode < 2 ^ 16) × (seq < 2 ^ 32)

module _ (aead : Aead) (keeps : KeepsBytes aead) where
  opened-IsByte :
      (key bytes : Bytes)
      → All IsByte bytes
      → (opened : Option Bytes)
      → aead.unseal key (take nonce_size bytes) (drop nonce_size bytes) ≡ opened
      → OnOk (All IsByte) (elim opened [ none ↦ err not_authentic | some plaintext ↦ ok plaintext ])
  opened-IsByte key bytes h none e = tt
  opened-IsByte key bytes h (some plaintext) e =
      keeps.unseal_bytes key _ _ plaintext (All-drop IsByte nonce_size bytes h) e

  decrypt-IsByte :
      (key bytes : Bytes) → All IsByte bytes → OnOk (All IsByte) (decrypt aead key bytes)
  unfolding decrypt
  decrypt-IsByte key bytes h =
      OnOk-if (All IsByte) (ltb (length bytes) (nonce_size + tag_size)) _ _ tt (λ _.
        OnOk-if (All IsByte) (is_aes_key key) _ _
          (opened-IsByte key bytes h
            (aead.unseal key (take nonce_size bytes) (drop nonce_size bytes)) refl)
          (λ _. tt))

  open_frame-IsByte :
      (key : Option Bytes) (bytes : Bytes)
      → All IsByte bytes
      → OnOk (All IsByte) (open_frame aead key bytes)
  unfolding open_frame
  open_frame-IsByte none bytes h = h
  open_frame-IsByte (some key) bytes h = decrypt-IsByte key bytes h

get_u16-lt : (bytes : Bytes) → All IsByte bytes → get_u16 bytes < 2 ^ 16
unfolding get_u16
get_u16-lt [] h = omega arith
get_u16-lt (a ∷ []) h = omega arith
get_u16-lt (a ∷ b ∷ rest) h = omega arith

parse_request_bounds :
    (bytes : Bytes) → All IsByte bytes → OnOk (λ req. req.opcode < 2 ^ 16) (parse_request bytes)
unfolding parse_request
parse_request_bounds bytes h = OnOk-if _ (ltb (length bytes) 2) _ _ tt (λ _.
    OnOk-bind (λ _. Unit {0}) _ (decode_rest 2 bytes) _ (OnOk-any (decode_rest 2 bytes))
      (λ payload _. get_u16-lt (take 2 bytes) (All-take IsByte 2 bytes h)))

-- A request read from bytes has a uint16 opcode and a uint32 sequence number.
pub read_request-IsBounded :
    (aead : Aead)
    → KeepsBytes aead
    → (key : Option Bytes) (stream : Bytes) → All IsByte stream
    → OnOk IsBounded (read_request aead key stream)
unfolding read_request decrypt_request
read_request-IsBounded aead keeps key stream h =
    OnOk-bind (IsReadFrom stream) IsBounded (read stream) _ (OnOk-Ensures (read-Ensures stream h))
      (λ (f, rest) (small, seq_range, split).
        let framed : All IsByte (wire f.sequence_number f.body ++ rest) =
          subst (All IsByte) split h in
        let body : All IsByte f.body =
          (All-append_inv IsByte (put_u32 f.sequence_number) f.body
            (All-append_inv IsByte (put_u32 (4 + length f.body)) _
              (All-append_inv IsByte (wire f.sequence_number f.body) rest framed).0).1).1 in
        OnOk-bind (λ req. req.opcode < 2 ^ 16) IsBounded
          (do bytes ← open_frame aead key f.body; parse_request bytes) _
          (OnOk-bind (All IsByte) (λ req. req.opcode < 2 ^ 16) (open_frame aead key f.body) _
            (open_frame-IsByte aead keeps key f.body body)
            (λ bytes b. parse_request_bounds bytes b))
          (λ req o. (o, seq_range)))
