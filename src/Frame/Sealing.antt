-- ===== src/Frame/Sealing.antt =====
-- frame/request.go and frame/response.go: the parts that EncodeRequest and EncodeResponse have in
-- common, and DecryptRequest and DecryptResponse. A nil key means that frames are not encrypted.
use hush_go.Base.{
  ℕ, ◌+◌, ◌^◌, ◌≤◌, ◌<◌, true, Bytes, ◌++◌, length, take, drop, length-append, take-append_length,
  take-length, drop-append_length, Outcome, ok, ◌>>=◌, ◌≡◌, refl, ltb, lt→ltb, le→ltb,
  if◌then◌else◌, arith, Option, none, some,
}
use hush_go.Session.Crypto.{
  Aead, AeadLaws, encrypt, decrypt, is_aes_key, decrypt-encrypt, nonce_size, encrypt-ok,
}
use hush_go.Tlv.Types.{Map, map, type_map}
use hush_go.Tlv.Encode.{must_encode_map, with_header}
use hush_go.Tlv.Decode.{decode_map, max_decode_depth}
use hush_go.Tlv.Wire.{IsWire, nesting, map_on_wire, entries_bytes}
use hush_go.Tlv.RoundTrip.{map_bytes, must_encode_map-map_bytes, decode_map-map_bytes}
use hush_go.Frame.Framing.{write, wire, write-ok, max_frame_size, max_safe_payload}
use hush_go.Tlv.RoundTrip.Header.{length-with_header}

-- The fixed fields, then the payload unless it is nil.
unfoldable pub plaintext : Bytes → Option Map → Outcome Bytes
plaintext fields none = ok fields
plaintext fields (some m) = do tlv_data ← must_encode_map m; ok (fields ++ tlv_data)

-- Encrypts unless the key is nil.
unfoldable pub seal_frame : Aead → Option Bytes → Option Bytes → Bytes → Outcome Bytes
seal_frame aead random none bytes = ok bytes
seal_frame aead random (some key) bytes = encrypt aead random key bytes

-- Decrypts unless the key is nil.
unfoldable pub open_frame : Aead → Option Bytes → Bytes → Outcome Bytes
open_frame aead none bytes = ok bytes
open_frame aead (some key) bytes = decrypt aead key bytes

-- The payload behind `width` bytes of fixed fields: nil if there is nothing.
unfoldable pub decode_rest : ℕ → Bytes → Outcome (Option Map)
decode_rest width bytes =
    let decoded = (do m ← decode_map (drop width bytes); ok (some m)) in
    if ltb width (length bytes) then decoded else ok none

-- A payload that the format carries within the decoder's depth.
abbrev pub IsPayload : Option Map → Type 0
IsPayload none = Unit
IsPayload (some m) = IsWire (map m) × (nesting (map m) ≤ max_decode_depth)

abbrev pub payload_on_wire : Option Map → Option Map
payload_on_wire none = none
payload_on_wire (some m) = some (map_on_wire m)

abbrev pub plaintext_bytes : Bytes → Option Map → Bytes
plaintext_bytes fields none = fields
plaintext_bytes fields (some m) = fields ++ map_bytes m

pub plaintext_total :
    (fields : Bytes) (p : Option Map)
    → IsPayload p
    → plaintext fields p ≡ ok (plaintext_bytes fields p)
unfolding plaintext
plaintext_total fields none h = refl
plaintext_total fields (some m) h = rw (must_encode_map-map_bytes m h.0)

short_entries :
    (fields : Bytes) (m : Map)
    → length (fields ++ map_bytes m) ≤ max_frame_size
    → length (entries_bytes m) < 2 ^ 63
short_entries fields m small =
    omega
      (arith, length-append {0} fields (map_bytes m), length-with_header type_map (entries_bytes m))

pub decode_rest-plaintext_bytes :
    (fields : Bytes) (p : Option Map)
    → IsPayload p
    → length (plaintext_bytes fields p) ≤ max_frame_size
    → decode_rest (length fields) (plaintext_bytes fields p) ≡ ok (payload_on_wire p)
unfolding decode_rest with_header
decode_rest-plaintext_bytes fields none h small =
    rw (le→ltb (length fields) (length fields) (omega arith))
decode_rest-plaintext_bytes fields (some m) h small = rw (
  lt→ltb (length fields) (length (fields ++ map_bytes m))
      (omega (arith, length-append {0} fields (map_bytes m))),
  drop-append_length fields (map_bytes m),
  decode_map-map_bytes m h.0 h.1 (short_entries fields m small),
)

pub take-plaintext_bytes :
    (fields : Bytes) (p : Option Map) → take (length fields) (plaintext_bytes fields p) ≡ fields
take-plaintext_bytes fields none = take-length fields
take-plaintext_bytes fields (some m) = take-append_length fields (map_bytes m)

pub length-le-plaintext_bytes :
    (fields : Bytes) (p : Option Map) → length fields ≤ length (plaintext_bytes fields p)
length-le-plaintext_bytes fields none = omega arith
length-le-plaintext_bytes fields (some m) = omega (arith, length-append {0} fields (map_bytes m))

-- A usable key: nil, or an AES key.
abbrev pub IsKey : Option Bytes → Type 0
IsKey none = Unit
IsKey (some key) = is_aes_key key ≡ true

module _ (aead : Aead) (laws : AeadLaws aead) where
  abbrev pub sealed_bytes : Option Bytes → Bytes → Bytes → Bytes
  sealed_bytes none nonce bytes = bytes
  sealed_bytes (some key) nonce bytes = nonce ++ aead.seal key nonce bytes

  pub seal_frame_total :
      (key : Option Bytes) (nonce bytes : Bytes)
      → IsKey key
      → seal_frame aead (some nonce) key bytes ≡ ok (sealed_bytes key nonce bytes)
  unfolding seal_frame
  seal_frame_total none nonce bytes h = refl
  seal_frame_total (some key) nonce bytes h = encrypt-ok aead laws key nonce bytes h

  pub open_frame-sealed_bytes :
      (key : Option Bytes) (nonce bytes : Bytes)
      → IsKey key
      → length nonce ≡ nonce_size
      → open_frame aead key (sealed_bytes key nonce bytes) ≡ ok bytes
  unfolding open_frame
  open_frame-sealed_bytes none nonce bytes h size = refl
  open_frame-sealed_bytes (some key) nonce bytes h size =
      rw (encrypt-ok aead laws key nonce bytes h) at
        (decrypt-encrypt aead laws key nonce bytes h size)

  -- Encryption adds the nonce and the tag: with the sequence number FrameOverhead bytes.
  pub length-sealed_bytes :
      (key : Option Bytes) (nonce bytes : Bytes)
      → length nonce ≡ nonce_size
      → length bytes ≤ max_safe_payload
      → 4 + length (sealed_bytes key nonce bytes) ≤ max_frame_size
  length-sealed_bytes none nonce bytes size fits = omega arith
  length-sealed_bytes (some key) nonce bytes size fits =
      omega (
        arith,
        length-append {0} nonce (aead.seal key nonce bytes),
        laws.length-seal key nonce bytes,
      )

  -- Encoding, sealing and writing a frame that fits.
  pub send_total :
      (key : Option Bytes) (nonce : Bytes) (seq : ℕ) (fields : Bytes) (p : Option Map)
      → IsKey key
      → length nonce ≡ nonce_size
      → IsPayload p
      → length (plaintext_bytes fields p) ≤ max_safe_payload
      → (do
        sealed ← (do bytes ← plaintext fields p; seal_frame aead (some nonce) key bytes)
        write seq sealed)
        ≡ ok (wire seq (sealed_bytes key nonce (plaintext_bytes fields p)))
  send_total key nonce seq fields p good size h fits =
      let bytes = plaintext_bytes fields p in
      rw (
        plaintext_total fields p h,
        seal_frame_total key nonce bytes good,
        write-ok seq (sealed_bytes key nonce bytes) (length-sealed_bytes key nonce bytes size fits),
      )
