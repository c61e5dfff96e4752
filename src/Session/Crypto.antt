-- ===== src/Session/Crypto.antt =====
-- session/crypto.go: authenticated encryption of frames. AES-GCM of crypto/cipher is a parameter.
use hush_go.Base.BigEndian.{IsByte}
use hush_go.Base.{
  All, ℕ, ◌+◌, Bool, true, ◌||◌, Bytes, ◌++◌, length, take, take-append-drop, drop, length-append,
  take-append_length, drop-append_length, bad_key_size, no_randomness, not_authentic,
  ciphertext_too_short, Outcome, ok, err, ◌>>=◌, ◌≡◌, ap, sym, ltb, ◌==◌, le→ltb, if◌then◌else◌,
  arith, Option, none, some,
}

-- KeySize, NonceSize, TagSize, PubKeySize
abbrev pub key_size : ℕ
key_size = 32

abbrev pub nonce_size : ℕ
nonce_size = 12

abbrev pub tag_size : ℕ
tag_size = 16

abbrev pub pub_key_size : ℕ
pub_key_size = 32

-- AES-GCM under a key and a nonce, with no additional data: Seal appends the tag to the ciphertext,
-- and Open fails (`none`) on what was not sealed.
pub record Aead : Type 0 where
  pub seal : Bytes → Bytes → Bytes → Bytes
  pub unseal : Bytes → Bytes → Bytes → Option Bytes

-- What crypto/cipher documents: Open inverts Seal, succeeds on nothing else, and Seal makes the
-- plaintext longer by the tag.
pub record AeadLaws (aead : Aead) : Type 0 where
  pub unseal-seal :
      (key nonce plaintext : Bytes)
      → aead.unseal key nonce (aead.seal key nonce plaintext) ≡ some plaintext
  pub unseal-authentic :
      (key nonce sealed plaintext : Bytes)
      → aead.unseal key nonce sealed ≡ some plaintext
      → aead.seal key nonce plaintext ≡ sealed
  pub length-seal :
      (key nonce plaintext : Bytes)
      → length (aead.seal key nonce plaintext) ≡ length plaintext + tag_size

-- Open makes bytes of bytes.
pub record KeepsBytes (aead : Aead) : Type 0 where
  pub unseal_bytes :
      (key nonce sealed plaintext : Bytes)
      → All IsByte sealed
      → aead.unseal key nonce sealed ≡ some plaintext
      → All IsByte plaintext

-- aes.NewCipher takes a key of 16, 24 or 32 bytes.
abbrev pub is_aes_key : Bytes → Bool
is_aes_key key = length key == 16 || length key == 24 || length key == 32

-- Encrypt. `random` is what rand.Reader gives for the nonce.
unfoldable pub encrypt : Aead → Option Bytes → Bytes → Bytes → Outcome Bytes
encrypt aead random key plaintext =
    if is_aes_key key
    then elim random [
      | none ↦ err no_randomness
      | some nonce ↦ ok (nonce ++ aead.seal key nonce plaintext)
    ]
    else err bad_key_size

-- Decrypt
unfoldable pub decrypt : Aead → Bytes → Bytes → Outcome Bytes
decrypt aead key bytes =
    if ltb (length bytes) (nonce_size + tag_size)
    then err ciphertext_too_short
    else if is_aes_key key
    then elim (aead.unseal key (take nonce_size bytes) (drop nonce_size bytes)) [
      | none ↦ err not_authentic
      | some plaintext ↦ ok plaintext
    ]
    else err bad_key_size

module _ (aead : Aead) (laws : AeadLaws aead) where
  pub encrypt-ok :
      (key nonce plaintext : Bytes)
      → is_aes_key key ≡ true
      → encrypt aead (some nonce) key plaintext ≡ ok (nonce ++ aead.seal key nonce plaintext)
  unfolding encrypt
  encrypt-ok key nonce plaintext good = rw good

  -- Under one AES key, Decrypt gives back what Encrypt was given.
  pub decrypt-encrypt :
      (key nonce plaintext : Bytes)
      → is_aes_key key ≡ true
      → length nonce ≡ nonce_size
      → (do sealed ← encrypt aead (some nonce) key plaintext; decrypt aead key sealed)
        ≡ ok plaintext
  unfolding decrypt
  decrypt-encrypt key nonce plaintext good size =
      let sealed = aead.seal key nonce plaintext in
      rw
        (
          encrypt-ok key nonce plaintext good,
          le→ltb (length (nonce ++ sealed)) (nonce_size + tag_size)
              (omega (arith, length-append {0} nonce sealed, laws.length-seal key nonce plaintext)),
          good,
          ap (λ n. take n (nonce ++ sealed)) (sym size),
          ap (λ n. drop n (nonce ++ sealed)) (sym size),
          take-append_length nonce sealed,
          drop-append_length nonce sealed,
        )
        (rw (laws.unseal-seal key nonce plaintext, ◌>>=◌))

  unseal_of_decrypt :
      (key bytes plaintext : Bytes)
      → decrypt aead key bytes ≡ ok plaintext
      → aead.unseal key (take nonce_size bytes) (drop nonce_size bytes) ≡ some plaintext
  unfolding decrypt
  unseal_of_decrypt key bytes plaintext e = ground arith

  -- Whatever Decrypt accepts is the nonce in front and the sealed plaintext that it returns.
  pub decrypt_authentic :
      (key bytes plaintext : Bytes)
      → decrypt aead key bytes ≡ ok plaintext
      → bytes ≡ take nonce_size bytes ++ aead.seal key (take nonce_size bytes) plaintext
  decrypt_authentic key bytes plaintext e =
      rw (laws.unseal-authentic key _ _ plaintext (unseal_of_decrypt key bytes plaintext e))
        (sym (take-append-drop nonce_size bytes))
