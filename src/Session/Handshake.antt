-- ===== src/Session/Handshake.antt =====
-- session/negotiate.go: the handshake. X25519 of crypto/ecdh and HKDF-SHA256 of crypto/hkdf are a
-- parameter. A stream is the bytes that the other end sends; a write gives the bytes written, and a
-- write that fails is not modelled. time.Now() and the number from nextSessionID() are arguments.
pub mod Agreement
pub mod Refusal
mod Tests
use hush_go.Base.{
  ℕ, ◌+◌, ◌-◌, ◌^◌, ◌%◌, Bool, true, Bytes, [], ◌∷◌, ◌++◌, length, take, drop, Outcome, ok, err,
  Error, no_shared_secret, no_derived_key, bad_public_key, key_id_too_long, unknown_key_id, ◌>>=◌,
  ◌≡◌, ltb, ◌==◌, if◌then◌else◌, Option, none, some,
}
use hush_go.Base.Int.{ℤ}
use hush_go.Base.BigEndian.{put_u16, get_u16, put_u64, get_u64}
use hush_go.Base.Reader.{read_full}
use hush_go.Base.Dict.{Dict, Key, string_key, lookup}
use hush_go.Session.Crypto.{key_size, pub_key_size}
use hush_go.Session.Store.{Session, new_session}

-- The curve and the key derivation: PublicKey().Bytes(), whether NewPublicKey takes the bytes, ECDH
-- (`none` for its error) and hkdf.Key of a secret, a salt, an info and a length.
pub record Exchange : Type 1 where
  pub PrivateKey : Type 0
  pub public_key : PrivateKey → Bytes
  pub is_public_key : Bytes → Bool
  pub ecdh : PrivateKey → Bytes → Option Bytes
  pub hkdf : Bytes → Bytes → Bytes → ℕ → Option Bytes

-- What crypto/ecdh and crypto/hkdf document.
pub record ExchangeLaws (x : Exchange) : Type 0 where
  pub length-public_key : (priv : x.PrivateKey) → length (x.public_key priv) ≡ pub_key_size
  pub is_public_key-public_key : (priv : x.PrivateKey) → x.is_public_key (x.public_key priv) ≡ true
  pub ecdh_symmetric : (a b : x.PrivateKey) → x.ecdh a (x.public_key b) ≡ x.ecdh b (x.public_key a)
  pub length-hkdf :
      (secret salt info key : Bytes) (n : ℕ) → x.hkdf secret salt info n ≡ some key → length key ≡ n

-- APIKey
pub record ApiKey : Type 0 where
  pub id : Bytes
  pub secret : Bytes

-- The key that the client authenticates with: none if it is nil or its ID is empty.
unfoldable pub named : Option ApiKey → Option ApiKey
named none = none
named (some key) = if length key.id == 0 then none else some key

-- "hush-v1-key" and "hush-anonymous"
abbrev hush_v1_key : Bytes
hush_v1_key = 104 ∷ 117 ∷ 115 ∷ 104 ∷ 45 ∷ 118 ∷ 49 ∷ 45 ∷ 107 ∷ 101 ∷ 121 ∷ []

abbrev pub hush_anonymous : Bytes
hush_anonymous =
    104 ∷ 117 ∷ 115 ∷ 104 ∷ 45 ∷ 97 ∷ 110 ∷ 111 ∷ 110 ∷ 121 ∷ 109 ∷ 111 ∷ 117 ∷ 115 ∷ []

abbrev pub or_fail {ℓ} : {A : Type ℓ} → Error → Option A → Outcome A
or_fail e none = err e
or_fail e (some a) = ok a

-- SharedSecret and DeriveSessionKey
unfoldable pub shared_secret : (x : Exchange) → x.PrivateKey → Bytes → Outcome Bytes
shared_secret x priv public = or_fail no_shared_secret (x.ecdh priv public)

unfoldable pub derive_session_key : Exchange → Bytes → Bytes → Outcome Bytes
derive_session_key x shared secret =
    or_fail no_derived_key (x.hkdf secret shared hush_v1_key key_size)

-- The key's ID and secret in a session, and what stands for them in an anonymous one.
abbrev pub id_of : Option ApiKey → Bytes
id_of none = []
id_of (some key) = key.id

abbrev pub secret_of : Option ApiKey → Bytes
secret_of none = hush_anonymous
secret_of (some key) = key.secret

-- The first message; an ID of 65536 bytes or more has a length that wraps.
abbrev pub hello_of : (x : Exchange) → Option ApiKey → x.PrivateKey → Bytes
hello_of x none priv = put_u16 0 ++ x.public_key priv
hello_of x (some key) priv = put_u16 (length key.id % 2 ^ 16) ++ key.id ++ x.public_key priv

unfoldable pub client_hello : (x : Exchange) → Option ApiKey → x.PrivateKey → Bytes
client_hello x key priv = hello_of x (named key) priv

-- The client from the server's response on, with the bytes behind it.
unfoldable pub client_finish :
    (x : Exchange) → Option ApiKey → x.PrivateKey → ℤ → Bytes → Outcome (Session × Bytes)
client_finish x key priv now stream = do
  (resp, rest) ← read_full (pub_key_size + 8) stream
  let server_pub = take pub_key_size resp
  let session_id = get_u64 (drop pub_key_size resp)
  if x.is_public_key server_pub
      then (do
        shared ← shared_secret x priv server_pub
        session_key ← derive_session_key x shared (secret_of (named key))
        ok (new_session now session_id (id_of (named key)) (some session_key), rest))
      else err bad_public_key

-- NegotiateClient: what it writes, and what it returns.
unfoldable pub negotiate_client :
    (x : Exchange) → Option ApiKey → x.PrivateKey → ℤ → Bytes → Bytes × Outcome (Session × Bytes)
negotiate_client x key priv now stream =
    (client_hello x key priv, client_finish x key priv now stream)

-- MapKeyStore.Get; a nil secret is `none`.
unfoldable pub map_key_store_get : Dict Bytes (Option Bytes) → Bytes → Option Bytes
map_key_store_get m id = elim (lookup id m) [ none ↦ none | some secret ↦ secret ]

-- NegotiateServer from the client's public key on: the session, the response and the bytes behind the
-- client's message.
unfoldable pub serve :
    (x : Exchange)
    → x.PrivateKey
    → ℕ
    → ℤ
    → Bytes
    → Bytes
    → Bytes
    → Bytes
    → Outcome (Session × Bytes × Bytes)
serve x priv next_session_id now api_key_id secret client_pub rest =
    if x.is_public_key client_pub
    then (do
      shared ← shared_secret x priv client_pub
      session_key ← derive_session_key x shared secret
      ok (
        new_session now next_session_id api_key_id (some session_key),
        x.public_key priv ++ put_u64 next_session_id,
        rest,
      ))
    else err bad_public_key

-- NegotiateServer
unfoldable pub negotiate_server :
    (x : Exchange)
    → x.PrivateKey
    → (Bytes → Option Bytes)
    → ℕ
    → ℤ
    → Bytes
    → Outcome (Session × Bytes × Bytes)
negotiate_server x priv key_store next_session_id now stream = do
  (header, after_header) ← read_full 2 stream
  let key_len = get_u16 header
  if key_len == 0
      then (do
        (client_pub, rest) ← read_full pub_key_size after_header
        serve x priv next_session_id now [] hush_anonymous client_pub rest)
      else if ltb 256 key_len
      then err key_id_too_long
      else (do
        (key_buf, rest) ← read_full (key_len + pub_key_size) after_header
        secret ← or_fail unknown_key_id (key_store (take key_len key_buf))
        serve x priv next_session_id now (take key_len key_buf) secret (drop key_len key_buf) rest)
