-- ===== src/Session/Handshake/Agreement.antt =====
-- Both ends of a handshake agree.
use hush_go.Base.{
  ℕ, ◌+◌, ◌^◌, ◌%◌, ◌≤◌, ◌<◌, false, Bytes, [], ◌++◌, append_assoc, length, length-append,
  take-append_length, drop-append_length, ok, ◌≡◌, ◌==◌, le→ltb, arith, Option, none, some,
  Bool-cases, inl, inr,
}
use hush_go.Base.Int.{ℤ}
use hush_go.Base.BigEndian.{
  put_u16, put_u64, get_u16-put_u16, get_u64-put_u64, length-put_u16, length-put_u64,
}
use hush_go.Base.Reader.{read_full-append}
use hush_go.Session.Crypto.{pub_key_size}
use hush_go.Session.Store.{new_session}
use hush_go.Session.Handshake.{
  Exchange, ExchangeLaws, ApiKey, named, hello_of, client_hello, client_finish, negotiate_client,
  serve, negotiate_server, shared_secret, derive_session_key, id_of, secret_of, hush_anonymous,
}

-- A key that the server knows: its ID is not empty, within the limit of 256 bytes and in the store
-- with the same secret.
abbrev pub IsKnown : (Bytes → Option Bytes) → Option ApiKey → Type 0
IsKnown key_store none = Unit
IsKnown key_store (some key) = (length key.id ≤ 256) × (key_store key.id ≡ some key.secret)

abbrev IsNamed : Option ApiKey → Type 0
IsNamed none = Unit
IsNamed (some key) = length key.id == 0 ≡ false

named-IsNamed : (key : Option ApiKey) → IsNamed (named key)
unfolding named
named-IsNamed none = tt
named-IsNamed (some key) = elim (Bool-cases (length key.id == 0)) [
  | inl empty ↦ rw empty tt
  | inr long ↦ rw (long) (long)
]

module _ (x : Exchange) (laws : ExchangeLaws x) (a b : x.PrivateKey) (shared session_key : Bytes)
    (agreed : x.ecdh a (x.public_key b) ≡ some shared) (id : ℕ) where
  serve_lem :
      (now : ℤ) (name secret rest : Bytes)
      → derive_session_key x shared secret ≡ ok session_key
      → serve x b id now name secret (x.public_key a) rest
        ≡ ok (new_session now id name (some session_key), x.public_key b ++ put_u64 id, rest)
  unfolding serve shared_secret
  serve_lem now name secret rest derived =
      rw (laws.is_public_key-public_key a, ← laws.ecdh_symmetric a b, agreed, derived)

  negotiate_server-hello_of :
      (key_store : Bytes → Option Bytes) (key : Option ApiKey) (now : ℤ) (more : Bytes)
      → IsNamed key
      → IsKnown key_store key
      → derive_session_key x shared (secret_of key) ≡ ok session_key
      → negotiate_server x b key_store id now (hello_of x key a ++ more)
        ≡ ok (new_session now id (id_of key) (some session_key), x.public_key b ++ put_u64 id, more)
  unfolding negotiate_server
  negotiate_server-hello_of key_store none now more n k derived = rw (
    append_assoc (put_u16 0) (x.public_key a) more,
    read_full-append 2 (put_u16 0) (x.public_key a ++ more) (length-put_u16 0),
    get_u16-put_u16 0 (omega arith),
    read_full-append pub_key_size (x.public_key a) more (laws.length-public_key a),
    serve_lem now [] hush_anonymous more derived,
  )
  negotiate_server-hello_of key_store (some key) now more n k derived =
      let len = length key.id in
      let small : len % 2 ^ 16 ≡ len = omega arith in
      rw (
        small,
        append_assoc (put_u16 len ++ key.id) (x.public_key a) more,
        append_assoc (put_u16 len) key.id (x.public_key a ++ more),
        read_full-append 2 (put_u16 len) (key.id ++ (x.public_key a ++ more)) (length-put_u16 len),
        ← append_assoc key.id (x.public_key a) more,
        get_u16-put_u16 len (omega arith),
        n,
        le→ltb 256 len k.0,
        read_full-append (len + pub_key_size) (key.id ++ x.public_key a) more
            (omega (arith, length-append {0} key.id (x.public_key a), laws.length-public_key a)),
        take-append_length key.id (x.public_key a),
        drop-append_length key.id (x.public_key a),
        k.1,
        serve_lem now key.id key.secret more derived,
      )

  client_finish-response :
      (key : Option ApiKey) (now : ℤ) (more : Bytes)
      → id < 2 ^ 64
      → derive_session_key x shared (secret_of (named key)) ≡ ok session_key
      → client_finish x key a now ((x.public_key b ++ put_u64 id) ++ more)
        ≡ ok (new_session now id (id_of (named key)) (some session_key), more)
  unfolding client_finish shared_secret
  client_finish-response key now more h derived =
      let pub_length = laws.length-public_key b in
      rw (
        read_full-append (pub_key_size + 8) (x.public_key b ++ put_u64 id) more (
            omega (
              arith,
              length-append {0} (x.public_key b) (put_u64 id),
              length-put_u64 id,
              pub_length,
            )),
        ← pub_length,
        take-append_length (x.public_key b) (put_u64 id),
        drop-append_length (x.public_key b) (put_u64 id),
        get_u64-put_u64 id h,
        laws.is_public_key-public_key b,
        agreed,
        derived,
      )

-- Where the server knows the client's key, or the client has none, and X25519 and HKDF succeed, the server
-- reads the client's first message and the client the server's response, each to its end, and both
-- return sessions with the server's number, the client's key ID and the same session key.
pub negotiate_server-negotiate_client :
    (x : Exchange) (laws : ExchangeLaws x) (a b : x.PrivateKey) (shared session_key : Bytes)
    → x.ecdh a (x.public_key b) ≡ some shared
    → (key_store : Bytes → Option Bytes) (key : Option ApiKey) → IsKnown key_store (named key)
    → derive_session_key x shared (secret_of (named key)) ≡ ok session_key
    → (id : ℕ) (now later : ℤ) (more more' : Bytes) → id < 2 ^ 64
    → let response = x.public_key b ++ put_u64 id in
      let (hello, client) = negotiate_client x key a later (response ++ more') in
      (negotiate_server x b key_store id now (hello ++ more)
        ≡ ok (new_session now id (id_of (named key)) (some session_key), response, more))
      × (client ≡ ok (new_session later id (id_of (named key)) (some session_key), more'))
unfolding negotiate_client client_hello
negotiate_server-negotiate_client x laws a b shared session_key agreed key_store key k derived id
      now later more more' h =
    (
      negotiate_server-hello_of x laws a b shared session_key agreed id key_store (named key) now
          more (named-IsNamed key) k derived,
      client_finish-response x laws a b shared session_key agreed id key later more' h derived,
    )
