-- ===== src/Session/Handshake/Refusal.antt =====
-- What the server accepts, on any stream.
use hush_go.Base.{
  ℕ, ◌+◌, ◌≤◌, false, Bytes, [], ◌++◌, length, take, drop, Outcome, ok, ◌≡◌, refl, ap, sym, ◌∙◌,
  ltb, ◌==◌, arith, Option, none, some, inl, inr, ◌⊎◌,
}
use hush_go.Base.{
  Ensures, returns, fails, Ensures-bind, Ensures-map, Ensures-if, Error, take-append-drop,
  length-take, length-drop,
}
use hush_go.Base.Int.{ℤ}
use hush_go.Base.BigEndian.{put_u64, get_u16}
use hush_go.Base.Reader.{read_full-Ensures}
use hush_go.Session.Crypto.{key_size, pub_key_size}
use hush_go.Session.Store.{Session, new_session}
use hush_go.Session.Handshake.{
  Exchange, ExchangeLaws, serve, negotiate_server, or_fail, shared_secret, derive_session_key,
  hush_anonymous,
}

or_fail-Ensures : {A : Type 0} (e : Error) (o : Option A) → Ensures (λ a. o ≡ some a) (or_fail e o)
or_fail-Ensures e none = fails
or_fail-Ensures e (some a) = returns refl

Ensures-equation :
    {A : Type 0} {P Q : A → Type 0} (r : Outcome A)
    → Ensures P r
    → ((a : A) → P a → Q a)
    → Ensures (λ a. (r ≡ ok a) × Q a) r
Ensures-equation _ (returns {a} p) k = returns (refl, k a p)
Ensures-equation _ fails k = fails

take_limit : (n : ℕ) (bs : Bytes) → ltb 256 n ≡ false → length (take n bs) ≤ 256
take_limit n bs h = ground (arith, length-take {0} n bs)

length-take_front : (n m : ℕ) (bs : Bytes) → length bs ≡ n + m → length (take n bs) ≡ n
length-take_front n m bs h = omega (arith, length-take {0} n bs)

length-drop_front : (n m : ℕ) (bs : Bytes) → length bs ≡ n + m → length (drop n bs) ≡ m
length-drop_front n m bs h = omega (arith, length-drop {0} n bs)

-- A session, response and rest that belong to a client with a public key and a name.
pub record IsServed (x : Exchange) (priv : x.PrivateKey) (id : ℕ) (now : ℤ)
    (name secret client_pub rest : Bytes) (result : Session × Bytes × Bytes) : Type 0 where
  shared : Bytes
  key : Bytes
  agreed : x.ecdh priv client_pub ≡ some shared
  derived : derive_session_key x shared secret ≡ ok key
  fits_aes : length key ≡ key_size
  pub is_result :
      result ≡ (new_session now id name (some key), x.public_key priv ++ put_u64 id, rest)

-- The message in front of the rest: a length, a name of that length and a public key. The secret is
-- the one in the store for the name, or the fixed one for an empty name.
pub record IsAccepted (x : Exchange) (priv : x.PrivateKey) (key_store : Bytes → Option Bytes)
    (id : ℕ) (now : ℤ) (stream : Bytes) (result : Session × Bytes × Bytes) : Type 0 where
  header : Bytes
  name : Bytes
  client_pub : Bytes
  secret : Bytes
  rest : Bytes
  is_stream : stream ≡ header ++ (name ++ client_pub ++ rest)
  length_header : length header ≡ 2
  length_name : length name ≡ get_u16 header
  name_limit : length name ≤ 256
  length_client_pub : length client_pub ≡ pub_key_size
  known : ((name ≡ []) × (secret ≡ hush_anonymous)) ⊎ (key_store name ≡ some secret)
  pub served : IsServed x priv id now name secret client_pub rest result

module _ (x : Exchange) (laws : ExchangeLaws x) (priv : x.PrivateKey) (id : ℕ) (now : ℤ) where
  derive_session_key-Ensures :
      (shared secret : Bytes)
      → Ensures
          (λ key. (derive_session_key x shared secret ≡ ok key) × (length key ≡ key_size))
          (derive_session_key x shared secret)
  unfolding derive_session_key
  derive_session_key-Ensures shared secret =
      Ensures-equation _ (or_fail-Ensures _ _)
        (λ key. laws.length-hkdf secret shared _ key key_size)

  serve-Ensures :
      (name secret client_pub rest : Bytes)
      → Ensures
          (IsServed x priv id now name secret client_pub rest)
          (serve x priv id now name secret client_pub rest)
  unfolding serve shared_secret
  serve-Ensures name secret client_pub rest =
      Ensures-if (x.is_public_key client_pub)
        (λ _. Ensures-bind (or_fail-Ensures _ (x.ecdh priv client_pub)) (λ shared agreed.
          Ensures-bind (derive_session_key-Ensures shared secret) (λ key derived. returns (record {
            shared = shared;
            key = key;
            agreed = agreed;
            derived = derived.0;
            fits_aes = derived.1;
            is_result = refl;
          }))))
        (λ _. fails)

  serve-IsAccepted :
      (key_store : Bytes → Option Bytes) (stream header name client_pub secret rest : Bytes)
      → stream ≡ header ++ (name ++ client_pub ++ rest)
      → length header ≡ 2
      → length name ≡ get_u16 header
      → length name ≤ 256
      → length client_pub ≡ pub_key_size
      → ((name ≡ []) × (secret ≡ hush_anonymous)) ⊎ (key_store name ≡ some secret)
      → Ensures
          (IsAccepted x priv key_store id now stream)
          (serve x priv id now name secret client_pub rest)
  serve-IsAccepted key_store stream header name client_pub secret rest h0 h1 h2 h3 h4 h5 =
      Ensures-map (serve-Ensures name secret client_pub rest) (λ _ s. record {
        header = header;
        name = name;
        client_pub = client_pub;
        secret = secret;
        rest = rest;
        is_stream = h0;
        length_header = h1;
        length_name = h2;
        name_limit = h3;
        length_client_pub = h4;
        known = h5;
        served = s;
      })

-- On any stream the server returns, without a panic: an error, or a session whose number, name and
-- 32-byte key come from nextSessionID, the message and the agreed secret, with a name that is empty
-- or in the key store, and a response of its public key and that number.
pub negotiate_server-Ensures :
    (x : Exchange)
    → ExchangeLaws x
    → (priv : x.PrivateKey) (key_store : Bytes → Option Bytes) (id : ℕ) (now : ℤ) (stream : Bytes)
    → Ensures
        (IsAccepted x priv key_store id now stream)
        (negotiate_server x priv key_store id now stream)
unfolding negotiate_server
negotiate_server-Ensures x laws priv key_store id now stream =
    Ensures-bind (read_full-Ensures 2 stream) (λ (header, after) (is_stream, length_header).
      Ensures-if (get_u16 header == 0)
        (λ empty.
          Ensures-bind (read_full-Ensures pub_key_size after)
            (λ (client_pub, rest) (is_after, length_pub).
              serve-IsAccepted x laws priv id now key_store stream header [] client_pub
                hush_anonymous rest (is_stream ∙ ap (header ++◌) is_after) length_header
                (ground arith) (omega arith) length_pub (inl (refl, refl))))
        (λ _.
          Ensures-if (ltb 256 (get_u16 header)) (λ _. fails)
            (λ short.
              Ensures-bind (read_full-Ensures (get_u16 header + pub_key_size) after)
                (λ (key_buf, rest) (is_after, length_buf).
                  Ensures-bind (or_fail-Ensures _ _) (λ secret known.
                    serve-IsAccepted x laws priv id now key_store stream header
                      (take (get_u16 header) key_buf) (drop (get_u16 header) key_buf) secret rest
                      (is_stream
                        ∙ ap (header ++◌)
                            (is_after ∙ ap (◌++ rest) (sym (take-append-drop _ key_buf))))
                      length_header (length-take_front _ _ key_buf length_buf)
                      (take_limit _ key_buf short) (length-drop_front _ _ key_buf length_buf)
                      (inr known))))))
