-- ===== src/Session/Handshake/Tests.antt =====
-- Runs of the handshake, and its theorems at concrete inputs.
use hush_go.Base.{
  ℕ, Bytes, [], ◌∷◌, ◌++◌, ok, ◌≡◌, refl, if◌then◌else◌, arith, Option, none, some, str_eq,
}
use hush_go.Base.{Ensures}
use hush_go.Base.Int.{pos}
use hush_go.Base.BigEndian.{put_u64}
use hush_go.Session.Store.{new_session}
use hush_go.Session.ToyExchange.{toy_exchange, toy_exchange_laws}
use hush_go.Session.Handshake.{
  ApiKey, negotiate_client, negotiate_server, client_hello, derive_session_key, named, id_of,
  secret_of,
}
use hush_go.Session.Handshake.Agreement.{IsKnown, negotiate_server-negotiate_client}
use hush_go.Session.Handshake.Refusal.{IsAccepted, negotiate_server-Ensures}

abbrev alice : Option ApiKey
alice = some (record { id = 97 ∷ 108 ∷ []; secret = 5 ∷ 6 ∷ [] })

abbrev key_store : Bytes → Option Bytes
key_store id = if str_eq id (97 ∷ 108 ∷ []) then some (5 ∷ 6 ∷ []) else none

abbrev thirty_two : ℕ → Bytes
thirty_two b =
    (b ∷ b ∷ b ∷ b ∷ b ∷ b ∷ b ∷ b ∷ [])
    ++ (b ∷ b ∷ b ∷ b ∷ b ∷ b ∷ b ∷ b ∷ [])
    ++ (b ∷ b ∷ b ∷ b ∷ b ∷ b ∷ b ∷ b ∷ [])
    ++ (b ∷ b ∷ b ∷ b ∷ b ∷ b ∷ b ∷ b ∷ [])

named-alice : named alice ≡ alice
unfolding named
named-alice = refl

-- Private keys 3 and 4 agree on 7, and with the secret's first byte 5 on the session key of 12s.
derived-alice :
    derive_session_key toy_exchange (thirty_two 7) (secret_of (named alice)) ≡ ok (thirty_two 12)
unfolding derive_session_key named
derived-alice = refl

alice-IsKnown : IsKnown key_store (named alice)
unfolding named str_eq
alice-IsKnown = (omega arith, refl)

negotiate_server-negotiate_client_example :
    let response = toy_exchange.public_key 4 ++ put_u64 9 in
    let (hello, client) = negotiate_client toy_exchange alice 3 (pos 20) (response ++ (1 ∷ [])) in
    (negotiate_server toy_exchange 4 key_store 9 (pos 10) (hello ++ (2 ∷ []))
      ≡ ok (new_session (pos 10) 9 (id_of (named alice)) (some (thirty_two 12)), response, 2 ∷ []))
    × (client ≡ ok (new_session (pos 20) 9 (id_of (named alice)) (some (thirty_two 12)), 1 ∷ []))
negotiate_server-negotiate_client_example =
    negotiate_server-negotiate_client toy_exchange toy_exchange_laws 3 4 (thirty_two 7)
      (thirty_two 12) refl key_store alice alice-IsKnown derived-alice 9 (pos 10) (pos 20) (2 ∷ [])
      (1 ∷ []) (omega arith)

negotiate_server-Ensures_example :
    let hello = client_hello toy_exchange alice 3 in
    Ensures
      (IsAccepted toy_exchange 4 key_store 9 (pos 10) hello)
      (negotiate_server toy_exchange 4 key_store 9 (pos 10) hello)
negotiate_server-Ensures_example =
    negotiate_server-Ensures toy_exchange toy_exchange_laws 4 key_store 9 (pos 10)
      (client_hello toy_exchange alice 3)
