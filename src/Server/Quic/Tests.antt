-- ===== src/Server/Quic/Tests.antt =====
-- The theorems on QUIC connections at concrete inputs.
use hush_go.Base.{ℕ, Bytes, List, [], ◌∷◌, ◌++◌, All, ok, ◌≡◌, refl, arith, none, some}
use hush_go.Base.Int.{pos}
use hush_go.Base.Dict.{number_key, lookup}
use hush_go.Session.ToyAead.{toy_aead, toy_laws, toy_keeps}
use hush_go.Session.ToyExchange.{toy_exchange, toy_exchange_laws}
use hush_go.Base.BigEndian.{put_u64, get_u16}
use hush_go.Base.Reader.{read_full}
use hush_go.Session.Handshake.{negotiate_server, serve, shared_secret, derive_session_key}
use hush_go.Session.Store.{Session, new_session}
use hush_go.Server.Toy.{toy_server, toy_nonce, toy_server-IsFitting}
use hush_go.Server.Quic.{QuicConnection, QuicStep, accepts, checks, finishes, handle_connection}
use hush_go.Server.Quic.Promise.{desk_steps, new_desk, IsQuicStep, IsDesk}
use hush_go.Server.Quic.Service.{during, handle_connection-IsDesk, handle_connection-lookup}

-- A handshake without an API key.
abbrev hello : Bytes
hello = 0 ∷ 0 ∷ toy_exchange.public_key 3

-- The session of this handshake, with the key that the toy exchange derives.
abbrev anonymous_session : Session
anonymous_session = record {
  id = 9;
  api_key_id = [];
  key = some (toy_exchange.public_key 111);
  created_at = pos 5;
  last_used = pos 5;
}

negotiated :
    negotiate_server toy_exchange 4 (λ _. none) 9 (pos 5) hello
    ≡ ok (anonymous_session, toy_exchange.public_key 4 ++ put_u64 9, [])
unfolding negotiate_server serve read_full shared_secret derive_session_key get_u16 new_session
negotiated = refl

-- Two streams: the second one's goroutine checks first and is through first, and the first one's client
-- has written nothing.
abbrev steps : List QuicStep
steps =
    accepts []
    ∷ accepts (1 ∷ 2 ∷ 3 ∷ [])
    ∷ checks 1 (pos 6)
    ∷ checks 0 (pos 7)
    ∷ finishes 1 (some toy_nonce) (some toy_nonce)
    ∷ finishes 0 (some toy_nonce) (some toy_nonce)
    ∷ []

steps-IsQuicStep : All IsQuicStep steps
steps-IsQuicStep = (
  tt,
  ((omega arith, (omega arith, (omega arith, tt))), (tt, (tt, ((refl, refl), ((refl, refl), tt))))),
)

handle_connection-IsDesk_example :
    (c : QuicConnection ℕ) × ((handle_connection toy_aead toy_server [] [] 0 9
        (pos 5)
        steps
        (some hello)).connection
      ≡ some c)
    × IsDesk toy_aead
        (some (toy_exchange.public_key 111))
        (desk_steps toy_aead
          (during toy_server anonymous_session)
          []
          []
          steps
          (new_desk anonymous_session 0))
        c
handle_connection-IsDesk_example =
    handle_connection-IsDesk toy_aead toy_laws toy_keeps toy_server [] [] 0 9 (pos 5) steps hello
      (toy_exchange.public_key 4 ++ put_u64 9) [] anonymous_session toy_server-IsFitting negotiated
      refl steps-IsQuicStep

handle_connection-lookup_example :
    lookup 9
      (handle_connection toy_aead toy_server [] [] 0 9
        (pos 5)
        steps
        (some hello)).server.sessions.sessions
    ≡ lookup 9 toy_server.sessions.sessions
unfolding lookup
handle_connection-lookup_example =
    handle_connection-lookup toy_aead toy_server [] [] 0 toy_exchange_laws 9 9 (pos 5) steps
      (some hello) tt refl
