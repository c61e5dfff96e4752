-- ===== src/Server/Tcp/Table.antt =====
-- The table of sessions around handleTCPConnection.
use hush_go.Base.{
  ℕ, Bool, Bytes, Outcome, ok, err, panics, out_of_fuel, ◌≡◌, refl, ap, sym, subst, Option, none,
}
use hush_go.Server.Handlers.{Context}
use hush_go.Base.{OnOk, OnOk-Ensures, Ensures-map}
use hush_go.Base.Int.{ℤ}
use hush_go.Base.Dict.{number_key, lookup, IsUnique}
use hush_go.Session.Crypto.{Aead}
use hush_go.Session.Handshake.{Exchange, ExchangeLaws, negotiate_server}
use hush_go.Session.Handshake.Refusal.{negotiate_server-Ensures}
use hush_go.Session.Store.Around.{lookup-delete-set}
use hush_go.Session.Store.{Session, new_session}
use hush_go.Server.Registry.{Server}
use hush_go.Server.Tcp.{serve_connection, handle_tcp_connection}

module _ (aead : Aead) {x : Exchange} {S : Type 0} (cancelled : ℕ → Bool) (clock : ℕ → ℤ)
    (nonce : ℕ → Option Bytes) (rounds : ℕ) (ctx : Context) (remote_addr incoming : Bytes) (s : S)
    (srv : Server x S) where
  serve_connection-lookup :
      (id j : ℕ) (got : Outcome (Session × Bytes × Bytes))
      → IsUnique srv.sessions.sessions
      → lookup id srv.sessions.sessions ≡ none
      → OnOk (λ r. r.0.id ≡ id) got
      → lookup j
          (serve_connection aead cancelled clock nonce rounds ctx remote_addr incoming s srv
            got).server.sessions.sessions
        ≡ lookup j srv.sessions.sessions
  unfolding serve_connection
  serve_connection-lookup id j (ok (sess, response, rest)) unique fresh same =
      lookup-delete-set j srv.sessions sess unique
        (subst (λ i. lookup i srv.sessions.sessions ≡ none) (sym same) fresh)
  serve_connection-lookup id j (err e) unique fresh same = refl
  serve_connection-lookup id j panics unique fresh same = refl
  serve_connection-lookup id j out_of_fuel unique fresh same = refl

  -- Where no other connection, no handler and no gcLoop touches the table of sessions meanwhile:
  -- once handleTCPConnection is through, every number leads to the session that it led to before,
  -- and the connection's own number, which is new, to none, whatever arrived: with a handshake that
  -- fails, and with one that succeeds, however the loop ends.
  pub handle_tcp_connection-lookup :
      ExchangeLaws x
      → (id j : ℕ) (now : ℤ) → IsUnique srv.sessions.sessions
      → lookup id srv.sessions.sessions ≡ none
      → lookup j
          (handle_tcp_connection aead cancelled clock nonce rounds ctx remote_addr incoming s srv id
            now).server.sessions.sessions
        ≡ lookup j srv.sessions.sessions
  unfolding handle_tcp_connection new_session
  handle_tcp_connection-lookup laws id j now unique fresh =
      serve_connection-lookup id j
        (negotiate_server x srv.server_priv srv.key_store id now incoming) unique fresh
        (OnOk-Ensures (
          Ensures-map
            (negotiate_server-Ensures x laws srv.server_priv srv.key_store id now incoming)
            (λ r accepted. ap (λ t. t.0.id) accepted.served.is_result)))
