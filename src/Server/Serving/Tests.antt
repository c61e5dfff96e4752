-- ===== src/Server/Serving/Tests.antt =====
-- The theorem on a server behind its listener at a concrete input, and runs.
use hush_go.Base.{
  ℕ, suc, true, false, Bytes, List, [], ◌∷◌, listen_failed, ◌≡◌, refl, Option, none, some, arith,
}
use hush_go.Base.Text.{codes}
use hush_go.Base.Int.{pos, ◌-ℤ◌}
use hush_go.Base.Reader.{read_full}
use hush_go.Base.BigEndian.{get_u16}
use hush_go.Base.Dict
use hush_go.Base.Dict.{Dict, Key, number_key, lookup, insert, delete_if}
use hush_go.Session.ToyExchange.{toy_exchange, toy_exchange_laws}
use hush_go.Session.Handshake.{negotiate_server, serve, shared_secret, derive_session_key}
use hush_go.Session.Store
use hush_go.Session.Store.{Session, new_session}
use hush_go.Server.Toy.{toy_server}
use hush_go.Transport.{TlsConfig, Network, default_alpn, opened, listen, listen_tcp}
use hush_go.Server.Serving.{
  ServeStep, accepts, accept_fails, negotiates, enters, leaves, ticks, serve_step, serve_steps,
  started, listen_and_serve, listen_and_serve_on_conn, listen_and_serve_tcp,
}
use hush_go.Server.Serving.Service.{IsServed, listen_and_serve-IsServed}

-- A handshake without an API key.
abbrev hello : Bytes
hello = 0 ∷ 0 ∷ toy_exchange.public_key 3

-- Two clients, whose handshakes come in the other order; the first one leaves, and the loop is left.
abbrev steps : List ServeStep
steps =
    accepts
    ∷ accepts
    ∷ negotiates 1 (pos 5) hello
    ∷ negotiates 0 (pos 6) hello
    ∷ enters 0
    ∷ enters 1
    ∷ leaves 0
    ∷ accept_fails true
    ∷ accepts
    ∷ ticks (pos 7)
    ∷ []

-- A system whose state counts the listeners.
abbrev counting : Network ℕ
counting = record {
  resolve_udp = λ addr n. some addr;
  listen_udp = λ addr n. (some 7, n);
  quic_listen = λ udp conf n. (some udp, suc n);
  quic_dial = λ addr conf n. (none, n);
  tcp_dial = λ addr n. (none, n);
  tls_handshake = λ c conf n. (false, n);
  tls_listen = λ addr conf n. (none, n);
  close = λ c n. n;
}

abbrev no_protocols : TlsConfig
no_protocols = record { next_protos = [] }

listen_and_serve-IsServed_example :
    IsServed toy_server.sessions.config.max_lifetime steps
      (some no_protocols)
      (listen counting (codes "a") (some no_protocols) 0)
      0
      (listen_and_serve toy_server counting (some no_protocols) (codes "a") steps 0)
    × IsServed toy_server.sessions.config.max_lifetime steps
        (some no_protocols)
        (opened listen_failed
          (counting.quic_listen 3 (record { next_protos = default_alpn ∷ [] }) 0))
        0
        (listen_and_serve_on_conn toy_server counting (some no_protocols) 3 steps 0)
    × IsServed toy_server.sessions.config.max_lifetime steps
        (some no_protocols)
        (listen_tcp counting (codes "a") (some no_protocols) 0)
        0
        (listen_and_serve_tcp toy_server counting (some no_protocols) (codes "a") steps 0)
listen_and_serve-IsServed_example =
    listen_and_serve-IsServed toy_exchange_laws toy_server counting (some no_protocols) (codes "a")
      3 steps 0 refl (omega arith)

-- The numbers are given out in the order of the handshakes, and the first client's session is gone.
abbrev number_of : Option Session → ℕ
number_of none = 0
number_of (some sess) = sess.id

steps_run :
    let r = serve_steps toy_server steps (started toy_server) in
    number_of (lookup 1 r.sessions.sessions)
      ∷ number_of (lookup 2 r.sessions.sessions)
      ∷ r.accepted
      ∷ []
    ≡ 1 ∷ 0 ∷ 2 ∷ []
unfolding serve_steps serve_step negotiate_server serve read_full shared_secret derive_session_key
    get_u16 new_session lookup insert Store.set Store.delete Store.gc Dict.delete delete_if ◌-ℤ◌
steps_run = refl
