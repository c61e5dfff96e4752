-- ===== src/Transport/Tests.antt =====
-- The theorem on sockets at a concrete network, and runs.
use hush_go.Base.{
  ℕ, false, List, [], ◌∷◌, err, listen_failed, handshake_failed, ◌≡◌, refl, ap, Option, none, some,
}
use hush_go.Base.Text.{codes}
use hush_go.Transport.{TlsConfig, Network, dial, listen, dial_tcp, listen_tcp}
use hush_go.Transport.Sockets.{HasSockets, Leaves, LeavesResolved, sockets_left}

abbrev all_but_first : List ℕ → List ℕ
all_but_first [] = []
all_but_first (c ∷ cs) = cs

-- A system whose state is the list of its open sockets; QUIC listeners and handshakes fail.
abbrev refusing : Network (List ℕ)
refusing = record {
  resolve_udp = λ addr s. some addr;
  listen_udp = λ addr s. (some 7, 7 ∷ s);
  quic_listen = λ udp conf s. (none, s);
  quic_dial = λ addr conf s. (some 8, 8 ∷ s);
  tcp_dial = λ addr s. (some 9, 9 ∷ s);
  tls_handshake = λ c conf s. (false, s);
  tls_listen = λ addr conf s. (none, s);
  close = λ c s. all_but_first s;
}

abbrev refusing_sockets : HasSockets refusing
refusing_sockets = record {
  sockets = λ s. s;
  udp = λ addr s. refl;
  quic = λ addr conf s. refl;
  tcp = λ addr s. refl;
  tls = λ addr conf s. refl;
  listener = λ c conf s. refl;
  handshake = λ c conf s. refl;
  closed = λ c before s e. ap all_but_first e;
}

abbrev no_protocols : Option TlsConfig
no_protocols = some (record { next_protos = [] })

sockets_left_example :
    Leaves (λ s. s) (1 ∷ []) (dial refusing (codes "a") no_protocols (1 ∷ []))
    × Leaves (λ s. s) (1 ∷ []) (dial_tcp refusing (codes "a") no_protocols (1 ∷ []))
    × Leaves (λ s. s) (1 ∷ []) (listen_tcp refusing (codes "a") no_protocols (1 ∷ []))
    × LeavesResolved refusing
        (λ s. s)
        (1 ∷ [])
        (some (codes "a"))
        (listen refusing (codes "a") no_protocols (1 ∷ [])).1
sockets_left_example = sockets_left refusing refusing_sockets (codes "a") no_protocols (1 ∷ [])

-- Listen fails and leaves the UDP socket open; DialTCP closes its connection.
listen_leaks : listen refusing (codes "a") no_protocols [] ≡ (err listen_failed, 7 ∷ [])
unfolding listen
listen_leaks = refl

dial_tcp_closes : dial_tcp refusing (codes "a") no_protocols [] ≡ (err handshake_failed, [])
unfolding dial_tcp
dial_tcp_closes = refl
