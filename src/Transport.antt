-- ===== src/Transport.antt =====
-- transport/dial.go and transport/tcp.go: how connections and listeners are opened. The calls of net, tls
-- and quic-go are the fields of a Network over some state; sockets, connections and listeners are numbers.
pub mod Sockets
mod Tests
use hush_go.Base.{
  ℕ, ◌/◌, Bool, true, false, Bytes, List, [], ◌∷◌, length, Outcome, ok, err, panics, ◌==◌,
  if◌then◌else◌, Option, none, some,
}
use hush_go.Base.{
  Error, dial_failed, handshake_failed, resolve_failed, listen_failed, no_tls_config,
}
use hush_go.Base.Text.{codes}

-- What the package reads of a *tls.Config; Clone copies it.
pub record TlsConfig : Type 0 where
  pub next_protos : List Bytes

-- DefaultALPN
abbrev pub default_alpn : Bytes
default_alpn = codes "hush/1"

-- The calls of other packages: `none` is an error.
pub record Network (S : Type 0) : Type 0 where
  pub resolve_udp : Bytes → S → Option Bytes
  pub listen_udp : Bytes → S → Option ℕ × S
  pub quic_listen : ℕ → TlsConfig → S → Option ℕ × S
  pub quic_dial : Bytes → TlsConfig → S → Option ℕ × S
  pub tcp_dial : Bytes → S → Option ℕ × S
  pub tls_handshake : ℕ → TlsConfig → S → Bool × S
  pub tls_listen : Bytes → TlsConfig → S → Option ℕ × S
  pub close : ℕ → S → S

-- The default for a config without protocols.
unfoldable pub with_default_alpn : TlsConfig → TlsConfig
with_default_alpn conf =
    if length conf.next_protos == 0 then record conf { next_protos = default_alpn ∷ [] } else conf

-- A nil config where one is made for it.
abbrev pub or_empty_config : Option TlsConfig → TlsConfig
or_empty_config none = record { next_protos = [] }
or_empty_config (some conf) = conf

abbrev pub opened : {S : Type 0} → Error → Option ℕ × S → Outcome ℕ × S
opened e (none, s) = (err e, s)
opened e (some c, s) = (ok c, s)

module _ {S : Type 0} (net : Network S) where
  -- Dial
  unfoldable pub dial : Bytes → Option TlsConfig → S → Outcome ℕ × S
  dial addr conf s =
      opened dial_failed (net.quic_dial addr (with_default_alpn (or_empty_config conf)) s)

  abbrev pub listen_on : Option TlsConfig → Option ℕ × S → Outcome ℕ × S
  listen_on conf (none, s) = (err listen_failed, s)
  listen_on none (some udp, s) = (panics, s)
  listen_on (some conf) (some udp, s) =
      opened listen_failed (net.quic_listen udp (with_default_alpn conf) s)

  abbrev pub listen_at : Option TlsConfig → S → Option Bytes → Outcome ℕ × S
  listen_at conf s none = (err resolve_failed, s)
  listen_at conf s (some udp_addr) = listen_on conf (net.listen_udp udp_addr s)

  -- Listen; Clone of a nil config is nil, and its NextProtos panics.
  unfoldable pub listen : Bytes → Option TlsConfig → S → Outcome ℕ × S
  listen addr conf s = listen_at conf s (net.resolve_udp addr s)

  abbrev pub shake_hands : ℕ → Bool × S → Outcome ℕ × S
  shake_hands conn (true, s) = (ok conn, s)
  shake_hands conn (false, s) = (err handshake_failed, net.close conn s)

  abbrev pub over_tcp : TlsConfig → Option ℕ × S → Outcome ℕ × S
  over_tcp conf (none, s) = (err dial_failed, s)
  over_tcp conf (some conn, s) = shake_hands conn (net.tls_handshake conn conf s)

  -- DialTCP
  unfoldable pub dial_tcp : Bytes → Option TlsConfig → S → Outcome ℕ × S
  dial_tcp addr conf s = over_tcp (with_default_alpn (or_empty_config conf)) (net.tcp_dial addr s)

  -- ListenTCP
  unfoldable pub listen_tcp : Bytes → Option TlsConfig → S → Outcome ℕ × S
  listen_tcp addr none s = (err no_tls_config, s)
  listen_tcp addr (some conf) s =
      opened listen_failed (net.tls_listen addr (with_default_alpn conf) s)
