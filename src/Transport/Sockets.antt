-- ===== src/Transport/Sockets.antt =====
-- Which sockets the calls of the package leave open.
use hush_go.Base.{
  ℕ, Bool, true, false, Error, Bytes, List, ◌∷◌, Outcome, ok, ◌≡◌, refl, ◌∙◌, Option, none, some,
}
use hush_go.Transport.{
  TlsConfig, Network, with_default_alpn, or_empty_config, opened, dial, listen_on, listen_at,
  listen, shake_hands, over_tcp, dial_tcp, listen_tcp,
}

-- A call that opens one socket, or fails and opens none.
abbrev pub Opens : {S : Type 0} → (S → List ℕ) → List ℕ → Option ℕ × S → Type 0
Opens sockets before (none, s) = sockets s ≡ before
Opens sockets before (some c, s) = sockets s ≡ c ∷ before

-- The sockets open in a state, the last one in front. A QUIC listener runs on the socket that it is
-- given, a handshake opens and closes nothing, and Close closes the socket.
pub record HasSockets {S : Type 0} (net : Network S) : Type 0 where
  pub sockets : S → List ℕ
  pub udp : (addr : Bytes) (s : S) → Opens sockets (sockets s) (net.listen_udp addr s)
  pub quic :
      (addr : Bytes) (conf : TlsConfig) (s : S)
      → Opens sockets (sockets s) (net.quic_dial addr conf s)
  pub tcp : (addr : Bytes) (s : S) → Opens sockets (sockets s) (net.tcp_dial addr s)
  pub tls :
      (addr : Bytes) (conf : TlsConfig) (s : S)
      → Opens sockets (sockets s) (net.tls_listen addr conf s)
  pub listener :
      (c : ℕ) (conf : TlsConfig) (s : S) → sockets (net.quic_listen c conf s).1 ≡ sockets s
  pub handshake :
      (c : ℕ) (conf : TlsConfig) (s : S) → sockets (net.tls_handshake c conf s).1 ≡ sockets s
  pub closed :
      (c : ℕ) (before : List ℕ) (s : S) → sockets s ≡ c ∷ before → sockets (net.close c s) ≡ before

-- A connection or listener has its socket open, in front of those that were; an error leaves those.
abbrev pub Leaves : {S : Type 0} → (S → List ℕ) → List ℕ → Outcome ℕ × S → Type 0
Leaves sockets before (ok c, s) = sockets s ≡ c ∷ before
Leaves sockets before (_, s) = sockets s ≡ before

-- What Listen leaves, by what ResolveUDPAddr and ListenUDP gave.
abbrev pub LeavesUdp : {S : Type 0} → (S → List ℕ) → List ℕ → Option ℕ × S → S → Type 0
LeavesUdp sockets before (none, s') s = sockets s ≡ before
LeavesUdp sockets before (some udp, s') s = sockets s ≡ udp ∷ before

abbrev pub LeavesResolved : {S : Type 0} → Network S → (S → List ℕ) → S → Option Bytes → S → Type 0
LeavesResolved net sockets s none s' = sockets s' ≡ sockets s
LeavesResolved net sockets s (some addr) s' =
    LeavesUdp sockets (sockets s) (net.listen_udp addr s) s'

module _ {S : Type 0} (net : Network S) (h : HasSockets net) where
  opened-Leaves :
      (e : Error) (before : List ℕ) (r : Option ℕ × S)
      → Opens h.sockets before r
      → Leaves h.sockets before (opened e r)
  opened-Leaves e before (none, s) k = k
  opened-Leaves e before (some c, s) k = k

  opened_sockets : (e : Error) (r : Option ℕ × S) → h.sockets (opened e r).1 ≡ h.sockets r.1
  opened_sockets e (none, s) = refl
  opened_sockets e (some c, s) = refl

  shake_hands-Leaves :
      (c : ℕ) (before : List ℕ) (r : Bool × S)
      → h.sockets r.1 ≡ c ∷ before
      → Leaves h.sockets before (shake_hands net c r)
  shake_hands-Leaves c before (true, s) k = k
  shake_hands-Leaves c before (false, s) k = h.closed c before s k

  over_tcp-Leaves :
      (conf : TlsConfig) (before : List ℕ) (r : Option ℕ × S)
      → Opens h.sockets before r
      → Leaves h.sockets before (over_tcp net conf r)
  over_tcp-Leaves conf before (none, s) k = k
  over_tcp-Leaves conf before (some c, s) k =
      shake_hands-Leaves c before (net.tls_handshake c conf s) (h.handshake c conf s ∙ k)

  listen_on-LeavesUdp :
      (conf : Option TlsConfig) (before : List ℕ) (r : Option ℕ × S)
      → Opens h.sockets before r
      → LeavesUdp h.sockets before r (listen_on net conf r).1
  listen_on-LeavesUdp conf before (none, s) k = k
  listen_on-LeavesUdp none before (some udp, s) k = k
  listen_on-LeavesUdp (some conf) before (some udp, s) k =
      opened_sockets _ (net.quic_listen udp (with_default_alpn conf) s)
      ∙ h.listener udp (with_default_alpn conf) s
      ∙ k

  listen_at-LeavesResolved :
      (conf : Option TlsConfig) (s : S) (o : Option Bytes)
      → LeavesResolved net h.sockets s o (listen_at net conf s o).1
  listen_at-LeavesResolved conf s none = refl
  listen_at-LeavesResolved conf s (some addr) =
      listen_on-LeavesUdp conf (h.sockets s) (net.listen_udp addr s) (h.udp addr s)

  listen_tcp-Leaves :
      (addr : Bytes) (conf : Option TlsConfig) (s : S)
      → Leaves h.sockets (h.sockets s) (listen_tcp net addr conf s)
  unfolding listen_tcp
  listen_tcp-Leaves addr none s = refl
  listen_tcp-Leaves addr (some conf) s =
      opened-Leaves _ (h.sockets s) _ (h.tls addr (with_default_alpn conf) s)

  -- Where a call of the system opens one socket or fails: Dial, DialTCP and ListenTCP return with the
  -- socket of their connection or listener open in front of those that were, or with an error and
  -- exactly the sockets that were. Listen leaves the sockets that were if the address does not
  -- resolve or ListenUDP fails; otherwise the UDP socket stays open, whether Listen returns a
  -- listener, returns the error of quic.Listen or panics on a nil configuration.
  pub sockets_left :
      (addr : Bytes) (conf : Option TlsConfig) (s : S)
      → Leaves h.sockets (h.sockets s) (dial net addr conf s)
        × Leaves h.sockets (h.sockets s) (dial_tcp net addr conf s)
        × Leaves h.sockets (h.sockets s) (listen_tcp net addr conf s)
        × LeavesResolved net h.sockets s (net.resolve_udp addr s) (listen net addr conf s).1
  unfolding dial dial_tcp listen
  sockets_left addr conf s = (
    opened-Leaves _ (h.sockets s) _ (h.quic addr (with_default_alpn (or_empty_config conf)) s),
    over_tcp-Leaves (with_default_alpn (or_empty_config conf)) (h.sockets s) (net.tcp_dial addr s)
        (h.tcp addr s),
    listen_tcp-Leaves addr conf s,
    listen_at-LeavesResolved conf s (net.resolve_udp addr s),
  )
