-- ===== src/Client/Lifecycle.antt =====
-- The states of a client between Dial and Close.
use hush_go.Base.{
  ℕ, Bool, true, false, Bytes, List, [], ◌∷◌, Outcome, ok, err, panics, out_of_fuel, ◌≡◌, ◌≢◌, refl,
  sym, ◌∙◌, Option, none, some,
}
use hush_go.Base.Int.{ℤ}
use hush_go.Tlv.Types.{Map}
use hush_go.Session.Crypto.{Aead}
use hush_go.Session.Handshake.{Exchange, ApiKey, negotiate_client}
use hush_go.Session.Store.{Session}
use hush_go.Client.{
  TransportMode, transport_quic, transport_tcp, Client, DialOption, with_tls_config, with_transport,
  apply_options, new_client, close,
}
use hush_go.Client.Dial.{dialed_quic, dialed_tcp, dial_quic, dial_tcp, dial_by_mode, dial}
use hush_go.Client.Do.{Peer, do_request}
use hush_go.Client.Keeping.{Keeps, do_by_mode-Keeps}

-- What a client is between two calls: dialed only with a session, and with no connection but the one
-- of its mode.
pub record IsClient (c : Client) : Type 0 where
  pub has_session : c.dialed ≡ true → c.sess ≢ none
  pub no_tcp_conn : c.mode ≡ transport_quic → c.tcp_conn ≡ none
  pub no_conn : c.mode ≡ transport_tcp → c.conn ≡ none

-- The clients that a program gets from Dial, and makes of them with Do and Close.
pub data Reached (aead : Aead) (x : Exchange) : Client → Type 0 where
  dialed :
      (opens : Bool) (priv : Option x.PrivateKey) (now : ℤ) (incoming : Bytes)
      (api_key : Option ApiKey) (opts : List DialOption)
      → (dial x opens priv now incoming api_key opts).result ≡ ok tt
      → Reached aead x (dial x opens priv now incoming api_key opts).client
  did :
      {c : Client} (random : Option Bytes) (now : ℤ) (opens : Bool) (peer : Peer) (opcode : ℕ)
      (payload : Option Map)
      → Reached aead x c
      → Reached aead x (do_request aead random now opens peer opcode payload c).0
  closed : {c : Client} → Reached aead x c → Reached aead x (close c).0

apply_options-IsClient :
    (opts : List DialOption) (c : Client)
    → c.dialed ≡ false
    → c.tcp_conn ≡ none
    → c.conn ≡ none
    → let c' = apply_options opts c in (c'.dialed ≡ false) × (c'.tcp_conn ≡ none) × (c'.conn ≡ none)
apply_options-IsClient [] c d t q = (d, t, q)
apply_options-IsClient (with_tls_config ∷ os) c d t q = apply_options-IsClient os c d t q
apply_options-IsClient (with_transport mode ∷ os) c d t q =
    apply_options-IsClient os (record c { mode = mode }) d t q

-- A client that is not dialed and has no connection.
abbrev IsFresh : Client → Type 0
IsFresh c = (c.dialed ≡ false) × (c.tcp_conn ≡ none) × (c.conn ≡ none)

IsFresh-IsClient : (c : Client) → IsFresh c → IsClient c
IsFresh-IsClient c (d, t, q) = record {
  has_session = λ e. absurd (cc);
  no_tcp_conn = λ e. t;
  no_conn = λ e. q;
}

dialed_quic-IsClient :
    (c : Client) (negotiated : Outcome (Session × Bytes))
    → c.mode ≡ transport_quic
    → IsFresh c
    → IsClient (dialed_quic c negotiated).client
dialed_quic-IsClient c (ok (sess, rest)) m fresh = record {
  has_session = λ e. cc;
  no_tcp_conn = λ e. fresh.1;
  no_conn = λ e. absurd (cc);
}
dialed_quic-IsClient c (err e) m fresh = IsFresh-IsClient c fresh
dialed_quic-IsClient c panics m fresh = IsFresh-IsClient c fresh
dialed_quic-IsClient c out_of_fuel m fresh = IsFresh-IsClient c fresh

dialed_tcp-IsClient :
    (c : Client) (hello : Bytes) (negotiated : Outcome (Session × Bytes))
    → c.mode ≡ transport_tcp
    → IsFresh c
    → IsClient (dialed_tcp c hello negotiated).client
dialed_tcp-IsClient c hello (ok (sess, rest)) m fresh = record {
  has_session = λ e. cc;
  no_tcp_conn = λ e. absurd (cc);
  no_conn = λ e. fresh.2;
}
dialed_tcp-IsClient c hello (err e) m fresh = IsFresh-IsClient c fresh
dialed_tcp-IsClient c hello panics m fresh = IsFresh-IsClient c fresh
dialed_tcp-IsClient c hello out_of_fuel m fresh = IsFresh-IsClient c fresh

dial_quic-IsClient :
    (x : Exchange) (opens : Bool) (priv : Option x.PrivateKey) (now : ℤ) (incoming : Bytes)
    (c : Client)
    → c.mode ≡ transport_quic
    → IsFresh c
    → IsClient (dial_quic x opens priv now incoming c).client
unfolding dial_quic
dial_quic-IsClient x false priv now incoming c m fresh = IsFresh-IsClient c fresh
dial_quic-IsClient x true none now incoming c m fresh = IsFresh-IsClient c fresh
dial_quic-IsClient x true (some priv) now incoming c m fresh =
    dialed_quic-IsClient c (negotiate_client x c.api_key priv now incoming).1 m fresh

dial_tcp-IsClient :
    (x : Exchange) (priv : Option x.PrivateKey) (now : ℤ) (incoming : Bytes) (c : Client)
    → c.mode ≡ transport_tcp
    → IsFresh c
    → IsClient (dial_tcp x priv now incoming c).client
unfolding dial_tcp
dial_tcp-IsClient x none now incoming c m fresh = IsFresh-IsClient c fresh
dial_tcp-IsClient x (some priv) now incoming c m fresh =
    let (hello, negotiated) = negotiate_client x c.api_key priv now incoming in
    dialed_tcp-IsClient c hello negotiated m fresh

dial_by_mode-IsClient :
    (x : Exchange) (mode : TransportMode) (opens : Bool) (priv : Option x.PrivateKey) (now : ℤ)
    (incoming : Bytes) (c : Client)
    → c.mode ≡ mode
    → IsFresh c
    → IsClient (dial_by_mode x mode opens priv now incoming c).client
dial_by_mode-IsClient x transport_tcp opens priv now incoming c =
    dial_tcp-IsClient x priv now incoming c
dial_by_mode-IsClient x transport_quic opens priv now incoming c =
    dial_quic-IsClient x opens priv now incoming c

Keeps-IsClient : (c c' : Client) → Keeps c c' → IsClient c → IsClient c'
Keeps-IsClient c c' k h = record {
  has_session = λ e. k.keeps_session (h.has_session (sym k.same_dialed ∙ e));
  no_tcp_conn = λ e. k.opens_nothing (h.no_tcp_conn (sym k.same_mode ∙ e));
  no_conn = λ e. k.same_conn ∙ h.no_conn (sym k.same_mode ∙ e);
}

close-IsClient : (c : Client) → IsClient (close c).0
unfolding close
close-IsClient c = IsFresh-IsClient (close c).0 (refl, refl, refl)

dial-IsClient :
    (x : Exchange) (opens : Bool) (priv : Option x.PrivateKey) (now : ℤ) (incoming : Bytes)
    (api_key : Option ApiKey) (opts : List DialOption)
    → IsClient (dial x opens priv now incoming api_key opts).client
unfolding dial new_client
dial-IsClient x opens priv now incoming api_key opts =
    let c = new_client api_key opts in
    dial_by_mode-IsClient x c.mode opens priv now incoming c refl
      (apply_options-IsClient opts _ refl refl refl)

-- Every client that Dial returned without an error, and that any Do and Close followed, has a session
-- while it is dialed, so that Do never meets a nil session, and has no connection of the other mode.
pub Reached-IsClient : (aead : Aead) (x : Exchange) (c : Client) → Reached aead x c → IsClient c
unfolding do_request
Reached-IsClient aead x c (dialed opens priv now incoming api_key opts done) =
    dial-IsClient x opens priv now incoming api_key opts
Reached-IsClient aead x c (did {c = c'} random now opens peer opcode payload r) =
    Keeps-IsClient c' (do_request aead random now opens peer opcode payload c').0
      (do_by_mode-Keeps aead c'.mode random now opens peer opcode payload c')
      (Reached-IsClient aead x c' r)
Reached-IsClient aead x c (closed {c = c'} r) = close-IsClient c'
