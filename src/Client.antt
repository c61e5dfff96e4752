-- ===== src/Client.antt =====
-- client/client.go: the client, its options, Close and SessionID; Client/Dial and Client/Do have Dial
-- and Do. A QUIC stream or a TCP connection is a Stream; what quic-go, crypto/tls and the other end
-- do is an argument of a call: whether it succeeds, and the bytes that arrive, as a function of the
-- bytes written. Each method is one step: a second Do between the two critical sections of doTCP is
-- not modelled.
pub mod Dial
pub mod Do
pub mod Keeping
pub mod Lifecycle
pub mod Failures
pub mod Roundtrip
mod Tests
use hush_go.Base.{
  ℕ, ◌+◌, ◌/◌, Bool, false, ◌||◌, Bytes, List, [], ◌∷◌, ◌++◌, length, take, ◌==◌, if◌then◌else◌,
  Option, none, some, str_eq,
}
use hush_go.Base.Int.{ℤ}
use hush_go.Base.Text.{codes}
use hush_go.Tlv.Types.{Map}
use hush_go.Session.Crypto.{Aead}
use hush_go.Session.Handshake.{Exchange, ApiKey, negotiate_client}
use hush_go.Session.Store.{Session, touch}
use hush_go.Frame.Requests.{Request, write_request}
use hush_go.Frame.Responses.{Response, read_response}
use hush_go.Server.Handlers.{Stream}

-- TransportMode
pub data TransportMode : Type 0 where
  transport_quic transport_tcp : TransportMode

-- Client; a nil connection is `none`, and a QUIC connection has no state of its own here.
pub record Client : Type 0 where
  pub api_key : Option ApiKey
  pub mode : TransportMode
  pub conn : Option (Unit {0})
  pub tcp_conn : Option Stream
  pub sess : Option Session
  pub seq : ℕ
  pub dialed : Bool

-- An Option: WithTLSConfig, whose configuration is quic-go's and crypto/tls's, and WithTransport.
pub data DialOption : Type 0 where
  with_tls_config : DialOption
  with_transport : TransportMode → DialOption

abbrev apply_option : Client → DialOption → Client
apply_option c with_tls_config = c
apply_option c (with_transport mode) = record c { mode = mode }

abbrev pub apply_options : List DialOption → Client → Client
apply_options [] c = c
apply_options (o ∷ os) c = apply_options os (apply_option c o)

-- The client of Dial before it dials.
unfoldable pub new_client : Option ApiKey → List DialOption → Client
new_client api_key opts = apply_options opts (record {
  api_key = api_key;
  mode = transport_quic;
  conn = none;
  tcp_conn = none;
  sess = none;
  seq = 0;
  dialed = false;
})

abbrev has_prefix : Bytes → Bytes → Bool
has_prefix pre s = str_eq (take (length pre) s) pre

-- resolveHushAddr; `parse` is url.Parse with the host and the port of the URL.
unfoldable pub resolve_hush_addr : (Bytes → Option (Bytes × Bytes)) → Bytes → Bytes
resolve_hush_addr parse addr =
    if has_prefix (codes "hush://") addr || has_prefix (codes "tcps://") addr
    then elim (parse addr) [
      | none ↦ addr
      | some (host, port) ↦ if length port == 0 then host ++ codes ":443" else host
    ]
    else addr

-- Close, and the connections that it closes.
unfoldable pub close : Client → Client × Option (Unit {0}) × Option Stream
close c = (record c { conn = none; tcp_conn = none; dialed = false }, c.conn, c.tcp_conn)

-- SessionID
unfoldable pub session_id : Client → ℕ
session_id c = elim c.sess [ none ↦ 0 | some sess ↦ sess.id ]
