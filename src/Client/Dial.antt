-- ===== src/Client/Dial.antt =====
-- client/client.go: Dial, with dialQUIC and dialTCP, behind the connection.
use hush_go.Base.{
  Bool, true, false, Bytes, List, [], ◌∷◌, ◌++◌, Outcome, ok, err, panics, out_of_fuel, Option,
  none, some,
}
use hush_go.Base.{Error, no_stream, no_randomness}
use hush_go.Base.Int.{ℤ}
use hush_go.Session.Handshake.{Exchange, ApiKey, negotiate_client}
use hush_go.Session.Store.{Session}
use hush_go.Client.{
  TransportMode, transport_quic, transport_tcp, Client, DialOption, with_transport, new_client,
}

-- What a dial comes to: the client, the error if there is one, and whether a connection that was
-- made is still open.
pub record Dialling : Type 0 where
  pub client : Client
  pub result : Outcome (Unit {0})
  pub left_open : Bool

abbrev dial_failed : Client → Error → Dialling
dial_failed c e = record { client = c; result = err e; left_open = false }

-- The end of dialQUIC and of dialTCP, by what NegotiateClient gave. The bytes behind the handshake
-- stay to be read on a TCP connection.
abbrev pub dialed_quic : Client → Outcome (Session × Bytes) → Dialling
dialed_quic c (ok (sess, rest)) = record {
  client = record c { conn = some tt; sess = some sess; dialed = true };
  result = ok tt;
  left_open = true;
}
dialed_quic c (err e) = dial_failed c e
dialed_quic c panics = record { client = c; result = panics; left_open = true }
dialed_quic c out_of_fuel = record { client = c; result = out_of_fuel; left_open = true }

abbrev pub dialed_tcp : Client → Bytes → Outcome (Session × Bytes) → Dialling
dialed_tcp c hello (ok (sess, rest)) = record {
  client = record c {
    tcp_conn = some (record { incoming = rest; written = hello; closed = false });
    sess = some sess;
    dialed = true;
  };
  result = ok tt;
  left_open = true;
}
dialed_tcp c hello (err e) = dial_failed c e
dialed_tcp c hello panics = record { client = c; result = panics; left_open = true }
dialed_tcp c hello out_of_fuel = record { client = c; result = out_of_fuel; left_open = true }

-- dialQUIC on a connection: `opens` says whether OpenStreamSync succeeds, `priv` is what
-- GenerateKeyPair gives, and `incoming` the bytes of the server.
unfoldable pub dial_quic :
    (x : Exchange) → Bool → Option x.PrivateKey → ℤ → Bytes → Client → Dialling
dial_quic x false priv now incoming c = dial_failed c no_stream
dial_quic x true none now incoming c = dial_failed c no_randomness
dial_quic x true (some priv) now incoming c =
    dialed_quic c (negotiate_client x c.api_key priv now incoming).1

-- dialTCP on a connection
unfoldable pub dial_tcp : (x : Exchange) → Option x.PrivateKey → ℤ → Bytes → Client → Dialling
dial_tcp x none now incoming c = dial_failed c no_randomness
dial_tcp x (some priv) now incoming c =
    let (hello, negotiated) = negotiate_client x c.api_key priv now incoming in
    dialed_tcp c hello negotiated

abbrev pub dial_by_mode :
    (x : Exchange) → TransportMode → Bool → Option x.PrivateKey → ℤ → Bytes → Client → Dialling
dial_by_mode x transport_tcp opens priv now incoming c = dial_tcp x priv now incoming c
dial_by_mode x transport_quic opens priv now incoming c = dial_quic x opens priv now incoming c

-- Dial and DialTCP behind the connection; Dial returns the client only if `result` is no error.
unfoldable pub dial :
    (x : Exchange)
    → Bool
    → Option x.PrivateKey
    → ℤ
    → Bytes
    → Option ApiKey
    → List DialOption
    → Dialling
dial x opens priv now incoming api_key opts =
    let c = new_client api_key opts in dial_by_mode x c.mode opens priv now incoming c

unfoldable pub dial_with_tcp :
    (x : Exchange)
    → Bool
    → Option x.PrivateKey
    → ℤ
    → Bytes
    → Option ApiKey
    → List DialOption
    → Dialling
dial_with_tcp x opens priv now incoming api_key opts =
    dial x opens priv now incoming api_key (opts ++ with_transport transport_tcp ∷ [])
