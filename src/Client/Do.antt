-- ===== src/Client/Do.antt =====
-- client/client.go: Do, with doQUIC and doTCP.
use hush_go.Base.{◌>>=◌}
use hush_go.Base.{
  ℕ, ◌+◌, ◌^◌, ◌%◌, Bool, Bytes, ◌++◌, Outcome, ok, err, panics, out_of_fuel, if◌then◌else◌, Option,
  none, some,
}
use hush_go.Base.{Error, not_dialed, connection_closed, no_stream}
use hush_go.Base.Int.{ℤ}
use hush_go.Tlv.Types.{Map}
use hush_go.Session.Crypto.{Aead}
use hush_go.Session.Store.{Session, touch}
use hush_go.Frame.Requests.{Request, write_request}
use hush_go.Frame.Responses.{Response, read_response}
use hush_go.Server.Handlers.{Stream}
use hush_go.Client.{TransportMode, transport_quic, transport_tcp, Client}

-- What the other end and the network do with the bytes of a request: `none` if the write fails, and
-- else the bytes that arrive.
abbrev pub Peer : Type 0
Peer = Bytes → Option Bytes

-- c.seq.Add(1) on a uint32.
abbrev pub next_seq : Client → ℕ
next_seq c = (c.seq + 1) % 2 ^ 32

abbrev pub new_request : ℕ → Option Map → Request
new_request opcode payload = record { opcode = opcode; payload = payload }

abbrev arrived : Error → Option Bytes → Outcome Bytes
arrived e none = err e
arrived e (some bytes) = ok bytes

module _ (aead : Aead) where
  -- doQUIC behind the tests of the connection, on a new stream if OpenStreamSync gives one.
  unfoldable pub exchange_quic :
      Option Bytes → ℤ → Bool → Peer → ℕ → Option Map → Client → Session → Client × Outcome Response
  exchange_quic random now opens peer opcode payload c sess =
      let used = record c { sess = some (touch now sess) } in
      let seq = next_seq c in
      if opens
      then (
        record used { seq = seq },
        (do
          bytes ← write_request aead random sess.key seq (new_request opcode payload)
          incoming ← arrived connection_closed (peer bytes)
          (resp, rest) ← read_response aead sess.key incoming
          ok resp),
      )
      else (used, err no_stream)

  abbrev pub request_quic :
      Option Bytes
      → ℤ
      → Bool
      → Peer
      → ℕ
      → Option Map
      → Client
      → Option (Unit {0})
      → Option Session
      → Client × Outcome Response
  request_quic random now opens peer opcode payload c none sess = (c, err connection_closed)
  request_quic random now opens peer opcode payload c (some _) none = (c, panics)
  request_quic random now opens peer opcode payload c (some _) (some sess) =
      exchange_quic random now opens peer opcode payload c sess

  -- doQUIC; a nil session would panic.
  unfoldable pub do_quic :
      Option Bytes → ℤ → Bool → Peer → ℕ → Option Map → Client → Client × Outcome Response
  do_quic random now opens peer opcode payload c =
      if c.dialed
      then request_quic random now opens peer opcode payload c c.conn c.sess
      else (c, err not_dialed)

  -- The read of doTCP: after an error the connection is forgotten.
  unfoldable pub settle :
      Client → Stream → Bytes → Outcome (Response × Bytes) → Client × Outcome Response
  settle c stream bytes (ok (resp, rest)) = (
    record c {
      tcp_conn = some (record stream { incoming = rest; written = stream.written ++ bytes });
    },
    ok resp,
  )
  settle c stream bytes (err e) = (record c { tcp_conn = none }, err e)
  settle c stream bytes panics = (c, panics)
  settle c stream bytes out_of_fuel = (c, out_of_fuel)

  abbrev pub arrive : Client → Stream → Session → Bytes → Option Bytes → Client × Outcome Response
  arrive c stream sess bytes none = (record c { tcp_conn = none }, err connection_closed)
  arrive c stream sess bytes (some incoming) =
      settle c stream bytes (read_response aead sess.key (stream.incoming ++ incoming))

  -- The write of doTCP, by the bytes of the request, and the read behind it.
  unfoldable pub deliver :
      Client → Stream → Session → Peer → Outcome Bytes → Client × Outcome Response
  deliver c stream sess peer (ok bytes) = arrive c stream sess bytes (peer bytes)
  deliver c stream sess peer (err e) = (record c { tcp_conn = none }, err e)
  deliver c stream sess peer panics = (c, panics)
  deliver c stream sess peer out_of_fuel = (c, out_of_fuel)

  -- doTCP behind its tests
  unfoldable pub exchange_tcp :
      Option Bytes
      → ℤ
      → Peer
      → ℕ
      → Option Map
      → Client
      → Stream
      → Session
      → Client × Outcome Response
  exchange_tcp random now peer opcode payload c stream sess =
      let seq = next_seq c in
      deliver (record c { sess = some (touch now sess); seq = seq }) stream sess peer
        (write_request aead random sess.key seq (new_request opcode payload))

  abbrev pub request_tcp :
      Option Bytes
      → ℤ
      → Peer
      → ℕ
      → Option Map
      → Client
      → Option Stream
      → Option Session
      → Client × Outcome Response
  request_tcp random now peer opcode payload c none sess = (c, err connection_closed)
  request_tcp random now peer opcode payload c (some stream) none = (c, panics)
  request_tcp random now peer opcode payload c (some stream) (some sess) =
      exchange_tcp random now peer opcode payload c stream sess

  unfoldable pub do_tcp :
      Option Bytes → ℤ → Peer → ℕ → Option Map → Client → Client × Outcome Response
  do_tcp random now peer opcode payload c =
      if c.dialed
      then request_tcp random now peer opcode payload c c.tcp_conn c.sess
      else (c, err not_dialed)

  -- Do
  abbrev pub do_by_mode :
      TransportMode
      → Option Bytes
      → ℤ
      → Bool
      → Peer
      → ℕ
      → Option Map
      → Client
      → Client × Outcome Response
  do_by_mode transport_tcp random now opens peer opcode payload c =
      do_tcp random now peer opcode payload c
  do_by_mode transport_quic random now opens peer opcode payload c =
      do_quic random now opens peer opcode payload c

  unfoldable pub do_request :
      Option Bytes → ℤ → Bool → Peer → ℕ → Option Map → Client → Client × Outcome Response
  do_request random now opens peer opcode payload c =
      do_by_mode c.mode random now opens peer opcode payload c
