-- ===== src/Client/Tests.antt =====
-- The theorems on clients at concrete inputs.
use hush_go.Base.{true, false, Bytes, [], ◌∷◌, ◌++◌, ok, err, ◌≡◌, refl, none, some}
use hush_go.Base.{connection_closed}
use hush_go.Base.Int.{pos}
use hush_go.Base.Dict.{number_key}
use hush_go.Session.Store.{touch}
use hush_go.Session.ToyAead.{toy_aead, toy_laws}
use hush_go.Session.ToyExchange.{toy_exchange}
use hush_go.Session.Handshake.{negotiate_client, client_finish, shared_secret, derive_session_key}
use hush_go.Session.Crypto.{encrypt}
use hush_go.Base.BigEndian.{put_u16}
use hush_go.Base.Reader.{read_full}
use hush_go.Frame.Framing.{write}
use hush_go.Frame.Requests.{write_request, encode_request}
use hush_go.Frame.Sealing.{IsKey, plaintext, seal_frame}
use hush_go.Frame.Responses.{response_on_wire}
use hush_go.Server.Toy.{
  toy_server, toy_key, toy_nonce, toy_session, known_request, known_request-IsRequest,
  toy_server-IsFitting,
}
use hush_go.Client.{Client, transport_quic, transport_tcp, with_transport, new_client, close}
use hush_go.Client.Dial.{dial, dial_tcp}
use hush_go.Client.Do.{do_quic, do_request, do_tcp, exchange_tcp, deliver}
use hush_go.Client.Roundtrip.{quic_peer, answer_of_server, do_quic-quic_peer}
use hush_go.Client.Lifecycle.{IsClient, dialed, did, closed, Reached-IsClient}
use hush_go.Client.Failures.{Call, do_call, do_all, all_errors, lost_for_good}

abbrev quic_client : Client
quic_client = record {
  api_key = none;
  mode = transport_quic;
  conn = some tt;
  tcp_conn = none;
  sess = some toy_session;
  seq = 41;
  dialed = true;
}

toy_key-IsKey : IsKey toy_key
toy_key-IsKey = refl

do_quic-quic_peer_example :
    let (seq, resp) =
      answer_of_server toy_aead toy_server (pos 5) [] toy_session [] 0 42 known_request in
    do_quic toy_aead
      (some toy_nonce)
      (pos 5)
      true
      (quic_peer toy_aead toy_server toy_nonce toy_nonce (pos 5) [] toy_session [] 0)
      0x0401
      none
      quic_client
    ≡ (
      record quic_client { sess = some (touch (pos 5) toy_session); seq = 42 },
      ok (response_on_wire seq resp),
    )
do_quic-quic_peer_example =
    do_quic-quic_peer toy_aead toy_laws toy_server (pos 5) (pos 5) [] toy_session toy_session []
      toy_nonce toy_nonce toy_nonce 0 0x0401 none quic_client toy_key-IsKey refl refl refl refl
      toy_server-IsFitting refl refl refl known_request-IsRequest

-- A TCP client, and a Do whose request is not delivered.
abbrev tcp_client : Client
tcp_client = record quic_client {
  mode = transport_tcp;
  conn = none;
  tcp_conn = some (record { incoming = []; written = []; closed = false });
}

abbrev undelivered : Call
undelivered = record {
  random = some toy_nonce;
  now = pos 5;
  opens = true;
  peer = λ bytes. none;
  opcode = 0x0401;
  payload = none;
}

undelivered_fails : (do_call toy_aead undelivered tcp_client).1 ≡ err connection_closed
unfolding do_request do_tcp exchange_tcp deliver write_request encode_request plaintext seal_frame
    encrypt write put_u16
undelivered_fails = refl

lost_for_good_example :
    let c = (do_call toy_aead undelivered tcp_client).0 in
    do_all toy_aead (undelivered ∷ []) c
    ≡ (c, all_errors toy_aead connection_closed (undelivered ∷ []))
lost_for_good_example =
    lost_for_good toy_aead tcp_client undelivered connection_closed (undelivered ∷ []) refl refl
      undelivered_fails

-- The client of a handshake with the toy server's public key and the number 7.
abbrev server_hello : Bytes
server_hello = toy_exchange.public_key 4 ++ (0 ∷ 0 ∷ 0 ∷ 0 ∷ 0 ∷ 0 ∷ 0 ∷ 7 ∷ [])

dials :
    (dial toy_exchange true
      (some 3)
      (pos 5)
      server_hello
      none
      (with_transport transport_tcp ∷ [])).result
    ≡ ok tt
unfolding dial new_client dial_tcp negotiate_client client_finish read_full shared_secret
    derive_session_key
dials = refl

Reached-IsClient_example :
    let c =
      (dial toy_exchange true
        (some 3)
        (pos 5)
        server_hello
        none
        (with_transport transport_tcp ∷ [])).client in
    IsClient
      (close (do_request toy_aead (some toy_nonce) (pos 6) true (λ bytes. none) 0x0401 none c).0).0
Reached-IsClient_example =
    let d =
      dial toy_exchange true (some 3) (pos 5) server_hello none
        (with_transport transport_tcp ∷ []) in
    Reached-IsClient toy_aead toy_exchange
      (close
        (do_request toy_aead (some toy_nonce) (pos 6) true (λ bytes. none) 0x0401 none
          d.client).0).0
      (closed (
        did (some toy_nonce) (pos 6) true (λ bytes. none) 0x0401 none
          (dialed true (some 3) (pos 5) server_hello none (with_transport transport_tcp ∷ [])
            dials)))
