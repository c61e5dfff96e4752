-- ===== src/Client/Keeping.antt =====
-- What Do leaves of a client, on every branch.
use hush_go.Base.{
  ℕ, Bool, true, false, Bytes, Outcome, ok, err, panics, out_of_fuel, ◌≡◌, ◌≢◌, refl, Option, none,
  some, Bool-cases, inl, inr,
}
use hush_go.Base.Int.{ℤ}
use hush_go.Tlv.Types.{Map}
use hush_go.Session.Crypto.{Aead}
use hush_go.Session.Store.{Session, touch}
use hush_go.Frame.Responses.{Response}
use hush_go.Server.Handlers.{Stream}
use hush_go.Client.{TransportMode, transport_quic, transport_tcp, Client}
use hush_go.Client.Do.{
  Peer, next_seq, exchange_quic, do_quic, settle, exchange_tcp, request_quic, request_tcp, arrive,
  deliver, do_tcp, do_by_mode,
}

-- What Do leaves of a client.
pub record Keeps (c c' : Client) : Type 0 where
  pub same_dialed : c'.dialed ≡ c.dialed
  pub same_mode : c'.mode ≡ c.mode
  pub same_conn : c'.conn ≡ c.conn
  pub keeps_session : c.sess ≢ none → c'.sess ≢ none
  pub opens_nothing : c.tcp_conn ≡ none → c'.tcp_conn ≡ none

Keeps-refl : (c : Client) → Keeps c c
Keeps-refl c = record {
  same_dialed = refl;
  same_mode = refl;
  same_conn = refl;
  keeps_session = λ h. h;
  opens_nothing = λ h. h;
}

-- A client that was used, with its connection gone or not.
used-Keeps :
    (c : Client) (sess : Session) (seq : ℕ) (conn : Option Stream)
    → (c.tcp_conn ≡ none → conn ≡ none)
    → Keeps c (record c { sess = some sess; seq = seq; tcp_conn = conn })
used-Keeps c sess seq conn h = record {
  same_dialed = refl;
  same_mode = refl;
  same_conn = refl;
  keeps_session = λ _. cc;
  opens_nothing = h;
}

module _ (aead : Aead) where
  request_quic-Keeps :
      (random : Option Bytes) (now : ℤ) (opens : Bool) (peer : Peer) (opcode : ℕ)
      (payload : Option Map) (c : Client) (conn : Option (Unit {0})) (sess : Option Session)
      → Keeps c (request_quic aead random now opens peer opcode payload c conn sess).0
  unfolding exchange_quic
  request_quic-Keeps random now opens peer opcode payload c none sess = Keeps-refl c
  request_quic-Keeps random now opens peer opcode payload c (some _) none = Keeps-refl c
  request_quic-Keeps random now true peer opcode payload c (some _) (some sess) =
      used-Keeps c (touch now sess) (next_seq c) c.tcp_conn (λ h. h)
  request_quic-Keeps random now false peer opcode payload c (some _) (some sess) =
      used-Keeps c (touch now sess) c.seq c.tcp_conn (λ h. h)

  settle-Keeps :
      (c : Client) (sess : Session) (seq : ℕ) (stream : Stream) (bytes : Bytes)
      (got : Outcome (Response × Bytes))
      → c.tcp_conn ≢ none
      → Keeps c (settle aead (record c { sess = some sess; seq = seq }) stream bytes got).0
  unfolding settle
  settle-Keeps c sess seq stream bytes (ok (resp, rest)) h =
      used-Keeps c sess seq _ (λ e. absurd (h e))
  settle-Keeps c sess seq stream bytes (err e) h = used-Keeps c sess seq none (λ e. refl)
  settle-Keeps c sess seq stream bytes panics h = used-Keeps c sess seq c.tcp_conn (λ e. e)
  settle-Keeps c sess seq stream bytes out_of_fuel h = used-Keeps c sess seq c.tcp_conn (λ e. e)

  arrive-Keeps :
      (c : Client) (sess used : Session) (seq : ℕ) (stream : Stream) (bytes : Bytes)
      (incoming : Option Bytes)
      → c.tcp_conn ≢ none
      → Keeps c
          (arrive aead (record c { sess = some used; seq = seq }) stream sess bytes incoming).0
  arrive-Keeps c sess used seq stream bytes none h = used-Keeps c used seq none (λ e. refl)
  arrive-Keeps c sess used seq stream bytes (some incoming) h =
      settle-Keeps c used seq stream bytes _ h

  deliver-Keeps :
      (c : Client) (sess used : Session) (seq : ℕ) (stream : Stream) (peer : Peer)
      (bytes : Outcome Bytes)
      → c.tcp_conn ≢ none
      → Keeps c (deliver aead (record c { sess = some used; seq = seq }) stream sess peer bytes).0
  unfolding deliver
  deliver-Keeps c sess used seq stream peer (ok bytes) h =
      arrive-Keeps c sess used seq stream bytes (peer bytes) h
  deliver-Keeps c sess used seq stream peer (err e) h = used-Keeps c used seq none (λ e. refl)
  deliver-Keeps c sess used seq stream peer panics h = used-Keeps c used seq c.tcp_conn (λ e. e)
  deliver-Keeps c sess used seq stream peer out_of_fuel h =
      used-Keeps c used seq c.tcp_conn (λ e. e)

  request_tcp-Keeps :
      (random : Option Bytes) (now : ℤ) (peer : Peer) (opcode : ℕ) (payload : Option Map)
      (c : Client) (conn : Option Stream) (sess : Option Session)
      → c.tcp_conn ≡ conn
      → Keeps c (request_tcp aead random now peer opcode payload c conn sess).0
  unfolding exchange_tcp
  request_tcp-Keeps random now peer opcode payload c none sess h = Keeps-refl c
  request_tcp-Keeps random now peer opcode payload c (some stream) none h = Keeps-refl c
  request_tcp-Keeps random now peer opcode payload c (some stream) (some sess) h =
      deliver-Keeps c sess (touch now sess) (next_seq c) stream peer _ (λ e. absurd (cc))

  pub do_by_mode-Keeps :
      (mode : TransportMode) (random : Option Bytes) (now : ℤ) (opens : Bool) (peer : Peer)
      (opcode : ℕ) (payload : Option Map) (c : Client)
      → Keeps c (do_by_mode aead mode random now opens peer opcode payload c).0
  unfolding do_tcp do_quic
  do_by_mode-Keeps transport_tcp random now opens peer opcode payload c =
      elim (Bool-cases c.dialed) [
        | inl e ↦ simp e (request_tcp-Keeps random now peer opcode payload c c.tcp_conn c.sess refl)
        | inr e ↦ simp e (Keeps-refl c)
      ]
  do_by_mode-Keeps transport_quic random now opens peer opcode payload c =
      elim (Bool-cases c.dialed) [
        | inl e ↦ simp e (request_quic-Keeps random now opens peer opcode payload c c.conn c.sess)
        | inr e ↦ simp e (Keeps-refl c)
      ]
