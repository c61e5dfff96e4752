-- ===== src/Client/Failures.antt =====
-- What Do returns once a connection is gone or the client is closed.
use hush_go.Base.{
  ℕ, Bool, true, false, Bytes, List, [], ◌∷◌, Outcome, ok, err, panics, out_of_fuel, ◌≡◌, refl, sym,
  subst, ◌∙◌, Option, none, some,
}
use hush_go.Client.Keeping.{do_by_mode-Keeps}
use hush_go.Base.{Error, not_dialed, connection_closed}
use hush_go.Base.Int.{ℤ}
use hush_go.Tlv.Types.{Map}
use hush_go.Session.Crypto.{Aead}
use hush_go.Session.Store.{Session}
use hush_go.Frame.Responses.{Response}
use hush_go.Server.Handlers.{Stream}
use hush_go.Client.{TransportMode, transport_quic, transport_tcp, Client, close}
use hush_go.Client.Do.{
  Peer, do_quic, settle, exchange_tcp, request_tcp, arrive, deliver, do_tcp, do_by_mode, do_request,
}

-- The arguments of one Do.
pub record Call : Type 0 where
  pub random : Option Bytes
  pub now : ℤ
  pub opens : Bool
  pub peer : Peer
  pub opcode : ℕ
  pub payload : Option Map

module _ (aead : Aead) where
  abbrev pub do_call : Call → Client → Client × Outcome Response
  do_call k c = do_request aead k.random k.now k.opens k.peer k.opcode k.payload c

  -- One Do after the other, and what each returned.
  abbrev pub do_all : List Call → Client → Client × List (Outcome Response)
  do_all [] c = (c, [])
  do_all (k ∷ ks) c = let (c', r) = do_call k c in let (c'', rs) = do_all ks c' in (c'', r ∷ rs)

  -- A client on which every Do fails with this error and does nothing.
  abbrev IsDead : Client → Error → Type 0
  IsDead c e = (k : Call) → do_call k c ≡ (c, err e)

  abbrev pub all_errors : Error → List Call → List (Outcome Response)
  all_errors e [] = []
  all_errors e (k ∷ ks) = err e ∷ all_errors e ks

  do_all-IsDead :
      (ks : List Call) (c : Client) (e : Error) → IsDead c e → do_all ks c ≡ (c, all_errors e ks)
  do_all-IsDead [] c e h = refl
  do_all-IsDead (k ∷ ks) c e h = rw (h k, do_all-IsDead ks c e h)

  undialed-IsDead : (c : Client) → c.dialed ≡ false → IsDead c not_dialed
  unfolding do_request do_tcp do_quic
  undialed-IsDead c h k = by_mode c.mode
    where
      by_mode :
          (m : TransportMode)
          → do_by_mode aead m k.random k.now k.opens k.peer k.opcode k.payload c
            ≡ (c, err not_dialed)
      by_mode transport_tcp = simp h
      by_mode transport_quic = simp h

  lost-IsDead :
      (c : Client)
      → c.mode ≡ transport_tcp
      → c.dialed ≡ true
      → c.tcp_conn ≡ none
      → IsDead c connection_closed
  unfolding do_request do_tcp
  lost-IsDead c m d t k = simp (m, d, t)

  -- After an error the connection is gone.
  abbrev Loses : Client × Outcome Response → Type 0
  Loses (c, r) = (e : Error) → r ≡ err e → c.tcp_conn ≡ none

  settle-Loses :
      (c : Client) (stream : Stream) (bytes : Bytes) (got : Outcome (Response × Bytes))
      → Loses (settle aead c stream bytes got)
  unfolding settle
  settle-Loses c stream bytes (ok (resp, rest)) e h = absurd (cc)
  settle-Loses c stream bytes (err e') e h = refl
  settle-Loses c stream bytes panics e h = absurd (cc)
  settle-Loses c stream bytes out_of_fuel e h = absurd (cc)

  arrive-Loses :
      (c : Client) (stream : Stream) (sess : Session) (bytes : Bytes) (incoming : Option Bytes)
      → Loses (arrive aead c stream sess bytes incoming)
  arrive-Loses c stream sess bytes none e h = refl
  arrive-Loses c stream sess bytes (some incoming) e h = settle-Loses c stream bytes _ e h

  deliver-Loses :
      (c : Client) (stream : Stream) (sess : Session) (peer : Peer) (bytes : Outcome Bytes)
      → Loses (deliver aead c stream sess peer bytes)
  unfolding deliver
  deliver-Loses c stream sess peer (ok bytes) e h =
      arrive-Loses c stream sess bytes (peer bytes) e h
  deliver-Loses c stream sess peer (err e') e h = refl
  deliver-Loses c stream sess peer panics e h = absurd (cc)
  deliver-Loses c stream sess peer out_of_fuel e h = absurd (cc)

  request_tcp-Loses :
      (random : Option Bytes) (now : ℤ) (peer : Peer) (opcode : ℕ) (payload : Option Map)
      (c : Client) (conn : Option Stream) (sess : Option Session)
      → c.tcp_conn ≡ conn
      → Loses (request_tcp aead random now peer opcode payload c conn sess)
  unfolding exchange_tcp
  request_tcp-Loses random now peer opcode payload c none sess lost e h = lost
  request_tcp-Loses random now peer opcode payload c (some stream) none lost e h = absurd (cc)
  request_tcp-Loses random now peer opcode payload c (some stream) (some sess) lost e h =
      deliver-Loses _ stream sess peer _ e h

  do_tcp-Loses :
      (random : Option Bytes) (now : ℤ) (peer : Peer) (opcode : ℕ) (payload : Option Map)
      (c : Client)
      → c.dialed ≡ true
      → Loses (do_tcp aead random now peer opcode payload c)
  unfolding do_tcp
  do_tcp-Loses random now peer opcode payload c d =
      simp d (request_tcp-Loses random now peer opcode payload c c.tcp_conn c.sess refl)

-- Once Close has returned, every Do, however many follow, returns the error of a client that is not
-- dialed and changes nothing.
pub closed_for_good :
    (aead : Aead) (c : Client) (ks : List Call)
    → do_all aead ks (close c).0 ≡ ((close c).0, all_errors aead not_dialed ks)
unfolding close
closed_for_good aead c ks =
    do_all-IsDead aead ks (close c).0 not_dialed (undialed-IsDead aead (close c).0 refl)

-- Once a Do of a TCP client has returned an error, whatever it was, every Do that follows, however
-- many, returns the error of a closed connection and changes nothing: the client never sends on the
-- connection again.
pub lost_for_good :
    (aead : Aead) (c : Client) (k : Call) (e : Error) (ks : List Call)
    → c.mode ≡ transport_tcp
    → c.dialed ≡ true
    → (do_call aead k c).1 ≡ err e
    → let c' = (do_call aead k c).0 in
      do_all aead ks c' ≡ (c', all_errors aead connection_closed ks)
unfolding do_request
lost_for_good aead c k e ks m d h =
    let c' = (do_call aead k c).0 in
    let kept = do_by_mode-Keeps aead c.mode k.random k.now k.opens k.peer k.opcode k.payload c in
    let by_tcp : do_call aead k c ≡ do_tcp aead k.random k.now k.peer k.opcode k.payload c =
      simp m in
    do_all-IsDead aead ks c' connection_closed (
      lost-IsDead aead c' (kept.same_mode ∙ m) (kept.same_dialed ∙ d) (
        subst (Loses aead) (sym by_tcp)
          (do_tcp-Loses aead k.random k.now k.peer k.opcode k.payload c d) e h))
