-- ===== src/Server/Tcp/Loop.antt =====
-- The loop of handleTCPConnection on requests that were all written before it began.
use hush_go.Base.{
  ℕ, suc, Bool, false, Bytes, List, [], ◌∷◌, ◌++◌, append_assoc, append-nil, length, All, ◌≡◌, refl,
  ap, some,
}
use hush_go.Server.Handlers.{Context, Handler, Stream}
use hush_go.Base.Int.{ℤ}
use hush_go.Base.Dict.{number_key, lookup}
use hush_go.Session.Crypto.{Aead, AeadLaws, nonce_size}
use hush_go.Session.Handshake.{Exchange}
use hush_go.Session.Store.{Session, touch}
use hush_go.Frame.Sealing.{IsKey}
use hush_go.Frame.Requests.{request_on_wire}
use hush_go.Server.Registry.{Server}
use hush_go.Server.Dispatch.{request_context, is_over}
use hush_go.Server.Tcp.{Ending, client_gone, go_on, stop, Round, tcp_round, tcp_rounds}
use hush_go.Server.Tcp.Pipeline.{
  IsAnswering, Numbered, IsNumbered, serve_one, serve_all, response_wire, requests_wire,
  responses_wire,
}
use hush_go.Server.Tcp.Rounds.{tcp_round-answered, serve_all-touch, tcp_round-nil}

module _ (aead : Aead) (laws : AeadLaws aead) {x : Exchange} {S : Type 0} (srv : Server x S)
    (stream_ctx : Context) (remote_addr : Bytes) where
  -- The connection at the end of its rounds.
  abbrev served : (ℕ → Bytes) → ℕ → Session → Context → Stream → S → List Numbered → Stream
  served nonce i sess ctx stream s rs = record stream {
    incoming = [];
    written =
        stream.written
        ++ responses_wire aead laws sess.key nonce i (serve_all srv sess remote_addr ctx s rs);
  }

  module _ (cancelled : ℕ → Bool) (clock : ℕ → ℤ) (nonce : ℕ → Bytes) (cnonce : Bytes)
      (running : (i : ℕ) → cancelled i ≡ false) (size : (i : ℕ) → length (nonce i) ≡ nonce_size)
      (csize : length cnonce ≡ nonce_size)
      (fits : (opcode : ℕ) (h : Handler S)
        → lookup opcode srv.handlers ≡ some h
        → IsAnswering h) where
    abbrev rounds : ℕ → ℕ → Context → Session → Stream → S → Round S
    rounds = tcp_rounds aead srv cancelled clock (λ i. some (nonce i)) stream_ctx remote_addr

    -- The round that the loop makes next.
    abbrev round_at : ℕ → Context → Session → Stream → S → Round S
    round_at i ctx sess stream s =
        tcp_round aead srv (some (nonce i)) (clock i) stream_ctx ctx sess remote_addr stream s

    tcp_rounds-go_on :
        (n i : ℕ) (ctx : Context) (sess : Session) (stream : Stream) (s : S)
        → let t = round_at i ctx sess stream s in
          t.next ≡ go_on
          → rounds (suc n) i ctx sess stream s ≡ rounds n (suc i) t.ctx t.sess t.stream t.state
    unfolding tcp_rounds
    tcp_rounds-go_on n i ctx sess stream s h = rw (running i, h) refl

    tcp_rounds-stop :
        (n i : ℕ) (ctx : Context) (sess : Session) (stream : Stream) (s : S) (e : Ending)
        → let t = round_at i ctx sess stream s in
          t.next ≡ stop e → rounds (suc n) i ctx sess stream s ≡ t
    unfolding tcp_rounds tcp_round
    tcp_rounds-stop n i ctx sess stream s e h = rw (running i, h) refl

    pub tcp_rounds-served :
        (rs : List Numbered) (i : ℕ) (ctx : Context) (sess : Session) (stream : Stream) (s : S)
        → IsKey sess.key
        → All IsNumbered rs
        → is_over aead srv (clock i) sess ≡ false
        → ((j : ℕ) → is_over aead srv (clock (suc j)) (touch (clock j) sess) ≡ false)
        → stream.incoming ≡ requests_wire aead laws sess.key cnonce rs
        → let t = rounds (suc (length rs)) i ctx sess stream s in
          (t.stream ≡ served nonce i sess ctx stream s rs) × (t.next ≡ stop client_gone)
    unfolding touch
    tcp_rounds-served [] i ctx sess stream s good h alive later arrives =
        let gone =
          tcp_round-nil aead laws srv stream_ctx remote_addr (some (nonce i)) (clock i) ctx sess
            stream s alive arrives in
        rw
          (
            tcp_rounds-stop 0 i ctx sess stream s client_gone (ap (λ t. t.next) gone),
            gone,
            append-nil stream.written,
          )
          (ap (λ bytes. record stream { incoming = bytes }) arrives, refl)
    tcp_rounds-served ((seq, r) ∷ rs) i ctx sess stream s good (h, hs) alive later arrives =
        let ctx' = request_context ctx sess remote_addr in
        let one =
          serve_one srv sess remote_addr ctx' (request_on_wire r) s
            (lookup r.opcode srv.handlers) in
        let rest = requests_wire aead laws sess.key cnonce rs in
        let first = response_wire aead laws sess.key (nonce i) (seq, one.0) in
        let behind = record stream { incoming = rest } in
        let round =
          tcp_round-answered aead laws srv stream_ctx remote_addr (nonce i) (clock i) ctx sess seq r
            rest cnonce stream s good (size i) csize h fits alive arrives in
        let ih =
          tcp_rounds-served rs (suc i) ctx' (touch (clock i) sess)
            (record behind { written = stream.written ++ first }) one.1 good hs (later i) later
            refl in
        let more =
          responses_wire aead laws sess.key nonce (suc i)
            (serve_all srv sess remote_addr ctx' one.1 rs) in
        rw (tcp_rounds-go_on (suc (length rs)) i ctx sess stream s (ap (λ t. t.next) round), round)
          (
            rw
                (
                  ih.0,
                  serve_all-touch aead laws srv stream_ctx remote_addr (clock i) sess ctx' one.1 rs,
                  append_assoc stream.written first more,
                )
                refl,
            ih.1,
          )
