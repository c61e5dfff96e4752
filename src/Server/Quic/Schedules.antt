-- ===== src/Server/Quic/Schedules.antt =====
-- The goroutines of a QUIC connection in any interleaving.
use hush_go.Base.{
  ℕ, suc, Bool, false, Bytes, List, [], ◌∷◌, length, All, ◌≡◌, refl, ap, sym, subst, ◌∙◌, ◌==◌,
  if◌then◌else◌, Option, none, some, Bool-cases, inl, inr,
}
use hush_go.Base.Int.{ℤ}
use hush_go.Base.BigEndian.{IsByte}
use hush_go.Base.Dict.{Dict, number_key, lookup, insert, lookup-insert}
use hush_go.Session.Crypto.{Aead, AeadLaws, KeepsBytes, nonce_size}
use hush_go.Session.Handshake.{Exchange}
use hush_go.Session.Store.{Session, touch}
use hush_go.Frame.Sealing.{IsKey}
use hush_go.Frame.Responses.{Response}
use hush_go.Server.Handlers.{Context, Handler, Stream}
use hush_go.Server.Registry.{Server}
use hush_go.Server.Dispatch.{is_over}
use hush_go.Server.Dispatch.Hearing.{IsFitting, Hears}
use hush_go.Server.Quic.{
  Phase, accepted, checked, through, QuicConnection, QuicStep, accepts, checks, finishes,
  finish_stream, check_phase, finish_phase, quic_step, quic_steps,
}
use hush_go.Server.Quic.Finishing.{finish_stream-answer}
use hush_go.Server.Quic.Promise.{
  Question, asked, admitted, answered, Desk, put, answer_at, check_question, answer_question,
  desk_step, desk_steps, IsQuicStep, Shows, IsDesk,
}

module _ (aead : Aead) (key : Option Bytes) where
  -- The four ways in which a question shows a stream.
  data Coupled : Option Phase → Option Question → Type 0 where
    no_stream : Coupled none none
    both_asked :
        {stream : Stream} {bytes : Bytes}
        → stream.incoming ≡ bytes
        → stream.written ≡ []
        → All IsByte bytes
        → Coupled (some (accepted stream)) (some (asked bytes))
    both_admitted :
        {over was_over : Bool} {stream : Stream} {bytes : Bytes}
        → over ≡ was_over
        → stream.incoming ≡ bytes
        → stream.written ≡ []
        → All IsByte bytes
        → Coupled (some (checked over stream)) (some (admitted was_over bytes))
    both_answered :
        {stream : Stream} {answer : ℕ × Response}
        → Hears aead key stream.written answer
        → Coupled (some (through stream)) (some (answered answer))

  coupled : (o : Option Phase) (q : Option Question) → Shows aead key o q → Coupled o q
  coupled none none h = no_stream
  coupled (some (accepted stream)) (some (asked bytes)) (f, fresh, bs) = both_asked f fresh bs
  coupled (some (checked over stream)) (some (admitted was_over bytes)) (e, f, fresh, bs) =
      both_admitted e f fresh bs
  coupled (some (through stream)) (some (answered answer)) h = both_answered h
  coupled none (some q) h = absurd h
  coupled (some (accepted stream)) none h = absurd h
  coupled (some (accepted stream)) (some (admitted was_over bytes)) h = absurd h
  coupled (some (accepted stream)) (some (answered answer)) h = absurd h
  coupled (some (checked over stream)) none h = absurd h
  coupled (some (checked over stream)) (some (asked bytes)) h = absurd h
  coupled (some (checked over stream)) (some (answered answer)) h = absurd h
  coupled (some (through stream)) none h = absurd h
  coupled (some (through stream)) (some (asked bytes)) h = absurd h
  coupled (some (through stream)) (some (admitted was_over bytes)) h = absurd h

  -- One stream moves on, the others stay.
  Shows-put :
      (i : ℕ) (phase : Phase) (q : Question) (streams : Dict ℕ Phase) (qs : ℕ → Option Question)
      → Shows aead key (some phase) (some q)
      → ((j : ℕ) → Shows aead key (lookup j streams) (qs j))
      → (j : ℕ) → Shows aead key (lookup j (insert i phase streams)) (put i q qs j)
  Shows-put i phase q streams qs new old j = elim (Bool-cases (i == j)) [
    | inl same ↦ rw (lookup-insert i j phase streams, same) new
    | inr other ↦ rw (lookup-insert i j phase streams, other) (old j)
  ]

module _ (aead : Aead) (laws : AeadLaws aead) (keeps : KeepsBytes aead) {x : Exchange} {S : Type 0}
    (srv : Server x S) (ctx : Context) (remote_addr : Bytes)
    (fits : (opcode : ℕ) (h : Handler S) → lookup opcode srv.handlers ≡ some h → IsFitting h)
    (key : Option Bytes) (good : IsKey key) where
  finish_stream-shown :
      (over was_over : Bool) (nonce again bytes : Bytes) (sess shown : Session) (stream : Stream)
      (s t : S)
      → length nonce ≡ nonce_size
      → length again ≡ nonce_size
      → stream.written ≡ []
      → All IsByte bytes
      → over ≡ was_over
      → stream.incoming ≡ bytes
      → sess ≡ shown
      → s ≡ t
      → shown.key ≡ key
      → let (stream', s') =
          finish_stream aead srv over (some nonce) (some again) ctx sess remote_addr stream s in
        let (answer, t') = answer_at aead srv ctx remote_addr was_over bytes shown t in
        Hears aead key stream'.written answer × (s' ≡ t')
  finish_stream-shown over was_over nonce again bytes sess shown stream s t size size_again fresh bs
        e f g h kept =
      let found : sess.key ≡ key = ap (λ r. r.key) g ∙ kept in
      rw (← e, ← f, ← g, ← h, ← found)
        (finish_stream-answer aead srv ctx remote_addr fits laws keeps over nonce again sess stream
          s (subst IsKey (sym found) good) size size_again fresh (subst (All IsByte) (sym f) bs))

  touched : ℤ → Session → Session
  touched now sess = if is_over aead srv now sess then sess else touch now sess

  touched_key : (now : ℤ) (sess : Session) → sess.key ≡ key → (touched now sess).key ≡ key
  unfolding touch touched
  touched_key now sess e = elim (Bool-cases (is_over aead srv now sess)) [
    | inl over ↦ rw over e
    | inr alive ↦ rw alive e
  ]

  module _ (d : Desk S) (c : QuicConnection S) (k : IsDesk aead key d c) where
    accepts-IsDesk :
        (bytes : Bytes)
        → All IsByte bytes
        → IsDesk aead key
            (desk_step aead srv ctx remote_addr (accepts bytes) d)
            (quic_step aead srv ctx remote_addr (accepts bytes) c)
    unfolding quic_step
    accepts-IsDesk bytes h = record {
      same_sess = k.same_sess;
      same_key = k.same_key;
      same_opened = ap suc k.same_opened;
      same_state = k.same_state;
      shows =
          subst
            (λ n.
              (i : ℕ)
              → Shows aead key
                  (lookup i (
                    insert n (accepted (record { incoming = bytes; written = []; closed = false }))
                      c.streams))
                  (put d.opened (asked bytes) d.questions i))
            (sym k.same_opened)
            (Shows-put aead key d.opened _ (asked bytes) c.streams d.questions (refl, refl, h)
              k.shows);
    }

    check-IsDesk :
        (i : ℕ) (now : ℤ) (o : Option Phase) (q : Option Question)
        → Coupled aead key o q
        → IsDesk aead key
            (check_question aead srv ctx remote_addr i now d q)
            (check_phase aead srv i now c o)
    unfolding touched
    check-IsDesk i now _ _ no_stream = k
    check-IsDesk i now _ _ (both_asked f fresh bs) = record {
      same_sess = ap (touched now) k.same_sess;
      same_key = touched_key now d.sess k.same_key;
      same_opened = k.same_opened;
      same_state = k.same_state;
      shows =
          Shows-put aead key i _ _ c.streams d.questions
            (ap (is_over aead srv now) k.same_sess, f, fresh, bs) k.shows;
    }
    check-IsDesk i now _ _ (both_admitted e f fresh bs) = k
    check-IsDesk i now _ _ (both_answered h) = k

    finish-IsDesk :
        (i : ℕ) (nonce again : Bytes) (o : Option Phase) (q : Option Question)
        → length nonce ≡ nonce_size
        → length again ≡ nonce_size
        → Coupled aead key o q
        → IsDesk aead key
            (answer_question aead srv ctx remote_addr i d q)
            (finish_phase aead srv i (some nonce) (some again) ctx remote_addr c o)
    finish-IsDesk i nonce again _ _ size size_again no_stream = k
    finish-IsDesk i nonce again _ _ size size_again (both_asked f fresh bs) = k
    finish-IsDesk i nonce again _ _ size size_again
          (both_admitted {over} {was_over} {stream} {bytes} e f fresh bs) =
        let (heard, state) =
          finish_stream-shown over was_over nonce again bytes c.sess d.sess stream c.state d.state
            size size_again fresh bs e f k.same_sess k.same_state k.same_key in
        record {
          same_sess = k.same_sess;
          same_key = k.same_key;
          same_opened = k.same_opened;
          same_state = state;
          shows = Shows-put aead key i _ _ c.streams d.questions heard k.shows;
        }
    finish-IsDesk i nonce again _ _ size size_again (both_answered h) = k

    step-IsDesk :
        (step : QuicStep)
        → IsQuicStep step
        → IsDesk aead key
            (desk_step aead srv ctx remote_addr step d)
            (quic_step aead srv ctx remote_addr step c)
    unfolding quic_step
    step-IsDesk (accepts bytes) h = accepts-IsDesk bytes h
    step-IsDesk (checks i now) h =
        check-IsDesk i now (lookup i c.streams) (d.questions i)
          (coupled aead key (lookup i c.streams) (d.questions i) (k.shows i))
    step-IsDesk (finishes i (some nonce) (some again)) (size, size_again) =
        finish-IsDesk i nonce again (lookup i c.streams) (d.questions i) size size_again
          (coupled aead key (lookup i c.streams) (d.questions i) (k.shows i))
    step-IsDesk (finishes i none again) (h, h') = absurd h
    step-IsDesk (finishes i (some nonce) none) (h, h') = absurd h'

  pub steps-IsDesk :
      (steps : List QuicStep) (d : Desk S) (c : QuicConnection S)
      → All IsQuicStep steps
      → IsDesk aead key d c
      → IsDesk aead key
          (desk_steps aead srv ctx remote_addr steps d)
          (quic_steps aead srv ctx remote_addr steps c)
  unfolding quic_steps
  steps-IsDesk [] d c h k = k
  steps-IsDesk (step ∷ steps) d c (h, hs) k = steps-IsDesk steps _ _ hs (step-IsDesk d c k step h)
