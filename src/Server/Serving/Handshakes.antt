-- ===== src/Server/Serving/Handshakes.antt =====
-- A connection outside its loop goes on: refused, ended, or numbered by a handshake.
use hush_go.Base.{
  ℕ, ◌+◌, ◌≤◌, ◌<◌, List, none, some, arith, ◌≡◌, refl, sym, ap, subst, ◌∙◌, ◌⊎◌, inl, inr,
}
use hush_go.Base.Int.{ℤ}
use hush_go.Base.Dict.{number_key, lookup, insert}
use hush_go.Session.Store.{Session}
use hush_go.Server.Serving.{
  ConnPhase, arrived, numbered, serving, through, crashed, Running, set_phase,
}
use hush_go.Server.Serving.Table.{session_of, entered_by, IsServing, moved_on}

still_out : (phase : ConnPhase) → session_of (some phase) ≡ none → entered_by (some phase) ≡ none
still_out arrived e = refl
still_out (numbered sess) e = refl
still_out (serving sess) e = cc
still_out through e = refl
still_out crashed e = refl

module _ (lifetime : ℤ) (past : List ℤ) (r : Running) (k : IsServing lifetime past r) where
  -- A connection that is not in its loop goes on to a phase outside of it.
  module _ (c : ℕ) (phase : ConnPhase) (out : entered_by (lookup c r.connections) ≡ none)
      (still_out : entered_by (some phase) ≡ none) where
    outside_entered :
        (d : ℕ) (s : Session)
        → entered_by (lookup d (insert c phase r.connections)) ≡ some s
        → entered_by (lookup d r.connections) ≡ some s
    outside_entered d s e = elim (moved_on c d phase r.connections) [
      | inl (here, f) ↦ absurd (cc (ap entered_by f))
      | inr (there, f) ↦ sym (ap entered_by f) ∙ e
    ]

    outside_stays :
        (d : ℕ) (s : Session)
        → entered_by (lookup d r.connections) ≡ some s
        → entered_by (lookup d (insert c phase r.connections)) ≡ some s
    outside_stays d s e = elim (moved_on c d phase r.connections) [
      | inl (here, f) ↦
          absurd (cc (subst (λ i. entered_by (lookup i r.connections) ≡ none) here out))
      | inr (there, f) ↦ ap entered_by f ∙ e
    ]

    outside_owned :
        (id : ℕ) (s : Session)
        → lookup id r.sessions.sessions ≡ some s
        → (d : ℕ) × (entered_by (lookup d (insert c phase r.connections)) ≡ some s) × (s.id ≡ id)
    outside_owned id s e = let (d, f, same) = k.owned id s e in (d, outside_stays d s f, same)

  -- A phase without a session.
  module _ (c next : ℕ) (phase : ConnPhase) (out : entered_by (lookup c r.connections) ≡ none)
      (nothing : session_of (some phase) ≡ none) (more : r.next_id ≤ next) where
    quiet_session :
        (d : ℕ) (s : Session)
        → session_of (lookup d (insert c phase r.connections)) ≡ some s
        → session_of (lookup d r.connections) ≡ some s
    quiet_session d s e = elim (moved_on c d phase r.connections) [
      | inl (here, f) ↦ absurd (cc (ap session_of f))
      | inr (there, f) ↦ sym (ap session_of f) ∙ e
    ]

    quiet_given :
        (d : ℕ) (s : Session)
        → session_of (lookup d (insert c phase r.connections)) ≡ some s
        → (0 < s.id) × (s.id ≤ next)
    quiet_given d s e =
        let (above, below) = k.given d s (quiet_session d s e) in (above, omega arith)

    pub quiet-IsServing : IsServing lifetime past (set_phase c phase (record r { next_id = next }))
    quiet-IsServing = record {
      once = k.once;
      lives = k.lives;
      given = quiet_given;
      apart =
          λ d d' s t e f same. k.apart d d' s t (quiet_session d s e) (quiet_session d' t f) same;
      owned = outside_owned c phase out (still_out phase nothing);
      kept = λ d s e. k.kept d s (outside_entered c phase out (still_out phase nothing) d s e);
    }

  -- A handshake gives the next number, which no connection has.
  module _ (c : ℕ) (sess : Session) (out : entered_by (lookup c r.connections) ≡ none)
      (next : sess.id ≡ r.next_id + 1) where
    numbered_session :
        (d : ℕ) (s : Session)
        → session_of (lookup d (insert c (numbered sess) r.connections)) ≡ some s
        → ((c ≡ d) × (s.id ≡ r.next_id + 1)) ⊎ (session_of (lookup d r.connections) ≡ some s)
    numbered_session d s e = elim (moved_on c d (numbered sess) r.connections) [
      | inl (here, f) ↦ inl (here, cc (next, ap session_of f))
      | inr (there, f) ↦ inr (sym (ap session_of f) ∙ e)
    ]

    numbered_given :
        (d : ℕ) (s : Session)
        → session_of (lookup d (insert c (numbered sess) r.connections)) ≡ some s
        → (0 < s.id) × (s.id ≤ r.next_id + 1)
    numbered_given d s e = elim (numbered_session d s e) [
      | inl (here, f) ↦ (omega arith, omega arith)
      | inr old ↦ let (above, below) = k.given d s old in (above, omega arith)
    ]

    numbered_apart :
        (d d' : ℕ) (s t : Session)
        → session_of (lookup d (insert c (numbered sess) r.connections)) ≡ some s
        → session_of (lookup d' (insert c (numbered sess) r.connections)) ≡ some t
        → s.id ≡ t.id
        → d ≡ d'
    numbered_apart d d' s t e f same = elim (numbered_session d s e) [
      | inl (here, n) ↦ elim (numbered_session d' t f) [
        | inl (here', n') ↦ sym here ∙ here'
        | inr old' ↦ absurd (omega (arith, (k.given d' t old').1))
      ]
      | inr old ↦ elim (numbered_session d' t f) [
        | inl (here', n') ↦ absurd (omega (arith, (k.given d s old).1))
        | inr old' ↦ k.apart d d' s t old old' same
      ]
    ]

    pub numbered-IsServing :
        IsServing lifetime past (set_phase c (numbered sess) (record r { next_id = r.next_id + 1 }))
    numbered-IsServing = record {
      once = k.once;
      lives = k.lives;
      given = numbered_given;
      apart = numbered_apart;
      owned = outside_owned c (numbered sess) out refl;
      kept = λ d s e. k.kept d s (outside_entered c (numbered sess) out refl d s e);
    }
