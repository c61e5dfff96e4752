-- ===== src/Server/Serving/Entering.antt =====
-- A connection enters its loop.
use hush_go.Base.{
  ℕ, false, List, some, ◌≡◌, refl, sym, ap, subst, ◌∙◌, ◌==◌, ==_iff, ne→==, Bool-cases, ◌⊎◌, inl,
  inr,
}
use hush_go.Base.Int.{ℤ}
use hush_go.Base.Dict.{number_key, lookup, insert, lookup-insert, insert-IsUnique}
use hush_go.Session.Store
use hush_go.Session.Store.{Session, SessionStore, new_session}
use hush_go.Server.Serving.{numbered, serving, Running, set_phase}
use hush_go.Server.Serving.Table.{
  session_of, entered_by, Collected, IsServing, moved_on, entered-session, not_here,
}

module _ (lifetime : ℤ) (past : List ℤ) (r : Running) (k : IsServing lifetime past r) where
  -- Set puts the session of a connection behind its handshake in the table.
  module _ (c : ℕ) (sess : Session) (there : lookup c r.connections ≡ some (numbered sess)) where
    entering_session :
        (d : ℕ) (s : Session)
        → session_of (lookup d (insert c (serving sess) r.connections)) ≡ some s
        → session_of (lookup d r.connections) ≡ some s
    entering_session d s e = elim (moved_on c d (serving sess) r.connections) [
      | inl (here, f) ↦
          subst (λ i. session_of (lookup i r.connections) ≡ some s) here
            (ap session_of there ∙ sym (ap session_of f) ∙ e)
      | inr (apart, f) ↦ sym (ap session_of f) ∙ e
    ]

    -- The connection itself, or one that was in its loop before and has another number.
    entering_entered :
        (d : ℕ) (s : Session)
        → entered_by (lookup d (insert c (serving sess) r.connections)) ≡ some s
        → (sess ≡ s)
          ⊎ (((sess.id == s.id) ≡ false) × (entered_by (lookup d r.connections) ≡ some s))
    entering_entered d s e = elim (moved_on c d (serving sess) r.connections) [
      | inl (here, f) ↦ inl (cc (ap entered_by f))
      | inr (apart, f) ↦
          let old : entered_by (lookup d r.connections) ≡ some s = sym (ap entered_by f) ∙ e in
          inr (
            ne→== sess.id s.id (λ same. not_here c d apart (
                k.apart c d sess s (ap session_of there)
                  (entered-session (lookup d r.connections) s old) same)),
            old,
          )
    ]

    entering_kept :
        (d : ℕ) (s : Session)
        → entered_by (lookup d (insert c (serving sess) r.connections)) ≡ some s
        → (lookup s.id (insert sess.id sess r.sessions.sessions) ≡ some s)
          ⊎ Collected lifetime past s
    entering_kept d s e = elim (entering_entered d s e) [
      | inl same ↦ inl (
          lookup-insert sess.id s.id sess r.sessions.sessions
          ∙ rw (← same, (==_iff sess.id sess.id).1 refl) refl)
      | inr (apart, old) ↦ elim (k.kept d s old) [
        | inl found ↦ inl (lookup-insert sess.id s.id sess r.sessions.sessions ∙ rw apart found)
        | inr gone ↦ inr gone
      ]
    ]

    entering_owned :
        (id : ℕ) (s : Session)
        → lookup id (insert sess.id sess r.sessions.sessions) ≡ some s
        → (d : ℕ) × (entered_by (lookup d (insert c (serving sess) r.connections)) ≡ some s)
          × (s.id ≡ id)
    entering_owned id s e = elim (Bool-cases (sess.id == id)) [
      | inl own ↦
          let same : some sess ≡ some s =
            sym (lookup-insert sess.id id sess r.sessions.sessions ∙ rw own refl) ∙ e in
          (
            c,
            ap entered_by (lookup-insert c c (serving sess) r.connections)
                ∙ rw ((==_iff c c).1 refl) same,
            cc (same, (==_iff sess.id id).0 own),
          )
      | inr other ↦
          let (d, f, same) =
            k.owned id s
              (sym (lookup-insert sess.id id sess r.sessions.sessions ∙ rw other refl) ∙ e) in
          (d, stays d s f, same)
    ]
      where
        stays :
            (d : ℕ) (s : Session)
            → entered_by (lookup d r.connections) ≡ some s
            → entered_by (lookup d (insert c (serving sess) r.connections)) ≡ some s
        stays d s f = elim (moved_on c d (serving sess) r.connections) [
          | inl (here, g) ↦ absurd (
              cc (
                ap entered_by
                  (subst (λ i. lookup i r.connections ≡ some (numbered sess)) here there)))
          | inr (apart, g) ↦ ap entered_by g ∙ f
        ]

    pub entering-IsServing :
        IsServing lifetime past
          (set_phase c (serving sess) (record r { sessions = Store.set r.sessions sess }))
    unfolding Store.set
    entering-IsServing = record {
      once = insert-IsUnique sess.id sess r.sessions.sessions k.once;
      lives = k.lives;
      given = λ d s e. k.given d s (entering_session d s e);
      apart = λ d d' s t e f same.
          k.apart d d' s t (entering_session d s e) (entering_session d' t f) same;
      owned = entering_owned;
      kept = entering_kept;
    }
