-- ===== src/Server/Serving/Leaving.antt =====
-- A connection leaves its loop, and gcLoop collects.
use hush_go.Base.{
  ℕ, Bool, true, false, List, ◌∷◌, Option, none, some, arith, ◌≡◌, refl, sym, ap, subst, ◌∙◌, ◌==◌,
  ne→==, Bool-cases, ◌⊎◌, inl, inr,
}
use hush_go.Base.Int.{ℤ, ◌-ℤ◌, ltb_ℤ}
use hush_go.Base.Dict
use hush_go.Base.Dict.{
  Dict, Key, number_key, lookup, insert, IsUnique, keep, lookup-insert, insert-IsUnique,
  lookup-delete, delete-IsUnique, lookup-delete_if, delete_if-IsUnique,
}
use hush_go.Session.Store
use hush_go.Session.Store.{Session, SessionStore, new_session}
use hush_go.Server.Serving.{serving, through, Running, set_phase}
use hush_go.Server.Serving.Table.{
  session_of, entered_by, Collected, IsServing, moved_on, entered-session, not_here,
}

module _ (lifetime : ℤ) (past : List ℤ) (r : Running) (k : IsServing lifetime past r) where
  -- The deferred Delete takes the session of a connection whose loop is over out of the table.
  module _ (c : ℕ) (sess : Session) (there : lookup c r.connections ≡ some (serving sess)) where
    leaving_session :
        (d : ℕ) (s : Session)
        → session_of (lookup d (insert c through r.connections)) ≡ some s
        → session_of (lookup d r.connections) ≡ some s
    leaving_session d s e = elim (moved_on c d through r.connections) [
      | inl (here, f) ↦ absurd (cc (ap session_of f))
      | inr (apart, f) ↦ sym (ap session_of f) ∙ e
    ]

    leaving_kept :
        (d : ℕ) (s : Session)
        → entered_by (lookup d (insert c through r.connections)) ≡ some s
        → (lookup s.id (Dict.delete sess.id r.sessions.sessions) ≡ some s)
          ⊎ Collected lifetime past s
    leaving_kept d s e = elim (moved_on c d through r.connections) [
      | inl (here, f) ↦ absurd (cc (ap entered_by f))
      | inr (apart, f) ↦
          let old : entered_by (lookup d r.connections) ≡ some s = sym (ap entered_by f) ∙ e in
          let other : (sess.id == s.id) ≡ false = ne→== sess.id s.id (λ same. not_here c d apart (
            k.apart c d sess s (ap session_of there)
              (entered-session (lookup d r.connections) s old) same)) in
          elim (k.kept d s old) [
            | inl found ↦
                inl (lookup-delete sess.id s.id r.sessions.sessions k.once ∙ rw other found)
            | inr gone ↦ inr gone
          ]
    ]

    leaving_owned :
        (id : ℕ) (s : Session)
        → lookup id (Dict.delete sess.id r.sessions.sessions) ≡ some s
        → (d : ℕ) × (entered_by (lookup d (insert c through r.connections)) ≡ some s) × (s.id ≡ id)
    leaving_owned id s e = elim (Bool-cases (sess.id == id)) [
      | inl own ↦
          let gone : lookup id (Dict.delete sess.id r.sessions.sessions) ≡ none =
            lookup-delete sess.id id r.sessions.sessions k.once ∙ rw own refl in
          absurd (cc (e, gone))
      | inr other ↦
          let (d, f, same) =
            k.owned id s
              (sym (lookup-delete sess.id id r.sessions.sessions k.once ∙ rw other refl) ∙ e) in
          (d, stays d s other same f, same)
    ]
      where
        stays :
            (d : ℕ) (s : Session)
            → (sess.id == id) ≡ false
            → s.id ≡ id
            → entered_by (lookup d r.connections) ≡ some s
            → entered_by (lookup d (insert c through r.connections)) ≡ some s
        stays d s other same f = elim (moved_on c d through r.connections) [
          | inl (here, g) ↦
              let own : some sess ≡ some s =
                sym (
                  ap entered_by
                    (subst (λ i. lookup i r.connections ≡ some (serving sess)) here there))
                ∙ f in
              absurd (not_here sess.id id other (cc (own, same)))
          | inr (apart, g) ↦ ap entered_by g ∙ f
        ]

    pub leaving-IsServing :
        IsServing lifetime past
          (set_phase c through (record r { sessions = Store.delete r.sessions sess.id }))
    unfolding Store.delete
    leaving-IsServing = record {
      once = delete-IsUnique sess.id r.sessions.sessions k.once;
      lives = k.lives;
      given = λ d s e. k.given d s (leaving_session d s e);
      apart = λ d d' s t e f same.
          k.apart d d' s t (leaving_session d s e) (leaving_session d' t f) same;
      owned = leaving_owned;
      kept = leaving_kept;
    }

  -- A collection takes the sessions that are too old.
  module _ (now : ℤ) where
    is_old : ℕ → Session → Bool
    is_old id s = ltb_ℤ r.sessions.config.max_lifetime (now -ℤ s.created_at)

    collected_owned :
        (id : ℕ) (s : Session)
        → lookup id (Dict.delete_if is_old r.sessions.sessions) ≡ some s
        → lookup id r.sessions.sessions ≡ some s
    collected_owned id s e =
        from (lookup id r.sessions.sessions)
          (sym (lookup-delete_if is_old id r.sessions.sessions k.once) ∙ e)
      where
        from : (o : Option Session) → keep is_old id o ≡ some s → o ≡ some s
        from none f = f
        from (some t) f = ground arith

    Collected-kept :
        (c : ℕ) (s : Session)
        → entered_by (lookup c r.connections) ≡ some s
        → (lookup s.id (Dict.delete_if is_old r.sessions.sessions) ≡ some s)
          ⊎ Collected lifetime (now ∷ past) s
    unfolding is_old
    Collected-kept c s e = elim (k.kept c s e) [
      | inl found ↦ elim (Bool-cases (is_old s.id s)) [
        | inl old ↦ inr (inl (subst (λ l. ltb_ℤ l (now -ℤ s.created_at) ≡ true) k.lives old))
        | inr young ↦
            inl (lookup-delete_if is_old s.id r.sessions.sessions k.once ∙ rw (found, young) refl)
      ]
      | inr gone ↦ inr (inr gone)
    ]

    pub collected-IsServing :
        IsServing lifetime (now ∷ past) (record r { sessions = Store.gc r.sessions now })
    unfolding Store.gc is_old
    collected-IsServing = record {
      once = delete_if-IsUnique is_old r.sessions.sessions k.once;
      lives = k.lives;
      given = k.given;
      apart = k.apart;
      owned = λ id s e. k.owned id s (collected_owned id s e);
      kept = Collected-kept;
    }
