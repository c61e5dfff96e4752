-- ===== src/Session/Store/Around.antt =====
-- The table around a connection: Set, and the deferred Delete.
use hush_go.Base.{ℕ, ◌≡◌, refl, sym, subst, ◌∙◌, ◌==◌, ==_iff, none, Bool-cases, inl, inr}
use hush_go.Base.Dict.{number_key, lookup, IsUnique, lookup-insert, lookup-delete, insert-IsUnique}
use hush_go.Session.Store
use hush_go.Session.Store.{Session, SessionStore}

-- Set and then Delete of a session whose number led to none leave every number leading where it led.
pub lookup-delete-set :
    (j : ℕ) (store : SessionStore) (sess : Session)
    → IsUnique store.sessions
    → lookup sess.id store.sessions ≡ none
    → lookup j (Store.delete (Store.set store sess) sess.id).sessions ≡ lookup j store.sessions
unfolding Store.set Store.delete
lookup-delete-set j store sess unique fresh =
    let table = store.sessions in
    lookup-delete sess.id j _ (insert-IsUnique sess.id sess table unique)
    ∙ rw (lookup-insert sess.id j sess table) (elim (Bool-cases (sess.id == j)) [
      | inl here ↦
          rw here (sym (subst (λ i. lookup i table ≡ none) ((==_iff sess.id j).0 here) fresh))
      | inr there ↦ rw there refl
    ])
