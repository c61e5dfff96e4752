-- ===== src/Media/Tokens/Validity.antt =====
-- The token store keeps its promise.
use hush_go.Base.{
  ℕ, Bool, true, false, Bytes, List, [], ◌∷◌, ◌≡◌, refl, ap, sym, ◌∙◌, if◌then◌else◌, Option, none,
  some, str_eq, str_eq_iff, Bool-cases, inl, inr,
}
use hush_go.Base.Int.{ℤ, ◌-ℤ◌, ltb_ℤ}
use hush_go.Base.Dict
use hush_go.Base.Dict.{
  Dict, Key, string_key, lookup, IsUnique, keep, lookup-insert, insert-IsUnique, lookup-delete_if,
  delete_if-IsUnique, lookup-delete, delete-IsUnique,
}
use hush_go.Media.Tokens.{
  default_max_token_ttl, Token, TokenStore, new_token_store, issue_with_hls, lookup_hls, is_old,
  session_is_dead, validate_found, validate, exists, revoke_by_session, gc,
}
use hush_go.Media.Tokens.Promise.{
  Action, issued, validated, revoked, collected, perform, perform_all, Tokens, is_some, is_gone,
  refreshed, drop_if, promise, promise_all,
}

record Agrees {W : Type 0} (check : Option (W → ℕ → Bool)) (ts : TokenStore W) (f : Tokens)
    : Type 0 where
  unique : IsUnique ts.tokens
  check_set : ts.validate_session ≡ check
  ttl_set : ts.max_token_ttl ≡ default_max_token_ttl
  same : (id : Bytes) → lookup id ts.tokens ≡ f id

keep-drop_if :
    (bad : Token → Bool) (id : Bytes) (o : Option Token)
    → keep (λ _ tok. bad tok) id o ≡ drop_if bad o
keep-drop_if bad id none = refl
keep-drop_if bad id (some tok) = refl

-- A change of one token.
module _ {W : Type 0} (check : Option (W → ℕ → Bool)) (ts : TokenStore W) (f : Tokens) (id : Bytes)
    (a : Agrees check ts f) where
  deleted-Agrees :
      (f' : Tokens)
      → ((k : Bytes) → f' k ≡ (if str_eq id k then none else f k))
      → Agrees check (record ts { tokens = Dict.delete id ts.tokens }) f'
  deleted-Agrees f' h = record {
    unique = delete-IsUnique id ts.tokens a.unique;
    check_set = a.check_set;
    ttl_set = a.ttl_set;
    same = λ k. rw (lookup-delete id k ts.tokens a.unique, a.same k, h k);
  }

  inserted-Agrees :
      (tok : Token) (f' : Tokens)
      → ((k : Bytes) → f' k ≡ (if str_eq id k then some tok else f k))
      → Agrees check (record ts { tokens = Dict.insert id tok ts.tokens }) f'
  inserted-Agrees tok f' h = record {
    unique = insert-IsUnique id tok ts.tokens a.unique;
    check_set = a.check_set;
    ttl_set = a.ttl_set;
    same = λ k. rw (lookup-insert id k tok ts.tokens, a.same k, h k);
  }

-- Validate behind its lookup, with the answer.
module _ {W : Type 0} (check : Option (W → ℕ → Bool)) (ts : TokenStore W) (f : Tokens) (w : W)
    (now : ℤ) (id : Bytes) (a : Agrees check ts f) where
  at_id :
      (o : Option Token)
      → f id ≡ o
      → (k : Bytes)
      → promise check f (validated w now id) k
        ≡ (if str_eq id k then refreshed check w now o else f k)
  at_id o e k = elim (Bool-cases (str_eq id k)) [
    | inl same ↦ rw same (ap (refreshed check w now) (ap f (sym ((str_eq_iff id k).0 same)) ∙ e))
    | inr other ↦ rw other
  ]

  unchanged : f id ≡ none → (k : Bytes) → f k ≡ promise check f (validated w now id) k
  unchanged e k = elim (Bool-cases (str_eq id k)) [
    | inl same ↦ (ap f (sym ((str_eq_iff id k).0 same)) ∙ e) ∙ sym (at_id none e k ∙ rw same)
    | inr other ↦ sym (at_id none e k ∙ rw other)
  ]

  is_old_lem :
      (tok : Token) → is_old ts now tok ≡ ltb_ℤ default_max_token_ttl (now -ℤ tok.issued_at)
  unfolding is_old
  is_old_lem tok = rw a.ttl_set

  is_gone_lem : (id' : ℕ) → is_gone check w id' ≡ session_is_dead ts.validate_session w id'
  unfolding session_is_dead
  is_gone_lem id' = ap (λ c. is_gone c w id') (sym a.check_set) ∙ same_test ts.validate_session
    where
      same_test : (c : Option (W → ℕ → Bool)) → is_gone c w id' ≡ session_is_dead c w id'
      same_test none = refl
      same_test (some is_alive) = elim (Bool-cases (is_alive w id')) [
        | inl alive ↦ simp alive
        | inr dead ↦ simp dead
      ]

  abbrev IsAnswer : TokenStore W × Bool → Option Token → Type 0
  IsAnswer (ts', valid) o =
      Agrees check ts' (promise check f (validated w now id))
      × (valid ≡ is_some (refreshed check w now o))

  validate_found-IsAnswer :
      (o : Option Token) → f id ≡ o → IsAnswer (validate_found ts w now id o) o
  unfolding validate_found
  validate_found-IsAnswer none e = (
    record {
      unique = a.unique;
      check_set = a.check_set;
      ttl_set = a.ttl_set;
      same = λ k. a.same k ∙ unchanged e k;
    },
    refl,
  )
  validate_found-IsAnswer (some tok) e = elim (Bool-cases (is_old ts now tok)) [
    | inl old ↦
        let gone : refreshed check w now (some tok) ≡ none = rw (sym (is_old_lem tok) ∙ old) in
        rw old (
          deleted-Agrees check ts f id a _ (λ k. at_id (some tok) e k ∙ rw gone),
          ap is_some (sym gone),
        )
    | inr young ↦ elim (Bool-cases (session_is_dead ts.validate_session w tok.session_id)) [
      | inl dead ↦
          let gone : refreshed check w now (some tok) ≡ none =
            rw (sym (is_old_lem tok) ∙ young, is_gone_lem tok.session_id ∙ dead) in
          rw (young, dead)
            (
              deleted-Agrees check ts f id a _ (λ k. at_id (some tok) e k ∙ rw gone),
              ap is_some (sym gone),
            )
      | inr alive ↦
          let kept : refreshed check w now (some tok) ≡ some (record tok { created_at = now }) =
            rw (sym (is_old_lem tok) ∙ young, is_gone_lem tok.session_id ∙ alive) in
          rw (young, alive)
            (
              inserted-Agrees check ts f id a (record tok { created_at = now }) _
                  (λ k. at_id (some tok) e k ∙ rw kept),
              ap is_some (sym kept),
            )
    ]
  ]

perform-Agrees :
    {W : Type 0} (check : Option (W → ℕ → Bool)) (ts : TokenStore W) (f : Tokens)
    (action : Action W)
    → Agrees check ts f
    → Agrees check (perform ts action) (promise check f action)
unfolding issue_with_hls validate revoke_by_session gc
perform-Agrees check ts f (issued id now session_id track_id hls_url) a =
    inserted-Agrees check ts f id a _ _ (λ k. refl)
perform-Agrees check ts f (validated w now id) a =
    (validate_found-IsAnswer check ts f w now id a (lookup id ts.tokens) (sym (a.same id))).0
perform-Agrees check ts f (revoked session_id) a = record {
  unique = delete_if-IsUnique _ ts.tokens a.unique;
  check_set = a.check_set;
  ttl_set = a.ttl_set;
  same = λ k. rw (lookup-delete_if _ k ts.tokens a.unique, a.same k) (keep-drop_if _ k (f k));
}
perform-Agrees check ts f (collected now) a = record {
  unique = delete_if-IsUnique _ ts.tokens a.unique;
  check_set = a.check_set;
  ttl_set = a.ttl_set;
  same = λ k.
      rw (lookup-delete_if _ k ts.tokens a.unique, a.same k, a.ttl_set) (keep-drop_if _ k (f k));
}

perform_all-Agrees :
    {W : Type 0} (actions : List (Action W)) (check : Option (W → ℕ → Bool)) (ts : TokenStore W)
    (f : Tokens)
    → Agrees check ts f
    → Agrees check (perform_all ts actions) (promise_all check f actions)
perform_all-Agrees [] check ts f a = a
perform_all-Agrees (action ∷ actions) check ts f a =
    perform_all-Agrees actions check (perform ts action) (promise check f action)
      (perform-Agrees check ts f action a)

new_token_store-Agrees :
    {W : Type 0} (check : Option (W → ℕ → Bool)) → Agrees check (new_token_store check) (λ _. none)
unfolding new_token_store lookup
new_token_store-Agrees check = record {
  unique = tt;
  check_set = refl;
  ttl_set = refl;
  same = λ _. refl;
}

abbrev pub url_of : Option Token → Bytes
url_of none = []
url_of (some tok) = tok.hls_url

exists_lem :
    {W : Type 0} → (ts : TokenStore W) (id : Bytes) → exists ts id ≡ is_some (lookup id ts.tokens)
unfolding exists
exists_lem ts id =
    elim (lookup id ts.tokens) as (λ o. elim o [ none ↦ false | some tok ↦ true ] ≡ is_some o) [
      | none ↦ refl
      | some tok ↦ refl
    ]

lookup_hls_lem :
    {W : Type 0}
    → (ts : TokenStore W) (id : Bytes) → lookup_hls ts id ≡ url_of (lookup id ts.tokens)
unfolding lookup_hls
lookup_hls_lem ts id =
    elim (lookup id ts.tokens) as (λ o. elim o [ none ↦ [] | some tok ↦ tok.hls_url ] ≡ url_of o) [
      | none ↦ refl
      | some tok ↦ refl
    ]

-- After any calls of IssueWithHLS, Validate, RevokeBySession and GC on a new store, each Validate with
-- whatever the state is at that call that the session check reads, Exists, LookupHLS and Validate
-- answer as the promised map does: a token is there from its issue until it is revoked, collected or
-- found dead by Validate, and valid while it is no older than two hours since its issue and the check
-- finds its session alive at the call.
pub validate-refreshed :
    {W : Type 0} (check : Option (W → ℕ → Bool)) (actions : List (Action W)) (w : W) (now : ℤ)
    (id : Bytes)
    → let ts = perform_all (new_token_store check) actions in
      let promised = promise_all check (λ _. none) actions id in
      (exists ts id ≡ is_some promised)
      × (lookup_hls ts id ≡ url_of promised)
      × ((validate ts w now id).1 ≡ is_some (refreshed check w now promised))
unfolding validate
validate-refreshed check actions w now id =
    let ts = perform_all (new_token_store check) actions in
    let f = promise_all check (λ _. none) actions in
    let a : Agrees check ts f =
      perform_all-Agrees actions check (new_token_store check) (λ _. none)
        (new_token_store-Agrees check) in
    (
      exists_lem ts id ∙ ap is_some (a.same id),
      lookup_hls_lem ts id ∙ ap url_of (a.same id),
      rw (a.same id) (validate_found-IsAnswer check ts f w now id a (f id) refl).1,
    )
