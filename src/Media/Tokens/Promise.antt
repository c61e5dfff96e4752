-- ===== src/Media/Tokens/Promise.antt =====
-- What the token store promises: a finite map under any sequence of its operations.
use hush_go.Base.{
  ℕ, Bool, true, false, Bytes, List, [], ◌∷◌, ◌==◌, if◌then◌else◌, Option, none, some, str_eq,
}
use hush_go.Base.Int.{ℤ, ◌-ℤ◌, ltb_ℤ}
use hush_go.Base.Dict.{string_key}
use hush_go.Media.Tokens.{
  default_max_token_ttl, Token, TokenStore, issue_with_hls, validate, revoke_by_session, gc,
}

-- A call that changes the store; `issued` has the random bytes, time, session, track and URL, and
-- `validated` the state that the session check reads, as it is at that call.
pub data Action (W : Type 0) : Type 0 where
  issued : Bytes → ℤ → ℕ → Bytes → Bytes → Action W
  validated : W → ℤ → Bytes → Action W
  revoked : ℕ → Action W
  collected : ℤ → Action W

abbrev pub perform : {W : Type 0} → TokenStore W → Action W → TokenStore W
perform ts (issued id now session_id track_id hls_url) =
    (issue_with_hls ts (some id) now session_id track_id hls_url).0
perform ts (validated w now id) = (validate ts w now id).0
perform ts (revoked session_id) = revoke_by_session ts session_id
perform ts (collected now) = gc ts now

abbrev pub perform_all : {W : Type 0} → TokenStore W → List (Action W) → TokenStore W
perform_all ts [] = ts
perform_all ts (a ∷ actions) = perform_all (perform ts a) actions

-- What the store promises: a map from ids to tokens.
abbrev pub Tokens : Type 0
Tokens = Bytes → Option Token

abbrev pub is_some : Option Token → Bool
is_some none = false
is_some (some tok) = true

-- A session that the check, if there is one, does not find alive.
abbrev pub is_gone : {W : Type 0} → Option (W → ℕ → Bool) → W → ℕ → Bool
is_gone none w session_id = false
is_gone (some is_alive) w session_id = if is_alive w session_id then false else true

-- A token that is issued too long ago, or whose session is dead.
abbrev pub is_dead : {W : Type 0} → Option (W → ℕ → Bool) → W → ℤ → Token → Bool
is_dead check w now tok =
    if ltb_ℤ default_max_token_ttl (now -ℤ tok.issued_at)
    then true
    else is_gone check w tok.session_id

abbrev pub refreshed : {W : Type 0} → Option (W → ℕ → Bool) → W → ℤ → Option Token → Option Token
refreshed check w now none = none
refreshed check w now (some tok) =
    if is_dead check w now tok then none else some (record tok { created_at = now })

abbrev pub drop_if : (Token → Bool) → Option Token → Option Token
drop_if bad none = none
drop_if bad (some tok) = if bad tok then none else some tok

abbrev pub promise : {W : Type 0} → Option (W → ℕ → Bool) → Tokens → Action W → Tokens
promise check f (issued id now session_id track_id hls_url) k =
    if str_eq id k
    then some (record {
      id = id;
      track_id = track_id;
      hls_url = hls_url;
      created_at = now;
      issued_at = now;
      session_id = session_id;
    })
    else f k
promise check f (validated w now id) k = if str_eq id k then refreshed check w now (f k) else f k
promise check f (revoked session_id) k = drop_if (λ tok. tok.session_id == session_id) (f k)
promise check f (collected now) k =
    drop_if (λ tok. ltb_ℤ default_max_token_ttl (now -ℤ tok.issued_at)) (f k)

abbrev pub promise_all : {W : Type 0} → Option (W → ℕ → Bool) → Tokens → List (Action W) → Tokens
promise_all check f [] = f
promise_all check f (a ∷ actions) = promise_all check (promise check f a) actions
