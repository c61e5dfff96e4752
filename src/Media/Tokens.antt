-- ===== src/Media/Tokens.antt =====
-- media/media.go: the token store. Its mutex makes each method one step; time.Now() and the bytes of
-- crypto/rand are arguments. The session check is a function of the caller's that reads a state of the
-- caller's, `W`, as the server's reads its sessions; Validate is given that state as it is at the
-- call. A token in the store is a value; the caller of Issue shares its pointer and only reads it.
-- The two readings of the clock in IssueWithHLS are one argument; no method reads CreatedAt.
pub mod Promise
pub mod Validity
mod Tests
use hush_go.Base.{
  ℕ, ◌-◌, Bool, true, false, not, Bytes, [], Outcome, ok, err, ◌==◌, if◌then◌else◌, Option, none,
  some,
}
use hush_go.Base.{no_randomness}
use hush_go.Base.Int.{ℤ, pos, ◌-ℤ◌, ltb_ℤ}
use hush_go.Base.Dict
use hush_go.Base.Dict.{Dict, Key, string_key, lookup, insert, delete_if}

-- DefaultMaxTokenTTL: two hours in nanoseconds.
abbrev pub default_max_token_ttl : ℤ
default_max_token_ttl = pos 7_200_000_000_000

pub record Token : Type 0 where
  pub id : Bytes
  pub track_id : Bytes
  pub hls_url : Bytes
  pub created_at : ℤ
  pub issued_at : ℤ
  pub session_id : ℕ

-- TokenStore; a nil ValidateSession is `none`.
pub record TokenStore (W : Type 0) : Type 0 where
  pub validate_session : Option (W → ℕ → Bool)
  pub tokens : Dict Bytes Token
  pub max_token_ttl : ℤ

module _ {W : Type 0} where
  -- NewTokenStore
  unfoldable pub new_token_store : Option (W → ℕ → Bool) → TokenStore W
  new_token_store validate_session = record {
    validate_session = validate_session;
    tokens = [];
    max_token_ttl = default_max_token_ttl;
  }

  -- IssueWithHLS and Issue; `random` is what rand.Read gives.
  unfoldable pub issue_with_hls :
      TokenStore W → Option Bytes → ℤ → ℕ → Bytes → Bytes → TokenStore W × Outcome Token
  issue_with_hls ts none now session_id track_id hls_url = (ts, err no_randomness)
  issue_with_hls ts (some id) now session_id track_id hls_url =
      let tok : Token = record {
        id = id;
        track_id = track_id;
        hls_url = hls_url;
        created_at = now;
        issued_at = now;
        session_id = session_id;
      } in
      (record ts { tokens = insert id tok ts.tokens }, ok tok)

  unfoldable pub issue : TokenStore W → Option Bytes → ℤ → ℕ → Bytes → TokenStore W × Outcome Token
  issue ts random now session_id track_id = issue_with_hls ts random now session_id track_id []

  -- LookupHLS
  unfoldable pub lookup_hls : TokenStore W → Bytes → Bytes
  lookup_hls ts token_id = elim (lookup token_id ts.tokens) [ none ↦ [] | some tok ↦ tok.hls_url ]

  -- The two tests of Validate.
  unfoldable pub is_old : TokenStore W → ℤ → Token → Bool
  is_old ts now tok = ltb_ℤ ts.max_token_ttl (now -ℤ tok.issued_at)

  unfoldable pub session_is_dead : Option (W → ℕ → Bool) → W → ℕ → Bool
  session_is_dead none w session_id = false
  session_is_dead (some is_alive) w session_id = not (is_alive w session_id)

  -- Validate behind its lookup.
  unfoldable pub validate_found : TokenStore W → W → ℤ → Bytes → Option Token → TokenStore W × Bool
  validate_found ts w now token_id none = (ts, false)
  validate_found ts w now token_id (some tok) =
      if is_old ts now tok
      then (record ts { tokens = Dict.delete token_id ts.tokens }, false)
      else if session_is_dead ts.validate_session w tok.session_id
      then (record ts { tokens = Dict.delete token_id ts.tokens }, false)
      else (
        record ts { tokens = insert token_id (record tok { created_at = now }) ts.tokens },
        true,
      )

  unfoldable pub validate : TokenStore W → W → ℤ → Bytes → TokenStore W × Bool
  validate ts w now token_id = validate_found ts w now token_id (lookup token_id ts.tokens)

  -- Exists
  unfoldable pub exists : TokenStore W → Bytes → Bool
  exists ts token_id = elim (lookup token_id ts.tokens) [ none ↦ false | some tok ↦ true ]

  -- RevokeBySession
  unfoldable pub revoke_by_session : TokenStore W → ℕ → TokenStore W
  revoke_by_session ts session_id = record ts {
    tokens = delete_if (λ _ tok. tok.session_id == session_id) ts.tokens;
  }

  -- GC
  unfoldable pub gc : TokenStore W → ℤ → TokenStore W
  gc ts now = record ts {
    tokens = delete_if (λ _ tok. ltb_ℤ ts.max_token_ttl (now -ℤ tok.issued_at)) ts.tokens;
  }
