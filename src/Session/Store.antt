-- ===== src/Session/Store.antt =====
-- session/session.go: sessions, their timeouts and the store that holds them. The store's mutex makes
-- each method one step; time.Now() is an argument. A session in the store is the value that was Set:
-- Touch changes LastUsed through the shared pointer, and no method of the store reads LastUsed of a
-- stored session. Durations and times are nanoseconds; time.Since does not reach the 292 years at
-- which a Duration saturates.
pub mod Promise
pub mod Around
use hush_go.Base.{ℕ, ◌-◌, ◌*◌, Bool, Bytes, [], length, if◌then◌else◌, Option}
use hush_go.Base.Int.{ℤ, pos, negsuc, ◌-ℤ◌, ltb_ℤ, pos_part, neg_part, ◌≤ℤ◌}
use hush_go.Base.Dict
use hush_go.Base.Dict.{
  Dict, Key, number_key, lookup, insert, IsUnique, keep, lookup-insert, insert-IsUnique,
  lookup-delete_if, delete_if-IsUnique, lookup-delete,
}

abbrev minute : ℕ
minute = 60_000_000_000

-- DefaultIdleTimeout, DefaultMaxLifetime and DefaultGCInterval
abbrev pub default_idle_timeout : ℤ
default_idle_timeout = pos (5 * minute)

abbrev pub default_max_lifetime : ℤ
default_max_lifetime = pos (24 * 60 * minute)

abbrev pub default_gc_interval : ℤ
default_gc_interval = pos minute

pub record SessionConfig : Type 0 where
  pub idle_timeout : ℤ
  pub max_lifetime : ℤ
  pub gc_interval : ℤ

-- A duration that is not above zero stands for the default.
abbrev pub or_default : ℤ → ℤ → ℤ
or_default d default = if ltb_ℤ (pos 0) d then d else default

-- fillDefaults
unfoldable pub fill_defaults : SessionConfig → SessionConfig
fill_defaults c = record {
  idle_timeout = or_default c.idle_timeout default_idle_timeout;
  max_lifetime = or_default c.max_lifetime default_max_lifetime;
  gc_interval = or_default c.gc_interval default_gc_interval;
}

-- Session; a nil Key is `none`.
pub record Session : Type 0 where
  pub id : ℕ
  pub api_key_id : Bytes
  pub key : Option Bytes
  pub created_at : ℤ
  pub last_used : ℤ

-- NewSession at the time `now`.
unfoldable pub new_session : ℤ → ℕ → Bytes → Option Bytes → Session
new_session now id api_key_id key = record {
  id = id;
  api_key_id = api_key_id;
  key = key;
  created_at = now;
  last_used = now;
}

-- Touch
unfoldable pub touch : ℤ → Session → Session
touch now s = record s { last_used = now }

pub record SessionStore : Type 0 where
  pub config : SessionConfig
  pub sessions : Dict ℕ Session

-- NewSessionStore
unfoldable pub new_session_store : SessionConfig → SessionStore
unfolding fill_defaults
new_session_store config = record { config = fill_defaults config; sessions = [] }

-- Get, Set, Delete and Len
unfoldable pub get : SessionStore → ℕ → Option Session
get ss id = lookup id ss.sessions

unfoldable pub set : SessionStore → Session → SessionStore
set ss s = record ss { sessions = insert s.id s ss.sessions }

unfoldable pub delete : SessionStore → ℕ → SessionStore
delete ss id = record ss { sessions = Dict.delete id ss.sessions }

unfoldable pub len : SessionStore → ℕ
len ss = length ss.sessions

-- IsExpired and IsIdleDead
unfoldable pub is_expired : SessionStore → ℤ → Session → Bool
is_expired ss now s = ltb_ℤ ss.config.max_lifetime (now -ℤ s.created_at)

unfoldable pub is_idle_dead : SessionStore → ℤ → Session → Bool
is_idle_dead ss now s = ltb_ℤ ss.config.idle_timeout (now -ℤ s.last_used)

-- GC
unfoldable pub gc : SessionStore → ℤ → SessionStore
gc ss now = record ss {
  sessions = Dict.delete_if (λ _ s. ltb_ℤ ss.config.max_lifetime (now -ℤ s.created_at)) ss.sessions;
}
