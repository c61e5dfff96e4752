-- ===== src/Server/RateLimit.antt =====
-- server/ratelimit.go: the sliding-window limiter. Its mutex makes each method one step; time.Now() is
-- an argument, in nanoseconds. The goroutine of CleanupEvery is a source of calls of gc.
pub mod Cleaning
pub mod Prune
pub mod Simulation
pub mod Tests
pub mod Window
use hush_go.Base.{
  ℕ, suc, ◌+◌, ◌-◌, ◌*◌, Bool, true, false, Bytes, List, [], ◌∷◌, ◌++◌, length, drop, ltb, leb,
  if◌then◌else◌, Option, none, some,
}
use hush_go.Base.Int.{ℤ, pos, negsuc, ◌-ℤ◌, ◌+ℤ◌, ltb_ℤ, pos_part, neg_part}
use hush_go.Base.Dict
use hush_go.Base.Dict.{Dict, Key, string_key, lookup, insert, revise}

-- SlidingWindowLimiter; `cleaning` says that stopCh is not nil.
pub record Limiter : Type 0 where
  pub limit : ℤ
  pub window : ℤ
  pub entries : Dict Bytes (List ℤ)
  pub cleaning : Bool

-- NewSlidingWindowLimiter
unfoldable pub new_limiter : ℤ → ℤ → Limiter
new_limiter limit window = record { limit = limit; window = window; entries = []; cleaning = false }

-- l.entries[key], which is nil for a missing key.
abbrev pub or_empty : Option (List ℤ) → List ℤ
or_empty none = []
or_empty (some timestamps) = timestamps

unfoldable pub timestamps_of : Limiter → Bytes → List ℤ
timestamps_of l key = or_empty (lookup key l.entries)

-- The loop over the timestamps: the index of the first one after the cutoff, or their number. `i` is
-- the index of the first one in the list.
unfoldable pub first_valid : ℤ → List ℤ → ℕ → ℕ
first_valid cutoff [] i = i
first_valid cutoff (t ∷ timestamps) i =
    let later = first_valid cutoff timestamps (suc i) in if ltb_ℤ cutoff t then i else later

-- Allow's timestamps without the expired ones.
unfoldable pub prune : ℤ → List ℤ → List ℤ
prune cutoff timestamps =
    let first = first_valid cutoff timestamps 0 in
    if ltb 0 first then drop first timestamps else timestamps

-- Allow at the time `now`.
unfoldable pub allow : Limiter → ℤ → Bytes → Limiter × Bool
allow l now key =
    let timestamps = prune (now -ℤ l.window) (timestamps_of l key) in
    if ltb_ℤ (pos (length timestamps)) l.limit
    then (record l { entries = insert key (timestamps ++ (now ∷ [])) l.entries }, true)
    else (record l { entries = insert key timestamps l.entries }, false)

-- The body of gc's loop: what becomes of a key's timestamps.
unfoldable pub sweep : ℤ → List ℤ → Option (List ℤ)
sweep cutoff timestamps =
    let first = first_valid cutoff timestamps 0 in
    if leb (length timestamps) first then none else some (drop first timestamps)

-- gc at the time `now`.
unfoldable pub gc : Limiter → ℤ → Limiter
gc l now = record l {
  entries = revise (λ _ timestamps. sweep (now -ℤ l.window) timestamps) l.entries;
}

-- CleanupEvery, and whether it starts the goroutine. The interval is left out: the state does not
-- depend on it, and time.NewTicker, which panics on an interval of 0 or less, is called in the
-- goroutine, whose ticks are the calls of gc.
unfoldable pub cleanup_every : Limiter → Limiter × Bool
cleanup_every l = if l.cleaning then (l, false) else (record l { cleaning = true }, true)

-- Stop, and whether it closes the channel.
unfoldable pub stop : Limiter → Limiter × Bool
stop l = (record l { cleaning = false }, l.cleaning)

-- LimiterConfig, DefaultLimiterConfig and NewDefaultLimiter
pub record LimiterConfig : Type 0 where
  pub requests_per_second_per_key : ℤ
  pub requests_per_minute_per_key : ℤ
  pub burst_size : ℤ
  pub cleanup_interval : ℤ

abbrev second : ℕ
second = 1_000_000_000

unfoldable pub default_limiter_config : LimiterConfig
default_limiter_config = record {
  requests_per_second_per_key = pos 10;
  requests_per_minute_per_key = pos 600;
  burst_size = pos 20;
  cleanup_interval = pos (5 * 60 * second);
}

-- The sums of the configured numbers do not reach the bounds of an int: the limiters per second and per minute, and whether each starts its goroutine.
unfoldable pub new_default_limiter : LimiterConfig → (Limiter × Bool) × (Limiter × Bool)
new_default_limiter cfg = (
  cleanup_every (new_limiter (cfg.requests_per_second_per_key +ℤ cfg.burst_size) (pos second)),
  cleanup_every
      (new_limiter (cfg.requests_per_minute_per_key +ℤ cfg.burst_size) (pos (60 * second))),
)
