-- ===== src/Server/RateLimit/Cleaning.antt =====
-- The cleanup goroutines of a limiter.
use hush_go.Base.{ℕ, ◌+◌, Bool, List, [], ◌∷◌, ◌≡◌, if◌then◌else◌, arith, Bool-cases, inl, inr}
use hush_go.Base.Int.{ℤ}
use hush_go.Server.RateLimit.{Limiter, new_limiter, cleanup_every, stop}

-- Calls of CleanupEvery and of Stop.
pub data Switch : Type 0 where
  start_cleanup : Switch
  stop_cleanup : Switch

-- The limiter, the goroutines started and the channels closed.
abbrev pub Cleaners : Type 0
Cleaners = Limiter × ℕ × ℕ

abbrev one_if : Bool → ℕ
one_if b = if b then 1 else 0

abbrev pub turn : Cleaners → Switch → Cleaners
turn (l, started, closed) start_cleanup =
    let (l', starts) = cleanup_every l in (l', started + one_if starts, closed)
turn (l, started, closed) stop_cleanup =
    let (l', closes) = stop l in (l', started, closed + one_if closes)

abbrev pub turn_all : Cleaners → List Switch → Cleaners
turn_all c [] = c
turn_all c (s ∷ switches) = turn_all (turn c s) switches

abbrev pub IsBalanced : Cleaners → Type 0
IsBalanced (l, started, closed) = started ≡ closed + (if l.cleaning then 1 else 0)

turn-IsBalanced : (c : Cleaners) (s : Switch) → IsBalanced c → IsBalanced (turn c s)
unfolding cleanup_every stop
turn-IsBalanced (l, started, closed) start_cleanup h = elim (Bool-cases l.cleaning) [
  | inl on ↦ rw on (ground arith)
  | inr off ↦ rw off (ground arith)
]
turn-IsBalanced (l, started, closed) stop_cleanup h = ground arith

turn_all-keeps_balance :
    (switches : List Switch) (c : Cleaners) → IsBalanced c → IsBalanced (turn_all c switches)
turn_all-keeps_balance [] c h = h
turn_all-keeps_balance (s ∷ switches) c h =
    turn_all-keeps_balance switches (turn c s) (turn-IsBalanced c s h)

-- After any calls of CleanupEvery and Stop on a new limiter, the goroutines started exceed the channels
-- closed by one while the limiter cleans, and equal them otherwise.
pub turn_all-IsBalanced :
    (limit window : ℤ) (switches : List Switch)
    → IsBalanced (turn_all (new_limiter limit window, 0, 0) switches)
unfolding new_limiter
turn_all-IsBalanced limit window switches =
    turn_all-keeps_balance switches (new_limiter limit window, 0, 0) (omega arith)
