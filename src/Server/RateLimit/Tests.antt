-- ===== src/Server/RateLimit/Tests.antt =====
-- Runs of the limiter, and its theorems at concrete inputs.
use hush_go.Base.{true, false, Bytes, List, [], ◌∷◌, ◌≡◌, refl, arith, str_eq}
use hush_go.Base.Int.{pos, ◌-ℤ◌}
use hush_go.Base.Dict.{lookup, insert, revise}
use hush_go.Server.RateLimit.{new_limiter, allow, gc, prune, first_valid, timestamps_of, sweep}
use hush_go.Server.RateLimit.Window.{Event, request, collect, answers, window_answers}
use hush_go.Server.RateLimit.Simulation.{answers-window_answers}
use hush_go.Server.RateLimit.Cleaning.{
  start_cleanup, stop_cleanup, IsBalanced, turn_all, turn_all-IsBalanced,
}

abbrev alice : Bytes
alice = 97 ∷ []

abbrev bob : Bytes
bob = 98 ∷ []

-- Two requests in ten ticks: the third is refused, the one at 11 falls in a new window.
abbrev day : List Event
day =
    request (pos 1) alice
    ∷ request (pos 2) alice
    ∷ request (pos 3) alice
    ∷ request (pos 3) bob
    ∷ collect (pos 5)
    ∷ request (pos 11) alice
    ∷ collect (pos 30)
    ∷ request (pos 31) bob
    ∷ []

answers-day :
    answers (new_limiter (pos 2) (pos 10)) day ≡ true ∷ true ∷ false ∷ true ∷ true ∷ true ∷ []
unfolding answers new_limiter allow gc prune first_valid timestamps_of lookup insert str_eq ◌-ℤ◌
    revise sweep
answers-day = refl

answers-window_answers_example :
    answers (new_limiter (pos 2) (pos 10)) day ≡ window_answers (pos 2) (pos 10) (λ _. []) day
answers-window_answers_example = answers-window_answers (pos 2) (pos 10) (pos 0) day (ground arith)

turn_all-IsBalanced_example : IsBalanced (
    turn_all
      (new_limiter (pos 2) (pos 10), 0, 0)
      (start_cleanup ∷ start_cleanup ∷ stop_cleanup ∷ stop_cleanup ∷ start_cleanup ∷ []))
turn_all-IsBalanced_example =
    turn_all-IsBalanced (pos 2) (pos 10)
      (start_cleanup ∷ start_cleanup ∷ stop_cleanup ∷ stop_cleanup ∷ start_cleanup ∷ [])
