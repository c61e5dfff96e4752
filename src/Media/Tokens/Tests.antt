-- ===== src/Media/Tokens/Tests.antt =====
-- The token store at a concrete input.
use hush_go.Base.{ℕ, Bool, false, List, [], ◌∷◌, ◌≡◌, ◌==◌, Option, none, some}
use hush_go.Base.Int.{pos}
use hush_go.Media.Tokens.{new_token_store, validate, exists, lookup_hls}
use hush_go.Media.Tokens.Promise.{
  Action, issued, validated, revoked, collected, perform_all, promise_all, is_some, refreshed,
}
use hush_go.Media.Tokens.Validity.{url_of, validate-refreshed}

-- A check that reads which sessions live.
abbrev living : Option ((ℕ → Bool) → ℕ → Bool)
living = some (λ live id. live id)

abbrev seven_lives : ℕ → Bool
seven_lives id = id == 7

abbrev none_lives : ℕ → Bool
none_lives id = false

abbrev calls : List (Action (ℕ → Bool))
calls =
    issued (1 ∷ []) (pos 10) 7 (97 ∷ []) (98 ∷ [])
    ∷ issued (2 ∷ []) (pos 20) 8 (97 ∷ []) []
    ∷ validated seven_lives (pos 30) (1 ∷ [])
    ∷ validated seven_lives (pos 30) (2 ∷ [])
    ∷ revoked 9
    ∷ collected (pos 40)
    ∷ []

-- The session has ended since the last Validate.
validate-refreshed_example :
    let ts = perform_all (new_token_store living) calls in
    let promised = promise_all living (λ _. none) calls (1 ∷ []) in
    (exists ts (1 ∷ []) ≡ is_some promised)
    × (lookup_hls ts (1 ∷ []) ≡ url_of promised)
    × ((validate ts none_lives (pos 50) (1 ∷ [])).1
        ≡ is_some (refreshed living none_lives (pos 50) promised))
validate-refreshed_example = validate-refreshed living calls none_lives (pos 50) (1 ∷ [])
