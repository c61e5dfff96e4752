-- ===== src/Server/RateLimit/Window.antt =====
-- The limiter against a sliding window over the whole history of accepted requests.
use hush_go.Base.{
  Bool, true, false, Bytes, List, [], ◌∷◌, ◌++◌, length, ◌≡◌, ◌∙◌, if◌then◌else◌, arith, str_eq,
}
use hush_go.Base.Int.{ℤ, pos, ◌-ℤ◌, ltb_ℤ, ◌≤ℤ◌, -ℤ_parts}
use hush_go.Base.Dict.{string_key}
use hush_go.Server.RateLimit.{Limiter, allow, gc}
use hush_go.Server.RateLimit.Prune.{
  count_after, IsOrdered, drop_old, length-drop_old, count_after-drop_old, drop_old-IsOrdered,
  count_after-append, IsOrdered-later, IsOrdered-append,
}

-- What happens to a limiter: a request under a key, or a collection, each with its time.
pub data Event : Type 0 where
  request : ℤ → Bytes → Event
  collect : ℤ → Event

-- Each event is no earlier than `last` and those before it.
abbrev pub InOrder : ℤ → List Event → Type 0
InOrder last [] = Unit
InOrder last (request now key ∷ es) = (last ≤ℤ now) × InOrder now es
InOrder last (collect now ∷ es) = (last ≤ℤ now) × InOrder now es

-- The answers of `Allow` to the requests.
unfoldable pub answers : Limiter → List Event → List Bool
answers l [] = []
answers l (request now key ∷ es) = let (l', ok') = allow l now key in ok' ∷ answers l' es
answers l (collect now ∷ es) = answers (gc l now) es

-- The times of the accepted requests of each key.
abbrev pub History : Type 0
History = Bytes → List ℤ

-- A request is accepted if fewer than `limit` requests of its key were accepted in the window that
-- ends at it.
abbrev pub accepts : ℤ → ℤ → History → ℤ → Bytes → Bool
accepts limit window h now key = ltb_ℤ (pos (count_after (now -ℤ window) (h key))) limit

abbrev pub record_accepted : History → ℤ → Bytes → History
record_accepted h now key k = if str_eq key k then h k ++ (now ∷ []) else h k

unfoldable pub window_answers : ℤ → ℤ → History → List Event → List Bool
window_answers limit window h [] = []
window_answers limit window h (request now key ∷ es) =
    let accepted = window_answers limit window (record_accepted h now key) es in
    let refused = window_answers limit window h es in
    if accepts limit window h now key then true ∷ accepted else false ∷ refused
window_answers limit window h (collect now ∷ es) = window_answers limit window h es

-- The limiter's timestamps of one key stand for its history, from the window that ends at `last` on.
pub record Covers (window last : ℤ) (ts history : List ℤ) : Type 0 where
  pub ordered : IsOrdered last ts
  pub counts : (c : ℤ) → (last -ℤ window) ≤ℤ c → count_after c ts ≡ count_after c history

module _ (window last now : ℤ) (ts history : List ℤ) (later : last ≤ℤ now) where
  pub Covers-drop_old :
      Covers window last ts history → Covers window now (drop_old (now -ℤ window) ts) history
  Covers-drop_old h = record {
    ordered =
        IsOrdered-later last now _ later (drop_old-IsOrdered (now -ℤ window) last ts h.ordered);
    counts =
        λ c p. count_after-drop_old (now -ℤ window) c ts p ∙ h.counts c (omega (arith, -ℤ_parts));
  }

  -- What Allow measures is the number of accepted requests in the window.
  pub length-drop_old_history :
      Covers window last ts history
      → length (drop_old (now -ℤ window) ts) ≡ count_after (now -ℤ window) history
  length-drop_old_history h =
      length-drop_old (now -ℤ window) last ts h.ordered
      ∙ h.counts (now -ℤ window) (omega (arith, -ℤ_parts))

  pub Covers-append :
      Covers window now ts history → Covers window now (ts ++ (now ∷ [])) (history ++ (now ∷ []))
  Covers-append h = record {
    ordered = IsOrdered-append now now ts (omega arith) h.ordered;
    counts =
        λ c p. rw (count_after-append c now ts, count_after-append c now history, h.counts c p);
  }

  pub Covers-later : Covers window last ts history → Covers window now ts history
  Covers-later h = record {
    ordered = IsOrdered-later last now ts later h.ordered;
    counts = λ c p. h.counts c (omega (arith, -ℤ_parts));
  }
