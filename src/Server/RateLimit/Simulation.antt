-- ===== src/Server/RateLimit/Simulation.antt =====
-- A limiter simulates the sliding window over the history of its accepted requests.
use hush_go.Base.{
  ℕ, zero, suc, ◌≤◌, true, false, Bytes, List, [], ◌∷◌, ◌++◌, length, drop, ◌≡◌, refl, ap, sym,
  subst, ◌∙◌, leb, if◌then◌else◌, arith, Option, none, some, str_eq, str_eq_iff, str_eq_refl,
  Bool-cases, inl, inr,
}
use hush_go.Base.Int.{ℤ, ◌-ℤ◌, ◌≤ℤ◌}
use hush_go.Base.Dict.{
  string_key, lookup, insert, IsUnique, lookup-insert, insert-IsUnique, lookup-revise,
  revise-IsUnique, revised,
}
use hush_go.Server.RateLimit.{
  Limiter, new_limiter, timestamps_of, prune, allow, sweep, gc, or_empty, first_valid,
}
use hush_go.Server.RateLimit.Prune.{drop_old, prune-drop_old, drop-first_valid}
use hush_go.Server.RateLimit.Window.{
  Event, request, collect, InOrder, answers, History, accepts, record_accepted, window_answers,
  Covers, Covers-drop_old, length-drop_old_history, Covers-append, Covers-later,
}

-- The limiter's timestamps of every key stand for the key's history.
record Simulates (limit window last : ℤ) (l : Limiter) (h : History) : Type 0 where
  limit_set : l.limit ≡ limit
  window_set : l.window ≡ window
  unique : IsUnique l.entries
  covers : (k : Bytes) → Covers window last (timestamps_of l k) (h k)

new_limiter-Simulates :
    (limit window last : ℤ) → Simulates limit window last (new_limiter limit window) (λ _. [])
unfolding new_limiter timestamps_of lookup
new_limiter-Simulates limit window last = record {
  limit_set = refl;
  window_set = refl;
  unique = tt;
  covers = λ k. record { ordered = tt; counts = λ c p. refl };
}

-- The refused branch and the accepted one.
module _ (limit window last now : ℤ) (l : Limiter) (h : History) (key : Bytes)
    (later : last ≤ℤ now) where
  abbrev pruned : List ℤ
  pruned = drop_old (now -ℤ window) (timestamps_of l key)

  insert-Simulates :
      (ts : List ℤ) (h' : History)
      → Simulates limit window last l h
      → Covers window now ts (h' key)
      → ((k : Bytes) → str_eq key k ≡ false → h' k ≡ h k)
      → Simulates limit window now (record l { entries = insert key ts l.entries }) h'
  unfolding timestamps_of
  insert-Simulates ts h' s c others = record {
    limit_set = s.limit_set;
    window_set = s.window_set;
    unique = insert-IsUnique key ts l.entries s.unique;
    covers = λ k. elim (Bool-cases (str_eq key k)) [
      | inl same ↦
          rw (lookup-insert key k ts l.entries, same)
            (subst (λ j. Covers window now ts (h' j)) ((str_eq_iff key k).0 same) c)
      | inr other ↦
          rw (lookup-insert key k ts l.entries, other, others k other)
            (Covers-later window last now _ (h k) later (s.covers k))
    ];
  }

  pruned-Covers : Simulates limit window last l h → Covers window now pruned (h key)
  pruned-Covers s = Covers-drop_old window last now _ (h key) later (s.covers key)

  -- Allow decides as the window does.
  allow_lem :
      Simulates limit window last l h
      → allow l now key ≡ (
          if accepts limit window h now key
          then (record l { entries = insert key (pruned ++ (now ∷ [])) l.entries }, true)
          else (record l { entries = insert key pruned l.entries }, false))
  unfolding allow prune insert first_valid timestamps_of
  allow_lem s = rw (
    s.window_set,
    s.limit_set,
    prune-drop_old (now -ℤ window) (timestamps_of l key),
    length-drop_old_history window last now _ (h key) later (s.covers key),
  )

  accepted-Simulates :
      Simulates limit window last l h
      → Simulates limit window now
          (record l { entries = insert key (pruned ++ (now ∷ [])) l.entries })
          (record_accepted h now key)
  accepted-Simulates s =
      insert-Simulates _ (record_accepted h now key) s
        (rw (str_eq_refl key)
          (Covers-append window now now pruned (h key) (omega arith) (pruned-Covers s)))
        (λ k other. rw other)

  refused-Simulates :
      Simulates limit window last l h
      → Simulates limit window now (record l { entries = insert key pruned l.entries }) h
  refused-Simulates s = insert-Simulates pruned h s (pruned-Covers s) (λ _ _. refl)

drop_all : (n : ℕ) (ts : List ℤ) → length ts ≤ n → drop n ts ≡ []
drop_all zero [] h = refl
drop_all zero (t ∷ ts) h = absurd (omega arith)
drop_all (suc n) [] h = refl
drop_all (suc n) (t ∷ ts) h = drop_all n ts (omega arith)

-- What gc leaves of a key's timestamps.
or_empty-sweep :
    (cutoff : ℤ) (k : Bytes) (o : Option (List ℤ))
    → or_empty (revised (λ _ ts. sweep cutoff ts) k o) ≡ drop_old cutoff (or_empty o)
unfolding sweep
or_empty-sweep cutoff k none = refl
or_empty-sweep cutoff k (some ts) = elim (Bool-cases (leb (length ts) (first_valid cutoff ts 0))) [
  | inl all_old ↦
      rw all_old
        (sym (drop_all (first_valid cutoff ts 0) ts (ground arith)) ∙ drop-first_valid cutoff ts)
  | inr some_left ↦ rw some_left (drop-first_valid cutoff ts)
]

gc-Simulates :
    (limit window last now : ℤ) (l : Limiter) (h : History)
    → last ≤ℤ now
    → Simulates limit window last l h
    → Simulates limit window now (gc l now) h
unfolding gc timestamps_of
gc-Simulates limit window last now l h later s = record {
  limit_set = s.limit_set;
  window_set = s.window_set;
  unique = revise-IsUnique _ l.entries s.unique;
  covers = λ k.
      rw
        (
          lookup-revise _ k l.entries s.unique,
          s.window_set,
          or_empty-sweep (now -ℤ window) k (lookup k l.entries),
        )
        (Covers-drop_old window last now _ (h k) later (s.covers k));
}

answers-Simulates :
    (limit window last : ℤ) (l : Limiter) (h : History) (es : List Event)
    → InOrder last es
    → Simulates limit window last l h
    → answers l es ≡ window_answers limit window h es
unfolding answers window_answers
answers-Simulates limit window last l h [] o s = refl
answers-Simulates limit window last l h (request now key ∷ es) o s =
    rw (allow_lem limit window last now l h key o.0 s)
      (elim (Bool-cases (accepts limit window h now key)) [
        | inl accepted ↦ rw accepted (
            ap (true ∷◌) (
              answers-Simulates limit window now _ _ es o.1
                (accepted-Simulates limit window last now l h key o.0 s)))
        | inr refused ↦ rw refused (
            ap (false ∷◌) (
              answers-Simulates limit window now _ _ es o.1
                (refused-Simulates limit window last now l h key o.0 s)))
      ])
answers-Simulates limit window last l h (collect now ∷ es) o s =
    answers-Simulates limit window now (gc l now) h es o.1
      (gc-Simulates limit window last now l h o.0 s)

-- Over any sequence of requests and collections in the order of time, a new limiter answers each request
-- as the sliding window does: yes exactly if fewer than `limit` requests under the same key were
-- accepted in the window that ends at it.
pub answers-window_answers :
    (limit window last : ℤ) (es : List Event)
    → InOrder last es
    → answers (new_limiter limit window) es ≡ window_answers limit window (λ _. []) es
answers-window_answers limit window last es o =
    answers-Simulates limit window last (new_limiter limit window) _ es o
      (new_limiter-Simulates limit window last)
