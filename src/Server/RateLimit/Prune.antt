-- ===== src/Server/RateLimit/Prune.antt =====
-- Pruning: what is left of a key's timestamps in order are those after the cutoff.
use hush_go.Base.{
  ℕ, suc, ◌+◌, true, List, [], ◌∷◌, ◌++◌, length, drop, All, ◌≡◌, refl, ap, sym, subst, ltb, le→ltb,
  if◌then◌else◌, arith, Bool-cases, inl, inr,
}
use hush_go.Base.Int.{ℤ, ltb_ℤ, pos_part, neg_part, ◌≤ℤ◌}
use hush_go.Server.RateLimit.{first_valid, prune}

-- How many times lie after `c`.
abbrev pub count_after : ℤ → List ℤ → ℕ
count_after c [] = 0
count_after c (t ∷ ts) = if ltb_ℤ c t then suc (count_after c ts) else count_after c ts

-- The times are in order and none is later than `last`.
abbrev pub IsOrdered : ℤ → List ℤ → Type 0
IsOrdered last [] = Unit
IsOrdered last (t ∷ ts) = (t ≤ℤ last) × All (λ u. t ≤ℤ u) ts × IsOrdered last ts

abbrev pub drop_old : ℤ → List ℤ → List ℤ
drop_old c [] = []
drop_old c (t ∷ ts) = if ltb_ℤ c t then t ∷ ts else drop_old c ts

first_valid-suc :
    (c : ℤ) (ts : List ℤ) (i : ℕ) → first_valid c ts (suc i) ≡ suc (first_valid c ts i)
unfolding first_valid
first_valid-suc c [] i = refl
first_valid-suc c (t ∷ ts) i = ground (arith, first_valid-suc c ts (suc i))

pub drop-first_valid : (c : ℤ) (ts : List ℤ) → drop (first_valid c ts 0) ts ≡ drop_old c ts
unfolding first_valid
drop-first_valid c [] = refl
drop-first_valid c (t ∷ ts) = elim (Bool-cases (ltb_ℤ c t)) [
  | inl after ↦ rw after
  | inr before ↦ rw (before, first_valid-suc c ts 0) (drop-first_valid c ts)
]

pub prune-drop_old : (c : ℤ) (ts : List ℤ) → prune c ts ≡ drop_old c ts
unfolding prune
prune-drop_old c ts = elim (Bool-cases (ltb 0 (first_valid c ts 0))) [
  | inl some_old ↦ rw some_old (drop-first_valid c ts)
  | inr none_old ↦
      rw none_old
        (subst (λ n. drop n ts ≡ drop_old c ts) {y = 0} (ground arith) (drop-first_valid c ts))
]

count_after-All :
    (c t : ℤ) (ts : List ℤ) → ltb_ℤ c t ≡ true → All (λ u. t ≤ℤ u) ts → count_after c ts ≡ length ts
count_after-All c t [] h k = refl
count_after-All c t (u ∷ ts) h k = ground (arith, count_after-All c t ts h k.1)

-- Of times in order, those that are left are the ones after the cutoff.
pub length-drop_old :
    (c last : ℤ) (ts : List ℤ) → IsOrdered last ts → length (drop_old c ts) ≡ count_after c ts
length-drop_old c last [] h = refl
length-drop_old c last (t ∷ ts) h = elim (Bool-cases (ltb_ℤ c t)) [
  | inl after ↦ rw after (ap suc (sym (count_after-All c t ts after h.1)))
  | inr before ↦ rw before (length-drop_old c last ts h.2)
]

-- After a later point nothing changes.
pub count_after-drop_old :
    (c d : ℤ) (ts : List ℤ) → c ≤ℤ d → count_after d (drop_old c ts) ≡ count_after d ts
count_after-drop_old c d [] h = refl
count_after-drop_old c d (t ∷ ts) h = elim (Bool-cases (ltb_ℤ c t)) [
  | inl after ↦ rw after
  | inr before ↦
      rw (before, le→ltb (pos_part d + neg_part t) (pos_part t + neg_part d) (ground arith))
        (count_after-drop_old c d ts h)
]

pub drop_old-IsOrdered :
    (c last : ℤ) (ts : List ℤ) → IsOrdered last ts → IsOrdered last (drop_old c ts)
drop_old-IsOrdered c last [] h = tt
drop_old-IsOrdered c last (t ∷ ts) h = elim (Bool-cases (ltb_ℤ c t)) [
  | inl after ↦ rw after h
  | inr before ↦ rw before (drop_old-IsOrdered c last ts h.2)
]

pub count_after-append :
    (c t : ℤ) (ts : List ℤ)
    → count_after c (ts ++ (t ∷ [])) ≡ count_after c ts + (if ltb_ℤ c t then 1 else 0)
count_after-append c t [] = ground arith
count_after-append c t (u ∷ ts) = ground (arith, count_after-append c t ts)

pub IsOrdered-later :
    (last now : ℤ) (ts : List ℤ) → last ≤ℤ now → IsOrdered last ts → IsOrdered now ts
IsOrdered-later last now [] h k = tt
IsOrdered-later last now (t ∷ ts) h k = (omega arith, k.1, IsOrdered-later last now ts h k.2)

All-append_last :
    (t now last : ℤ) (ts : List ℤ)
    → t ≤ℤ last
    → last ≤ℤ now
    → All (λ u. t ≤ℤ u) ts
    → All (λ u. t ≤ℤ u) (ts ++ (now ∷ []))
All-append_last t now last [] h k a = (omega arith, tt)
All-append_last t now last (u ∷ ts) h k a = (a.0, All-append_last t now last ts h k a.1)

pub IsOrdered-append :
    (last now : ℤ) (ts : List ℤ)
    → last ≤ℤ now
    → IsOrdered last ts
    → IsOrdered now (ts ++ (now ∷ []))
IsOrdered-append last now [] h k = (omega arith, tt, tt)
IsOrdered-append last now (t ∷ ts) h k =
    (omega arith, All-append_last t now last ts k.0 h k.1, IsOrdered-append last now ts h k.2)
