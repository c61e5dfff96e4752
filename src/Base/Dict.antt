-- ===== src/Base/Dict.antt =====
-- A Go map as an association list with distinct keys, over any keys with a decidable equality.
-- The order of its entries stands for nothing: Go ranges over a map in any order.
use hush_go.Base.Tests.{◌==◌, ==_iff, if◌then◌else◌, str_eq, str_eq_iff, Bool-cases}
use hush_go.Base.Lists.{Bytes}
use Prim.Native.Nat.{ℕ}
use mathlib.Core.Path.{◌≡◌, refl, subst, ◌∙◌}
use mathlib.Core.Logic.{◌↔◌, inl, inr}
use mathlib.Core.Bool.{Bool, true}
use mathlib.Core.Option.{Option, none, some}
use mathlib.Core.List.{List, [], ◌∷◌}
use native.Mathlib.Omega.{arith}

pub record Key (K : Type 0) : Type 0 where
  pub same : K → K → Bool
  pub same_iff : (a b : K) → (same a b ≡ true) ↔ (a ≡ b)

instance abbrev pub number_key : Key ℕ
number_key = record { same = ◌==◌; same_iff = ==_iff }

instance abbrev pub string_key : Key Bytes
string_key = record { same = str_eq; same_iff = str_eq_iff }

abbrev pub Dict : Type 0 → Type 0 → Type 0
Dict K V = List (K × V)

same_refl : {K : Type 0} ⦃e : Key K⦄ (k : K) → e.same k k ≡ true
same_refl ⦃e⦄ k = (e.same_iff k k).1 refl

module _ {K V : Type 0} ⦃e : Key K⦄ where
  -- m[k], with `none` for a missing key.
  unfoldable pub lookup : K → Dict K V → Option V
  lookup k [] = none
  lookup k ((j, v) ∷ m) = if e.same j k then some v else lookup k m

  -- m[k] = v
  unfoldable pub insert : K → V → Dict K V → Dict K V
  insert k v [] = (k, v) ∷ []
  insert k v ((j, w) ∷ m) = if e.same j k then (j, v) ∷ m else (j, w) ∷ insert k v m

  -- for k, v := range m { if bad(k, v) { delete(m, k) } }
  unfoldable pub delete_if : (K → V → Bool) → Dict K V → Dict K V
  delete_if bad [] = []
  delete_if bad ((j, v) ∷ m) = let rest = delete_if bad m in if bad j v then rest else (j, v) ∷ rest

  -- delete(m, k)
  unfoldable pub delete : K → Dict K V → Dict K V
  unfolding delete_if
  delete k = delete_if (λ j _. e.same j k)

  -- No key stands twice.
  abbrev pub IsUnique : Dict K V → Type 0
  IsUnique [] = Unit
  IsUnique ((k, v) ∷ m) = (lookup k m ≡ none) × IsUnique m

  pub lookup-insert :
      (k j : K) (v : V) (m : Dict K V)
      → lookup j (insert k v m) ≡ (if e.same k j then some v else lookup j m)
  unfolding lookup insert
  lookup-insert k j v [] = refl
  lookup-insert k j v ((i, w) ∷ m) =
      ground (arith, e.same_iff i k, e.same_iff i j, e.same_iff k j, lookup-insert k j v m)

  pub insert-IsUnique : (k : K) (v : V) (m : Dict K V) → IsUnique m → IsUnique (insert k v m)
  unfolding lookup insert
  insert-IsUnique k v [] h = (refl, tt)
  insert-IsUnique k v ((j, w) ∷ m) (fresh, h) =
      ground (arith, e.same_iff j k, e.same_iff k j, lookup-insert k j v m, insert-IsUnique k v m h)

  -- What is kept of a value found under `k`.
  abbrev pub keep : (K → V → Bool) → K → Option V → Option V
  keep bad k none = none
  keep bad k (some v) = if bad k v then none else some v

  lookup-delete_if-none :
      (bad : K → V → Bool) (k : K) (m : Dict K V)
      → lookup k m ≡ none
      → lookup k (delete_if bad m) ≡ none
  unfolding lookup delete_if
  lookup-delete_if-none bad k [] h = refl
  lookup-delete_if-none bad k ((j, v) ∷ m) h = ground (arith, lookup-delete_if-none bad k m)

  pub lookup-delete_if :
      (bad : K → V → Bool) (k : K) (m : Dict K V)
      → IsUnique m
      → lookup k (delete_if bad m) ≡ keep bad k (lookup k m)
  unfolding lookup delete_if
  lookup-delete_if bad k [] h = refl
  lookup-delete_if bad k ((j, v) ∷ m) (fresh, h) = elim (Bool-cases (e.same j k)) [
    | inl here ↦
        let gone =
          lookup-delete_if-none bad k m
            (subst (λ i. lookup i m ≡ none) ((e.same_iff j k).0 here) fresh) in
        rw (here, (e.same_iff j k).0 here)
          (elim (Bool-cases (bad k v)) [ inl b ↦ rw b gone | inr b ↦ rw (b, same_refl k) ])
    | inr there ↦ rw there (elim (Bool-cases (bad j v)) [
      | inl b ↦ rw b (lookup-delete_if bad k m h)
      | inr b ↦ rw (b, there) (lookup-delete_if bad k m h)
    ])
  ]

  pub delete_if-IsUnique :
      (bad : K → V → Bool) (m : Dict K V) → IsUnique m → IsUnique (delete_if bad m)
  unfolding lookup delete_if
  delete_if-IsUnique bad [] h = tt
  delete_if-IsUnique bad ((j, v) ∷ m) (fresh, h) =
      ground (arith, lookup-delete_if-none bad j m fresh, delete_if-IsUnique bad m h)

  keep_same :
      (k j : K) (o : Option V) → keep (λ i _. e.same i k) j o ≡ (if e.same k j then none else o)
  keep_same k j none = ground arith
  keep_same k j (some v) = ground (arith, e.same_iff j k, e.same_iff k j)

  pub lookup-delete :
      (k j : K) (m : Dict K V)
      → IsUnique m
      → lookup j (delete k m) ≡ (if e.same k j then none else lookup j m)
  unfolding delete
  lookup-delete k j m h = lookup-delete_if (λ i _. e.same i k) j m h ∙ keep_same k j (lookup j m)

  pub delete-IsUnique : (k : K) (m : Dict K V) → IsUnique m → IsUnique (delete k m)
  unfolding delete
  delete-IsUnique k m h = delete_if-IsUnique (λ j _. e.same j k) m h

  -- for k, v := range m, with m[k] = w where `f k v` is `some w` and delete(m, k) where it is `none`.
  unfoldable pub revise : (K → V → Option V) → Dict K V → Dict K V
  revise f [] = []
  revise f ((j, v) ∷ m) =
      let rest = revise f m in elim (f j v) [ none ↦ rest | some w ↦ (j, w) ∷ rest ]

  abbrev pub revised : (K → V → Option V) → K → Option V → Option V
  revised f k none = none
  revised f k (some v) = f k v

  lookup-revise-none :
      (f : K → V → Option V) (k : K) (m : Dict K V)
      → lookup k m ≡ none
      → lookup k (revise f m) ≡ none
  unfolding lookup revise
  lookup-revise-none f k [] h = refl
  lookup-revise-none f k ((j, v) ∷ m) h = ground (arith, lookup-revise-none f k m)

  pub lookup-revise :
      (f : K → V → Option V) (k : K) (m : Dict K V)
      → IsUnique m
      → lookup k (revise f m) ≡ revised f k (lookup k m)
  unfolding lookup revise
  lookup-revise f k [] h = refl
  lookup-revise f k ((j, v) ∷ m) (fresh, h) =
      ground (arith, e.same_iff j k, lookup-revise f k m h, lookup-revise-none f j m fresh)

  pub revise-IsUnique : (f : K → V → Option V) (m : Dict K V) → IsUnique m → IsUnique (revise f m)
  unfolding lookup revise
  revise-IsUnique f [] h = tt
  revise-IsUnique f ((j, v) ∷ m) (fresh, h) =
      ground (arith, lookup-revise-none f j m fresh, revise-IsUnique f m h)
