-- ===== src/Server/Hub/Registered.antt =====
-- Which subscriber stands under a topic and an id of the hub.
use hush_go.Base.{
  ℕ, Bool, true, false, ◌&&◌, Bytes, [], ◌∷◌, length, ◌≡◌, refl, subst, ◌==◌, if◌then◌else◌, arith,
  Option, none, some, str_eq, str_eq_iff, str_eq_refl, Bool-cases, inl, inr,
}
use hush_go.Base.Dict
use hush_go.Base.Dict.{
  Dict, Key, string_key, number_key, lookup, insert, IsUnique, lookup-insert, insert-IsUnique,
  lookup-delete, delete-IsUnique,
}
use hush_go.Server.Hub.{or_nil}

-- h.subscribers[topic][id]
abbrev pub found_under : Bytes → Option (Dict Bytes ℕ) → Option ℕ
found_under id none = none
found_under id (some subs) = lookup id subs

abbrev pub find : Dict Bytes (Dict Bytes ℕ) → Bytes → Bytes → Option ℕ
find m topic id = found_under id (lookup topic m)

-- The map of the hub: distinct keys on both levels.
pub record IsTable (m : Dict Bytes (Dict Bytes ℕ)) : Type 0 where
  pub unique : IsUnique m
  pub unique_under :
      (topic : Bytes) (subs : Dict Bytes ℕ) → lookup topic m ≡ some subs → IsUnique subs

abbrev pub both : Bytes → Bytes → Bytes → Bytes → Bool
both topic t id i = str_eq topic t && str_eq id i

pub both-true : (topic t id i : Bytes) → both topic t id i ≡ true → (topic ≡ t) × (id ≡ i)
both-true topic t id i h = elim (Bool-cases (str_eq topic t)) [
  | inl same ↦ ((str_eq_iff topic t).0 same, (str_eq_iff id i).0 (rw same at h))
  | inr other ↦ absurd (cc (rw other at h))
]

found_under-or_nil :
    (id : Bytes) (o : Option (Dict Bytes ℕ)) → lookup id (or_nil o) ≡ found_under id o
unfolding lookup
found_under-or_nil id none = refl
found_under-or_nil id (some subs) = refl

pub find-insert :
    (m : Dict Bytes (Dict Bytes ℕ)) (topic id t i : Bytes) (p : ℕ)
    → find (insert topic (insert id p (or_nil (lookup topic m))) m) t i
      ≡ (if both topic t id i then some p else find m t i)
find-insert m topic id t i p = elim (Bool-cases (str_eq topic t)) [
  | inl same ↦
      let e : topic ≡ t = (str_eq_iff topic t).0 same in
      rw (
        lookup-insert topic t (insert id p (or_nil (lookup topic m))) m,
        same,
        lookup-insert id i p (or_nil (lookup topic m)),
        found_under-or_nil i (lookup topic m),
        e,
      )
  | inr other ↦ rw (lookup-insert topic t (insert id p (or_nil (lookup topic m))) m, other)
]

pub or_nil-IsUnique :
    (m : Dict Bytes (Dict Bytes ℕ)) (topic : Bytes) (o : Option (Dict Bytes ℕ))
    → lookup topic m ≡ o
    → IsTable m
    → IsUnique (or_nil o)
or_nil-IsUnique m topic none e h = tt
or_nil-IsUnique m topic (some subs) e h = h.unique_under topic subs e

pub insert-IsTable :
    (m : Dict Bytes (Dict Bytes ℕ)) (topic : Bytes) (subs : Dict Bytes ℕ)
    → IsTable m
    → IsUnique subs
    → IsTable (insert topic subs m)
insert-IsTable m topic subs h u = record {
  unique = insert-IsUnique topic subs m h.unique;
  unique_under = λ t subs' e. elim (Bool-cases (str_eq topic t)) [
    | inl same ↦
        let g : subs ≡ subs' = cc (rw (lookup-insert topic t subs m, same) at e) in
        subst IsUnique g u
    | inr other ↦ h.unique_under t subs' (rw (lookup-insert topic t subs m, other) at e)
  ];
}

delete-IsTable :
    (m : Dict Bytes (Dict Bytes ℕ)) (topic : Bytes) → IsTable m → IsTable (Dict.delete topic m)
delete-IsTable m topic h = record {
  unique = delete-IsUnique topic m h.unique;
  unique_under = λ t subs' e. elim (Bool-cases (str_eq topic t)) [
    | inl same ↦ absurd (cc (rw (lookup-delete topic t m h.unique, same) at e))
    | inr other ↦ h.unique_under t subs' (rw (lookup-delete topic t m h.unique, other) at e)
  ];
}

-- The map once an id is taken out of a topic's subscribers.
abbrev pub without : Dict Bytes (Dict Bytes ℕ) → Bytes → Dict Bytes ℕ → Dict Bytes (Dict Bytes ℕ)
without m topic rest = if length rest == 0 then Dict.delete topic m else insert topic rest m

pub without-IsTable :
    (m : Dict Bytes (Dict Bytes ℕ)) (topic : Bytes) (rest : Dict Bytes ℕ)
    → IsTable m
    → IsUnique rest
    → IsTable (without m topic rest)
without-IsTable m topic rest h u = elim (Bool-cases (length rest == 0)) [
  | inl none_left ↦ rw none_left (delete-IsTable m topic h)
  | inr some_left ↦ rw some_left (insert-IsTable m topic rest h u)
]

lookup-empty : (subs : Dict Bytes ℕ) (i : Bytes) → (length subs == 0) ≡ true → lookup i subs ≡ none
unfolding lookup
lookup-empty [] i h = refl
lookup-empty (s ∷ subs) i h = absurd (ground arith)

find-without-same :
    (m : Dict Bytes (Dict Bytes ℕ)) (topic i : Bytes) (rest : Dict Bytes ℕ)
    → IsTable m
    → find (without m topic rest) topic i ≡ lookup i rest
find-without-same m topic i rest h = elim (Bool-cases (length rest == 0)) [
  | inl none_left ↦ rw (
    none_left,
    lookup-delete topic topic m h.unique,
    str_eq_refl topic,
    lookup-empty rest i none_left,
  )
  | inr some_left ↦ rw (some_left, lookup-insert topic topic rest m, str_eq_refl topic)
]

find-without-other :
    (m : Dict Bytes (Dict Bytes ℕ)) (topic t i : Bytes) (rest : Dict Bytes ℕ)
    → IsTable m
    → str_eq topic t ≡ false
    → find (without m topic rest) t i ≡ find m t i
find-without-other m topic t i rest h other = elim (Bool-cases (length rest == 0)) [
  | inl none_left ↦ rw (none_left, lookup-delete topic t m h.unique, other)
  | inr some_left ↦ rw (some_left, lookup-insert topic t rest m, other)
]

pub find-without :
    (m : Dict Bytes (Dict Bytes ℕ)) (topic id t i : Bytes) (subs : Dict Bytes ℕ)
    → IsTable m
    → lookup topic m ≡ some subs
    → find (without m topic (Dict.delete id subs)) t i
      ≡ (if both topic t id i then none else find m t i)
find-without m topic id t i subs h e = elim (Bool-cases (str_eq topic t)) [
  | inl same ↦
      let s : topic ≡ t = (str_eq_iff topic t).0 same in
      rw (
        same,
        ← s,
        find-without-same m topic i (Dict.delete id subs) h,
        lookup-delete id i subs (h.unique_under topic subs e),
        e,
      )
  | inr other ↦ rw (find-without-other m topic t i (Dict.delete id subs) h other, other)
]

-- The map with a topic's subscribers put back, or the topic deleted if it has none.
pub find-without_all :
    (m : Dict Bytes (Dict Bytes ℕ)) (topic t i : Bytes) (subs : Dict Bytes ℕ)
    → IsTable m
    → lookup topic m ≡ some subs
    → find (without m topic subs) t i ≡ find m t i
find-without_all m topic t i subs h e = elim (Bool-cases (str_eq topic t)) [
  | inl same ↦
      let s : topic ≡ t = (str_eq_iff topic t).0 same in
      rw (← s, find-without-same m topic i subs h, e)
  | inr other ↦ find-without-other m topic t i subs h other
]
