-- ===== src/Session/Store/Promise.antt =====
-- The session store as a finite map under any sequence of its operations, and the defaults.
use hush_go.Base.{
  ℕ, true, false, List, [], ◌∷◌, ◌≡◌, refl, ◌==◌, if◌then◌else◌, Option, none, some, Bool-cases,
  inl, inr,
}
use hush_go.Base.Int.{ℤ, pos, ◌-ℤ◌, ltb_ℤ}
use hush_go.Base.Dict.{
  number_key, lookup, IsUnique, keep, lookup-insert, insert-IsUnique, lookup-delete_if,
  delete_if-IsUnique, lookup-delete, delete-IsUnique,
}
use hush_go.Session.Store.{
  SessionConfig, fill_defaults, Session, SessionStore, new_session_store, get, set, delete, gc,
  default_idle_timeout, default_max_lifetime, default_gc_interval, or_default,
}

-- A call of a method that changes the store; a collection carries its time.
pub data Call : Type 0 where
  call_set : Session → Call
  call_delete : ℕ → Call
  call_gc : ℤ → Call

abbrev pub perform : SessionStore → Call → SessionStore
perform ss (call_set s) = set ss s
perform ss (call_delete id) = delete ss id
perform ss (call_gc now) = gc ss now

abbrev pub perform_all : SessionStore → List Call → SessionStore
perform_all ss [] = ss
perform_all ss (c ∷ calls) = perform_all (perform ss c) calls

-- What the store promises: a map from ids to sessions, from which a collection takes those that are
-- older than the maximal lifetime.
abbrev pub Sessions : Type 0
Sessions = ℕ → Option Session

abbrev pub drop_old : ℤ → ℤ → Option Session → Option Session
drop_old lifetime now none = none
drop_old lifetime now (some s) = if ltb_ℤ lifetime (now -ℤ s.created_at) then none else some s

abbrev pub promise : ℤ → Sessions → Call → Sessions
promise lifetime f (call_set s) id = if s.id == id then some s else f id
promise lifetime f (call_delete i) id = if i == id then none else f id
promise lifetime f (call_gc now) id = drop_old lifetime now (f id)

abbrev pub promise_all : ℤ → Sessions → List Call → Sessions
promise_all lifetime f [] = f
promise_all lifetime f (c ∷ calls) = promise_all lifetime (promise lifetime f c) calls

keep_old :
    (lifetime now : ℤ) (id : ℕ) (o : Option Session)
    → keep (λ _ s. ltb_ℤ lifetime (now -ℤ s.created_at)) id o ≡ drop_old lifetime now o
keep_old lifetime now id none = refl
keep_old lifetime now id (some s) = refl

-- The store agrees with a map, and no id stands twice in it.
record Agrees (lifetime : ℤ) (ss : SessionStore) (f : Sessions) : Type 0 where
  unique : IsUnique ss.sessions
  lifetime_set : ss.config.max_lifetime ≡ lifetime
  same : (id : ℕ) → get ss id ≡ f id

perform-Agrees :
    (lifetime : ℤ) (ss : SessionStore) (f : Sessions) (c : Call)
    → Agrees lifetime ss f
    → Agrees lifetime (perform ss c) (promise lifetime f c)
unfolding get set delete gc
perform-Agrees lifetime ss f (call_set s) a = record {
  unique = insert-IsUnique s.id s ss.sessions a.unique;
  lifetime_set = a.lifetime_set;
  same = λ id. rw (lookup-insert s.id id s ss.sessions, a.same id);
}
perform-Agrees lifetime ss f (call_delete i) a = record {
  unique = delete-IsUnique i ss.sessions a.unique;
  lifetime_set = a.lifetime_set;
  same = λ id. rw (lookup-delete i id ss.sessions a.unique, a.same id);
}
perform-Agrees lifetime ss f (call_gc now) a = record {
  unique = delete_if-IsUnique _ ss.sessions a.unique;
  lifetime_set = a.lifetime_set;
  same = λ id.
      rw (lookup-delete_if _ id ss.sessions a.unique, a.same id, a.lifetime_set)
        (keep_old lifetime now id (f id));
}

perform_all-Agrees :
    (calls : List Call) (lifetime : ℤ) (ss : SessionStore) (f : Sessions)
    → Agrees lifetime ss f
    → Agrees lifetime (perform_all ss calls) (promise_all lifetime f calls)
perform_all-Agrees [] lifetime ss f a = a
perform_all-Agrees (c ∷ calls) lifetime ss f a =
    perform_all-Agrees calls lifetime (perform ss c) (promise lifetime f c)
      (perform-Agrees lifetime ss f c a)

new_session_store-Agrees :
    (config : SessionConfig)
    → Agrees (fill_defaults config).max_lifetime (new_session_store config) (λ _. none)
unfolding new_session_store get lookup
new_session_store-Agrees config = record { unique = tt; lifetime_set = refl; same = λ _. refl }

-- After any sequence of Set, Delete and GC on a new store, Get returns what the promised map holds:
-- the session last Set under the id, unless it was deleted or collected as older than MaxLifetime.
pub perform_all-promise_all :
    (config : SessionConfig) (calls : List Call) (id : ℕ)
    → get (perform_all (new_session_store config) calls) id
      ≡ promise_all (fill_defaults config).max_lifetime (λ _. none) calls id
perform_all-promise_all config calls id =
    (perform_all-Agrees calls _ (new_session_store config) (λ _. none)
        (new_session_store-Agrees config)).same
      id

-- The configured durations are above zero, and a duration above zero is left as it is.
abbrev pub IsDefaulted : ℤ → ℤ → ℤ → Type 0
IsDefaulted given default result =
    (ltb_ℤ (pos 0) result ≡ true)
    × (ltb_ℤ (pos 0) given ≡ true → result ≡ given)
    × (ltb_ℤ (pos 0) given ≡ false → result ≡ default)

or_default-IsDefaulted :
    (given default : ℤ)
    → ltb_ℤ (pos 0) default ≡ true
    → IsDefaulted given default (or_default given default)
or_default-IsDefaulted given default h = elim (Bool-cases (ltb_ℤ (pos 0) given)) [
  | inl p ↦ rw p (p, (λ _. refl), (λ q. cc))
  | inr n ↦ rw n (h, (λ q. cc), (λ _. refl))
]

-- A new store's three durations are above zero: those given, where they are above zero, and the
-- defaults of 5 minutes, 24 hours and 1 minute elsewhere.
pub new_session_store-IsDefaulted :
    (c : SessionConfig)
    → let d = (new_session_store c).config in
      IsDefaulted c.idle_timeout default_idle_timeout d.idle_timeout
      × IsDefaulted c.max_lifetime default_max_lifetime d.max_lifetime
      × IsDefaulted c.gc_interval default_gc_interval d.gc_interval
unfolding new_session_store
new_session_store-IsDefaulted c = (
  or_default-IsDefaulted c.idle_timeout default_idle_timeout refl,
  or_default-IsDefaulted c.max_lifetime default_max_lifetime refl,
  or_default-IsDefaulted c.gc_interval default_gc_interval refl,
)
