-- ===== src/Server/Serving/Table.antt =====
-- The table of sessions and the numbers from nextID, while connections come and go.
use hush_go.Base.{
  ℕ, ◌+◌, ◌≤◌, ◌<◌, Bool, true, false, List, [], ◌∷◌, if◌then◌else◌, Option, none, some, arith, ◌≡◌,
  refl, ◌∙◌, ◌==◌, ==_iff, Bool-cases, ◌⊎◌, inl, inr,
}
use hush_go.Base.Int.{ℤ, ◌-ℤ◌, ltb_ℤ}
use hush_go.Base.Dict.{Dict, number_key, lookup, insert, IsUnique, lookup-insert}
use hush_go.Session.Store.{Session}
use hush_go.Server.Serving.{
  ConnPhase, arrived, numbered, serving, through, crashed, Running, ServeStep, negotiates, ticks,
  gc_ends,
}

-- The session of a connection behind its handshake, and that of one in its loop.
abbrev pub session_of : Option ConnPhase → Option Session
session_of (some (numbered sess)) = some sess
session_of (some (serving sess)) = some sess
session_of _ = none

abbrev pub entered_by : Option ConnPhase → Option Session
entered_by (some (serving sess)) = some sess
entered_by _ = none

-- One of these collections found the session older than the maximal lifetime.
abbrev pub Collected : ℤ → List ℤ → Session → Type 0
Collected lifetime [] sess = ⊥
Collected lifetime (now ∷ past) sess =
    (ltb_ℤ lifetime (now -ℤ sess.created_at) ≡ true) ⊎ Collected lifetime past sess

-- Whether gcLoop runs behind a step, and the times of its collections, the last one in front.
abbrev pub collecting_behind : Bool → ServeStep → Bool
collecting_behind running gc_ends = false
collecting_behind running _ = running

abbrev pub past_behind : Bool → List ℤ → ServeStep → List ℤ
past_behind running past (ticks now) = if running then now ∷ past else past
past_behind running past _ = past

abbrev pub collections : Bool → List ℤ → List ServeStep → List ℤ
collections running past [] = past
collections running past (step ∷ steps) =
    collections (collecting_behind running step) (past_behind running past step) steps

-- How often nextID is raised at most.
abbrev pub draws : ServeStep → ℕ
draws (negotiates c now incoming) = 1
draws _ = 0

abbrev pub drawn : List ServeStep → ℕ
drawn [] = 0
drawn (step ∷ steps) = draws step + drawn steps

-- Each connection has a number of its own, from 1 on; the table has sessions of connections in their
-- loops only, each under its number, and all of them but those that a collection found too old.
pub record IsServing (lifetime : ℤ) (past : List ℤ) (r : Running) : Type 0 where
  pub once : IsUnique r.sessions.sessions
  pub lives : r.sessions.config.max_lifetime ≡ lifetime
  pub given :
      (c : ℕ) (s : Session)
      → session_of (lookup c r.connections) ≡ some s
      → (0 < s.id) × (s.id ≤ r.next_id)
  pub apart :
      (c d : ℕ) (s t : Session)
      → session_of (lookup c r.connections) ≡ some s
      → session_of (lookup d r.connections) ≡ some t
      → s.id ≡ t.id
      → c ≡ d
  pub owned :
      (id : ℕ) (s : Session)
      → lookup id r.sessions.sessions ≡ some s
      → (c : ℕ) × (entered_by (lookup c r.connections) ≡ some s) × (s.id ≡ id)
  pub kept :
      (c : ℕ) (s : Session)
      → entered_by (lookup c r.connections) ≡ some s
      → (lookup s.id r.sessions.sessions ≡ some s) ⊎ Collected lifetime past s

pub entered-session :
    (o : Option ConnPhase) (s : Session) → entered_by o ≡ some s → session_of o ≡ some s
entered-session (some (serving sess)) s e = e
entered-session none s e = cc
entered-session (some arrived) s e = cc
entered-session (some (numbered sess)) s e = cc
entered-session (some through) s e = cc
entered-session (some crashed) s e = cc

-- The connection itself, or another one.
pub moved_on :
    (c d : ℕ) (phase : ConnPhase) (conns : Dict ℕ ConnPhase)
    → ((c ≡ d) × (lookup d (insert c phase conns) ≡ some phase))
      ⊎ (((c == d) ≡ false) × (lookup d (insert c phase conns) ≡ lookup d conns))
moved_on c d phase conns = elim (Bool-cases (c == d)) [
  | inl here ↦ inl ((==_iff c d).0 here, lookup-insert c d phase conns ∙ rw here refl)
  | inr there ↦ inr (there, lookup-insert c d phase conns ∙ rw there refl)
]

pub not_here : (c d : ℕ) → (c == d) ≡ false → c ≡ d → ⊥
not_here c d e same = ground (arith, ==_iff c d)
