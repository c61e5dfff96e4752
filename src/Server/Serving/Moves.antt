-- ===== src/Server/Serving/Moves.antt =====
-- The steps of one connection keep the invariant of the table.
use hush_go.Base.{
  ℕ, ◌+◌, ◌^◌, ◌≤◌, ◌<◌, Bool, Bytes, List, Outcome, ok, err, panics, out_of_fuel, OnOk,
  OnOk-Ensures, Ensures-map, Option, none, some, arith, ◌≡◌, refl, sym, ap, subst, ◌∙◌, Bool-cases,
  inl, inr,
}
use hush_go.Base.Int.{ℤ}
use hush_go.Base.Dict.{number_key, lookup}
use hush_go.Session.Handshake.{Exchange, ExchangeLaws}
use hush_go.Session.Handshake.Refusal.{negotiate_server-Ensures}
use hush_go.Session.Store
use hush_go.Session.Store.{Session, SessionStore, new_session}
use hush_go.Server.Registry.{Server}
use hush_go.Server.Serving.{
  ConnPhase, arrived, numbered, serving, through, crashed, Running, add_one, draws_number,
  negotiated_phase, enter_phase, leave_phase, stop_phase, handshake_phase,
}
use hush_go.Server.Serving.Table.{entered_by, IsServing, moved_on}
use hush_go.Server.Serving.Handshakes.{quiet-IsServing, numbered-IsServing}
use hush_go.Server.Serving.Entering.{entering-IsServing}
use hush_go.Server.Serving.Leaving.{leaving-IsServing}
use hush_go.Session.Store.{SessionStore}
use hush_go.Server.Serving.{set_phase}
use hush_go.Server.Serving.Table.{session_of}

-- Behind a step: the invariant with the collections so far, whether gcLoop runs, nextID raised by `n`
-- at most, and the connections not yet accepted.
pub record IsBehind (lifetime : ℤ) (past : List ℤ) (running : Bool) (n : ℕ) (r r' : Running)
    : Type 0 where
  pub holds : IsServing lifetime past r'
  pub few : r'.next_id ≤ r.next_id + n
  pub loop : r'.collecting ≡ running
  pub later : (c : ℕ) → r'.accepted ≤ c → lookup c r'.connections ≡ none

module _ (lifetime : ℤ) (past : List ℤ) (r : Running) (k : IsServing lifetime past r)
    (later : (c : ℕ) → r.accepted ≤ c → lookup c r.connections ≡ none) where
  -- A step that is not taken.
  pub unmoved : (n : ℕ) → IsBehind lifetime past r.collecting n r r
  unmoved n = record { holds = k; few = omega arith; loop = refl; later = later }

  -- An accepted connection goes on to another phase.
  pub moves_on :
      (c n next : ℕ) (phase p : ConnPhase) (sessions : SessionStore)
      → lookup c r.connections ≡ some p
      → next ≤ r.next_id + n
      → IsServing lifetime past
          (set_phase c phase (record r { next_id = next; sessions = sessions }))
      → IsBehind lifetime past r.collecting n r
          (set_phase c phase (record r { next_id = next; sessions = sessions }))
  moves_on c n next phase p sessions there few h = record {
    holds = h;
    few = few;
    loop = refl;
    later = λ d later_d. elim (moved_on c d phase r.connections) [
      | inl (here, f) ↦
          absurd
            (cc (there, subst (λ i. lookup i r.connections ≡ none) (sym here) (later d later_d)))
      | inr (apart, f) ↦ f ∙ later d later_d
    ];
  }

module _ {x : Exchange} (laws : ExchangeLaws x) {S : Type 0} (srv : Server x S) (lifetime : ℤ)
    (past : List ℤ) (r : Running) (k : IsServing lifetime past r)
    (later : (c : ℕ) → r.accepted ≤ c → lookup c r.connections ≡ none) where
  -- To a phase without a session.
  ended :
      (c n next : ℕ) (phase p : ConnPhase)
      → lookup c r.connections ≡ some p
      → entered_by (some p) ≡ none
      → session_of (some phase) ≡ none
      → r.next_id ≤ next
      → next ≤ r.next_id + n
      → IsBehind lifetime past r.collecting n r (set_phase c phase (record r { next_id = next }))
  ended c n next phase p e out nothing more few =
      moves_on lifetime past r k later c n next phase p r.sessions e few
        (quiet-IsServing lifetime past r k c next phase (ap entered_by e ∙ out) nothing more)

  pub stop-IsBehind :
      (c : ℕ) (o : Option ConnPhase)
      → lookup c r.connections ≡ o
      → IsBehind lifetime past r.collecting 0 r (stop_phase c r o)
  stop-IsBehind c (some arrived) e =
      ended c 0 r.next_id through arrived e refl refl (omega arith) (omega arith)
  stop-IsBehind c none e = unmoved lifetime past r k later 0
  stop-IsBehind c (some (numbered sess)) e = unmoved lifetime past r k later 0
  stop-IsBehind c (some (serving sess)) e = unmoved lifetime past r k later 0
  stop-IsBehind c (some through) e = unmoved lifetime past r k later 0
  stop-IsBehind c (some crashed) e = unmoved lifetime past r k later 0

  pub enter-IsBehind :
      (c : ℕ) (o : Option ConnPhase)
      → lookup c r.connections ≡ o
      → IsBehind lifetime past r.collecting 0 r (enter_phase c r o)
  enter-IsBehind c (some (numbered sess)) e =
      moves_on lifetime past r k later c 0 r.next_id (serving sess) (numbered sess)
        (Store.set r.sessions sess) e (omega arith) (entering-IsServing lifetime past r k c sess e)
  enter-IsBehind c none e = unmoved lifetime past r k later 0
  enter-IsBehind c (some arrived) e = unmoved lifetime past r k later 0
  enter-IsBehind c (some (serving sess)) e = unmoved lifetime past r k later 0
  enter-IsBehind c (some through) e = unmoved lifetime past r k later 0
  enter-IsBehind c (some crashed) e = unmoved lifetime past r k later 0

  pub leave-IsBehind :
      (c : ℕ) (o : Option ConnPhase)
      → lookup c r.connections ≡ o
      → IsBehind lifetime past r.collecting 0 r (leave_phase c r o)
  leave-IsBehind c (some (serving sess)) e =
      moves_on lifetime past r k later c 0 r.next_id through (serving sess)
        (Store.delete r.sessions sess.id) e (omega arith)
        (leaving-IsServing lifetime past r k c sess e)
  leave-IsBehind c none e = unmoved lifetime past r k later 0
  leave-IsBehind c (some arrived) e = unmoved lifetime past r k later 0
  leave-IsBehind c (some (numbered sess)) e = unmoved lifetime past r k later 0
  leave-IsBehind c (some through) e = unmoved lifetime past r k later 0
  leave-IsBehind c (some crashed) e = unmoved lifetime past r k later 0

  -- A handshake, where nextID does not pass the largest uint64.
  module _ (room : r.next_id + 1 < 2 ^ 64) (c : ℕ) (now : ℤ) (incoming : Bytes) where
    raised : add_one r.next_id ≡ r.next_id + 1
    raised = omega arith

    negotiated-IsBehind :
        (got : Outcome (Session × Bytes × Bytes))
        → lookup c r.connections ≡ some arrived
        → OnOk (λ t. t.0.id ≡ add_one r.next_id) got
        → IsBehind lifetime past r.collecting 1 r (negotiated_phase c r got)
    negotiated-IsBehind (ok (sess, response, rest)) e same = rw raised (
        moves_on lifetime past r k later c 1 (r.next_id + 1) (numbered sess) arrived r.sessions e
          (omega arith)
          (numbered-IsServing lifetime past r k c sess (ap entered_by e) (same ∙ raised)))
    negotiated-IsBehind (err w) e same = elim (Bool-cases (draws_number w)) [
      | inl drew ↦
          rw (drew, raised)
            (ended c 1 (r.next_id + 1) through arrived e refl refl (omega arith) (omega arith))
      | inr kept_on ↦
          rw kept_on (ended c 1 r.next_id through arrived e refl refl (omega arith) (omega arith))
    ]
    negotiated-IsBehind panics e same =
        ended c 1 r.next_id crashed arrived e refl refl (omega arith) (omega arith)
    negotiated-IsBehind out_of_fuel e same =
        ended c 1 r.next_id crashed arrived e refl refl (omega arith) (omega arith)

    pub handshake-IsBehind :
        (o : Option ConnPhase)
        → lookup c r.connections ≡ o
        → IsBehind lifetime past r.collecting 1 r (handshake_phase srv c now incoming r o)
    handshake-IsBehind (some arrived) e = negotiated-IsBehind _ e (
        OnOk-Ensures (
          Ensures-map
            (negotiate_server-Ensures x laws srv.server_priv srv.key_store (add_one r.next_id) now
              incoming)
            (λ t accepted. unfold new_session in ap (λ u. u.0.id) accepted.served.is_result)))
    handshake-IsBehind none e = unmoved lifetime past r k later 1
    handshake-IsBehind (some (numbered sess)) e = unmoved lifetime past r k later 1
    handshake-IsBehind (some (serving sess)) e = unmoved lifetime past r k later 1
    handshake-IsBehind (some through) e = unmoved lifetime past r k later 1
    handshake-IsBehind (some crashed) e = unmoved lifetime past r k later 1
