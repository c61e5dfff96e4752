-- ===== src/Server/Serving/Steps.antt =====
-- Every step keeps the invariant of the table.
use hush_go.Base.{
  ℕ, suc, ◌+◌, ◌^◌, ◌≤◌, ◌<◌, Bool, true, false, List, ◌∷◌, if◌then◌else◌, none, arith, ◌≡◌, refl,
  ap, ◌∙◌, inl, inr,
}
use hush_go.Base.Int.{ℤ}
use hush_go.Base.Dict.{number_key, lookup, insert}
use hush_go.Session.Handshake.{Exchange, ExchangeLaws}
use hush_go.Session.Store
use hush_go.Session.Store.{Session, SessionStore, new_session}
use hush_go.Server.Registry.{Server}
use hush_go.Server.Serving.{
  arrived, Running, ServeStep, accepts, accept_fails, no_first_stream, negotiates, enters, leaves,
  ticks, gc_ends, serve_step,
}
use hush_go.Server.Serving.Table.{
  entered_by, collecting_behind, past_behind, draws, IsServing, moved_on,
}
use hush_go.Server.Serving.Handshakes.{quiet-IsServing}
use hush_go.Server.Serving.Leaving.{collected-IsServing}
use hush_go.Server.Serving.Moves.{
  IsBehind, unmoved, stop-IsBehind, enter-IsBehind, leave-IsBehind, handshake-IsBehind,
}

module _ {x : Exchange} (laws : ExchangeLaws x) {S : Type 0} (srv : Server x S) (lifetime : ℤ)
    (past : List ℤ) (r : Running) (k : IsServing lifetime past r)
    (later : (c : ℕ) → r.accepted ≤ c → lookup c r.connections ≡ none) where
  restated :
      (listening collecting : Bool) (accepted : ℕ) (q : Running)
      → IsServing lifetime past q
      → IsServing lifetime past
          (record q { listening = listening; collecting = collecting; accepted = accepted })
  restated listening collecting accepted q h = record {
    once = h.once;
    lives = h.lives;
    given = h.given;
    apart = h.apart;
    owned = h.owned;
    kept = h.kept;
  }

  accept-IsBehind :
      (b : Bool)
      → IsBehind lifetime past r.collecting 0 r (
          if b
          then record r {
            connections = insert r.accepted arrived r.connections;
            accepted = suc r.accepted;
          }
          else r)
  accept-IsBehind false = unmoved lifetime past r k later 0
  accept-IsBehind true = record {
    holds = restated r.listening r.collecting (suc r.accepted) _ (
        quiet-IsServing lifetime past r k r.accepted r.next_id arrived
          (ap entered_by (later r.accepted (omega arith))) refl (omega arith));
    few = omega arith;
    loop = refl;
    later = λ c h. elim (moved_on r.accepted c arrived r.connections) [
      | inl (here, f) ↦ absurd (omega arith)
      | inr (apart, f) ↦ f ∙ later c (omega arith)
    ];
  }

  left-IsBehind :
      (b : Bool)
      → IsBehind lifetime past r.collecting 0 r (if b then record r { listening = false } else r)
  left-IsBehind false = unmoved lifetime past r k later 0
  left-IsBehind true = record {
    holds = restated false r.collecting r.accepted r k;
    few = omega arith;
    loop = refl;
    later = later;
  }

  tick-IsBehind :
      (now : ℤ) (b : Bool)
      → IsBehind lifetime
          (if b then now ∷ past else past)
          r.collecting
          0
          r
          (if b then record r { sessions = Store.gc r.sessions now } else r)
  tick-IsBehind now false = unmoved lifetime past r k later 0
  tick-IsBehind now true = record {
    holds = collected-IsServing lifetime past r k now;
    few = omega arith;
    loop = refl;
    later = later;
  }

  pub step-IsBehind :
      (step : ServeStep)
      → r.next_id + draws step < 2 ^ 64
      → IsBehind lifetime
          (past_behind r.collecting past step)
          (collecting_behind r.collecting step)
          (draws step)
          r
          (serve_step srv step r)
  unfolding serve_step
  step-IsBehind accepts room = accept-IsBehind r.listening
  step-IsBehind (accept_fails done) room = left-IsBehind done
  step-IsBehind (no_first_stream c) room =
      stop-IsBehind laws srv lifetime past r k later c (lookup c r.connections) refl
  step-IsBehind (negotiates c now incoming) room =
      handshake-IsBehind laws srv lifetime past r k later room c now incoming
        (lookup c r.connections) refl
  step-IsBehind (enters c) room =
      enter-IsBehind laws srv lifetime past r k later c (lookup c r.connections) refl
  step-IsBehind (leaves c) room =
      leave-IsBehind laws srv lifetime past r k later c (lookup c r.connections) refl
  step-IsBehind (ticks now) room = tick-IsBehind now r.collecting
  step-IsBehind gc_ends room = record {
    holds = restated r.listening false r.accepted r k;
    few = omega arith;
    loop = refl;
    later = later;
  }
