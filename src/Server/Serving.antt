-- ===== src/Server/Serving.antt =====
-- server/server.go: ListenAndServe, ListenAndServeOnConn and ListenAndServeTCP, gcLoop, and what the
-- goroutines of the connections do to the table of sessions and to nextID beside one another. What
-- a connection does between its Set and its Delete is Server/Quic and Server/Tcp.
pub mod Table
pub mod Handshakes
pub mod Entering
pub mod Leaving
pub mod Moves
pub mod Steps
pub mod Service
mod Tests
use hush_go.Base.{
  ℕ, suc, ◌+◌, ◌^◌, ◌%◌, Bool, true, false, Bytes, List, [], ◌∷◌, Error, Outcome, ok, err, panics,
  out_of_fuel, no_shared_secret, no_derived_key, no_tls_config, listen_failed, if◌then◌else◌,
  Option, none, some,
}
use hush_go.Base.Int.{ℤ}
use hush_go.Base.Dict.{Dict, Key, number_key, lookup, insert}
use hush_go.Session.Handshake.{Exchange, negotiate_server}
use hush_go.Session.Store
use hush_go.Session.Store.{Session, SessionStore}
use hush_go.Server.Registry.{Server}
use hush_go.Transport.{TlsConfig, Network, default_alpn, opened, listen, listen_tcp}

-- Where the goroutine of a connection is: before its handshake, behind it with a session that is not
-- yet in the table, in its loop, or through. Nothing recovers a panic in a handshake.
pub data ConnPhase : Type 0 where
  arrived : ConnPhase
  numbered : Session → ConnPhase
  serving : Session → ConnPhase
  through : ConnPhase
  crashed : ConnPhase

-- A server behind its listener: the table, nextID, the connections in the order of their Accept, and
-- whether the loop of Accept and gcLoop still run. The listener is closed once the loop is left.
pub record Running : Type 0 where
  pub sessions : SessionStore
  pub next_id : ℕ
  pub connections : Dict ℕ ConnPhase
  pub accepted : ℕ
  pub listening : Bool
  pub collecting : Bool

-- Accept gives a connection, or fails while the context is done or not; a connection's first stream
-- fails; a handshake reads these bytes at this time; Set; the deferred Delete; a tick, and the end
-- of gcLoop.
pub data ServeStep : Type 0 where
  accepts : ServeStep
  accept_fails : Bool → ServeStep
  no_first_stream : ℕ → ServeStep
  negotiates : ℕ → ℤ → Bytes → ServeStep
  enters : ℕ → ServeStep
  leaves : ℕ → ServeStep
  ticks : ℤ → ServeStep
  gc_ends : ServeStep

-- A round of the loop of Accept that gets a connection, one that gets an error, and a tick of gcLoop.
abbrev pub accept_connection : Running → Running
accept_connection r =
    if r.listening
    then record r {
      connections = insert r.accepted arrived r.connections;
      accepted = suc r.accepted;
    }
    else r

abbrev pub accept_error : Bool → Running → Running
accept_error done r = if done then record r { listening = false } else r

abbrev pub gc_tick : ℤ → Running → Running
gc_tick now r = if r.collecting then record r { sessions = Store.gc r.sessions now } else r

-- nextID.Add(1) on a uint64.
abbrev pub add_one : ℕ → ℕ
add_one n = (n + 1) % 2 ^ 64

-- The errors of NegotiateServer that come behind its call of nextSessionID.
abbrev pub draws_number : Error → Bool
draws_number no_shared_secret = true
draws_number no_derived_key = true
draws_number _ = false

abbrev pub set_phase : ℕ → ConnPhase → Running → Running
set_phase c phase r = record r { connections = insert c phase r.connections }

abbrev pub negotiated_phase : ℕ → Running → Outcome (Session × Bytes × Bytes) → Running
negotiated_phase c r (ok (sess, response, rest)) =
    set_phase c (numbered sess) (record r { next_id = add_one r.next_id })
negotiated_phase c r (err e) =
    set_phase c through
      (record r { next_id = (if draws_number e then add_one r.next_id else r.next_id) })
negotiated_phase c r _ = set_phase c crashed r

abbrev pub enter_phase : ℕ → Running → Option ConnPhase → Running
enter_phase c r (some (numbered sess)) =
    set_phase c (serving sess) (record r { sessions = Store.set r.sessions sess })
enter_phase c r _ = r

abbrev pub leave_phase : ℕ → Running → Option ConnPhase → Running
leave_phase c r (some (serving sess)) =
    set_phase c through (record r { sessions = Store.delete r.sessions sess.id })
leave_phase c r _ = r

abbrev pub stop_phase : ℕ → Running → Option ConnPhase → Running
stop_phase c r (some arrived) = set_phase c through r
stop_phase c r _ = r

module _ {x : Exchange} {S : Type 0} (srv : Server x S) where
  abbrev pub handshake_phase : ℕ → ℤ → Bytes → Running → Option ConnPhase → Running
  handshake_phase c now incoming r (some arrived) =
      negotiated_phase c r
        (negotiate_server x srv.server_priv srv.key_store (add_one r.next_id) now incoming)
  handshake_phase c now incoming r _ = r

  -- The loop of Accept, gcLoop and the goroutines of the connections.
  unfoldable pub serve_step : ServeStep → Running → Running
  serve_step accepts r = accept_connection r
  serve_step (accept_fails done) r = accept_error done r
  serve_step (no_first_stream c) r = stop_phase c r (lookup c r.connections)
  serve_step (negotiates c now incoming) r =
      handshake_phase c now incoming r (lookup c r.connections)
  serve_step (enters c) r = enter_phase c r (lookup c r.connections)
  serve_step (leaves c) r = leave_phase c r (lookup c r.connections)
  serve_step (ticks now) r = gc_tick now r
  serve_step gc_ends r = record r { collecting = false }

  unfoldable pub serve_steps : List ServeStep → Running → Running
  serve_steps [] r = r
  serve_steps (step ∷ steps) r = serve_steps steps (serve_step step r)

  -- A new server behind its listener.
  abbrev pub started : Running
  started = record {
    sessions = srv.sessions;
    next_id = 0;
    connections = [];
    accepted = 0;
    listening = true;
    collecting = true;
  }

  -- Behind the listener, or its error.
  abbrev pub serve_on : {N : Type 0} → List ServeStep → Outcome ℕ × N → Outcome Running × N
  serve_on steps (ok listener, n) = (ok (serve_steps steps started), n)
  serve_on steps (err e, n) = (err listen_failed, n)
  serve_on steps (panics, n) = (panics, n)
  serve_on steps (out_of_fuel, n) = (out_of_fuel, n)

  module _ {N : Type 0} (net : Network N) where
    -- ListenAndServe, ListenAndServeOnConn and ListenAndServeTCP, where the goroutines of the
    -- connections and the loops make these steps.
    unfoldable pub listen_and_serve :
        Option TlsConfig → Bytes → List ServeStep → N → Outcome Running × N
    listen_and_serve none addr steps n = (err no_tls_config, n)
    listen_and_serve (some conf) addr steps n = serve_on steps (listen net addr (some conf) n)

    unfoldable pub listen_and_serve_on_conn :
        Option TlsConfig → ℕ → List ServeStep → N → Outcome Running × N
    listen_and_serve_on_conn none conn steps n = (err no_tls_config, n)
    listen_and_serve_on_conn (some conf) conn steps n = serve_on steps (
        opened listen_failed
          (net.quic_listen conn (record conf { next_protos = default_alpn ∷ [] }) n))

    unfoldable pub listen_and_serve_tcp :
        Option TlsConfig → Bytes → List ServeStep → N → Outcome Running × N
    listen_and_serve_tcp none addr steps n = (err no_tls_config, n)
    listen_and_serve_tcp (some conf) addr steps n =
        serve_on steps (listen_tcp net addr (some conf) n)
