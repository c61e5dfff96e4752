-- ===== src/Server/Serving/Service.antt =====
-- A server from its start on, in whichever order its goroutines go on.
use hush_go.Base.{
  ℕ, ◌+◌, ◌^◌, ◌≤◌, ◌<◌, true, Bytes, List, [], ◌∷◌, Outcome, ok, err, panics, out_of_fuel, Option,
  none, some, arith, ◌≡◌, refl, subst,
}
use hush_go.Base.Int.{ℤ}
use hush_go.Base.Dict.{number_key, lookup}
use hush_go.Session.Handshake.{Exchange, ExchangeLaws}
use hush_go.Server.Registry.{Server}
use hush_go.Server.Serving.{Running, ServeStep, serve_step, serve_steps, started}
use hush_go.Server.Serving.Table.{collections, past_behind, drawn, IsServing}
use hush_go.Server.Serving.{
  serve_on, listen_and_serve, listen_and_serve_on_conn, listen_and_serve_tcp,
}
use hush_go.Server.Serving.Steps.{step-IsBehind}
use hush_go.Base.{Error, panics, out_of_fuel}
use hush_go.Transport.{
  with_default_alpn, listen_on, listen_at, TlsConfig, Network, default_alpn, opened, listen,
  listen_tcp,
}
use hush_go.Base.{listen_failed, no_tls_config}

module _ {x : Exchange} (laws : ExchangeLaws x) {S : Type 0} (srv : Server x S) where
  steps-IsServing :
      (steps : List ServeStep) (lifetime : ℤ) (past : List ℤ) (r : Running)
      → r.next_id + drawn steps < 2 ^ 64
      → ((c : ℕ) → r.accepted ≤ c → lookup c r.connections ≡ none)
      → IsServing lifetime past r
      → IsServing lifetime (collections r.collecting past steps) (serve_steps srv steps r)
  unfolding serve_steps
  steps-IsServing [] lifetime past r room later k = k
  steps-IsServing (step ∷ steps) lifetime past r room later k =
      let b = step-IsBehind laws srv lifetime past r k later step (omega arith) in
      subst
        (λ running.
          IsServing lifetime (collections running (past_behind r.collecting past step) steps)
            (serve_steps srv steps (serve_step srv step r)))
        b.loop
        (steps-IsServing steps lifetime (past_behind r.collecting past step) (serve_step srv step r)
          (omega (arith, b.few)) b.later b.holds)

  started-IsServing :
      srv.sessions.sessions ≡ [] → IsServing srv.sessions.config.max_lifetime [] (started srv)
  unfolding lookup
  started-IsServing empty = record {
    once = rw empty tt;
    lives = refl;
    given = λ c s e. absurd (cc);
    apart = λ c d s t e f same. absurd (cc);
    owned = λ id s e. absurd (cc);
    kept = λ c s e. absurd (cc);
  }

  served-IsServing :
      (steps : List ServeStep)
      → srv.sessions.sessions ≡ []
      → drawn steps < 2 ^ 64
      → IsServing srv.sessions.config.max_lifetime
          (collections true [] steps)
          (serve_steps srv steps (started srv))
  unfolding lookup
  served-IsServing steps empty room =
      steps-IsServing steps srv.sessions.config.max_lifetime [] (started srv) (omega arith)
        (λ c h. refl) (started-IsServing empty)

-- What comes of a call: the error of a nil configuration, the error of the listener, or a server
-- that keeps its promise.
abbrev pub IsServed :
    {N : Type 0}
    → ℤ
    → List ServeStep
    → Option TlsConfig
    → Outcome ℕ × N
    → N
    → Outcome Running × N
    → Type 0
IsServed lifetime steps none opening n result = result ≡ (err no_tls_config, n)
IsServed lifetime steps (some conf) (ok listener, n') n result =
    (r : Running) × (result ≡ (ok r, n')) × IsServing lifetime (collections true [] steps) r
IsServed lifetime steps (some conf) (err e, n') n result = result ≡ (err listen_failed, n')
IsServed lifetime steps (some conf) _ n result = ⊥

-- With a configuration no listener panics.
abbrev Opened : {N : Type 0} → Outcome ℕ × N → Type 0
Opened (ok listener, n) = Unit {0}
Opened (err e, n) = Unit {0}
Opened _ = ⊥

opened-Opened : {N : Type 0} (e : Error) (r : Option ℕ × N) → Opened (opened e r)
opened-Opened e (none, n) = tt
opened-Opened e (some c, n) = tt

module _ {N : Type 0} (net : Network N) (conf : TlsConfig) where
  listen_on-Opened : (r : Option ℕ × N) → Opened (listen_on net (some conf) r)
  listen_on-Opened (none, n) = tt
  listen_on-Opened (some udp, n) =
      opened-Opened listen_failed (net.quic_listen udp (with_default_alpn conf) n)

  listen_at-Opened : (n : N) (o : Option Bytes) → Opened (listen_at net (some conf) n o)
  listen_at-Opened n none = tt
  listen_at-Opened n (some addr) = listen_on-Opened (net.listen_udp addr n)

serve_on-IsServed :
    {x : Exchange} {S N : Type 0} (laws : ExchangeLaws x) (srv : Server x S)
    (steps : List ServeStep) (conf : TlsConfig) (opening : Outcome ℕ × N) (n : N)
    → Opened opening
    → srv.sessions.sessions ≡ []
    → drawn steps < 2 ^ 64
    → IsServed srv.sessions.config.max_lifetime steps
        (some conf)
        opening
        n
        (serve_on srv steps opening)
serve_on-IsServed laws srv steps conf (ok listener, n') n h empty room =
    (_, refl, served-IsServing laws srv steps empty room)
serve_on-IsServed laws srv steps conf (err e, n') n h empty room = refl
serve_on-IsServed laws srv steps conf (panics, n') n h empty room = absurd h
serve_on-IsServed laws srv steps conf (out_of_fuel, n') n h empty room = absurd h

-- ListenAndServe, ListenAndServeOnConn and ListenAndServeTCP of a new server, in whichever order
-- Accept, the goroutines of the connections and gcLoop go on, with fewer than 2 ^ 64 handshakes:
-- without a TLS configuration they return its error and touch no network, and where the listener
-- fails they return that error, without a panic; otherwise the connections between their handshake
-- and their end have numbers above zero, no two the same; the table has no number twice and only
-- sessions of connections in their loops, under their numbers; and it has all of these but those that
-- a tick before the end of gcLoop found older than the maximal lifetime.
pub listen_and_serve-IsServed :
    {x : Exchange} (laws : ExchangeLaws x) {S N : Type 0} (srv : Server x S) (net : Network N)
    (conf : Option TlsConfig) (addr : Bytes) (conn : ℕ) (steps : List ServeStep) (n : N)
    → srv.sessions.sessions ≡ []
    → drawn steps < 2 ^ 64
    → let lifetime = srv.sessions.config.max_lifetime in
      IsServed lifetime steps conf
        (listen net addr conf n)
        n
        (listen_and_serve srv net conf addr steps n)
      × IsServed lifetime steps conf
          (opened listen_failed
            (net.quic_listen conn (record { next_protos = default_alpn ∷ [] }) n))
          n
          (listen_and_serve_on_conn srv net conf conn steps n)
      × IsServed lifetime steps conf
          (listen_tcp net addr conf n)
          n
          (listen_and_serve_tcp srv net conf addr steps n)
unfolding listen_and_serve listen_and_serve_on_conn listen_and_serve_tcp listen listen_tcp
listen_and_serve-IsServed laws srv net none addr conn steps n empty room = (refl, refl, refl)
listen_and_serve-IsServed laws srv net (some conf) addr conn steps n empty room = (
  serve_on-IsServed laws srv steps conf _ n (listen_at-Opened net conf n (net.resolve_udp addr n))
      empty room,
  serve_on-IsServed laws srv steps conf _ n (opened-Opened listen_failed _) empty room,
  serve_on-IsServed laws srv steps conf _ n (opened-Opened listen_failed _) empty room,
)
