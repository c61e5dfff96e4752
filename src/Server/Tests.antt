-- ===== src/Server/Tests.antt =====
-- Runs of the toy server, and the theorems on servers at concrete inputs.
use mathlib.Core.List.{Memᴰ}
use hush_go.Base.{
  ℕ, Bool, ◌+◌, true, ◌↔◌, ◌⊎◌, false, Bytes, List, [], ◌∷◌, ok, ◌≡◌, ◌≢◌, refl, arith, some,
}
use hush_go.Server.Handlers.{
  returned, failed, panicked, ServerRequest, HandleHushStream, Handler, handler, stream_handler,
  handle_hush, handler_func,
}
use hush_go.Base.{◌++◌, none}
use hush_go.Base.Int.{pos, ◌-ℤ◌}
use hush_go.Base.Text.{codes}
use hush_go.Base.Dict.{number_key, lookup}
use hush_go.Session.ToyAead.{toy_aead, toy_laws, toy_keeps}
use hush_go.Session.ToyExchange.{toy_exchange, toy_exchange_laws}
use hush_go.Frame.Sealing.{IsKey}
use hush_go.Session.Store.{touch, is_expired, is_idle_dead}
use hush_go.Server.RateLimit.{new_limiter}
use hush_go.Server.RateLimit.Window.{window_answers}
use hush_go.Server.Registry.{Server, handle, handle_func, handle_stream, handle_stream_func}
use hush_go.Server.Registry.Wrapping.{
  in_order, use_all, use_all_stream, IsRegistered, handle-in_order,
}
use hush_go.Server.Middleware.{recovery_middleware, require_api_key_id, not_authorized, session_key}
use hush_go.Server.Middleware.Guards.{call_opcode, guarded_by_api_key_id, recovery_panics_iff}
use hush_go.Server.Middleware.RateLimits.{
  Arrival, limited, replies, requests, filtered, replies-window_answers,
}
use hush_go.Server.Dispatch.{is_over, handle_quic_stream}
use hush_go.Server.Dispatch.Hearing.{Hears}
use hush_go.Server.Dispatch.Answers.{expected_answer, fresh_stream, handle_quic_stream_answers}
use hush_go.Server.Tcp.{handle_tcp_connection}
use hush_go.Server.Tcp.Pipeline.{serve_all, on_wire_all, Numbered}
use hush_go.Server.Tcp.Answers.{exchange_all, exchange_all-serve_all}
use hush_go.Server.Tcp.Table.{handle_tcp_connection-lookup}
use hush_go.Server.Handlers.{Stream}
use hush_go.Server.Tcp.{tcp_round, stop, crashed}
use hush_go.Server.Tcp.Pipeline.{request_wire}
use hush_go.Server.Tcp.{tcp_rounds, out_of_rounds}
use hush_go.Server.Tcp.Pipeline.{IsAnswering}
use hush_go.Server.Tcp.Termination.{IsRequestHandler, tcp_rounds-ends}
use hush_go.Server.Handlers.{stream_handler}
use hush_go.Server.Tcp.Crashes.{tcp_round-recovery_middleware}
use hush_go.Server.Toy.{
  counting, toy_server, toy_key, toy_nonce, toy_session, known_request, unknown_request,
  known_request-IsRequest, unknown_request-IsRequest, toy_server-IsFitting, toy_server-IsAnswering,
}

toy_key-IsKey : IsKey toy_key
toy_key-IsKey = refl

-- A frame that is too short for a request.
abbrev short_frame : Bytes
short_frame = 0 ∷ 0 ∷ 0 ∷ 2 ∷ 9 ∷ 9 ∷ []

handle_quic_stream_answers_example :
    Hears toy_aead toy_key
      (handle_quic_stream toy_aead toy_server
        (some toy_nonce)
        (some toy_nonce)
        (pos 5)
        []
        toy_session
        []
        (fresh_stream short_frame)
        0).0.written
      (expected_answer toy_aead toy_server (pos 5) [] toy_session [] short_frame 0)
handle_quic_stream_answers_example =
    handle_quic_stream_answers toy_aead toy_laws toy_keeps toy_server (pos 5) [] toy_session []
      toy_nonce toy_nonce short_frame 0 toy_key-IsKey refl refl (ground arith) toy_server-IsFitting

abbrev two_requests : List Numbered
two_requests = (1, known_request) ∷ (2, unknown_request) ∷ (3, known_request) ∷ []

never_over : (i : ℕ) → is_over toy_aead toy_server (pos 6) (touch (pos 6) toy_session) ≡ false
unfolding is_over is_expired is_idle_dead touch ◌-ℤ◌
never_over i = refl

begins_alive : is_over toy_aead toy_server (pos 6) toy_session ≡ false
unfolding is_over is_expired is_idle_dead ◌-ℤ◌
begins_alive = refl

exchange_all-serve_all_example :
    exchange_all toy_aead toy_server
      (λ _. false)
      (λ _. pos 6)
      (λ _. some toy_nonce)
      toy_nonce
      []
      []
      []
      toy_session
      0
      two_requests
    ≡ ok (on_wire_all (serve_all toy_server toy_session [] [] 0 two_requests), [])
exchange_all-serve_all_example =
    exchange_all-serve_all toy_aead toy_laws toy_server (λ _. false) (λ _. pos 6) (λ _. toy_nonce)
      toy_nonce [] [] [] toy_session 0 two_requests toy_key-IsKey (λ _. refl) (λ _. refl) refl
      toy_server-IsAnswering
      (
        (omega arith, known_request-IsRequest),
        ((omega arith, unknown_request-IsRequest), ((omega arith, known_request-IsRequest), tt)),
      )
      begins_alive never_over

-- A client without a key.
abbrev anonymous_hello : Bytes
anonymous_hello = 0 ∷ 0 ∷ toy_exchange.public_key 3

handle_tcp_connection-lookup_example :
    lookup 9
      (handle_tcp_connection toy_aead
        (λ _. false)
        (λ _. pos 6)
        (λ _. some toy_nonce)
        5
        []
        []
        anonymous_hello
        0
        toy_server
        9
        (pos 5)).server.sessions.sessions
    ≡ lookup 9 toy_server.sessions.sessions
unfolding lookup
handle_tcp_connection-lookup_example =
    handle_tcp_connection-lookup toy_aead (λ _. false) (λ _. pos 6) (λ _. some toy_nonce) 5 [] []
      anonymous_hello 0 toy_server toy_exchange_laws 9 9 (pos 5) tt refl

abbrev alice : Bytes
alice = codes "alice"

abbrev of_alice : ServerRequest
of_alice = record { request = known_request; session_id = 7; api_key_id = alice }

abbrev bob : Bytes
bob = codes "bob"

guarded_by_api_key_id_example :
    (Memᴰ alice (bob ∷ alice ∷ [])
      × (call_opcode
            (handle 5
              (handler counting)
              (use_all (require_api_key_id (bob ∷ alice ∷ []) ∷ []) toy_server))
            5
            []
            of_alice
            0
          ≡ some (handle_hush (in_order [] (handler counting)) [] of_alice 0)))
    ⊎ ((Memᴰ alice (bob ∷ alice ∷ []) → ⊥)
        × (call_opcode
              (handle 5
                (handler counting)
                (use_all (require_api_key_id (bob ∷ alice ∷ []) ∷ []) toy_server))
              5
              []
              of_alice
              0
            ≡ some (returned (some not_authorized), 0)))
guarded_by_api_key_id_example =
    guarded_by_api_key_id toy_server (bob ∷ alice ∷ []) [] 5 (handler counting) [] of_alice 0 refl

abbrev breaking : Handler ℕ
breaking = handler (λ ctx req s. (panicked, s))

-- An onPanic that panics itself.
abbrev raising : ServerRequest → ℕ → Bool × ℕ
raising req s = (true, s + 1)

recovery_panics_iff_example :
    (call_opcode
        (handle 5 breaking (use_all (recovery_middleware raising ∷ []) toy_server))
        5
        []
        of_alice
        0
      ≡ some (panicked, 1))
    ↔ ((s'' : ℕ) × (handle_hush (in_order [] breaking) [] of_alice 0 ≡ (panicked, s''))
        × (raising of_alice s'' ≡ (true, 1)))
recovery_panics_iff_example =
    recovery_panics_iff toy_server raising [] 5 breaking [] of_alice 0 1 refl

abbrev three_calls : List Arrival
three_calls =
    record { at_time = pos 1; ctx = []; req = of_alice }
    ∷ record { at_time = pos 2; ctx = []; req = of_alice }
    ∷ record { at_time = pos 30; ctx = []; req = of_alice }
    ∷ []

replies-window_answers_example :
    replies
      (limited (λ ctx req. session_key req) counting)
      three_calls
      (record { limiter = new_limiter (pos 1) (pos 10); now = pos 0; inner = 0 })
    ≡ filtered counting
        (window_answers
          (pos 1)
          (pos 10)
          (λ _. [])
          (requests (λ ctx req. session_key req) three_calls))
        three_calls
        0
replies-window_answers_example =
    replies-window_answers (λ ctx req. session_key req) counting (pos 1) (pos 10) (pos 0) (pos 0)
      three_calls 0 (ground arith)

abbrev quiet_stream : HandleHushStream ℕ
quiet_stream ctx req key stream s = (returned tt, stream, s)

abbrev forgetting : Handler ℕ → Handler ℕ
forgetting h = handler (λ ctx req s. handle_hush h [] req s)

handle-in_order_example :
    IsRegistered toy_server 5
      (in_order (forgetting ∷ []) breaking)
      (handle 5 breaking (use_all (forgetting ∷ []) toy_server))
    × IsRegistered toy_server 5
        (in_order (forgetting ∷ []) (handler_func counting))
        (handle_func 5 counting (use_all (forgetting ∷ []) toy_server))
    × IsRegistered toy_server 5
        (stream_handler counting quiet_stream)
        (handle_stream 5 (counting, quiet_stream) (use_all_stream [] toy_server))
    × IsRegistered toy_server 5
        (stream_handler (λ _ _ s'. (failed, s')) quiet_stream)
        (handle_stream_func 5 quiet_stream (use_all_stream [] toy_server))
handle-in_order_example =
    handle-in_order toy_server (forgetting ∷ []) [] 5 breaking counting (counting, quiet_stream)
      quiet_stream

-- The toy server with a handler that panics behind RecoveryMiddleware, and a request for it.
abbrev breaking_server : Server toy_exchange ℕ
breaking_server = record toy_server {
  handlers = (0x0401, recovery_middleware (λ req s. (false, s)) breaking) ∷ [];
}

abbrev breaking_stream : Stream
breaking_stream = record {
  incoming = request_wire toy_aead toy_laws toy_key toy_nonce (1, known_request) ++ [];
  written = [];
  closed = false;
}

breaking_alive : is_over toy_aead breaking_server (pos 6) toy_session ≡ false
unfolding is_over is_expired is_idle_dead ◌-ℤ◌
breaking_alive = refl

tcp_round-recovery_middleware_example :
    (tcp_round toy_aead breaking_server
      (some toy_nonce)
      (pos 6)
      []
      []
      toy_session
      []
      breaking_stream
      0).next
    ≡ stop crashed
unfolding lookup handle_hush
tcp_round-recovery_middleware_example =
    tcp_round-recovery_middleware toy_aead toy_laws breaking_server [] [] (some toy_nonce) (pos 6)
      [] toy_session 1 known_request [] toy_nonce breaking_stream 0 (λ req s. (false, s)) breaking
      toy_key-IsKey refl (omega arith, known_request-IsRequest) refl (λ _ _ _. refl) breaking_alive
      refl

toy_server-IsRequestHandler :
    (opcode : ℕ) (h : Handler ℕ) → lookup opcode toy_server.handlers ≡ some h → IsRequestHandler h
toy_server-IsRequestHandler opcode h e = from h (toy_server-IsAnswering opcode h e)
  where
    from : (h' : Handler ℕ) → IsAnswering h' → IsRequestHandler h'
    from (handler f) a = tt
    from (stream_handler f g) a = a

tcp_rounds-ends_example :
    (tcp_rounds toy_aead toy_server
      (λ _. false)
      (λ _. pos 6)
      (λ _. none)
      []
      []
      7
      0
      []
      toy_session
      (fresh_stream short_frame)
      0).next
    ≢ stop out_of_rounds
tcp_rounds-ends_example =
    tcp_rounds-ends toy_aead toy_server (λ _. false) (λ _. pos 6) (λ _. none) [] [] 7 0 []
      toy_session (fresh_stream short_frame) 0 toy_server-IsRequestHandler (omega arith)
