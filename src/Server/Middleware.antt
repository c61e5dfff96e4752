-- ===== src/Server/Middleware.antt =====
-- server/middleware.go: middlewares wrap a handler. What a middleware shares with the handlers is a
-- part of their state, read and written through a Cell; the clock is a function of the state.
pub mod Guards
pub mod RateLimits
use hush_go.Base.{
  ℕ, zero, suc, ◌+◌, ◌/◌, ◌%◌, Bool, true, false, not, Bytes, List, [], ◌∷◌, ◌++◌, length, ltb,
  ◌==◌, if◌then◌else◌, Option, none, some, str_eq,
}
use hush_go.Base.Int.{ℤ}
use hush_go.Base.Text.{codes}
use hush_go.Frame.Responses.{Response, status_rate_limited, status_unauthenticated}
use hush_go.Server.RateLimit.{Limiter, allow}
use hush_go.Server.Handlers.{
  Reply, returned, failed, panicked, ServerRequest, Context, ContextKey, ContextValue, with_value,
  remote_addr_from_context, HandleHush, HandleHushStream, Handler, handle_hush, handler_func,
  error_response,
}

-- Middleware and StreamMiddleware
abbrev pub Middleware : Type 0 → Type 0
Middleware S = Handler S → Handler S

abbrev pub StreamHandler : Type 0 → Type 0
StreamHandler S = HandleHush S × HandleHushStream S

abbrev pub StreamMiddleware : Type 0 → Type 0
StreamMiddleware S = StreamHandler S → StreamHandler S

-- A part of the state.
pub record Cell (S A : Type 0) : Type 0 where
  pub load : S → A
  pub store : A → S → S

-- A line that LoggingMiddleware prints, without the elapsed time.
pub data LogLine : Type 0 where
  error_line : ℕ → LogLine
  status_line : ℕ → ℕ → LogLine
  plain_line : ℕ → LogLine

-- strconv's decimal digits of a uint64: 20 at most.
decimal_digits : ℕ → ℕ → Bytes → Bytes
decimal_digits zero n digits = digits
decimal_digits (suc fuel) n digits =
    let more = decimal_digits fuel (n / 10) ((48 + n % 10) ∷ digits) in
    if ltb n 10 then (48 + n) ∷ digits else more

unfoldable pub decimal : ℕ → Bytes
unfolding decimal_digits
decimal n = decimal_digits 20 n []

-- The line for a reply, if it is no panic.
abbrev pub line_of : ℕ → Reply (Option Response) → Option LogLine
line_of opcode failed = some (error_line opcode)
line_of opcode (returned (some resp)) = some (status_line opcode resp.status)
line_of opcode (returned none) = some (plain_line opcode)
line_of opcode panicked = none

-- The rate-limit keys: of a session, of an API key and of a remote address.
unfoldable pub session_key : ServerRequest → Bytes
session_key req = codes "session:" ++ decimal req.session_id

unfoldable pub api_key_key : ServerRequest → Bytes
api_key_key req =
    if length req.api_key_id == 0 then codes "key:anonymous" else codes "key:" ++ req.api_key_id

unfoldable pub remote_addr_key : Context → Bytes
remote_addr_key ctx = elim (remote_addr_from_context ctx) [
  | none ↦ codes "ip:unknown"
  | some addr ↦ if length addr == 0 then codes "ip:unknown" else codes "ip:" ++ addr
]

-- The answers of the middlewares that stop a request.
abbrev pub rate_limited : Response
rate_limited = error_response status_rate_limited (codes "rate limit exceeded")

abbrev pub not_authorized : Response
not_authorized = error_response status_unauthenticated (codes "api key not authorized")

-- allowedSet[id]
unfoldable pub contains : List Bytes → Bytes → Bool
contains [] id = false
contains (a ∷ allowed) id = if str_eq a id then true else contains allowed id

module _ {S : Type 0} where
  -- LoggingMiddleware
  unfoldable pub logging_middleware : (LogLine → S → S) → Middleware S
  logging_middleware print next = handler_func λ ctx req s.
      let (reply, s') = handle_hush next ctx req s in
      elim (line_of req.request.opcode reply) [
        | none ↦ (reply, s')
        | some line ↦ (reply, print line s')
      ]

  -- RecoveryMiddleware: after a recovered panic the results are the zero ones, nil and nil. onPanic is
  -- the user's code as well: it is given with the state that it leaves and whether it panics itself,
  -- and a panic in the deferred function goes on to the caller.
  unfoldable pub recovered :
      (ServerRequest → S → Bool × S)
      → ServerRequest
      → Reply (Option Response) × S
      → Reply (Option Response) × S
  recovered on_panic req (panicked, s) =
      let (breaks, s') = on_panic req s in if breaks then (panicked, s') else (returned none, s')
  recovered on_panic req (failed, s) = (failed, s)
  recovered on_panic req (returned resp, s) = (returned resp, s)

  unfoldable pub recovery_middleware : (ServerRequest → S → Bool × S) → Middleware S
  recovery_middleware on_panic next =
      handler_func λ ctx req s. recovered on_panic req (handle_hush next ctx req s)

  -- ContextMiddleware
  unfoldable pub context_middleware : ContextKey → ContextValue → Middleware S
  context_middleware key val next =
      handler_func λ ctx req s. handle_hush next (with_value ctx key val) req s

  -- A call of Allow on the limiter in the state.
  unfoldable pub allow_in : Cell S Limiter → (S → ℤ) → Bytes → S → S × Bool
  allow_in limiter clock key s =
      let (l, allowed) = allow (limiter.load s) (clock s) key in (limiter.store l s, allowed)

  -- RateLimitMiddleware, RateLimitBySession, RateLimitByAPIKey and RateLimitByRemoteAddr; `key` is
  -- what stands for keyFn, which is also given the context.
  unfoldable pub rate_limit :
      Cell S Limiter → (S → ℤ) → (Context → ServerRequest → Bytes) → Middleware S
  rate_limit limiter clock key next = handler_func λ ctx req s.
      let (s', allowed) = allow_in limiter clock (key ctx req) s in
      if allowed then handle_hush next ctx req s' else (returned (some rate_limited), s')

  unfoldable pub rate_limit_by_session : Cell S Limiter → (S → ℤ) → Middleware S
  unfolding rate_limit
  rate_limit_by_session limiter clock = rate_limit limiter clock (λ ctx req. session_key req)

  unfoldable pub rate_limit_by_api_key : Cell S Limiter → (S → ℤ) → Middleware S
  unfolding rate_limit
  rate_limit_by_api_key limiter clock = rate_limit limiter clock (λ ctx req. api_key_key req)

  unfoldable pub rate_limit_by_remote_addr : Cell S Limiter → (S → ℤ) → Middleware S
  unfolding rate_limit
  rate_limit_by_remote_addr limiter clock =
      rate_limit limiter clock (λ ctx req. remote_addr_key ctx)

  -- The loop over the limiters: it stops at the first that refuses.
  unfoldable pub allow_all : List (Cell S Limiter) → (S → ℤ) → Bytes → S → S × Bool
  allow_all [] clock key s = (s, true)
  allow_all (l ∷ limiters) clock key s =
      let (s', allowed) = allow_in l clock key s in
      let rest = allow_all limiters clock key s' in if allowed then rest else (s', false)

  -- MultiRateLimitMiddleware
  unfoldable pub multi_rate_limit_middleware : List (Cell S Limiter) → (S → ℤ) → Middleware S
  multi_rate_limit_middleware limiters clock next = handler_func λ ctx req s.
      let (s', allowed) = allow_all limiters clock (session_key req) s in
      if allowed then handle_hush next ctx req s' else (returned (some rate_limited), s')

  -- RequireAPIKeyID
  unfoldable pub require_api_key_id : List Bytes → Middleware S
  require_api_key_id allowed next = handler_func λ ctx req s.
      if contains allowed req.api_key_id
      then handle_hush next ctx req s
      else (returned (some not_authorized), s)
