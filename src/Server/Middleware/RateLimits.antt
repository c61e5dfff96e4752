-- ===== src/Server/Middleware/RateLimits.antt =====
-- RateLimitMiddleware over a sequence of requests.
use hush_go.Base.{
  Bool, true, false, Bytes, List, [], ◌∷◌, ◌≡◌, refl, ap, Option, some, Bool-cases, inl, inr,
}
use hush_go.Server.Handlers.{
  Reply, returned, ServerRequest, Context, HandleHush, Handler, handler, handle_hush, handler_func,
}
use hush_go.Base.Int.{ℤ}
use hush_go.Frame.Responses.{Response}
use hush_go.Server.RateLimit.{Limiter, new_limiter, allow}
use hush_go.Server.RateLimit.Window.{Event, request, InOrder, answers, window_answers}
use hush_go.Server.RateLimit.Simulation.{answers-window_answers}
use hush_go.Server.Middleware.{Cell, rate_limited, allow_in, rate_limit}

-- The state of a server with one limiter: the limiter, the time, and what the handler works on.
pub record Limited (T : Type 0) : Type 0 where
  pub limiter : Limiter
  pub now : ℤ
  pub inner : T

-- A call that arrives at a time.
pub record Arrival : Type 0 where
  pub at_time : ℤ
  pub ctx : Context
  pub req : ServerRequest

abbrev pub requests : (Context → ServerRequest → Bytes) → List Arrival → List Event
requests key [] = []
requests key (a ∷ arrivals) = request a.at_time (key a.ctx a.req) ∷ requests key arrivals

module _ {T : Type 0} where
  abbrev pub limiter_cell : Cell (Limited T) Limiter
  limiter_cell = record { load = λ s. s.limiter; store = λ l s. record s { limiter = l } }

  -- A handler on the inner state.
  abbrev pub on_inner : HandleHush T → HandleHush (Limited T)
  on_inner f ctx req s = let (reply, t) = f ctx req s.inner in (reply, record s { inner = t })

  abbrev pub limited : (Context → ServerRequest → Bytes) → HandleHush T → Handler (Limited T)
  limited key f = rate_limit limiter_cell (λ s. s.now) key (handler (on_inner f))

  -- The replies to the calls in their order.
  unfoldable pub replies :
      Handler (Limited T) → List Arrival → Limited T → List (Reply (Option Response))
  replies h [] s = []
  replies h (a ∷ arrivals) s =
      let (reply, s') = handle_hush h a.ctx a.req (record s { now = a.at_time }) in
      reply ∷ replies h arrivals s'

  -- The replies where `accepted` says which calls reach the handler.
  abbrev pub filtered : HandleHush T → List Bool → List Arrival → T → List (Reply (Option Response))
  filtered f (true ∷ accepted) (a ∷ arrivals) t =
      let (reply, t') = f a.ctx a.req t in reply ∷ filtered f accepted arrivals t'
  filtered f (false ∷ accepted) (a ∷ arrivals) t =
      returned (some rate_limited) ∷ filtered f accepted arrivals t
  filtered f _ _ t = []

  replies-answers :
      (key : Context → ServerRequest → Bytes) (f : HandleHush T) (arrivals : List Arrival)
      (s : Limited T)
      → replies (limited key f) arrivals s
        ≡ filtered f (answers s.limiter (requests key arrivals)) arrivals s.inner
  unfolding replies answers rate_limit allow_in handle_hush handler_func
  replies-answers key f [] s = refl
  replies-answers key f (a ∷ arrivals) s =
      let (l, allowed) = allow s.limiter a.at_time (key a.ctx a.req) in
      let (reply, t) = f a.ctx a.req s.inner in
      let passed : Limited T = record { limiter = l; now = a.at_time; inner = t } in
      let stopped : Limited T = record { limiter = l; now = a.at_time; inner = s.inner } in
      elim (Bool-cases allowed) [
        | inl accepted ↦ simp accepted (ap (reply ∷◌) (replies-answers key f arrivals passed))
        | inr refused ↦
            simp refused
              (ap (returned (some rate_limited) ∷◌) (replies-answers key f arrivals stopped))
      ]

-- Behind a new limiter, whatever key function names the callers, calls in the order of time get the
-- replies of a sliding window: a call reaches the handler exactly if fewer than `limit` calls of its
-- key reached it in the window that ends at the call, and else gets the response that the rate
-- limit is exceeded, without a change of the handler's state.
pub replies-window_answers :
    {T : Type 0} (key : Context → ServerRequest → Bytes) (f : HandleHush T)
    (limit window last start : ℤ) (arrivals : List Arrival) (t : T)
    → InOrder last (requests key arrivals)
    → replies
        (limited key f)
        arrivals
        (record { limiter = new_limiter limit window; now = start; inner = t })
      ≡ filtered f (window_answers limit window (λ _. []) (requests key arrivals)) arrivals t
replies-window_answers key f limit window last start arrivals t o =
    rw (← answers-window_answers limit window last (requests key arrivals) o) (
      replies-answers key f arrivals
        (record { limiter = new_limiter limit window; now = start; inner = t }))
