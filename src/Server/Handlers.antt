-- ===== src/Server/Handlers.antt =====
-- server/handler.go: handlers, the context, and responses. `S` is the state that the handlers and
-- middlewares of a program share; a call of a handler is one step on it.
use hush_go.Base.{
  ℕ, Bool, true, false, Bytes, List, [], ◌∷◌, ◌==◌, if◌then◌else◌, Option, none, some,
}
use hush_go.Base.Text.{codes}
use hush_go.Tlv.Types.{Map, string}
use hush_go.Tlv.Map.{new_map, set}
use hush_go.Frame.Requests.{Request}
use hush_go.Frame.Responses.{Response, status_success}

-- How a call of a handler ends: with its results, with an error, or with a panic.
pub data Reply {ℓ} (A : Type ℓ) : Type ℓ where
  returned : A → Reply A
  failed : Reply A
  panicked : Reply A

-- Request: a frame's request with the session's metadata.
pub record ServerRequest : Type 0 where
  pub request : Request
  pub session_id : ℕ
  pub api_key_id : Bytes

-- The context keys that the server sets, and a program's own.
pub data ContextKey : Type 0 where
  ctx_session_id ctx_api_key_id ctx_remote_addr : ContextKey
  own_key : ℕ → ContextKey

-- What the server puts there, and a program's own values.
pub data ContextValue : Type 0 where
  number : ℕ → ContextValue
  text : Bytes → ContextValue
  own_value : ℕ → ContextValue

abbrev pub same_key : ContextKey → ContextKey → Bool
same_key ctx_session_id ctx_session_id = true
same_key ctx_api_key_id ctx_api_key_id = true
same_key ctx_remote_addr ctx_remote_addr = true
same_key (own_key m) (own_key n) = m == n
same_key _ _ = false

-- A context: the pairs of context.WithValue, the last one in front.
abbrev pub Context : Type 0
Context = List (ContextKey × ContextValue)

abbrev pub with_value : Context → ContextKey → ContextValue → Context
with_value ctx key val = (key, val) ∷ ctx

unfoldable pub value : Context → ContextKey → Option ContextValue
value [] key = none
value ((k, v) ∷ ctx) key = if same_key k key then some v else value ctx key

-- A type assertion on what stands under a key.
abbrev pub as_number : Option ContextValue → Option ℕ
as_number (some (number n)) = some n
as_number _ = none

abbrev pub as_text : Option ContextValue → Option Bytes
as_text (some (text t)) = some t
as_text _ = none

-- SessionIDFromContext, APIKeyIDFromContext and RemoteAddrFromContext
unfoldable pub session_id_from_context : Context → Option ℕ
session_id_from_context ctx = as_number (value ctx ctx_session_id)

unfoldable pub api_key_id_from_context : Context → Option Bytes
api_key_id_from_context ctx = as_text (value ctx ctx_api_key_id)

unfoldable pub remote_addr_from_context : Context → Option Bytes
remote_addr_from_context ctx = as_text (value ctx ctx_remote_addr)

-- One stream, or one TCP connection: the bytes still to be read, those written, and whether it is
-- closed.
pub record Stream : Type 0 where
  pub incoming : Bytes
  pub written : Bytes
  pub closed : Bool

-- HandleHush and HandleHushStream; a nil *Response is `none`.
abbrev pub HandleHush : Type 0 → Type 0
HandleHush S = Context → ServerRequest → S → Reply (Option Response) × S

abbrev pub HandleHushStream : Type 0 → Type 0
HandleHushStream S =
    Context → ServerRequest → Option Bytes → Stream → S → Reply (Unit {0}) × Stream × S

-- A value of the interface Handler: one that is no StreamHandler, or one that is.
pub data Handler (S : Type 0) : Type 0 where
  handler : HandleHush S → Handler S
  stream_handler : HandleHush S → HandleHushStream S → Handler S

module _ {S : Type 0} where
  unfoldable pub handle_hush : Handler S → HandleHush S
  handle_hush (handler f) = f
  handle_hush (stream_handler f g) = f

  -- HandlerFunc and StreamHandlerFunc
  unfoldable pub handler_func : HandleHush S → Handler S
  handler_func fn = handler fn

  unfoldable pub stream_handler_func : HandleHushStream S → Handler S
  stream_handler_func fn = stream_handler (λ _ _ s. (failed, s)) fn

-- NewResponse
unfoldable pub new_response : Option Map → Response
new_response payload = record { status = status_success; payload = payload; seq = 0 }

-- ErrorResponse
unfoldable pub error_response : ℕ → Bytes → Response
error_response status message = record {
  status = status;
  payload = some (set new_map (codes "error") (string message));
  seq = 0;
}
