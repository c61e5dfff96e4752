-- ===== src/Server/Toy.antt =====
-- A server with one handler, for the tests.
use hush_go.Base.{
  ℕ, ◌+◌, Bytes, [], ◌∷◌, ◌≡◌, subst, ◌==◌, arith, Option, none, some, Bool-cases, inl, inr,
}
use hush_go.Server.Handlers.{returned, HandleHush, Handler, handler}
use hush_go.Base.Int.{pos}
use hush_go.Base.BigEndian.{put_u16}
use hush_go.Base.Dict.{number_key, lookup}
use hush_go.Tlv.Wire.{payload_bytes}
use hush_go.Session.Store.{Session}
use hush_go.Session.ToyExchange.{toy_exchange}
use hush_go.Frame.Responses.{Response, IsResponse, status_success}
use hush_go.Frame.Requests.{Request, IsRequest}
use hush_go.Server.Registry.{Server}
use hush_go.Server.Dispatch.Hearing.{IsFitting}
use hush_go.Server.Tcp.Pipeline.{IsAnswering}

-- A success without a payload; the state counts the calls.
abbrev pub success : Response
success = record { status = status_success; payload = none; seq = 0 }

abbrev pub counting : HandleHush ℕ
counting ctx req s = (returned (some success), s + 1)

abbrev pub toy_server : Server toy_exchange ℕ
toy_server = record {
  handlers = (0x0401, handler counting) ∷ [];
  sessions = record {
    config = record { idle_timeout = pos 100; max_lifetime = pos 1000; gc_interval = pos 10 };
    sessions = [];
  };
  middlewares = [];
  stream_middlewares = [];
  key_store = λ _. none;
  server_priv = 4;
  media_store = none;
  session_cfg = record { idle_timeout = pos 100; max_lifetime = pos 1000; gc_interval = pos 10 };
}

abbrev pub toy_key : Option Bytes
toy_key = some (1 ∷ 2 ∷ 3 ∷ 4 ∷ 5 ∷ 6 ∷ 7 ∷ 8 ∷ 9 ∷ 10 ∷ 11 ∷ 12 ∷ 13 ∷ 14 ∷ 15 ∷ 16 ∷ [])

abbrev pub toy_nonce : Bytes
toy_nonce = 1 ∷ 2 ∷ 3 ∷ 4 ∷ 5 ∷ 6 ∷ 7 ∷ 8 ∷ 9 ∷ 10 ∷ 11 ∷ 12 ∷ []

abbrev pub toy_session : Session
toy_session = record {
  id = 7;
  api_key_id = 97 ∷ [];
  key = toy_key;
  created_at = pos 0;
  last_used = pos 0;
}

-- A request that the server has a handler for, and one that it has none for.
abbrev pub known_request : Request
known_request = record { opcode = 0x0401; payload = none }

abbrev pub unknown_request : Request
unknown_request = record { opcode = 0x0402; payload = none }

pub known_request-IsRequest : IsRequest known_request
unfolding payload_bytes put_u16
known_request-IsRequest = record {
  opcode_range = omega arith;
  payload_wire = tt;
  fits = omega arith;
}

pub unknown_request-IsRequest : IsRequest unknown_request
unfolding payload_bytes put_u16
unknown_request-IsRequest = record {
  opcode_range = omega arith;
  payload_wire = tt;
  fits = omega arith;
}

success-IsResponse : IsResponse success
unfolding payload_bytes
success-IsResponse = record { status_range = omega arith; payload_wire = tt; fits = omega arith }

-- What stands under any opcode is the one handler.
found_counting :
    (opcode : ℕ) (h : Handler ℕ) → lookup opcode toy_server.handlers ≡ some h → handler counting ≡ h
unfolding lookup
found_counting opcode h e = elim (Bool-cases (0x0401 == opcode)) [
  | inl here ↦ cc (rw here at e)
  | inr there ↦ cc (rw there at e)
]

pub toy_server-IsFitting :
    (opcode : ℕ) (h : Handler ℕ) → lookup opcode toy_server.handlers ≡ some h → IsFitting h
toy_server-IsFitting opcode h e =
    subst IsFitting (found_counting opcode h e) (λ ctx req s. success-IsResponse)

pub toy_server-IsAnswering :
    (opcode : ℕ) (h : Handler ℕ) → lookup opcode toy_server.handlers ≡ some h → IsAnswering h
toy_server-IsAnswering opcode h e =
    subst IsAnswering (found_counting opcode h e) (λ ctx req s. success-IsResponse)
