-- ===== src/Server/Dispatch/Own.antt =====
-- The responses that the server makes itself fit a frame.
use hush_go.Base.{ℕ, ◌^◌, ◌<◌, refl, arith}
use hush_go.Server.Handlers.{error_response}
use hush_go.Base.Uvarint.{put_uvarint}
use hush_go.Base.BigEndian.{put_u16}
use hush_go.Base.Dict.{number_key}
use hush_go.Tlv.Map.{set, get}
use hush_go.Tlv.Encode.{with_header}
use hush_go.Tlv.Wire.{payload_bytes, nesting}
use hush_go.Frame.Responses.{IsResponse}
use hush_go.Server.Dispatch.{
  session_expired, bad_request, not_found, internal_error, internal_server_error,
}

-- The server's own responses fit a frame.
pub session_expired-IsResponse : IsResponse session_expired
session_expired-IsResponse = record {
  status_range = omega arith;
  payload_wire = tt;
  fits = omega arith;
}

pub not_found-IsResponse : (opcode : ℕ) → opcode < 2 ^ 16 → IsResponse (not_found opcode)
unfolding set get payload_bytes nesting with_header put_uvarint put_u16
not_found-IsResponse opcode h = record {
  status_range = omega arith;
  payload_wire = (((refl, tt), omega arith), omega arith);
  fits = omega arith;
}

pub bad_request-IsResponse : IsResponse bad_request
unfolding error_response set get payload_bytes nesting with_header put_uvarint
bad_request-IsResponse = record {
  status_range = omega arith;
  payload_wire = (((refl, tt), omega arith), omega arith);
  fits = omega arith;
}

pub internal_error-IsResponse : IsResponse internal_error
unfolding error_response set get payload_bytes nesting with_header put_uvarint
internal_error-IsResponse = record {
  status_range = omega arith;
  payload_wire = (((refl, tt), omega arith), omega arith);
  fits = omega arith;
}

pub internal_server_error-IsResponse : IsResponse internal_server_error
unfolding error_response set get payload_bytes nesting with_header put_uvarint
internal_server_error-IsResponse = record {
  status_range = omega arith;
  payload_wire = (((refl, tt), omega arith), omega arith);
  fits = omega arith;
}
