-- ===== src/Frame/Tests.antt =====
-- The theorems on frames at concrete inputs.
use hush_go.Base.{
  ◌≤◌, Bytes, [], ◌∷◌, ◌++◌, Ensures, ok, ◌>>=◌, ◌≡◌, refl, arith, Option, none, some,
}
use hush_go.Session.ToyAead.{toy_aead, toy_laws}
use hush_go.Tlv.Types.{Map, string, map, no_entries, entry}
use hush_go.Tlv.Map.{get}
use hush_go.Tlv.Encode.{with_header}
use hush_go.Base.Uvarint.{put_uvarint}
use hush_go.Base.BigEndian.{put_u16, get_u32}
use hush_go.Base.Reader.{read_full}
use hush_go.Tlv.Decode.{max_decode_depth}
use hush_go.Tlv.Wire.{IsWire, nesting, payload_bytes}
use hush_go.Frame.Framing.{read, read-Ensures, IsReadFrom}
use hush_go.Frame.Requests.{
  Request, IsRequest, write_request, read_request, request_on_wire, read_request-write_request,
}
use hush_go.Frame.Responses.{
  Response, IsResponse, write_response, read_response, response_on_wire, status_not_found,
  read_response-write_response,
}

abbrev key : Option Bytes
key = some (1 ∷ 2 ∷ 3 ∷ 4 ∷ 5 ∷ 6 ∷ 7 ∷ 8 ∷ 9 ∷ 10 ∷ 11 ∷ 12 ∷ 13 ∷ 14 ∷ 15 ∷ 16 ∷ [])

abbrev nonce : Bytes
nonce = 1 ∷ 2 ∷ 3 ∷ 4 ∷ 5 ∷ 6 ∷ 7 ∷ 8 ∷ 9 ∷ 10 ∷ 11 ∷ 12 ∷ []

abbrev payload_map : Map
payload_map = entry (0x61 ∷ []) (string (0x68 ∷ 0x69 ∷ [])) no_entries

payload_map-IsWire : IsWire (map payload_map)
unfolding get payload_bytes
payload_map-IsWire = ((refl, tt), omega arith)

payload_map-nesting : nesting (map payload_map) ≤ max_decode_depth
unfolding nesting
payload_map-nesting = omega arith

abbrev request : Request
request = record { opcode = 0x0401; payload = some payload_map }

request-IsRequest : IsRequest request
unfolding payload_bytes with_header put_uvarint put_u16
request-IsRequest = record {
  opcode_range = omega arith;
  payload_wire = (payload_map-IsWire, payload_map-nesting);
  fits = omega arith;
}

abbrev response : Response
response = record { status = status_not_found; payload = some payload_map; seq = 0 }

response-IsResponse : IsResponse response
unfolding payload_bytes with_header put_uvarint
response-IsResponse = record {
  status_range = omega arith;
  payload_wire = (payload_map-IsWire, payload_map-nesting);
  fits = omega arith;
}

read_request-write_request_example :
    (do
      written ← write_request toy_aead (some nonce) key 7 request
      read_request toy_aead key (written ++ (0xff ∷ [])))
    ≡ ok (request_on_wire request, 7, 0xff ∷ [])
read_request-write_request_example =
    read_request-write_request toy_aead toy_laws key nonce 7 request (0xff ∷ []) refl refl
      (omega arith) request-IsRequest

read_response-write_response_example :
    (do
      written ← write_response toy_aead (some nonce) none 7 response
      read_response toy_aead none (written ++ []))
    ≡ ok (response_on_wire 7 response, [])
read_response-write_response_example =
    read_response-write_response toy_aead toy_laws none nonce 7 response [] tt refl (omega arith)
      response-IsResponse

-- A frame of six bytes: sequence number 7 and two bytes of data, and a byte behind it.
abbrev stream : Bytes
stream = 0 ∷ 0 ∷ 0 ∷ 6 ∷ 0 ∷ 0 ∷ 0 ∷ 7 ∷ 0x10 ∷ 0x20 ∷ 0xff ∷ []

read-stream : read stream ≡ ok (record { sequence_number = 7; body = 0x10 ∷ 0x20 ∷ [] }, 0xff ∷ [])
unfolding read read_full get_u32
read-stream = refl

read-Ensures_example : Ensures (IsReadFrom stream) (read stream)
read-Ensures_example = read-Ensures stream (omega arith)
