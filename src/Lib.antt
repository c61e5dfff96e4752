-- ===== src/Lib.antt =====
-- Hush: a binary request and response protocol for Go (tlv, frame, session, server, client, media).
--
-- A request is a TLV map behind an opcode, optionally encrypted, in a length-prefixed frame on a
-- stream; a response is the same behind a status. The files model the Go packages so:
-- Base: shared names. Base/Calls has Outcome: the value, returned error or panic of a Go call;
--   out_of_fuel is no outcome of the program but a model's loop that met its bound. Base/Int,
--   Base/BigEndian, Base/Uvarint and Base/Reader model what the packages use of Go's integers,
--   time, encoding/binary and io; Base/Text has the bytes of string constants.
-- Tlv (tlv/types.go, tlv/encode.go, tlv/decode.go): Tlv/Types has the type codes, values and
--   accessors; Tlv/Map the ordered map (Set, Get, GetString, Iter, Clone); Tlv/Encode
--   marshalPayload, marshalValue, Encode, MustEncode; Tlv/Decode decodeValue, decodeValueBytes,
--   DecodeBytes, MustDecode, DecodeMap. Tlv/Wire describes the wire form by itself, Tlv/RoundTrip,
--   Tlv/Total, Tlv/Slices and Tlv/Typed are proofs, Tlv/Tests has runs.
--   Tlv/Stream has decodeReader, Decode and DecodeAll, which read from a stream; Base/ReadUvarint is
--   their ReadUvarint.
-- Session (session/crypto.go): Session/Crypto has Encrypt and Decrypt over AES-GCM, which is the
--   parameter Aead with its documented laws; Session/ToyAead is an instance of it.
--   Session/Handshake (session/negotiate.go) has NegotiateClient and NegotiateServer over the parameter
--   Exchange, which is X25519 and HKDF with their documented laws; Session/ToyExchange is an instance.
--   Session/Store (session/session.go) has the session store and its configuration; Session/Store/Promise
--   its promise as a finite map.
-- Server (server): Server/RateLimit (server/ratelimit.go) has the sliding-window limiter, with Allow,
--   gc, CleanupEvery and Stop; Server/RateLimit/Window the sliding window over a whole history, and
--   the other files there are proofs and runs. Server/Logger (server/logger.go) has the
--   writer of log lines, with parseLevel and colorForLevel.
--   Server/Handlers (server/handler.go) has handlers, the context and responses: a call of a handler is
--   a step on a state of the program's own, and ends with its results, an error or a panic.
--   Server/Middleware (server/middleware.go) has the built-in middlewares as functions on handlers,
--   Server/Registry (server/server.go) the server's record, NewServer with its options, Use, Handle and
--   their kin. Server/Dispatch has handleStream and Server/Tcp handleTCPConnection, on a stream that is
--   the bytes to be read and those written. Server/Quic has handleConnection, whose streams' goroutines
--   go on in any order, and Server/Quic/Promise the machine, without frames, sealing and recover, that
--   it promises to be.
--   Server/Serving has ListenAndServe, ListenAndServeOnConn, ListenAndServeTCP and gcLoop: all
--   connections beside one another at the table of sessions. Server/Hub (server/stream.go) has the
--   event hub, whose subscribers stand in a heap of their own, and Server/Hub/Subscription
--   SubscribeHandler, whose loop runs beside any calls of other users of the hub. The files below these
--   are proofs and runs; Server/Toy is a server for the tests.
-- Client (client/client.go): Client has the client and Close, Client/Dial Dial and Client/Do Do over QUIC
--   and TCP, where the network and the other end are a function from the bytes written to those that
--   arrive; Client/Roundtrip puts a server at the other end of a QUIC stream, Client/Keeping,
--   Client/Lifecycle and Client/Failures follow a client over its calls.
-- Frame (frame/frame.go, frame/request.go, frame/response.go): Frame/Framing has Read and Write,
--   Frame/Sealing what requests and responses share, Frame/Requests and Frame/Responses
--   WriteRequest, ReadRequest, WriteResponse, ReadResponse; Frame/Bounds what a request that was read
--   keeps to.
-- Media (media/media.go): Media/Tokens has the token store, Media/Tokens/Promise what it promises as
--   a finite map; MaxTokenTTL and ValidateSession stay as NewTokenStore sets them, and the session
--   check reads a state that is an argument of Validate.
-- Transport (transport/dial.go, transport/tcp.go): Transport has Dial, Listen, DialTCP and ListenTCP over
--   the parameter Network, which is what they call of net, crypto/tls and quic-go; Transport/Sockets
--   its documented laws about the sockets that are open.
-- Examples (examples/crud/main.go): Examples/Crud has the handlers of the notes server,
--   Examples/Crud/Promise the shelf of notes that it promises, Examples/Crud/Service the proof.
--
-- A stream is the list of the bytes still to come; a writer's output is a list of bytes. Bytes are
-- numbers, and a theorem says where it needs them below 256. Floats are IEEE 754 bit patterns, times
-- are nanoseconds since 1970. decodeValue recurs on fuel: every nested call is at least one level
-- deeper, so 66 units are enough from level 0; the loops over a payload take one unit for each byte,
-- since a round takes two bytes at least. DecodeAll has one round for each byte and one more.
--
-- The rounds of handleTCPConnection are counted: behind request handlers a round that goes on has read a
-- frame, so that one round more than there are bytes is enough.
--
-- What runs at once is a list of steps in any order. A step of Server/Quic is a goroutine's check of the
-- session, or all that it does behind it; of Server/Serving an Accept, a handshake up to its return, a
-- Set, a Delete or a tick; of a subscription a call of the hub by another user or one branch of its
-- select. Numbers from nextID are raised modulo 2 ^ 64.
--
-- Not modelled: names for messages (Type.String, StatusCode.String, Frame.String, BuildURL), the drawing of
-- random bytes (GenerateKeyPair, GenerateAPIKey, RandomBytes), main, the printing clients of examples, and
-- the examples chat and weather, which only call the packages. The sends of a Publish are one step,
-- and so are a Do of the client over TCP, beside which no second one runs, and a call of a handler. A
-- write that fails on a stream of the server is not modelled. Contexts are cancelled at the points
-- where the code looks at them; timeouts of the network are part of its parameters.
pub mod Base
pub mod Tlv
pub mod Session
pub mod Frame
pub mod Server
pub mod Media
pub mod Client
pub mod Examples
pub mod Transport
