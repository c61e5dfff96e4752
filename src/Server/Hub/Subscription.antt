-- ===== src/Server/Hub/Subscription.antt =====
-- server/stream.go: SubscribeHandler, a stream handler that runs beside the other users of the hub. Each
-- step of its select loop takes one ready branch; time.Now() and what rand.Reader gives for the nonces
-- are arguments.
pub mod Feed
pub mod Told
pub mod Promise
pub mod Order
pub mod Service
pub mod Complete
pub mod Leaving
mod Tests
use hush_go.Base.{◌>>=◌}
use hush_go.Base.{
  ℕ, ◌+◌, ◌^◌, ◌%◌, Bytes, List, [], ◌∷◌, ◌++◌, length, Outcome, ok, ◌>>=◌, ◌==◌, if◌then◌else◌,
  Option, none, some,
}
use hush_go.Base.Int.{ℤ}
use hush_go.Base.Text.{codes}
use hush_go.Tlv.Types.{Map, string, map, timestamp}
use hush_go.Tlv.Map.{new_map, set, get_string}
use hush_go.Session.Crypto.{Aead}
use hush_go.Frame.Responses.{Response, status_success}
use hush_go.Server.Handlers.{Reply, returned, failed, panicked, ServerRequest, Stream}
use hush_go.Server.Middleware.{decimal}
use hush_go.Server.Dispatch.{respond}
use hush_go.Server.Hub.{Event, Hub, subscribe, unsubscribe, receive, topic_in}
use hush_go.Server.Hub.Runs.{HubCall, perform}

-- A call of the handler: its topic, subID and sub, the sequence number, its stream and how it ended.
pub record Subscription : Type 0 where
  pub topic : Bytes
  pub sub_id : Bytes
  pub sub : ℕ
  pub seq : ℕ
  pub stream : Stream
  pub ended : Option (Reply (Unit {0}))

-- subID
unfoldable pub subscription_id : Bytes → ℕ → Bytes
subscription_id topic session_id = topic ++ (58 ∷ decimal session_id)

-- The initial acknowledgement and a message.
abbrev pub acknowledgement : Bytes → Response
acknowledgement topic = record {
  status = status_success;
  payload = some (
      set (set new_map (codes "event") (string (codes "subscribed"))) (codes "topic")
        (string topic));
  seq = 0;
}

abbrev pub message : Bytes → Map → ℤ → Response
message topic payload time = record {
  status = status_success;
  payload = some (
      set
        (set
          (set (set new_map (codes "event") (string (codes "message"))) (codes "topic")
            (string topic))
          (codes "payload") (map payload))
        (codes "time") (timestamp time));
  seq = 0;
}

-- How SubscribeHandler begins: it returns or panics, or it comes to its loop.
pub data Beginning : Type 0 where
  over : Reply (Unit {0}) → Beginning
  looping : Subscription → Beginning

-- A move of the handler, or of another user of the hub.
pub data Move : Type 0 where
  elsewhere : HubCall → Move
  takes_event : Option Bytes → Move
  takes_done : Move

module _ (aead : Aead) (key : Option Bytes) where
  -- A WriteResponse whose error is not looked at; a panic in it ends the handler.
  abbrev write_on : ℕ → Reply (Unit {0}) × Stream → Subscription → Subscription
  write_on seq (panicked, stream) w = record w { seq = seq; stream = stream; ended = some panicked }
  write_on seq (_, stream) w = record w { seq = seq; stream = stream }

  -- The deferred Unsubscribe, once the handler ended.
  abbrev pub leave_if :
      Option (Reply (Unit {0})) → Subscription → Hub → Outcome (Subscription × Hub)
  leave_if none w h = ok (w, h)
  leave_if (some r) w h = do h' ← unsubscribe w.topic w.sub_id h; ok (w, h')

  unfoldable pub leave : Subscription × Hub → Outcome (Subscription × Hub)
  leave (w, h) = leave_if w.ended w h

  abbrev pub begin_on : Option Bytes → ℤ → ℕ → Stream → Hub → Bytes → Outcome (Beginning × Hub)
  begin_on random now session_id stream h topic =
      let sub_id = subscription_id topic session_id in
      let (h', sub) = subscribe now topic sub_id h in
      let w : Subscription = record {
        topic = topic;
        sub_id = sub_id;
        sub = sub;
        seq = 0;
        stream = stream;
        ended = none;
      } in
      if length topic == 0 then ok (over failed, h) else do
        (w', h'') ←
            leave (write_on 0 (respond aead random key 0 (acknowledgement topic) stream) w, h')
        ok (looping w', h'')

  abbrev begin_payload :
      Option Bytes → ℤ → ℕ → Stream → Hub → Option Map → Outcome (Beginning × Hub)
  begin_payload random now session_id stream h none = ok (over panicked, h)
  begin_payload random now session_id stream h (some m) =
      begin_on random now session_id stream h (topic_in (get_string m (codes "topic")))

  -- SubscribeHandler up to its loop; a nil map's GetString panics.
  unfoldable pub begin_subscription :
      Option Bytes → ℤ → ServerRequest → Stream → Hub → Outcome (Beginning × Hub)
  begin_subscription random now req stream h =
      begin_payload random now req.session_id stream h req.request.payload

  -- The branch of an event; MapValue of a nil map panics.
  abbrev pub push_payload : Option Bytes → Event → Option Map → Subscription → Subscription
  push_payload random evt none w = record w { seq = (w.seq + 1) % 2 ^ 32; ended = some panicked }
  push_payload random evt (some m) w =
      let seq = (w.seq + 1) % 2 ^ 32 in
      write_on seq (respond aead random key seq (message evt.topic m evt.time) w.stream) w

  unfoldable pub push : Option Bytes → Event → Subscription → Subscription
  push random evt w = push_payload random evt evt.payload w

  -- A receive that finds nothing is not ready, and the select takes no branch.
  abbrev pub push_received : Option Bytes → Subscription → Option Event × Hub → Subscription × Hub
  push_received random w (none, h) = (w, h)
  push_received random w (some evt, h) = (push random evt w, h)

  abbrev pub select_event :
      Option Bytes → Option (Reply (Unit {0})) → Subscription → Hub → Outcome (Subscription × Hub)
  select_event random none w h = leave (push_received random w (receive w.sub h))
  select_event random (some r) w h = ok (w, h)

  abbrev pub select_done :
      Option (Reply (Unit {0})) → Subscription → Hub → Outcome (Subscription × Hub)
  select_done none w h = leave (record w { ended = some (returned tt) }, h)
  select_done (some r) w h = ok (w, h)

  unfoldable pub moved : Move → Subscription × Hub → Outcome (Subscription × Hub)
  moved (elsewhere c) (w, h) = do h' ← perform c h; ok (w, h')
  moved (takes_event random) (w, h) = select_event random w.ended w h
  moved takes_done (w, h) = select_done w.ended w h

  unfoldable pub moved_all : List Move → Subscription × Hub → Outcome (Subscription × Hub)
  moved_all [] s = ok s
  moved_all (m ∷ moves) s = do s' ← moved m s; moved_all moves s'

  -- SubscribeHandler with the moves that follow its beginning, and what the others did.
  abbrev pub go_on : List Move → Beginning × Hub → Outcome (Beginning × Hub)
  go_on moves (over r, h) = ok (over r, h)
  go_on moves (looping w, h) = do (w', h') ← moved_all moves (w, h); ok (looping w', h')

  unfoldable pub subscribe_handler :
      Option Bytes → ℤ → ServerRequest → Stream → List Move → Hub → Outcome (Beginning × Hub)
  subscribe_handler random now req stream moves h =
      begin_subscription random now req stream h >>= go_on moves
