-- ===== src/Server/Hub.antt =====
-- server/stream.go: the event hub. A *Subscriber is a number under which the hub's heap holds it; each
-- method is one step, with time.Now() as an argument. Publish sends outside the lock: a Subscribe or
-- Unsubscribe between its two halves is not modelled.
pub mod Heap
pub mod Registered
pub mod Steps
pub mod Runs
pub mod Delivery
pub mod Subscription
mod Tests
use hush_go.Base.{◌>>=◌}
use hush_go.Base.{
  ℕ, suc, ◌+◌, Bool, true, false, Bytes, List, [], ◌∷◌, ◌++◌, length, Outcome, ok, panics, ltb,
  ◌==◌, if◌then◌else◌, Option, none, some,
}
use hush_go.Server.Handlers.{
  Reply, returned, panicked, Handler, handler_func, error_response, new_response,
}
use hush_go.Base.Int.{ℤ}
use hush_go.Base.Text.{codes}
use hush_go.Base.Dict
use hush_go.Base.Dict.{Dict, Key, string_key, number_key, lookup, insert}
use hush_go.Tlv.Types.{Value, Map, string, uint64, array, Items, nil, cons}
use hush_go.Tlv.Map.{new_map, set, get_string, get_map}
use hush_go.Frame.Responses.{Response, status_bad_request}
use hush_go.Frame.Requests.{Request}
use hush_go.Server.Middleware.{Cell}

-- Event
pub record Event : Type 0 where
  pub topic : Bytes
  pub payload : Option Map
  pub time : ℤ

-- Subscriber; `events` is what its channel holds, and `is_done` says that `done` is closed.
pub record Subscriber : Type 0 where
  pub id : Bytes
  pub topic : Bytes
  pub events : List Event
  pub created : ℤ
  pub is_done : Bool

abbrev pub buffer_size : ℕ
buffer_size = 64

-- NewSubscriber
unfoldable pub new_subscriber : ℤ → Bytes → Bytes → Subscriber
new_subscriber now id topic = record {
  id = id;
  topic = topic;
  events = [];
  created = now;
  is_done = false;
}

-- Hub, with the subscribers that were ever made.
pub record Hub : Type 0 where
  pub subscribers : Dict Bytes (Dict Bytes ℕ)
  pub heap : Dict ℕ Subscriber
  pub next : ℕ

-- NewHub
unfoldable pub new_hub : Hub
new_hub = record { subscribers = []; heap = []; next = 0 }

-- h.subscribers[topic], which is nil for a missing topic.
abbrev pub or_nil : Option (Dict Bytes ℕ) → Dict Bytes ℕ
or_nil none = []
or_nil (some subs) = subs

-- Subscribe, and the subscriber it returns.
unfoldable pub subscribe : ℤ → Bytes → Bytes → Hub → Hub × ℕ
subscribe now topic sub_id h =
    let subs = or_nil (lookup topic h.subscribers) in
    (
      record {
        subscribers = insert topic (insert sub_id h.next subs) h.subscribers;
        heap = insert h.next (new_subscriber now sub_id topic) h.heap;
        next = suc h.next;
      },
      h.next,
    )

-- sub.Close(): to close `done` twice panics, as does a nil subscriber.
abbrev pub closed_heap : ℕ → Dict ℕ Subscriber → Option Subscriber → Outcome (Dict ℕ Subscriber)
closed_heap p heap none = panics
closed_heap p heap (some sub) =
    if sub.is_done then panics else ok (insert p (record sub { is_done = true }) heap)

unfoldable pub close_subscriber : ℕ → Dict ℕ Subscriber → Outcome (Dict ℕ Subscriber)
close_subscriber p heap = closed_heap p heap (lookup p heap)

-- Unsubscribe where the topic has subscribers, by what it has under the id.
unfoldable pub remove : Bytes → Bytes → Hub → Dict Bytes ℕ → Option ℕ → Outcome Hub
remove topic sub_id h subs none =
    ok (if length subs == 0 then record h { subscribers = Dict.delete topic h.subscribers } else h)
remove topic sub_id h subs (some p) = do
  heap ← close_subscriber p h.heap
  let rest = Dict.delete sub_id subs
  ok (record h {
    heap = heap;
    subscribers =
        (if length rest == 0
          then Dict.delete topic h.subscribers
          else insert topic rest h.subscribers);
  })

-- Unsubscribe
abbrev pub unsubscribe_from : Bytes → Bytes → Hub → Option (Dict Bytes ℕ) → Outcome Hub
unsubscribe_from topic sub_id h none = ok h
unsubscribe_from topic sub_id h (some subs) = remove topic sub_id h subs (lookup sub_id subs)

unfoldable pub unsubscribe : Bytes → Bytes → Hub → Outcome Hub
unsubscribe topic sub_id h = unsubscribe_from topic sub_id h (lookup topic h.subscribers)

-- The send of Publish: an event that finds the channel full is dropped.
abbrev pub offered : Event → Subscriber → Subscriber
offered evt sub =
    if ltb (length sub.events) buffer_size
    then record sub { events = sub.events ++ (evt ∷ []) }
    else sub

abbrev pub offer_found : Event → ℕ → Dict ℕ Subscriber → Option Subscriber → Dict ℕ Subscriber
offer_found evt p heap none = heap
offer_found evt p heap (some sub) = insert p (offered evt sub) heap

abbrev pub offer_all : Event → Dict Bytes ℕ → Dict ℕ Subscriber → Dict ℕ Subscriber
offer_all evt [] heap = heap
offer_all evt ((id, p) ∷ dest) heap = offer_all evt dest (offer_found evt p heap (lookup p heap))

-- Publish
unfoldable pub publish : ℤ → Bytes → Option Map → Hub → Hub
publish now topic payload h =
    let evt : Event = record { topic = topic; payload = payload; time = now } in
    record h { heap = offer_all evt (or_nil (lookup topic h.subscribers)) h.heap }

-- A receive from sub.Events, if there is something to receive.
abbrev pub received_from : ℕ → Hub → Subscriber → List Event → Option Event × Hub
received_from p h sub [] = (none, h)
received_from p h sub (evt ∷ events) =
    (some evt, record h { heap = insert p (record sub { events = events }) h.heap })

abbrev pub received : ℕ → Hub → Option Subscriber → Option Event × Hub
received p h none = (none, h)
received p h (some sub) = received_from p h sub sub.events

unfoldable pub receive : ℕ → Hub → Option Event × Hub
receive p h = received p h (lookup p h.heap)

-- Topics and SubscriberCount
abbrev pub keys_of : Dict Bytes (Dict Bytes ℕ) → List Bytes
keys_of [] = []
keys_of ((topic, subs) ∷ m) = topic ∷ keys_of m

unfoldable pub topics : Hub → List Bytes
topics h = keys_of h.subscribers

unfoldable pub subscriber_count : Hub → Bytes → ℕ
subscriber_count h topic = length (or_nil (lookup topic h.subscribers))

-- A list of topics as an array.
abbrev strings : List Bytes → Items
strings [] = nil
strings (t ∷ ts) = cons (string t) (strings ts)

-- The topic of a request, which is empty if it has none.
abbrev pub topic_in : Option Bytes → Bytes
topic_in none = []
topic_in (some topic) = topic

module _ {S : Type 0} (hub : Cell S Hub) (clock : S → ℤ) where
  -- PublishHandler behind the topic.
  abbrev pub publish_to : Map → S → Bytes → Reply (Option Response) × S
  publish_to payload s topic =
      if length topic == 0
      then (returned (some (error_response status_bad_request (codes "topic required"))), s)
      else publish_map (get_map payload (codes "payload"))
    where
      publish_map : Option Map → Reply (Option Response) × S
      publish_map none =
          (returned (some (error_response status_bad_request (codes "payload required"))), s)
      publish_map (some m) =
          let h = publish (clock s) topic (some m) (hub.load s) in
          (
            returned (
                some (
                  new_response (
                    some (
                      set
                        (set new_map (codes "subscriber_count") (uint64 (subscriber_count h topic)))
                        (codes "topic") (string topic))))),
            hub.store h s,
          )

  abbrev publish_request : S → Option Map → Reply (Option Response) × S
  publish_request s none = (panicked, s)
  publish_request s (some payload) =
      publish_to payload s (topic_in (get_string payload (codes "topic")))

  -- PublishHandler; a request without a payload is a nil map, whose GetString panics.
  unfoldable pub publish_handler : Handler S
  publish_handler = handler_func (λ ctx req s. publish_request s req.request.payload)

  -- ListTopicsHandler
  unfoldable pub list_topics_handler : Handler S
  list_topics_handler = handler_func λ ctx req s.
      let ts = topics (hub.load s) in
      (
        returned (
            some (
              new_response (
                some (
                  set (set new_map (codes "topics") (array (strings ts))) (codes "count")
                    (uint64 (length ts)))))),
        s,
      )
