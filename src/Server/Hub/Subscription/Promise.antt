-- ===== src/Server/Hub/Subscription/Promise.antt =====
-- What a subscription promises its client: the events in their order.
use hush_go.Base.{ℕ, suc, ◌^◌, ◌%◌, Bytes, List, [], ◌∷◌, ◌++◌, length, ◌≡◌, Option, none, some}
use hush_go.Base.Dict.{string_key, number_key}
use hush_go.Base.Int.{ℤ}
use hush_go.Base.Text.{codes}
use hush_go.Tlv.Types.{Map, string, map, timestamp, entry, no_entries}
use hush_go.Tlv.Map.{new_map}
use hush_go.Session.Crypto.{nonce_size}
use hush_go.Frame.Responses.{Response, IsResponse, status_success}
use hush_go.Server.Hub.{Event}
use hush_go.Server.Hub.Runs.{HubCall, publishing}
use hush_go.Server.Hub.Subscription.{Move, elsewhere, takes_event, takes_done}
use hush_go.Server.Hub.Subscription.Feed.{IsApart, waits_behind}

-- The events that were pushed to the client, and those that wait.
abbrev pub Feed : Type 0
Feed = List Event × List Event

abbrev pub next_fed : Feed → Feed
next_fed (pushed, []) = (pushed, [])
next_fed (pushed, evt ∷ waiting) = (pushed ++ (evt ∷ []), waiting)

abbrev pub fed : Bytes → Move → Feed → Feed
fed topic (elsewhere c) (pushed, waiting) = (pushed, waits_behind topic c waiting)
fed topic (takes_event random) feed = next_fed feed
fed topic takes_done feed = feed

abbrev pub fed_all : Bytes → List Move → Feed → Feed
fed_all topic [] feed = feed
fed_all topic (m ∷ moves) feed = fed_all topic moves (fed topic m feed)

-- The message of an event, field by field: its topic, its payload and its time; and that a frame
-- carries it.
abbrev payload_or_empty : Option Map → Map
payload_or_empty none = new_map
payload_or_empty (some m) = m

abbrev pub news_of : Bytes → Map → ℤ → Response
news_of topic payload time = record {
  status = status_success;
  payload = some (
      entry (codes "event") (string (codes "message")) (
        entry (codes "topic") (string topic) (
          entry (codes "payload") (map payload)
            (entry (codes "time") (timestamp time) no_entries))));
  seq = 0;
}

abbrev pub message_of : Event → Response
message_of evt = news_of evt.topic (payload_or_empty evt.payload) evt.time

abbrev pub FitsPayload : Event → Option Map → Type 0
FitsPayload evt none = ⊥
FitsPayload evt (some m) = IsResponse (news_of evt.topic m evt.time)

abbrev pub IsFittingEvent : Event → Type 0
IsFittingEvent evt = FitsPayload evt evt.payload

-- The messages, numbered from `i` on, in a uint32.
abbrev pub messages : ℕ → List Event → List (ℕ × Response)
messages i [] = []
messages i (evt ∷ evts) = (i % 2 ^ 32, message_of evt) ∷ messages (suc i) evts

-- The acknowledgement of a topic, field by field.
abbrev pub subscribed_to : Bytes → Response
subscribed_to topic = record {
  status = status_success;
  payload = some (
      entry (codes "event") (string (codes "subscribed"))
        (entry (codes "topic") (string topic) no_entries));
  seq = 0;
}

-- What the client is told: the acknowledgement, under 0, and the messages from 1 on.
abbrev pub told_so_far : Bytes → List Event → List (ℕ × Response)
told_so_far topic pushed = (0, subscribed_to topic) ∷ messages 1 pushed

-- Moves while the client listens: those of others are not on its subscription and publish what a frame
-- carries, and the nonces have their size.
abbrev pub IsNonce : Option Bytes → Type 0
IsNonce none = ⊥
IsNonce (some nonce) = length nonce ≡ nonce_size

abbrev pub IsFittingCall : HubCall → Type 0
IsFittingCall (publishing now t payload) =
    IsFittingEvent (record { topic = t; payload = payload; time = now })
IsFittingCall _ = Unit

abbrev pub IsListening : Bytes → Bytes → ℕ → Move → Type 0
IsListening topic id p (elsewhere c) = IsApart topic id p c × IsFittingCall c
IsListening topic id p (takes_event random) = IsNonce random
IsListening topic id p takes_done = ⊥
