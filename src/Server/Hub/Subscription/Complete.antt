-- ===== src/Server/Hub/Subscription/Complete.antt =====
-- A subscription loses nothing while at most 64 events wait.
use hush_go.Base.{
  ℕ, suc, ◌+◌, ◌≤◌, false, Bytes, List, [], ◌∷◌, ◌++◌, append_assoc, append-nil, length,
  length-append, All, ok, ◌≡◌, refl, ap, sym, ◌∙◌, ◌==◌, lt→ltb, if◌then◌else◌, arith, Option, some,
  str_eq, Bool-cases, inl, inr,
}
use hush_go.Base.{All-append}
use hush_go.Base.Int.{ℤ}
use hush_go.Base.Text.{codes}
use hush_go.Base.Dict.{string_key, number_key}
use hush_go.Tlv.Types.{Map}
use hush_go.Tlv.Map.{get_string}
use hush_go.Session.Crypto.{Aead, AeadLaws, nonce_size}
use hush_go.Frame.Sealing.{IsKey}
use hush_go.Frame.Responses.{IsResponse}
use hush_go.Server.Handlers.{Stream, ServerRequest}
use hush_go.Server.Tcp.Pipeline.{read_all, on_wire_all}
use hush_go.Server.Hub.{Event, Hub, topic_in}
use hush_go.Server.Hub.Heap.{IsHub}
use hush_go.Server.Hub.Runs.{HubCall, subscribing, unsubscribing, publishing, receiving}
use hush_go.Server.Hub.Subscription.{
  Subscription, subscription_id, looping, Move, elsewhere, takes_event, takes_done,
  subscribe_handler,
}
use hush_go.Server.Hub.Subscription.Feed.{Waits, waits_behind}
use hush_go.Server.Hub.Subscription.Service.{subscribe_handler-feed}
use hush_go.Server.Hub.Subscription.Promise.{
  Feed, fed, fed_all, messages, subscribed_to, IsListening,
}

-- The events that others publish under the topic.
abbrev pub published_by : Bytes → HubCall → List Event
published_by topic (publishing now t payload) =
    if str_eq t topic then record { topic = t; payload = payload; time = now } ∷ [] else []
published_by topic _ = []

abbrev pub published : Bytes → List Move → List Event
published topic [] = []
published topic (elsewhere c ∷ moves) = published_by topic c ++ published topic moves
published topic (takes_event random ∷ moves) = published topic moves
published topic (takes_done ∷ moves) = published topic moves

-- Takes of the handler, one for each nonce.
abbrev pub takes : List Bytes → List Move
takes [] = []
takes (nonce ∷ nonces) = takes_event (some nonce) ∷ takes nonces

fed_all-append :
    (topic : Bytes) (moves more : List Move) (feed : Feed)
    → fed_all topic (moves ++ more) feed ≡ fed_all topic more (fed_all topic moves feed)
fed_all-append topic [] more feed = refl
fed_all-append topic (m ∷ moves) more feed = fed_all-append topic moves more (fed topic m feed)

waits_behind-append :
    (topic : Bytes) (c : HubCall) (waiting : List Event)
    → length waiting + length (published_by topic c) ≤ 64
    → waits_behind topic c waiting ≡ waiting ++ published_by topic c
waits_behind-append topic (subscribing now t i) waiting room = sym (append-nil waiting)
waits_behind-append topic (unsubscribing t i) waiting room = sym (append-nil waiting)
waits_behind-append topic (receiving q) waiting room = sym (append-nil waiting)
waits_behind-append topic (publishing now t payload) waiting room =
    elim (Bool-cases (str_eq t topic)) [
      | inl same ↦
          rw (same, lt→ltb (length waiting) 64 (let r = (rw same at room) in omega (arith, r))) refl
      | inr other ↦ rw (other, append-nil waiting) refl
    ]

-- Where at most 64 wait in the end, none is dropped.
fed_all-keeps :
    (topic : Bytes) (moves : List Move) (pushed waiting : List Event)
    → length waiting + length (published topic moves) ≤ 64
    → (fed_all topic moves (pushed, waiting)).0 ++ (fed_all topic moves (pushed, waiting)).1
      ≡ (pushed ++ waiting) ++ published topic moves
fed_all-keeps topic [] pushed waiting room = sym (append-nil (pushed ++ waiting))
fed_all-keeps topic (elsewhere c ∷ moves) pushed waiting room =
    let few : length (published_by topic c) + length (published topic moves) + length waiting ≤ 64 =
      omega (arith, room, length-append (published_by topic c) (published topic moves)) in
    ap (λ ws. (fed_all topic moves (pushed, ws)).0 ++ (fed_all topic moves (pushed, ws)).1)
      (waits_behind-append topic c waiting (omega arith))
    ∙ (fed_all-keeps topic moves pushed (waiting ++ published_by topic c)
          (omega (arith, length-append waiting (published_by topic c)))
        ∙ ap (λ evts. evts ++ published topic moves)
            (sym (append_assoc pushed waiting (published_by topic c)))
        ∙ append_assoc (pushed ++ waiting) (published_by topic c) (published topic moves))
fed_all-keeps topic (takes_event random ∷ moves) pushed [] room =
    fed_all-keeps topic moves pushed [] room
fed_all-keeps topic (takes_event random ∷ moves) pushed (evt ∷ waiting) room =
    fed_all-keeps topic moves (pushed ++ (evt ∷ [])) waiting (omega arith)
    ∙ ap (λ evts. evts ++ published topic moves) (append_assoc pushed (evt ∷ []) waiting)
fed_all-keeps topic (takes_done ∷ moves) pushed waiting room =
    fed_all-keeps topic moves pushed waiting room

-- With as many takes as events wait, all are pushed.
fed_all-takes :
    (topic : Bytes) (nonces : List Bytes) (pushed waiting : List Event)
    → length waiting ≤ length nonces
    → fed_all topic (takes nonces) (pushed, waiting) ≡ (pushed ++ waiting, [])
fed_all-takes topic [] pushed [] room = ap (λ evts. (evts, [])) (sym (append-nil pushed))
fed_all-takes topic [] pushed (evt ∷ waiting) room = absurd (omega arith)
fed_all-takes topic (nonce ∷ nonces) pushed [] room =
    fed_all-takes topic nonces pushed [] (omega arith)
fed_all-takes topic (nonce ∷ nonces) pushed (evt ∷ waiting) room =
    fed_all-takes topic nonces (pushed ++ (evt ∷ [])) waiting (omega arith)
    ∙ ap (λ evts. (evts, [])) (append_assoc pushed (evt ∷ []) waiting)

takes-IsListening :
    (topic id : Bytes) (p : ℕ) (nonces : List Bytes)
    → All (λ nonce. length nonce ≡ nonce_size) nonces
    → All (IsListening topic id p) (takes nonces)
takes-IsListening topic id p [] h = tt
takes-IsListening topic id p (nonce ∷ nonces) (h, hs) = (h, takes-IsListening topic id p nonces hs)

-- Behind moves with at most 64 published events and as many takes, everything is pushed.
fed_all_complete :
    (topic : Bytes) (moves : List Move) (nonces : List Bytes)
    → length (published topic moves) ≤ 64
    → length (published topic moves) ≤ length nonces
    → fed_all topic (moves ++ takes nonces) ([], []) ≡ (published topic moves, [])
fed_all_complete topic moves nonces few enough =
    let (pushed, waiting) = fed_all topic moves ([], []) in
    let all : pushed ++ waiting ≡ published topic moves =
      fed_all-keeps topic moves [] [] (omega arith) in
    fed_all-append topic moves (takes nonces) ([], [])
    ∙ fed_all-takes topic nonces pushed waiting
        (omega (arith, length-append pushed waiting, ap length all))
    ∙ ap (λ evts. (evts, [])) all

-- SubscribeHandler on a fresh stream, for a request that names a topic, beside other users of the
-- hub who make any calls but Subscribe, Unsubscribe and receives on its own subscription and
-- publish at most 64 events under the topic in all, where the handler then takes its branch of an
-- event at least as many times: it comes to its loop and goes on, the client has read the
-- acknowledgement of the topic and then, in the order of their Publish and numbered from 1 on,
-- exactly one message for each published event, with the event's topic, payload and time, and none
-- waits. The key has its length, the nonces have theirs, and frames carry the acknowledgement and
-- the messages.
pub subscribe_handler_complete :
    (aead : Aead) (laws : AeadLaws aead) (key : Option Bytes) (nonce : Bytes) (now : ℤ)
    (req : ServerRequest) (stream : Stream) (h : Hub) (m : Map) (topic : Bytes) (moves : List Move)
    (nonces : List Bytes)
    → IsKey key
    → length nonce ≡ nonce_size
    → stream.written ≡ []
    → IsHub h
    → req.request.payload ≡ some m
    → topic_in (get_string m (codes "topic")) ≡ topic
    → (length topic == 0) ≡ false
    → IsResponse (subscribed_to topic)
    → All (IsListening topic (subscription_id topic req.session_id) h.next) moves
    → All (λ nonce. length nonce ≡ nonce_size) nonces
    → length (published topic moves) ≤ 64
    → length (published topic moves) ≤ length nonces
    → (w : Subscription) × (h' : Hub) × (subscribe_handler aead key
          (some nonce)
          now
          req
          stream
          (moves ++ takes nonces)
          h
        ≡ ok (looping w, h'))
      × (read_all aead key (suc (length (published topic moves))) w.stream.written
          ≡ ok (on_wire_all ((0, subscribed_to topic) ∷ messages 1 (published topic moves)), []))
      × Waits topic (subscription_id topic req.session_id) h.next [] h'
subscribe_handler_complete aead laws key nonce now req stream h m topic moves nonces good size fresh
      kept asked found named fits listening sizes few enough =
    let id = subscription_id topic req.session_id in
    rw (fed_all_complete topic moves nonces few enough) at (
      subscribe_handler-feed aead laws key nonce now req stream h m topic (moves ++ takes nonces)
        good size fresh kept asked found named fits
        (All-append (IsListening topic id h.next) moves (takes nonces) listening
          (takes-IsListening topic id h.next nonces sizes)))
