-- ===== src/Server/Hub/Subscription/Tests.antt =====
-- The theorems on subscriptions at concrete inputs.
use hush_go.Base.{
  ℕ, suc, ◌≤◌, Bytes, List, [], ◌∷◌, ◌++◌, length, All, ok, ◌≡◌, refl, arith, none, some, str_eq,
}
use hush_go.Base.{Ensures}
use hush_go.Base.Int.{pos, unix_milli}
use hush_go.Base.Text.{codes}
use hush_go.Base.Uvarint.{put_uvarint}
use hush_go.Base.BigEndian.{put_u64}
use hush_go.Tlv.Types.{string, no_entries}
use hush_go.Tlv.Map.{new_map, set, get, get_string}
use hush_go.Tlv.Encode.{with_header}
use hush_go.Tlv.Wire.{payload_bytes, nesting}
use hush_go.Session.ToyAead.{toy_aead, toy_laws}
use hush_go.Frame.Responses.{IsResponse}
use hush_go.Server.Handlers.{ServerRequest}
use hush_go.Server.Dispatch.Answers.{fresh_stream}
use hush_go.Server.Middleware.{decimal}
use hush_go.Server.Toy.{toy_key, toy_nonce}
use hush_go.Server.Hub.{Hub, new_hub, subscribe}
use hush_go.Server.Hub.Heap.{new_hub-IsHub, subscribe-IsHub}
use hush_go.Server.Hub.Runs.{subscribing, publishing}
use hush_go.Server.Tcp.Pipeline.{read_all, on_wire_all}
use hush_go.Server.Hub.Subscription.{
  Subscription, subscription_id, looping, Move, elsewhere, takes_event, takes_done,
  subscribe_handler, moved,
}
use hush_go.Server.Hub.Subscription.Feed.{Waits}
use hush_go.Server.Hub.Subscription.Promise.{fed_all, messages, news_of, subscribed_to, IsListening}
use hush_go.Server.Hub.Subscription.Service.{subscribe_handler-feed}
use hush_go.Server.Hub.Subscription.Complete.{published, takes, subscribe_handler_complete}
use hush_go.Server.Hub.Subscription.Leaving.{IsLeft, moved-IsLeft}

abbrev news : Bytes
news = codes "news"

abbrev news_request : ServerRequest
news_request = record {
  request = record { opcode = 0x0402; payload = some (set new_map (codes "topic") (string news)) };
  session_id = 7;
  api_key_id = [];
}

-- Another session subscribes, two events are published, and one of them is taken in between.
abbrev moves : List Move
moves =
    elsewhere (subscribing (pos 1) news (codes "news:8"))
    ∷ elsewhere (publishing (pos 2) news (some no_entries))
    ∷ takes_event (some toy_nonce)
    ∷ elsewhere (publishing (pos 3) news (some no_entries))
    ∷ []

subscribed_to-news : IsResponse (subscribed_to news)
unfolding set get payload_bytes nesting with_header put_uvarint str_eq
subscribed_to-news = record {
  status_range = omega arith;
  payload_wire = (((refl, (refl, tt)), omega arith), omega arith);
  fits = omega arith;
}

news_of-news : (now : ℕ) → now ≤ 10 → IsResponse (news_of news no_entries (pos now))
unfolding set get payload_bytes nesting with_header put_uvarint put_u64 str_eq unix_milli
news_of-news now early = record {
  status_range = omega arith;
  payload_wire = (((refl, (refl, (refl, (refl, tt)))), omega arith), omega arith);
  fits = omega arith;
}

moves-IsListening : All (IsListening news (subscription_id news 7) 0) moves
unfolding subscription_id decimal str_eq
moves-IsListening = (
  (refl, tt),
  ((tt, news_of-news 2 (omega arith)), (refl, ((tt, news_of-news 3 (omega arith)), tt))),
)

subscribe_handler-feed_example :
    let (pushed, waiting) = fed_all news moves ([], []) in
    (w : Subscription) × (h' : Hub) × (subscribe_handler toy_aead toy_key
        (some toy_nonce)
        (pos 1)
        news_request
        (fresh_stream [])
        moves
        new_hub
      ≡ ok (looping w, h'))
    × (read_all toy_aead toy_key (suc (length pushed)) w.stream.written
        ≡ ok (on_wire_all ((0, subscribed_to news) ∷ messages 1 pushed), []))
    × Waits news (subscription_id news 7) 0 waiting h'
unfolding new_hub set get_string get str_eq
subscribe_handler-feed_example =
    subscribe_handler-feed toy_aead toy_laws toy_key toy_nonce (pos 1) news_request
      (fresh_stream []) new_hub (set new_map (codes "topic") (string news)) news moves refl refl
      refl new_hub-IsHub refl refl refl subscribed_to-news moves-IsListening

-- What these moves come to: one event is pushed and one waits.
moves_fed : fed_all news moves ([], []) ≡ (
  record { topic = news; payload = some no_entries; time = pos 2 } ∷ [],
  record { topic = news; payload = some no_entries; time = pos 3 } ∷ [],
)
unfolding str_eq
moves_fed = refl

subscribe_handler_complete_example :
    (w : Subscription) × (h' : Hub) × (subscribe_handler toy_aead toy_key
        (some toy_nonce)
        (pos 1)
        news_request
        (fresh_stream [])
        (moves ++ takes (toy_nonce ∷ toy_nonce ∷ []))
        new_hub
      ≡ ok (looping w, h'))
    × (read_all toy_aead toy_key (suc (length (published news moves))) w.stream.written
        ≡ ok (on_wire_all ((0, subscribed_to news) ∷ messages 1 (published news moves)), []))
    × Waits news (subscription_id news 7) 0 [] h'
unfolding new_hub set get_string get str_eq
subscribe_handler_complete_example =
    subscribe_handler_complete toy_aead toy_laws toy_key toy_nonce (pos 1) news_request
      (fresh_stream []) new_hub (set new_map (codes "topic") (string news)) news moves
      (toy_nonce ∷ toy_nonce ∷ []) refl refl refl new_hub-IsHub refl refl refl subscribed_to-news
      moves-IsListening (refl, (refl, tt)) (omega arith) (omega arith)

abbrev waiting_for_news : Subscription
waiting_for_news = record {
  topic = news;
  sub_id = subscription_id news 7;
  sub = 0;
  seq = 0;
  stream = fresh_stream [];
  ended = none;
}

moved-IsLeft_example : Ensures (IsLeft news (subscription_id news 7)) (
    moved toy_aead toy_key takes_done
      (waiting_for_news, (subscribe (pos 1) news (subscription_id news 7) new_hub).0))
moved-IsLeft_example =
    moved-IsLeft toy_aead toy_key takes_done waiting_for_news
      (subscribe (pos 1) news (subscription_id news 7) new_hub).0 refl
      (subscribe-IsHub (pos 1) news (subscription_id news 7) new_hub new_hub-IsHub)
