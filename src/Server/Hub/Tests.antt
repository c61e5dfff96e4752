-- ===== src/Server/Hub/Tests.antt =====
-- The theorems on the hub at concrete inputs.
use hush_go.Base.{
  Bool, false, Bytes, List, [], ◌∷◌, Outcome, ok, ◌≡◌, refl, ltb, if◌then◌else◌, Option, none, some,
  str_eq,
}
use hush_go.Base.{Ensures}
use hush_go.Base.Dict
use hush_go.Base.Dict.{
  Dict, Key, string_key, number_key, lookup, insert, IsUnique, lookup-insert, insert-IsUnique,
  lookup-delete, delete-IsUnique,
}
use hush_go.Server.Hub.{
  Event, new_subscriber, Hub, new_hub, subscribe, close_subscriber, remove, unsubscribe, publish,
  receive,
}
use hush_go.Base.Int.{pos}
use hush_go.Base.Text.{codes}
use hush_go.Server.Hub.Heap.{IsHub, new_hub-IsHub, subscribe-IsHub}
use hush_go.Server.Hub.Runs.{
  HubCall, subscribing, unsubscribing, publishing, receiving, perform_all, promised_all, IsPromised,
  perform_all-IsPromised,
}
use hush_go.Server.Hub.Delivery.{publish_reaches}

abbrev news : Bytes
news = codes "news"

abbrev ann : Bytes
ann = codes "ann"

-- Ann subscribes twice: the second subscriber takes the place of the first, which no Unsubscribe reaches.
abbrev calls : List HubCall
calls =
    subscribing (pos 1) news ann
    ∷ subscribing (pos 2) news ann
    ∷ publishing (pos 3) news none
    ∷ receiving 1
    ∷ unsubscribing news ann
    ∷ unsubscribing news ann
    ∷ []

perform_all-IsPromised_example :
    Ensures (IsPromised (promised_all calls (λ _ _. false))) (perform_all calls new_hub)
perform_all-IsPromised_example = perform_all-IsPromised calls

abbrev first_is_done : Outcome Hub → Option Bool
first_is_done (ok h) = elim (lookup 0 h.heap) [ none ↦ none | some sub ↦ some sub.is_done ]
first_is_done _ = none

first_left_open : first_is_done (perform_all calls new_hub) ≡ some false
unfolding new_hub subscribe publish receive unsubscribe remove close_subscriber new_subscriber
    lookup insert str_eq Dict.delete
first_left_open = refl

abbrev with_ann : Hub
with_ann = (subscribe (pos 1) news ann new_hub).0

with_ann-IsHub : IsHub with_ann
with_ann-IsHub = subscribe-IsHub (pos 1) news ann new_hub new_hub-IsHub

publish_reaches_example :
    let evt : Event = record { topic = news; payload = none; time = pos 3 } in
    lookup 0 (publish (pos 3) news none with_ann).heap
    ≡ some (
        if str_eq news news
        then record (new_subscriber (pos 1) ann news) {
          events = (if ltb 0 64 then evt ∷ [] else []);
        }
        else new_subscriber (pos 1) ann news)
unfolding new_hub subscribe new_subscriber lookup insert str_eq
publish_reaches_example =
    publish_reaches with_ann (pos 3) news none news ann 0 (new_subscriber (pos 1) ann news)
      with_ann-IsHub refl refl
