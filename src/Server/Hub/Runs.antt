-- ===== src/Server/Hub/Runs.antt =====
-- The hub over any sequence of calls, and the set of subscriptions that it promises to keep.
use hush_go.Base.{
  ℕ, Bool, true, false, Bytes, List, [], ◌∷◌, Outcome, ok, ◌>>=◌, ◌≡◌, refl, if◌then◌else◌, Option,
  none, some, Bool-cases, inl, inr,
}
use hush_go.Base.{Ensures, returns, Ensures-bind, Ensures-map}
use hush_go.Base.Int.{ℤ}
use hush_go.Base.Dict.{string_key, number_key, lookup}
use hush_go.Tlv.Types.{Map}
use hush_go.Server.Hub.{
  Event, Subscriber, Hub, new_hub, subscribe, unsubscribe, publish, received, received_from,
  receive,
}
use hush_go.Server.Hub.Registered.{find, both, find-insert}
use hush_go.Server.Hub.Heap.{IsHub, new_hub-IsHub, subscribe-IsHub, publish-IsHub}
use hush_go.Server.Hub.Steps.{receive-IsHub, unsubscribe-IsRemoved}

-- A call on the hub, or a receive from a subscriber's channel.
pub data HubCall : Type 0 where
  subscribing : ℤ → Bytes → Bytes → HubCall
  unsubscribing : Bytes → Bytes → HubCall
  publishing : ℤ → Bytes → Option Map → HubCall
  receiving : ℕ → HubCall

abbrev pub perform : HubCall → Hub → Outcome Hub
perform (subscribing now topic id) h = ok (subscribe now topic id h).0
perform (unsubscribing topic id) h = unsubscribe topic id h
perform (publishing now topic payload) h = ok (publish now topic payload h)
perform (receiving p) h = ok (receive p h).1

abbrev pub perform_all : List HubCall → Hub → Outcome Hub
perform_all [] h = ok h
perform_all (c ∷ calls) h = do h' ← perform c h; perform_all calls h'

-- Which ids are subscribed to which topics.
abbrev Subscribed : Type 0
Subscribed = Bytes → Bytes → Bool

abbrev pub promised : HubCall → Subscribed → Subscribed
promised (subscribing now topic id) f t i = if both topic t id i then true else f t i
promised (unsubscribing topic id) f t i = if both topic t id i then false else f t i
promised (publishing now topic payload) f t i = f t i
promised (receiving p) f t i = f t i

abbrev pub promised_all : List HubCall → Subscribed → Subscribed
promised_all [] f = f
promised_all (c ∷ calls) f = promised_all calls (promised c f)

abbrev pub has : Option ℕ → Bool
has none = false
has (some p) = true

-- A state of the hub that keeps these subscriptions.
abbrev pub IsPromised : Subscribed → Hub → Type 0
IsPromised f h = IsHub h × ((t i : Bytes) → has (find h.subscribers t i) ≡ f t i)

pub receive_subscribers : (p : ℕ) (h : Hub) → (receive p h).1.subscribers ≡ h.subscribers
unfolding receive
receive_subscribers p h = from (lookup p h.heap)
  where
    by_events :
        (sub : Subscriber) (events : List Event)
        → (received_from p h sub events).1.subscribers ≡ h.subscribers
    by_events sub [] = refl
    by_events sub (evt ∷ events) = refl

    from : (o : Option Subscriber) → (received p h o).1.subscribers ≡ h.subscribers
    from none = refl
    from (some sub) = by_events sub sub.events

pub perform-IsPromised :
    (c : HubCall) (f : Subscribed) (h : Hub)
    → IsPromised f h
    → Ensures (IsPromised (promised c f)) (perform c h)
unfolding subscribe publish
perform-IsPromised (subscribing now topic id) f h (k, e) = returns (
  subscribe-IsHub now topic id h k,
  λ t i. elim (Bool-cases (both topic t id i)) [
    | inl here ↦ rw (find-insert h.subscribers topic id t i h.next, here)
    | inr there ↦ rw (find-insert h.subscribers topic id t i h.next, there) (e t i)
  ],
)
perform-IsPromised (unsubscribing topic id) f h (k, e) =
    Ensures-map (unsubscribe-IsRemoved topic id h k) (λ h' (k', e'). (
      k',
      λ t i. elim (Bool-cases (both topic t id i)) [
        | inl here ↦ rw (e' t i, here)
        | inr there ↦ rw (e' t i, there) (e t i)
      ],
    ))
perform-IsPromised (publishing now topic payload) f h (k, e) =
    returns (publish-IsHub now topic payload h k, e)
perform-IsPromised (receiving p) f h (k, e) =
    returns (receive-IsHub p h k, λ t i. rw (receive_subscribers p h) (e t i))

perform_all-keeps_promise :
    (calls : List HubCall) (f : Subscribed) (h : Hub)
    → IsPromised f h
    → Ensures (IsPromised (promised_all calls f)) (perform_all calls h)
perform_all-keeps_promise [] f h k = returns k
perform_all-keeps_promise (c ∷ calls) f h k =
    Ensures-bind (perform-IsPromised c f h k)
      (λ h' k'. perform_all-keeps_promise calls (promised c f) h' k')

-- Any calls of Subscribe, Unsubscribe and Publish and any receives on a new hub return, and none of them
-- panics, as the close of a closed channel would. Behind them an id is subscribed to a topic exactly
-- if its last Subscribe there has no Unsubscribe behind it; every subscriber that the hub names has
-- the topic and the id under which it stands, is not done, and holds 64 events at most.
pub perform_all-IsPromised :
    (calls : List HubCall)
    → Ensures (IsPromised (promised_all calls (λ _ _. false))) (perform_all calls new_hub)
unfolding new_hub lookup
perform_all-IsPromised calls =
    perform_all-keeps_promise calls (λ _ _. false) new_hub (new_hub-IsHub, λ t i. refl)
