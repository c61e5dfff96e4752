-- ===== src/Server/Hub/Subscription/Feed.antt =====
-- What waits in a subscriber's channel, whatever the other users of the hub do.
use hush_go.Base.{
  ℕ, true, false, Bytes, List, [], ◌∷◌, ◌++◌, length, Outcome, ok, ◌≡◌, refl, ap, sym, subst, ◌∙◌,
  ltb, ◌==◌, ne→==, ==_iff, if◌then◌else◌, arith, Option, none, some, str_eq, Bool-cases, inl, inr,
}
use hush_go.Base.{Ensures-ok}
use hush_go.Base.Int.{ℤ}
use hush_go.Base.Dict.{Dict, string_key, number_key, lookup, insert, lookup-insert}
use hush_go.Tlv.Types.{Map}
use hush_go.Server.Hub.{
  Event, Subscriber, Hub, new_subscriber, subscribe, close_subscriber, remove, unsubscribe,
  unsubscribe_from, publish, receive, received, received_from,
}
use hush_go.Server.Hub.Registered.{find, both, find-insert}
use hush_go.Server.Hub.Heap.{IsHub, IsHeld, IsOpen, subscribe-IsHub, publish-IsHub}
use hush_go.Server.Hub.Steps.{receive-IsHub, unsubscribe-IsRemoved, names_differ}
use hush_go.Server.Hub.Runs.{
  HubCall, subscribing, unsubscribing, publishing, receiving, perform, receive_subscribers,
}
use hush_go.Server.Hub.Delivery.{publish_reaches}

-- The subscriber `p` stands under the topic and the id, and these events wait for it.
pub record Waits (topic id : Bytes) (p : ℕ) (waiting : List Event) (h : Hub) : Type 0 where
  pub kept : IsHub h
  pub here : find h.subscribers topic id ≡ some p
  pub sub : Subscriber
  pub there : lookup p h.heap ≡ some sub
  pub holds : sub.events ≡ waiting

-- A call that is not on this subscription: no other Subscribe and no Unsubscribe under its topic and
-- id, and no receive from its channel.
abbrev pub IsApart : Bytes → Bytes → ℕ → HubCall → Type 0
IsApart topic id p (subscribing now t i) = both t topic i id ≡ false
IsApart topic id p (unsubscribing t i) = both t topic i id ≡ false
IsApart topic id p (publishing now t payload) = Unit
IsApart topic id p (receiving q) = (q == p) ≡ false

-- What waits behind a call: one more event of the topic, unless 64 wait already.
abbrev pub queued : Event → List Event → List Event
queued evt waiting = if ltb (length waiting) 64 then waiting ++ (evt ∷ []) else waiting

abbrev pub waits_behind : Bytes → HubCall → List Event → List Event
waits_behind topic (publishing now t payload) waiting =
    if str_eq t topic
    then queued (record { topic = t; payload = payload; time = now }) waiting
    else waiting
waits_behind topic _ waiting = waiting

-- A call that returns, with something that holds of what it returns.
abbrev pub Returns {ℓ κ} : {A : Type ℓ} → (A → Type κ) → Outcome A → Type (ℓ ⊔ κ)
Returns {A} P r = (a : A) × (r ≡ ok a) × P a

module _ (topic id : Bytes) (p : ℕ) (waiting : List Event) (h : Hub)
    (w : Waits topic id p waiting h) where
  subscribe-Waits :
      (now : ℤ) (t i : Bytes)
      → both t topic i id ≡ false
      → Waits topic id p waiting (subscribe now t i h).0
  subscribe-Waits now t i other =
      let older : (h.next == p) ≡ false = ground (arith, w.kept.made topic id p w.here) in
      record {
        kept = subscribe-IsHub now t i h w.kept;
        here = unfold subscribe in rw (find-insert h.subscribers t i topic id h.next, other) w.here;
        sub = w.sub;
        there =
            unfold subscribe in
            rw (lookup-insert h.next p (new_subscriber now i t) h.heap, older) w.there;
        holds = w.holds;
      }

  publish-Waits :
      (now : ℤ) (t : Bytes) (payload : Option Map)
      → Waits topic id p
          (waits_behind topic (publishing now t payload) waiting)
          (publish now t payload h)
  publish-Waits now t payload = elim (Bool-cases (str_eq t topic)) [
    | inl same ↦ rw same (record {
      kept = publish-IsHub now t payload h w.kept;
      here = unfold publish in w.here;
      sub = _;
      there = (rw same at (publish_reaches h now t payload topic id p w.sub w.kept w.here w.there));
      holds = rw w.holds refl;
    })
    | inr other ↦ rw other (record {
      kept = publish-IsHub now t payload h w.kept;
      here = unfold publish in w.here;
      sub = w.sub;
      there =
          (rw other at (publish_reaches h now t payload topic id p w.sub w.kept w.here w.there));
      holds = w.holds;
    })
  ]

  receive-Waits : (q : ℕ) → (q == p) ≡ false → Waits topic id p waiting (receive q h).1
  receive-Waits q other = record {
    kept = receive-IsHub q h w.kept;
    here = rw (receive_subscribers q h) w.here;
    sub = w.sub;
    there = unfold receive in from (lookup q h.heap) ∙ w.there;
    holds = w.holds;
  }
    where
      by_events :
          (sub : Subscriber) (events : List Event)
          → lookup p (received_from q h sub events).1.heap ≡ lookup p h.heap
      by_events sub [] = refl
      by_events sub (evt ∷ events) =
          rw (lookup-insert q p (record sub { events = events }) h.heap, other)

      from : (o : Option Subscriber) → lookup p (received q h o).1.heap ≡ lookup p h.heap
      from none = refl
      from (some sub) = by_events sub sub.events

  -- Unsubscribe returns, and leaves the channel as it is.
  unsubscribe_apart :
      (t i : Bytes)
      → both t topic i id ≡ false
      → Returns (λ h'. lookup p h'.heap ≡ lookup p h.heap) (unsubscribe t i h)
  unsubscribe_apart t i other = unfold unsubscribe in by_topic (lookup t h.subscribers) refl
    where
      same_subscriber :
          (q : ℕ) (sub : Subscriber) → IsOpen t i sub → lookup q h.heap ≡ some sub → q ≡ p → ⊥
      same_subscriber q sub o g same =
          let o' : IsOpen topic id sub = subst (IsHeld topic id) g (
            subst (λ r. IsHeld topic id (lookup r h.heap)) (sym same)
              (w.kept.held topic id p w.here)) in
          names_differ t i topic id (sym o.same_topic ∙ o'.same_topic) (sym o.same_id ∙ o'.same_id)
            other

      by_subscriber :
          (subs : Dict Bytes ℕ) (q : ℕ) (o : Option Subscriber)
          → lookup q h.heap ≡ o
          → find h.subscribers t i ≡ some q
          → Returns (λ h'. lookup p h'.heap ≡ lookup p h.heap) (remove t i h subs (some q))
      by_subscriber subs q none g under = absurd (rw g at (w.kept.held t i q under))
      by_subscriber subs q (some sub) g under =
          let o : IsOpen t i sub = (rw g at (w.kept.held t i q under)) in
          let apart : (q == p) ≡ false = ne→== q p (same_subscriber q sub o g) in
          unfold remove close_subscriber in
          rw (g, o.not_done)
            (_, refl, rw (lookup-insert q p (record sub { is_done = true }) h.heap, apart) refl)

      by_id :
          (subs : Dict Bytes ℕ) (o : Option ℕ)
          → lookup t h.subscribers ≡ some subs
          → lookup i subs ≡ o
          → Returns (λ h'. lookup p h'.heap ≡ lookup p h.heap) (remove t i h subs o)
      by_id subs none e f =
          unfold remove in
          elim (Bool-cases (length subs == 0)) [
            | inl none_left ↦ rw none_left (_, refl, refl)
            | inr some_left ↦ rw some_left (_, refl, refl)
          ]
      by_id subs (some q) e f = by_subscriber subs q (lookup q h.heap) refl (rw (e, f) refl)

      by_topic :
          (o : Option (Dict Bytes ℕ))
          → lookup t h.subscribers ≡ o
          → Returns (λ h'. lookup p h'.heap ≡ lookup p h.heap) (unsubscribe_from t i h o)
      by_topic none e = (h, refl, refl)
      by_topic (some subs) e = by_id subs (lookup i subs) e refl

  unsubscribe-Waits :
      (t i : Bytes)
      → both t topic i id ≡ false
      → Returns (Waits topic id p waiting) (unsubscribe t i h)
  unsubscribe-Waits t i other =
      let (h', e, same) = unsubscribe_apart t i other in
      let (k, left) = Ensures-ok (unsubscribe-IsRemoved t i h w.kept) e in
      (
        h',
        e,
        record {
          kept = k;
          here = rw (left topic id, other) w.here;
          sub = w.sub;
          there = same ∙ w.there;
          holds = w.holds;
        },
      )

  -- A call of another user returns, and at most puts an event of the topic behind those that wait.
  pub perform-Waits :
      (c : HubCall)
      → IsApart topic id p c
      → Returns (Waits topic id p (waits_behind topic c waiting)) (perform c h)
  perform-Waits (subscribing now t i) apart = (_, refl, subscribe-Waits now t i apart)
  perform-Waits (unsubscribing t i) apart = unsubscribe-Waits t i apart
  perform-Waits (publishing now t payload) apart = (_, refl, publish-Waits now t payload)
  perform-Waits (receiving q) apart = (_, refl, receive-Waits q apart)

  abbrev taken : List Event → Hub
  taken rest = record h { heap = insert p (record w.sub { events = rest }) h.heap }

  receive_own :
      (evt : Event) (rest : List Event)
      → w.sub.events ≡ evt ∷ rest
      → receive p h ≡ (some evt, taken rest)
  unfolding receive
  receive_own evt rest e = ap (received p h) w.there ∙ ap (received_from p h w.sub) e

  -- A receive from the channel takes the event that waits the longest, and finds none if none waits.
  pub receive-Waits_first :
      (evt : Event) (rest : List Event)
      → waiting ≡ evt ∷ rest
      → (h' : Hub) × (receive p h ≡ (some evt, h')) × Waits topic id p rest h'
  receive-Waits_first evt rest e = (
    taken rest,
    receive_own evt rest (w.holds ∙ e),
    record {
      kept =
          subst IsHub (ap (λ r. r.1) (receive_own evt rest (w.holds ∙ e)))
            (receive-IsHub p h w.kept);
      here = w.here;
      sub = record w.sub { events = rest };
      there =
          lookup-insert p p (record w.sub { events = rest }) h.heap ∙ rw ((==_iff p p).1 refl) refl;
      holds = refl;
    },
  )

  pub receive-none : waiting ≡ [] → receive p h ≡ (none, h)
  unfolding receive
  receive-none e = ap (received p h) w.there ∙ ap (received_from p h w.sub) (w.holds ∙ e)
