-- ===== src/Server/Hub/Subscription/Order.antt =====
-- The client of a subscription reads the events of its topic in the order of their Publish.
use hush_go.Base.{
  ℕ, suc, ◌+◌, ◌^◌, ◌%◌, Bytes, List, [], ◌∷◌, ◌++◌, length, length-append, All, ok, ◌≡◌, refl, ap,
  sym, subst, ◌∙◌, ltb, arith, Option, none, some, str_eq, Bool-cases, inl, inr,
}
use hush_go.Base.{All-append}
use hush_go.Base.Dict.{string_key, number_key}
use hush_go.Tlv.Types.{Map}
use hush_go.Tlv.Map.{set}
use hush_go.Session.Crypto.{Aead, AeadLaws, nonce_size}
use hush_go.Frame.Sealing.{IsKey}
use hush_go.Frame.Responses.{IsResponse}
use hush_go.Server.Dispatch.{respond}
use hush_go.Server.Dispatch.Hearing.{respond_lem}
use hush_go.Server.Hub.{Event, Hub, receive}
use hush_go.Server.Hub.Runs.{HubCall, subscribing, unsubscribing, publishing, receiving}
use hush_go.Server.Hub.Subscription.{
  Subscription, message, elsewhere, takes_event, leave, leave_if, push, push_payload, push_received,
  select_event, moved, push_received,
}
use hush_go.Server.Hub.Subscription.Feed.{
  Waits, waits_behind, Returns, perform-Waits, receive-Waits_first, receive-none,
}
use hush_go.Server.Hub.Subscription.Told.{IsTold, IsTold-next}
use hush_go.Server.Hub.Subscription.Promise.{
  Feed, next_fed, fed, message_of, FitsPayload, IsFittingEvent, messages, told_so_far,
  IsFittingCall, IsListening,
}

module _ (aead : Aead) (laws : AeadLaws aead) (key : Option Bytes) (good : IsKey key)
    (topic id : Bytes) (p : ℕ) where
  -- The handler in its loop, and the hub beside it.
  pub record IsFollowing (feed : Feed) (s : Subscription × Hub) : Type 0 where
    pub going : s.0.ended ≡ none
    pub own : s.0.sub ≡ p
    pub number : s.0.seq ≡ length feed.0 % 2 ^ 32
    pub told : IsTold aead laws key (told_so_far topic feed.0) s.0.stream.written
    pub waits : Waits topic id p feed.1 s.1
    pub fits : All IsFittingEvent feed.1

  messages-append :
      (i : ℕ) (evts : List Event) (evt : Event)
      → messages i (evts ++ (evt ∷ []))
        ≡ messages i evts ++ (((i + length evts) % 2 ^ 32, message_of evt) ∷ [])
  messages-append i [] evt = ap (λ n. (n % 2 ^ 32, message_of evt) ∷ []) (omega arith)
  messages-append i (e ∷ evts) evt =
      ap (λ ms. (i % 2 ^ 32, message_of e) ∷ ms)
        (messages-append (suc i) evts evt
          ∙ ap (λ n. messages (suc i) evts ++ ((n % 2 ^ 32, message_of evt) ∷ [])) (omega arith))

  waits_behind-fit :
      (c : HubCall) (waiting : List Event)
      → IsFittingCall c
      → All IsFittingEvent waiting
      → All IsFittingEvent (waits_behind topic c waiting)
  waits_behind-fit (subscribing now t i) waiting h k = k
  waits_behind-fit (unsubscribing t i) waiting h k = k
  waits_behind-fit (receiving q) waiting h k = k
  waits_behind-fit (publishing now t payload) waiting h k = elim (Bool-cases (str_eq t topic)) [
    | inl same ↦ elim (Bool-cases (ltb (length waiting) 64)) [
      | inl room ↦ rw (same, room) (All-append IsFittingEvent waiting _ k (h, tt))
      | inr full ↦ rw (same, full) k
    ]
    | inr other ↦ rw other k
  ]

  pub elsewhere-IsFollowing :
      (c : HubCall) (feed : Feed) (s : Subscription × Hub)
      → IsListening topic id p (elsewhere c)
      → IsFollowing feed s
      → Returns (IsFollowing (fed topic (elsewhere c) feed)) (moved aead key (elsewhere c) s)
  unfolding moved
  elsewhere-IsFollowing c (pushed, waiting) (w, h) (apart, fit) k =
      let (h', e, waits) = perform-Waits topic id p waiting h k.waits c apart in
      rw e (
        (w, h'),
        refl,
        record {
          going = k.going;
          own = k.own;
          number = k.number;
          told = k.told;
          waits = waits;
          fits = waits_behind-fit c waiting fit k.fits;
        },
      )

  -- The branch of an event, on the subscription as the receive left it.
  module _ (pushed rest : List Event) (evt : Event) (w : Subscription) (h : Hub)
      (k : IsFollowing (pushed, evt ∷ rest) (w, h)) (nonce : Bytes)
      (size : length nonce ≡ nonce_size) where
    numbered_next : (w.seq + 1) % 2 ^ 32 ≡ length (pushed ++ (evt ∷ [])) % 2 ^ 32
    numbered_next = rw (k.number, length-append pushed (evt ∷ [])) (omega arith)

    IsTold-message :
        (m : Map)
        → message evt.topic m evt.time ≡ message_of evt
        → IsResponse (message evt.topic m evt.time)
        → IsTold aead laws key
            (told_so_far topic (pushed ++ (evt ∷ [])))
            (respond aead
              (some nonce)
              key
              ((w.seq + 1) % 2 ^ 32)
              (message evt.topic m evt.time)
              w.stream).1.written
    IsTold-message m e fit =
        let n : (1 + length pushed) % 2 ^ 32 ≡ (w.seq + 1) % 2 ^ 32 = rw k.number (omega arith) in
        rw
          (
            respond_lem aead laws key nonce ((w.seq + 1) % 2 ^ 32) (message evt.topic m evt.time)
                w.stream good size fit,
            messages-append 1 pushed evt,
            ← e,
            n,
          )
          (IsTold-next aead laws key (told_so_far topic pushed) w.stream.written nonce
            ((w.seq + 1) % 2 ^ 32, message evt.topic m evt.time) k.told size (omega arith, fit))

    push_payload-IsFollowing :
        (o : Option Map) (h' : Hub)
        → evt.payload ≡ o
        → FitsPayload evt o
        → Waits topic id p rest h'
        → Returns
            (IsFollowing (pushed ++ (evt ∷ []), rest))
            (leave aead key (push_payload aead key (some nonce) evt o w, h'))
    unfolding leave set str_eq
    push_payload-IsFollowing none h' e fit waits = absurd fit
    push_payload-IsFollowing (some m) h' e fit waits =
        rw
          (
            respond_lem aead laws key nonce ((w.seq + 1) % 2 ^ 32) (message evt.topic m evt.time)
                w.stream good size fit,
            k.going,
          )
          (
            _,
            refl,
            record {
              going = refl;
              own = k.own;
              number = numbered_next;
              told =
                  (rw
                    (respond_lem aead laws key nonce ((w.seq + 1) % 2 ^ 32)
                      (message evt.topic m evt.time) w.stream good size fit)
                    at (IsTold-message m (rw e refl) fit));
              waits = waits;
              fits = k.fits.1;
            },
          )

  leave_going : (w : Subscription) (h : Hub) → w.ended ≡ none → leave aead key (w, h) ≡ ok (w, h)
  unfolding leave
  leave_going w h going = ap (λ o. leave_if aead key o w h) going

  moved-taken :
      (random : Option Bytes) (w : Subscription) (h : Hub) (r : Option Event × Hub)
      → w.ended ≡ none
      → w.sub ≡ p
      → receive p h ≡ r
      → moved aead key (takes_event random) (w, h)
        ≡ leave aead key (push_received aead key random w r)
  unfolding moved
  moved-taken random w h r going own e =
      ap (λ o. select_event aead key random o w h) going
      ∙ ap (λ q. leave aead key (push_received aead key random w (receive q h))) own
      ∙ ap (λ r. leave aead key (push_received aead key random w r)) e

  pub takes_event-IsFollowing :
      (random : Option Bytes) (feed : Feed) (s : Subscription × Hub)
      → IsListening topic id p (takes_event random)
      → IsFollowing feed s
      → Returns (IsFollowing (next_fed feed)) (moved aead key (takes_event random) s)
  unfolding push
  takes_event-IsFollowing none feed s size k = absurd size
  takes_event-IsFollowing (some nonce) (pushed, []) (w, h) size k = (
    (w, h),
    moved-taken (some nonce) w h (none, h) k.going k.own (receive-none topic id p [] h k.waits refl)
        ∙ leave_going w h k.going,
    k,
  )
  takes_event-IsFollowing (some nonce) (pushed, evt ∷ rest) (w, h) size k =
      let (h', e, waits) = receive-Waits_first topic id p (evt ∷ rest) h k.waits evt rest refl in
      subst (Returns (IsFollowing (pushed ++ (evt ∷ []), rest)))
        (sym (moved-taken (some nonce) w h (some evt, h') k.going k.own e))
        (push_payload-IsFollowing pushed rest evt w h k nonce size evt.payload h' refl k.fits.0
          waits)
