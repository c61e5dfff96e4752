-- ===== src/Server/Hub/Subscription/Service.antt =====
-- SubscribeHandler from its beginning on, beside any other users of the hub.
use hush_go.Base.{
  ℕ, suc, false, Bytes, List, [], ◌∷◌, length, All, ok, ◌>>=◌, ◌≡◌, refl, ap, ◌∙◌, ◌==◌, ==_iff,
  arith, Option, some, str_eq, str_eq_refl,
}
use hush_go.Base.{◌>>=◌}
use hush_go.Base.Int.{ℤ}
use hush_go.Base.Text.{codes}
use hush_go.Base.Dict.{string_key, number_key, lookup-insert}
use hush_go.Tlv.Types.{Map}
use hush_go.Tlv.Map.{set, get_string}
use hush_go.Session.Crypto.{Aead, AeadLaws, nonce_size}
use hush_go.Frame.Sealing.{IsKey}
use hush_go.Frame.Responses.{IsResponse}
use hush_go.Server.Handlers.{Stream, ServerRequest}
use hush_go.Server.Dispatch.Hearing.{respond_lem}
use hush_go.Server.Tcp.Pipeline.{read_all, on_wire_all}
use hush_go.Server.Hub.{Event, Hub, new_subscriber, subscribe, topic_in}
use hush_go.Server.Hub.Registered.{find-insert}
use hush_go.Server.Hub.Heap.{IsHub, subscribe-IsHub}
use hush_go.Server.Hub.Subscription.{
  Subscription, subscription_id, acknowledgement, looping, Move, elsewhere, takes_event, takes_done,
  begin_subscription, begin_on, begin_payload, leave, moved, moved_all, go_on, subscribe_handler,
}
use hush_go.Server.Hub.Subscription.Feed.{Waits, Returns}
use hush_go.Server.Hub.Subscription.Told.{nothing-IsTold, IsTold-next, read_all-IsTold}
use hush_go.Server.Hub.Subscription.Promise.{
  Feed, fed, fed_all, messages, subscribed_to, IsListening, told_so_far,
}
use hush_go.Server.Hub.Subscription.Order.{
  IsFollowing, elsewhere-IsFollowing, takes_event-IsFollowing,
}

module _ (aead : Aead) (laws : AeadLaws aead) (key : Option Bytes) (good : IsKey key)
    (topic id : Bytes) (p : ℕ) where
  moved-IsFollowing :
      (m : Move) (feed : Feed) (s : Subscription × Hub)
      → IsListening topic id p m
      → IsFollowing aead laws key good topic id p feed s
      → Returns (IsFollowing aead laws key good topic id p (fed topic m feed)) (moved aead key m s)
  moved-IsFollowing (elsewhere c) feed s l k =
      elsewhere-IsFollowing aead laws key good topic id p c feed s l k
  moved-IsFollowing (takes_event random) feed s l k =
      takes_event-IsFollowing aead laws key good topic id p random feed s l k
  moved-IsFollowing takes_done feed s l k = absurd l

  moved_all-IsFollowing :
      (moves : List Move) (feed : Feed) (s : Subscription × Hub)
      → All (IsListening topic id p) moves
      → IsFollowing aead laws key good topic id p feed s
      → Returns
          (IsFollowing aead laws key good topic id p (fed_all topic moves feed))
          (moved_all aead key moves s)
  unfolding moved_all
  moved_all-IsFollowing [] feed s l k = (s, refl, k)
  moved_all-IsFollowing (m ∷ moves) feed s (l, ls) k =
      let (s', e, k') = moved-IsFollowing m feed s l k in
      rw e (moved_all-IsFollowing moves (fed topic m feed) s' ls k')

subscribe-Waits_new :
    (now : ℤ) (topic id : Bytes) (h : Hub)
    → IsHub h
    → Waits topic id h.next [] (subscribe now topic id h).0
subscribe-Waits_new now topic id h k = record {
  kept = subscribe-IsHub now topic id h k;
  here =
      unfold subscribe in
      find-insert h.subscribers topic id topic id h.next
      ∙ rw (str_eq_refl topic, str_eq_refl id) refl;
  sub = new_subscriber now id topic;
  there =
      unfold subscribe in
      lookup-insert h.next h.next (new_subscriber now id topic) h.heap
      ∙ rw ((==_iff h.next h.next).1 refl) refl;
  holds = unfold new_subscriber in refl;
}

length-messages : (i : ℕ) (evts : List Event) → length (messages i evts) ≡ length evts
length-messages i [] = refl
length-messages i (evt ∷ evts) = ap suc (length-messages (suc i) evts)

module _ (aead : Aead) (laws : AeadLaws aead) (key : Option Bytes) (nonce : Bytes) (now : ℤ)
    (session_id : ℕ) (stream : Stream) (h : Hub) (topic : Bytes) (good : IsKey key)
    (size : length nonce ≡ nonce_size) (fresh : stream.written ≡ []) (kept : IsHub h)
    (named : (length topic == 0) ≡ false) (fits : IsResponse (subscribed_to topic)) where
  begin_on-IsFollowing :
      (w : Subscription) × (h' : Hub) × (begin_on aead key
          (some nonce)
          now
          session_id
          stream
          h
          topic
        ≡ ok (looping w, h'))
      × IsFollowing aead laws key good topic
          (subscription_id topic session_id)
          h.next
          ([], [])
          (w, h')
  unfolding leave set str_eq
  begin_on-IsFollowing =
      rw (named, respond_lem aead laws key nonce 0 (acknowledgement topic) stream good size fits)
        (
          _,
          _,
          refl,
          record {
            going = refl;
            own = unfold subscribe in refl;
            number = refl;
            told = rw fresh (
                IsTold-next aead laws key [] [] nonce (0, acknowledgement topic)
                  (nothing-IsTold aead laws key) size (omega arith, fits));
            waits = subscribe-Waits_new now topic (subscription_id topic session_id) h kept;
            fits = tt;
          },
        )

-- SubscribeHandler on a fresh stream, for a request that names a topic, beside other users of the
-- hub who make any calls but Subscribe, Unsubscribe and receives on its own subscription: it comes
-- to its loop and goes on, and a client that reads its stream reads the acknowledgement of the
-- topic, under number 0, and then one message, with the event's topic, payload and time, for every
-- event that was taken from the channel, numbered 1, 2, 3 and so on modulo 2 ^ 32. Those are the
-- published events of the topic, in the order of their Publish, less each one that found 64 events
-- waiting; those that wait are in the channel, in order, behind those that were pushed. The key has
-- its length, the nonces have theirs, and frames carry the acknowledgement and the messages.
pub subscribe_handler-feed :
    (aead : Aead) (laws : AeadLaws aead) (key : Option Bytes) (nonce : Bytes) (now : ℤ)
    (req : ServerRequest) (stream : Stream) (h : Hub) (m : Map) (topic : Bytes) (moves : List Move)
    → IsKey key
    → length nonce ≡ nonce_size
    → stream.written ≡ []
    → IsHub h
    → req.request.payload ≡ some m
    → topic_in (get_string m (codes "topic")) ≡ topic
    → (length topic == 0) ≡ false
    → IsResponse (subscribed_to topic)
    → All (IsListening topic (subscription_id topic req.session_id) h.next) moves
    → let (pushed, waiting) = fed_all topic moves ([], []) in
      (w : Subscription) × (h' : Hub) × (subscribe_handler aead key
          (some nonce)
          now
          req
          stream
          moves
          h
        ≡ ok (looping w, h'))
      × (read_all aead key (suc (length pushed)) w.stream.written
          ≡ ok (on_wire_all ((0, subscribed_to topic) ∷ messages 1 pushed), []))
      × Waits topic (subscription_id topic req.session_id) h.next waiting h'
unfolding subscribe_handler begin_subscription
subscribe_handler-feed aead laws key nonce now req stream h m topic moves good size fresh kept asked
      found named fits listening =
    let id = subscription_id topic req.session_id in
    let (w, h', begun, k) =
      begin_on-IsFollowing aead laws key nonce now req.session_id stream h topic good size fresh
        kept named fits in
    let ((w', h''), followed, k') =
      moved_all-IsFollowing aead laws key good topic id h.next moves ([], []) (w, h') listening k in
    (
      w',
      h'',
      ap
            (λ o.
              begin_payload aead key (some nonce) now req.session_id stream h o
              >>= go_on aead key moves)
            asked
          ∙ ap
              (λ t.
                begin_on aead key (some nonce) now req.session_id stream h t
                >>= go_on aead key moves)
              found
          ∙ rw (begun, followed) refl,
      (rw (length-messages 1 (fed_all topic moves ([], [])).0) at (
          read_all-IsTold aead laws key (told_so_far topic (fed_all topic moves ([], [])).0)
            w'.stream.written good k'.told)),
      k'.waits,
    )
