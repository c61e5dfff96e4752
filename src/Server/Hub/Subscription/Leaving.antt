-- ===== src/Server/Hub/Subscription/Leaving.antt =====
-- However a subscription ends, its deferred Unsubscribe has run.
use hush_go.Base.{
  ℕ, Bytes, Outcome, ok, ◌>>=◌, ◌≡◌, refl, sym, subst, ◌∙◌, Option, none, some, str_eq_refl, inl,
  inr, ◌⊎◌,
}
use hush_go.Base.{◌>>=◌}
use hush_go.Base.{Ensures, returns, fails}
use hush_go.Base.Dict.{string_key, number_key}
use hush_go.Tlv.Types.{Map}
use hush_go.Session.Crypto.{Aead}
use hush_go.Server.Handlers.{Reply, returned, failed, panicked, Stream}
use hush_go.Server.Dispatch.{respond}
use hush_go.Server.Hub.{Event, Hub, unsubscribe, receive}
use hush_go.Server.Hub.Registered.{find}
use hush_go.Server.Hub.Heap.{IsHub}
use hush_go.Server.Hub.Steps.{IsRemoved, unsubscribe-IsRemoved, receive-IsHub}
use hush_go.Server.Hub.Runs.{perform, has, perform-IsPromised}
use hush_go.Server.Hub.Subscription.{
  Subscription, message, Move, elsewhere, takes_event, takes_done, leave, leave_if, push,
  push_payload, push_received, moved, write_on, select_event,
}

-- The subscription goes on, or nothing stands under its topic and its id.
abbrev pub IsLeft : Bytes → Bytes → Subscription × Hub → Type 0
IsLeft topic id (w, h) = IsHub h × ((w.ended ≡ none) ⊎ (find h.subscribers topic id ≡ none))

-- A change of the subscription that leaves its topic and its id.
abbrev IsSameName : Subscription → Subscription → Type 0
IsSameName w w' = (w'.topic ≡ w.topic) × (w'.sub_id ≡ w.sub_id)

module _ (aead : Aead) (key : Option Bytes) where
  leave_if-IsLeft :
      (o : Option (Reply (Unit {0}))) (w : Subscription) (h : Hub)
      → w.ended ≡ o
      → IsHub h
      → Ensures (IsLeft w.topic w.sub_id) (leave_if aead key o w h)
  leave_if-IsLeft none w h e k = returns (k, inl e)
  leave_if-IsLeft (some r) w h e k =
      from (unsubscribe w.topic w.sub_id h) (unsubscribe-IsRemoved w.topic w.sub_id h k)
    where
      from :
          (o : Outcome Hub)
          → Ensures (IsRemoved w.topic w.sub_id h) o
          → Ensures (IsLeft w.topic w.sub_id) (do h' ← o; ok (w, h'))
      from _ (returns (k', gone)) =
          returns
            (k', inr (gone w.topic w.sub_id ∙ rw (str_eq_refl w.topic, str_eq_refl w.sub_id) refl))
      from _ fails = fails

  leave-IsLeft :
      (w w' : Subscription) (h : Hub)
      → IsSameName w w'
      → IsHub h
      → Ensures (IsLeft w.topic w.sub_id) (leave aead key (w', h))
  unfolding leave
  leave-IsLeft w w' h (same_topic, same_id) k =
      rw (← same_topic, ← same_id) (leave_if-IsLeft w'.ended w' h refl k)

  write_on-IsSameName :
      (seq : ℕ) (r : Reply (Unit {0}) × Stream) (w : Subscription)
      → IsSameName w (write_on aead key seq r w)
  write_on-IsSameName seq (panicked, stream) w = (refl, refl)
  write_on-IsSameName seq (returned tt, stream) w = (refl, refl)
  write_on-IsSameName seq (failed, stream) w = (refl, refl)

  push-IsSameName :
      (random : Option Bytes) (evt : Event) (w : Subscription)
      → IsSameName w (push aead key random evt w)
  unfolding push
  push-IsSameName random evt w = from evt.payload
    where
      from : (o : Option Map) → IsSameName w (push_payload aead key random evt o w)
      from none = (refl, refl)
      from (some m) =
          write_on-IsSameName _ (respond aead random key _ (message evt.topic m evt.time) w.stream)
            w

  push_received-IsSameName :
      (random : Option Bytes) (w : Subscription) (r : Option Event × Hub)
      → IsSameName w (push_received aead key random w r).0
  push_received-IsSameName random w (none, h) = (refl, refl)
  push_received-IsSameName random w (some evt, h) = push-IsSameName random evt w

  push_received_hub :
      (random : Option Bytes) (w : Subscription) (r : Option Event × Hub)
      → (push_received aead key random w r).1 ≡ r.1
  push_received_hub random w (none, h) = refl
  push_received_hub random w (some evt, h) = refl

-- Every move beside a subscription that goes on, whatever call of the hub another user makes, returns and
-- keeps the hub's invariant; and if the handler ended in it, by its context, by a closed subscriber or by
-- a panic, then nothing stands under its topic and its id any more.
pub moved-IsLeft :
    (aead : Aead) (key : Option Bytes) (m : Move) (w : Subscription) (h : Hub)
    → w.ended ≡ none
    → IsHub h
    → Ensures (IsLeft w.topic w.sub_id) (moved aead key m (w, h))
unfolding moved
moved-IsLeft aead key (elsewhere c) w h going k =
    from (perform c h)
      (perform-IsPromised c (λ t i. has (find h.subscribers t i)) h (k, λ t i. refl))
  where
    from :
        {P : Hub → Type 0} (o : Outcome Hub)
        → Ensures (λ h'. IsHub h' × P h') o
        → Ensures (IsLeft w.topic w.sub_id) (do h' ← o; ok (w, h'))
    from _ (returns (k', p)) = returns (k', inl going)
    from _ fails = fails
moved-IsLeft aead key (takes_event random) w h going k =
    let next = push_received aead key random w (receive w.sub h) in
    subst (λ o. Ensures (IsLeft w.topic w.sub_id) (select_event aead key random o w h)) (sym going)
      (leave-IsLeft aead key w next.0 next.1
        (push_received-IsSameName aead key random w (receive w.sub h))
        (subst IsHub (sym (push_received_hub aead key random w (receive w.sub h)))
          (receive-IsHub w.sub h k)))
moved-IsLeft aead key takes_done w h going k = rw going (leave-IsLeft aead key w _ h (refl, refl) k)
