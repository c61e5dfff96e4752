-- ===== src/Server/Hub/Heap.antt =====
-- The subscribers that the hub's map names, in every state that its methods reach.
use hush_go.Base.{
  ℕ, ◌≤◌, ◌<◌, false, Bytes, [], ◌∷◌, length, length-append, ◌≡◌, refl, sym, subst, ltb, ◌==◌,
  ==_iff, arith, Option, none, some, Bool-cases, inl, inr,
}
use hush_go.Base.Int.{ℤ}
use hush_go.Base.Dict.{Dict, string_key, number_key, lookup, insert, lookup-insert, insert-IsUnique}
use hush_go.Tlv.Types.{Map}
use hush_go.Server.Hub.{
  Event, Subscriber, buffer_size, new_subscriber, Hub, new_hub, or_nil, subscribe, offered,
  offer_found, offer_all, publish,
}
use hush_go.Server.Hub.Registered.{
  find, both, both-true, IsTable, find-insert, insert-IsTable, or_nil-IsUnique,
}

-- A subscriber that is not done, of this topic and id, with no more events than its channel takes.
pub record IsOpen (topic id : Bytes) (sub : Subscriber) : Type 0 where
  pub not_done : sub.is_done ≡ false
  pub same_topic : sub.topic ≡ topic
  pub same_id : sub.id ≡ id
  pub within : length sub.events ≤ buffer_size

abbrev pub IsHeld : Bytes → Bytes → Option Subscriber → Type 0
IsHeld topic id none = ⊥
IsHeld topic id (some sub) = IsOpen topic id sub

-- Everything that the map names is such a subscriber, made before now.
pub record IsHub (h : Hub) : Type 0 where
  pub table : IsTable h.subscribers
  pub held :
      (topic id : Bytes) (p : ℕ)
      → find h.subscribers topic id ≡ some p
      → IsHeld topic id (lookup p h.heap)
  pub made : (topic id : Bytes) (p : ℕ) → find h.subscribers topic id ≡ some p → p < h.next

pub new_hub-IsHub : IsHub new_hub
unfolding new_hub lookup
new_hub-IsHub = record {
  table = record { unique = tt; unique_under = λ t subs e. absurd (cc) };
  held = λ t i p e. absurd (cc);
  made = λ t i p e. absurd (cc);
}

pub subscribe-IsHub :
    (now : ℤ) (topic id : Bytes) (h : Hub) → IsHub h → IsHub (subscribe now topic id h).0
unfolding subscribe new_subscriber
subscribe-IsHub now topic id h k =
    let m = h.subscribers in
    let subs = or_nil (lookup topic m) in
    record {
      table =
          insert-IsTable m topic (insert id h.next subs) k.table (
            insert-IsUnique id h.next subs (or_nil-IsUnique m topic (lookup topic m) refl k.table));
      held = λ t i p e. elim (Bool-cases (both topic t id i)) [
        | inl here ↦
            let g : h.next ≡ p = cc (rw (find-insert m topic id t i h.next, here) at e) in
            let names = both-true topic t id i here in
            rw (lookup-insert h.next p (new_subscriber now id topic) h.heap, (==_iff h.next p).1 g)
              (record {
                not_done = refl;
                same_topic = names.0;
                same_id = names.1;
                within = omega arith;
              })
        | inr there ↦
            let e' : find m t i ≡ some p = (rw (find-insert m topic id t i h.next, there) at e) in
            let older : (h.next == p) ≡ false = ground (arith, k.made t i p e') in
            rw (lookup-insert h.next p (new_subscriber now id topic) h.heap, older)
              (k.held t i p e')
      ];
      made = λ t i p e. elim (Bool-cases (both topic t id i)) [
        | inl here ↦
            let g : h.next ≡ p = cc (rw (find-insert m topic id t i h.next, here) at e) in
            omega (arith, g)
        | inr there ↦
            let e' : find m t i ≡ some p = (rw (find-insert m topic id t i h.next, there) at e) in
            omega (arith, k.made t i p e')
      ];
    }

-- What a send makes of the heap, one subscriber at a time.
offered-IsOpen :
    (evt : Event) (topic id : Bytes) (sub : Subscriber)
    → IsOpen topic id sub
    → IsOpen topic id (offered evt sub)
offered-IsOpen evt topic id sub o = elim (Bool-cases (ltb (length sub.events) buffer_size)) [
  | inl room ↦ rw room (record {
    not_done = o.not_done;
    same_topic = o.same_topic;
    same_id = o.same_id;
    within = ground (arith, length-append {0} sub.events (evt ∷ []));
  })
  | inr full ↦ rw full o
]

pub IsHeld-insert :
    (topic id : Bytes) (p q : ℕ) (sub : Subscriber) (heap : Dict ℕ Subscriber)
    → (p ≡ q → IsOpen topic id sub)
    → IsHeld topic id (lookup q heap)
    → IsHeld topic id (lookup q (insert p sub heap))
IsHeld-insert topic id p q sub heap new old = elim (Bool-cases (p == q)) [
  | inl same ↦ rw (lookup-insert p q sub heap, same) (new ((==_iff p q).0 same))
  | inr other ↦ rw (lookup-insert p q sub heap, other) old
]

offer_found-IsHeld :
    (evt : Event) (topic id : Bytes) (p q : ℕ) (heap : Dict ℕ Subscriber) (o : Option Subscriber)
    → lookup p heap ≡ o
    → IsHeld topic id (lookup q heap)
    → IsHeld topic id (lookup q (offer_found evt p heap o))
offer_found-IsHeld evt topic id p q heap none e h = h
offer_found-IsHeld evt topic id p q heap (some sub) e h =
    IsHeld-insert topic id p q (offered evt sub) heap
      (λ same.
        offered-IsOpen evt topic id sub
          (subst (IsHeld topic id) e (subst (λ r. IsHeld topic id (lookup r heap)) (sym same) h)))
      h

offer_all-IsHeld :
    (evt : Event) (topic id : Bytes) (q : ℕ) (dest : Dict Bytes ℕ) (heap : Dict ℕ Subscriber)
    → IsHeld topic id (lookup q heap)
    → IsHeld topic id (lookup q (offer_all evt dest heap))
offer_all-IsHeld evt topic id q [] heap h = h
offer_all-IsHeld evt topic id q ((i, p) ∷ dest) heap h =
    offer_all-IsHeld evt topic id q dest _
      (offer_found-IsHeld evt topic id p q heap (lookup p heap) refl h)

pub publish-IsHub :
    (now : ℤ) (topic : Bytes) (payload : Option Map) (h : Hub)
    → IsHub h
    → IsHub (publish now topic payload h)
unfolding publish
publish-IsHub now topic payload h k = record {
  table = k.table;
  held = λ t i p e.
      offer_all-IsHeld _ t i p (or_nil (lookup topic h.subscribers)) h.heap (k.held t i p e);
  made = k.made;
}
