-- ===== src/Server/Hub/Delivery.antt =====
-- Publish: whom an event reaches.
use hush_go.Base.{
  ℕ, false, Bytes, [], ◌∷◌, ◌++◌, length, ◌≡◌, ◌≢◌, refl, sym, subst, ◌∙◌, ltb, ◌==◌, ne→==, ==_iff,
  if◌then◌else◌, Option, none, some, str_eq, str_eq_iff, str_eq_refl, Bool-cases, inl, inr,
}
use hush_go.Base.Int.{ℤ}
use hush_go.Base.Dict.{Dict, string_key, number_key, lookup, IsUnique, lookup-insert}
use hush_go.Tlv.Types.{Map}
use hush_go.Server.Hub.{Event, Subscriber, Hub, or_nil, offered, offer_found, offer_all, publish}
use hush_go.Server.Hub.Registered.{find}
use hush_go.Server.Hub.Heap.{IsHub, IsHeld, IsOpen}

-- No two ids have one subscriber.
abbrev IsInjective : Dict Bytes ℕ → Type 0
IsInjective dest = (i j : Bytes) (p : ℕ) → lookup i dest ≡ some p → lookup j dest ≡ some p → i ≡ j

lookup_cons :
    (dest : Dict Bytes ℕ) (j l : Bytes) (p q : ℕ)
    → lookup j dest ≡ none
    → lookup l dest ≡ some q
    → lookup l ((j, p) ∷ dest) ≡ some q
unfolding lookup
lookup_cons dest j l p q fresh e = elim (Bool-cases (str_eq j l)) [
  | inl same ↦ absurd (cc (rw (← (str_eq_iff j l).0 same, fresh) at e))
  | inr other ↦ rw (other, e)
]

lookup_head : (dest : Dict Bytes ℕ) (j : Bytes) (p : ℕ) → lookup j ((j, p) ∷ dest) ≡ some p
unfolding lookup
lookup_head dest j p = rw (str_eq_refl j)

IsInjective-tail :
    (dest : Dict Bytes ℕ) (j : Bytes) (p : ℕ)
    → lookup j dest ≡ none
    → IsInjective ((j, p) ∷ dest)
    → IsInjective dest
IsInjective-tail dest j p fresh h i l q e f =
    h i l q (lookup_cons dest j i p q fresh e) (lookup_cons dest j l p q fresh f)

-- The step for one subscriber leaves the others.
offer_found-other :
    (evt : Event) (p q : ℕ) (heap : Dict ℕ Subscriber) (o : Option Subscriber)
    → (p == q) ≡ false
    → lookup q (offer_found evt p heap o) ≡ lookup q heap
offer_found-other evt p q heap none h = refl
offer_found-other evt p q heap (some sub) h = rw (lookup-insert p q (offered evt sub) heap, h)

offer_all-other :
    (evt : Event) (dest : Dict Bytes ℕ) (q : ℕ) (heap : Dict ℕ Subscriber)
    → IsUnique dest
    → ((l : Bytes) → lookup l dest ≢ some q)
    → lookup q (offer_all evt dest heap) ≡ lookup q heap
offer_all-other evt [] q heap u h = refl
offer_all-other evt ((j, p) ∷ dest) q heap (fresh, u) h =
    let apart : (p == q) ≡ false =
      ne→== p q
        (λ e. h j (subst (λ r. lookup j ((j, p) ∷ dest) ≡ some r) e (lookup_head dest j p))) in
    offer_all-other evt dest q _ u (λ l e. h l (lookup_cons dest j l p q fresh e))
    ∙ offer_found-other evt p q heap (lookup p heap) apart

offer_all-found :
    (evt : Event) (dest : Dict Bytes ℕ) (i : Bytes) (q : ℕ) (heap : Dict ℕ Subscriber)
    (sub : Subscriber)
    → IsUnique dest
    → IsInjective dest
    → lookup i dest ≡ some q
    → lookup q heap ≡ some sub
    → lookup q (offer_all evt dest heap) ≡ some (offered evt sub)
unfolding lookup
offer_all-found evt [] i q heap sub u inj e f = absurd (cc)
offer_all-found evt ((j, p) ∷ dest) i q heap sub (fresh, u) inj e f =
    elim (Bool-cases (str_eq j i)) [
      | inl same ↦
          let g : p ≡ q = cc (rw same at e) in
          let head : lookup j ((j, p) ∷ dest) ≡ some q =
            subst (λ r. lookup j ((j, p) ∷ dest) ≡ some r) g (lookup_head dest j p) in
          let here : lookup p heap ≡ some sub = subst (λ r. lookup r heap ≡ some sub) (sym g) f in
          offer_all-other evt dest q _ u (λ l e'.
            let again : l ≡ j = inj l j q (lookup_cons dest j l p q fresh e') head in
            cc (rw (again, fresh) at e'))
          ∙ rw (here, lookup-insert p q (offered evt sub) heap, (==_iff p q).1 g)
      | inr other ↦
          let below : lookup i dest ≡ some q = (rw other at e) in
          let apart : (p == q) ≡ false = ne→== p q (λ g.
            let again : j ≡ i =
              inj j i q (subst (λ r. lookup j ((j, p) ∷ dest) ≡ some r) g (lookup_head dest j p))
                (lookup_cons dest j i p q fresh below) in
            cc ((str_eq_iff j i).1 again, other)) in
          offer_all-found evt dest i q _ sub u (IsInjective-tail dest j p fresh inj) below
            (offer_found-other evt p q heap (lookup p heap) apart ∙ f)
    ]

module _ (h : Hub) (k : IsHub h) where
  IsOpen-under :
      (topic id : Bytes) (p : ℕ) (sub : Subscriber)
      → find h.subscribers topic id ≡ some p
      → lookup p h.heap ≡ some sub
      → IsOpen topic id sub
  IsOpen-under topic id p sub e f = subst (IsHeld topic id) f (k.held topic id p e)

  -- A subscriber stands under one topic and one id.
  named_once :
      (o : Option Subscriber) (t i u j : Bytes) → IsHeld t i o → IsHeld u j o → (t ≡ u) × (i ≡ j)
  named_once none t i u j a b = absurd a
  named_once (some sub) t i u j a b = (sym a.same_topic ∙ b.same_topic, sym a.same_id ∙ b.same_id)

  -- With some subscribers under the topic.
  module _ (topic : Bytes) (subs : Dict Bytes ℕ) (e : lookup topic h.subscribers ≡ some subs) where
    under : (i : Bytes) (p : ℕ) → lookup i subs ≡ some p → find h.subscribers topic i ≡ some p
    under i p f = rw (e, f)

    subs-IsInjective : IsInjective subs
    subs-IsInjective i j p f g =
        (named_once (lookup p h.heap) topic i topic j (k.held topic i p (under i p f))
          (k.held topic j p (under j p g))).1

    subs_other :
        (t i : Bytes) (q : ℕ)
        → find h.subscribers t i ≡ some q
        → str_eq topic t ≡ false
        → (l : Bytes) → lookup l subs ≢ some q
    subs_other t i q f other l g =
        let same =
          (named_once (lookup q h.heap) topic l t i (k.held topic l q (under l q g))
            (k.held t i q f)).0 in
        cc ((str_eq_iff topic t).1 same, other)

  offered_lem :
      (evt : Event) (sub : Subscriber)
      → offered evt sub ≡ record sub {
        events = (if ltb (length sub.events) 64 then sub.events ++ (evt ∷ []) else sub.events);
      }
  offered_lem evt sub = elim (Bool-cases (ltb (length sub.events) 64)) [
    | inl room ↦ rw room refl
    | inr full ↦ rw full refl
  ]

  offer_under :
      (evt : Event) (topic t i : Bytes) (q : ℕ) (sub : Subscriber) (o : Option (Dict Bytes ℕ))
      → lookup topic h.subscribers ≡ o
      → find h.subscribers t i ≡ some q
      → lookup q h.heap ≡ some sub
      → lookup q (offer_all evt (or_nil o) h.heap)
        ≡ some (if str_eq topic t then offered evt sub else sub)
  offer_under evt topic t i q sub none e f g = elim (Bool-cases (str_eq topic t)) [
    | inl same ↦ absurd (cc (rw (← (str_eq_iff topic t).0 same, e) at f))
    | inr other ↦ rw (other, g)
  ]
  offer_under evt topic t i q sub (some subs) e f g = elim (Bool-cases (str_eq topic t)) [
    | inl same ↦ rw same (
        offer_all-found evt subs i q h.heap sub (k.table.unique_under topic subs e)
          (subs-IsInjective topic subs e) (rw (← (str_eq_iff topic t).0 same, e) at f) g)
    | inr other ↦ rw other (
        offer_all-other evt subs q h.heap (k.table.unique_under topic subs e)
          (subs_other topic subs e t i q f other)
        ∙ g)
  ]

-- In every state that keeps the hub's invariant, Publish puts its event behind those that wait in the
-- channel of every subscriber of the topic, unless 64 wait there already, and leaves the others as
-- they are.
pub publish_reaches :
    (h : Hub) (now : ℤ) (topic : Bytes) (payload : Option Map) (t i : Bytes) (q : ℕ)
    (sub : Subscriber)
    → IsHub h
    → find h.subscribers t i ≡ some q
    → lookup q h.heap ≡ some sub
    → let evt : Event = record { topic = topic; payload = payload; time = now } in
      let received = if ltb (length sub.events) 64 then sub.events ++ (evt ∷ []) else sub.events in
      lookup q (publish now topic payload h).heap
      ≡ some (if str_eq topic t then record sub { events = received } else sub)
unfolding publish
publish_reaches h now topic payload t i q sub k f g =
    let evt : Event = record { topic = topic; payload = payload; time = now } in
    subst
      (λ s. lookup q (publish now topic payload h).heap ≡ some (if str_eq topic t then s else sub))
      (offered_lem h k evt sub)
      (offer_under h k evt topic t i q sub (lookup topic h.subscribers) refl f g)
