-- ===== src/Server/Hub/Steps.antt =====
-- Receives and Unsubscribe on the hub.
use hush_go.Base.{
  ℕ, true, false, Bytes, List, [], ◌∷◌, length, ok, ◌≡◌, refl, sym, subst, ◌∙◌, ◌==◌, if◌then◌else◌,
  arith, Option, none, some, str_eq_refl, Bool-cases, inl, inr,
}
use hush_go.Base.{Ensures, returns}
use hush_go.Base.Dict
use hush_go.Base.Dict.{
  Dict, Key, string_key, number_key, lookup, insert, IsUnique, lookup-insert, insert-IsUnique,
  lookup-delete, delete-IsUnique,
}
use hush_go.Server.Hub.{
  Event, Subscriber, Hub, close_subscriber, closed_heap, remove, unsubscribe_from, unsubscribe,
  received, received_from, receive,
}
use hush_go.Server.Hub.Registered.{
  find, both, both-true, without, without-IsTable, find-without, find-without_all,
}
use hush_go.Server.Hub.Heap.{IsOpen, IsHeld, IsHub, IsHeld-insert}

pub receive-IsHub : (p : ℕ) (h : Hub) → IsHub h → IsHub (receive p h).1
unfolding receive
receive-IsHub p h k = from (lookup p h.heap) refl
  where
    taken :
        (sub : Subscriber) (evt : Event) (events : List Event)
        → lookup p h.heap ≡ some sub
        → sub.events ≡ evt ∷ events
        → IsHub (record h { heap = insert p (record sub { events = events }) h.heap })
    taken sub evt events e l = record {
      table = k.table;
      held = λ t i q f.
          IsHeld-insert t i p q (record sub { events = events }) h.heap
            (λ same.
              let o =
                subst (IsHeld t i) e
                  (subst (λ r. IsHeld t i (lookup r h.heap)) (sym same) (k.held t i q f)) in
              record {
                not_done = o.not_done;
                same_topic = o.same_topic;
                same_id = o.same_id;
                within = (let w = o.within in omega (arith, (rw l at w)));
              })
            (k.held t i q f);
      made = k.made;
    }

    by_events :
        (sub : Subscriber) (events : List Event)
        → lookup p h.heap ≡ some sub
        → sub.events ≡ events
        → IsHub (received_from p h sub events).1
    by_events sub [] e l = k
    by_events sub (evt ∷ events) e l = taken sub evt events e l

    from : (o : Option Subscriber) → lookup p h.heap ≡ o → IsHub (received p h o).1
    from none e = k
    from (some sub) e = by_events sub sub.events e refl

pub names_differ : (topic id t i : Bytes) → topic ≡ t → id ≡ i → both topic t id i ≡ false → ⊥
names_differ topic id t i e f h = cc (rw (← e, ← f, str_eq_refl topic, str_eq_refl id) at h)

-- The state behind Unsubscribe where the subscriber is there.
abbrev left_by : Bytes → Bytes → ℕ → Hub → Dict Bytes ℕ → Subscriber → Hub
left_by topic id p h subs sub = record h {
  heap = insert p (record sub { is_done = true }) h.heap;
  subscribers = without h.subscribers topic (Dict.delete id subs);
}

left_by-IsHub :
    (topic id : Bytes) (p : ℕ) (h : Hub) (subs : Dict Bytes ℕ) (sub : Subscriber)
    → IsHub h
    → lookup topic h.subscribers ≡ some subs
    → lookup p h.heap ≡ some sub
    → IsOpen topic id sub
    → IsHub (left_by topic id p h subs sub)
left_by-IsHub topic id p h subs sub k e g o =
    let m = h.subscribers in
    let kept : (t i : Bytes) (q : ℕ)
        → find (without m topic (Dict.delete id subs)) t i ≡ some q
        → (both topic t id i ≡ false) × (find m t i ≡ some q) =
      λ t i q f. elim (Bool-cases (both topic t id i)) [
        | inl here ↦ absurd (cc (rw (find-without m topic id t i subs k.table e, here) at f))
        | inr there ↦ (there, (rw (find-without m topic id t i subs k.table e, there) at f))
      ] in
    record {
      table =
          without-IsTable m topic (Dict.delete id subs) k.table
            (delete-IsUnique id subs (k.table.unique_under topic subs e));
      held = λ t i q f.
          let (there, old) = kept t i q f in
          IsHeld-insert t i p q (record sub { is_done = true }) h.heap
            (λ same.
              let o' =
                subst (IsHeld t i) g
                  (subst (λ r. IsHeld t i (lookup r h.heap)) (sym same) (k.held t i q old)) in
              absurd (
                names_differ topic id t i (sym o.same_topic ∙ o'.same_topic)
                  (sym o.same_id ∙ o'.same_id) there))
            (k.held t i q old);
      made = λ t i q f. k.made t i q (kept t i q f).1;
    }

-- The map without a topic that has no subscribers.
emptied-IsHub :
    (topic : Bytes) (h : Hub) (subs : Dict Bytes ℕ)
    → IsHub h
    → lookup topic h.subscribers ≡ some subs
    → IsHub (record h { subscribers = without h.subscribers topic subs })
emptied-IsHub topic h subs k e =
    let m = h.subscribers in
    let kept : (t i : Bytes) → find (without m topic subs) t i ≡ find m t i =
      λ t i. find-without_all m topic t i subs k.table e in
    record {
      table = without-IsTable m topic subs k.table (k.table.unique_under topic subs e);
      held = λ t i q f. k.held t i q (sym (kept t i) ∙ f);
      made = λ t i q f. k.made t i q (sym (kept t i) ∙ f);
    }

closed_heap-open :
    (p : ℕ) (heap : Dict ℕ Subscriber) (sub : Subscriber)
    → sub.is_done ≡ false
    → closed_heap p heap (some sub) ≡ ok (insert p (record sub { is_done = true }) heap)
closed_heap-open p heap sub e = rw e refl

-- What Unsubscribe leaves: a state as before, in which nothing stands under the topic and the id.
abbrev pub IsRemoved : Bytes → Bytes → Hub → Hub → Type 0
IsRemoved topic id h h' =
    IsHub h'
    × ((t i : Bytes)
        → find h'.subscribers t i ≡ (if both topic t id i then none else find h.subscribers t i))

missing-IsRemoved :
    (topic id : Bytes) (h h' : Hub)
    → find h.subscribers topic id ≡ none
    → IsHub h'
    → ((t i : Bytes) → find h'.subscribers t i ≡ find h.subscribers t i)
    → IsRemoved topic id h h'
missing-IsRemoved topic id h h' gone k same = (
  k,
  λ t i. elim (Bool-cases (both topic t id i)) [
    | inl here ↦
        let names = both-true topic t id i here in
        rw (here, same t i)
          (subst (λ j. find h.subscribers t j ≡ none) names.1
            (subst (λ s. find h.subscribers s id ≡ none) names.0 gone))
    | inr there ↦ rw (there, same t i)
  ],
)

remove-IsRemoved :
    (topic id : Bytes) (h : Hub) (subs : Dict Bytes ℕ) (o : Option ℕ)
    → IsHub h
    → lookup topic h.subscribers ≡ some subs
    → lookup id subs ≡ o
    → Ensures (IsRemoved topic id h) (remove topic id h subs o)
unfolding remove close_subscriber
remove-IsRemoved topic id h subs none k e f = elim (Bool-cases (length subs == 0)) [
  | inl none_left ↦ rw none_left (
      returns (
        missing-IsRemoved topic id h _ gone (rw none_left at (emptied-IsHub topic h subs k e))
          (λ t i. (rw none_left at (find-without_all h.subscribers topic t i subs k.table e)))))
  | inr some_left ↦ rw some_left (returns (missing-IsRemoved topic id h h gone k (λ t i. refl)))
]
  where
    gone : find h.subscribers topic id ≡ none
    gone = rw e f
remove-IsRemoved topic id h subs (some p) k e f = from (lookup p h.heap) refl
  where
    under : find h.subscribers topic id ≡ some p
    under = rw e f

    from :
        (o : Option Subscriber)
        → lookup p h.heap ≡ o
        → Ensures (IsRemoved topic id h) (remove topic id h subs (some p))
    from none g = absurd (rw g at (k.held topic id p under))
    from (some sub) g =
        let o : IsOpen topic id sub = (rw g at (k.held topic id p under)) in
        rw (g, o.not_done)
          (returns (
            left_by-IsHub topic id p h subs sub k e g o,
            λ t i. find-without h.subscribers topic id t i subs k.table e,
          ))

pub unsubscribe-IsRemoved :
    (topic id : Bytes) (h : Hub) → IsHub h → Ensures (IsRemoved topic id h) (unsubscribe topic id h)
unfolding unsubscribe
unsubscribe-IsRemoved topic id h k = from (lookup topic h.subscribers) refl
  where
    from :
        (o : Option (Dict Bytes ℕ))
        → lookup topic h.subscribers ≡ o
        → Ensures (IsRemoved topic id h) (unsubscribe_from topic id h o)
    from none e = returns (missing-IsRemoved topic id h h (rw e refl) k (λ t i. refl))
    from (some subs) e = remove-IsRemoved topic id h subs (lookup id subs) k e refl
