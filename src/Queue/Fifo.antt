-- ===== src/Queue/Fifo.antt =====
-- Every run of the threads keeps the order of the items.
use native.Mathlib.Nat.{mod-eq_of_lt}
use mathlib.Core.List.{head?, tail}
use fast_sync.Prelude.{
  ℕ, ◌*◌, ◌≤◌, ◌<◌, ◌≡◌, inl, inr, refl, sym, ap, ◌∙◌, List, [], ◌∷◌, ◌++◌, Bool, true, false,
  Option, none, some, arith, ◌==◌, if◌then◌else◌, Bool-cases, guard-eq-some, append_assoc,
  length-replicate,
}
use fast_sync.Queue.{
  is_set, int_max, Memory, Queue, create, is_empty, is_full, put, enqueue, dequeue,
}
use fast_sync.Queue.Refine.{put-Represents}
use fast_sync.Queue.Ends.{dequeue-Represents}
use fast_sync.Prelude.{replicate}
use fast_sync.Queue.Sections.{enqueue_returns, cancel_returns, dequeue_returns}
use fast_sync.Queue.Threads.{
  Waiters, signal_if, System, fresh_system, producer_enters, consumer_enters, count_cancelled,
  accept, hand_out, Step, enqueued, enqueue_waited, enqueued_cancel, enqueue_cancel_waited,
  dequeued, dequeue_waited, producer_woken, consumer_woken, Reach, created, stepped, Consistent,
}

else-eq-some :
    {B : Type 0} (b : Bool) (m : Option B) {x : B}
    → (if b then none else m) ≡ some x
    → (b ≡ false) × (m ≡ some x)
else-eq-some true m h = cc
else-eq-some false m h = (refl, h)

module _ {A : Type 0} (m : Memory A) (capacity : ℕ) where
  empty-Consistent :
      (q : Queue A)
      → capacity ≤ int_max
      → 0 < capacity
      → (record {
        items = replicate capacity none;
        capacity = capacity;
        front = 0;
        rear = 0;
        size = 0;
      })
        ≡ q
      → Consistent m capacity (fresh_system q)
  empty-Consistent q small positive e = rw (sym e) (record {
    contents = [];
    represented = record {
      slots = length-replicate capacity none;
      positive = positive;
      small = small;
      front_in = positive;
      size_in = omega arith;
      rear_at = sym (mod-eq_of_lt {n = 0} {m = capacity} positive);
      holds = refl;
    };
    in_order = refl;
    same_capacity = refl;
  })

  create-Consistent :
      (q : Queue A)
      → capacity ≤ int_max
      → create m capacity ≡ some q
      → Consistent m capacity (fresh_system q)
  unfolding create
  create-Consistent q small h =
      let (positive, made) = else-eq-some (capacity == 0) _ h in
      let (granted, rest) = guard-eq-some (m.alloc 40) _ made in
      let (both, last) = guard-eq-some (m.alloc (capacity * 8)) _ rest in
      empty-Consistent q small (ground arith) cc

  room-fits : (q : Queue A) → q.size ≤ q.capacity → is_full q ≡ false → q.size < q.capacity
  unfolding is_full
  room-fits q h e = ground arith

  put-capacity : (q : Queue A) (x : A) → (put q x).capacity ≡ q.capacity
  unfolding put
  put-capacity q x = refl

  enqueue-Consistent :
      (s : System A) (x : A) (signals : Bool)
      → Consistent m capacity s
      → is_full s.queue ≡ false
      → Consistent m capacity
          (accept m s x (enqueue m s.queue (some x)).0 signals (enqueue m s.queue (some x)).1)
  unfolding enqueue accept
  enqueue-Consistent s x signals c room =
      let fits : s.queue.size < s.queue.capacity = room-fits s.queue c.represented.size_in room in
      rw room (record {
        contents = c.contents ++ (x ∷ []);
        represented = put-Represents s.queue c.contents x c.represented fits;
        in_order = ap (λ t. t ++ (x ∷ [])) c.in_order ∙ append_assoc s.received c.contents (x ∷ []);
        same_capacity = put-capacity s.queue x ∙ c.same_capacity;
      })

  dequeue-capacity : (q : Queue A) → (dequeue q).1.capacity ≡ q.capacity
  unfolding dequeue
  dequeue-capacity q = elim (Bool-cases (is_empty q)) [ inl e ↦ rw e refl | inr e ↦ rw e refl ]

  hand_out-in_order :
      (s : System A) (item : Option A) (signals : Bool) (t : Queue A) (xs : List A)
      → item ≡ head? xs
      → s.sent ≡ s.received ++ xs
      → (hand_out m s item signals t).sent ≡ (hand_out m s item signals t).received ++ tail xs
  unfolding hand_out
  hand_out-in_order s none signals t [] e h = h
  hand_out-in_order s none signals t (x ∷ xs) e h = cc
  hand_out-in_order s (some y) signals t [] e h = cc
  hand_out-in_order s (some y) signals t (x ∷ xs) e h =
      let same : y ≡ x = cc in
      h
      ∙ sym (append_assoc s.received (x ∷ []) xs)
      ∙ ap (λ z. (s.received ++ (z ∷ [])) ++ xs) (sym same)

  hand_out-queue :
      (s : System A) (item : Option A) (signals : Bool) (t : Queue A)
      → (hand_out m s item signals t).queue ≡ t
  unfolding hand_out
  hand_out-queue s none signals t = refl
  hand_out-queue s (some x) signals t = refl

  dequeue-Consistent :
      (s : System A) (signals : Bool)
      → Consistent m capacity s
      → Consistent m capacity (hand_out m s (dequeue s.queue).0 signals (dequeue s.queue).1)
  dequeue-Consistent s signals c =
      let (item, left) = dequeue-Represents s.queue c.contents c.represented in
      record {
        contents = tail c.contents;
        represented = rw (hand_out-queue s (dequeue s.queue).0 signals (dequeue s.queue).1) left;
        in_order =
            hand_out-in_order s (dequeue s.queue).0 signals (dequeue s.queue).1 c.contents item
              c.in_order;
        same_capacity =
            rw (hand_out-queue s (dequeue s.queue).0 signals (dequeue s.queue).1)
              (dequeue-capacity s.queue ∙ c.same_capacity);
      }

  -- The threads that wait do not matter to the items.
  waiters-Consistent :
      (s : System A) (not_empty not_full : Waiters) (cancelled : ℕ)
      → Consistent m capacity s
      → Consistent m capacity
          (record s { not_empty = not_empty; not_full = not_full; cancelled = cancelled })
  waiters-Consistent s not_empty not_full cancelled c = record {
    contents = c.contents;
    represented = c.represented;
    in_order = c.in_order;
    same_capacity = c.same_capacity;
  }

  rejected-Consistent :
      (s : System A) (x : A) (signals : Bool)
      → Consistent m capacity s
      → Consistent m capacity (accept m s x false signals s.queue)
  unfolding accept
  rejected-Consistent s x signals c =
      waiters-Consistent s (signal_if signals s.not_empty) s.not_full s.cancelled c

  finished-Consistent :
      (s : System A) (signals : Bool)
      → Consistent m capacity s
      → Consistent m capacity (hand_out m s none signals s.queue)
  unfolding hand_out
  finished-Consistent s signals c =
      waiters-Consistent s s.not_empty (signal_if signals s.not_full) s.cancelled c

  producer-Consistent :
      (s : System A) (not_full : Waiters)
      → Consistent m capacity s
      → Consistent m capacity (record s { not_full = not_full })
  producer-Consistent s not_full c = waiters-Consistent s s.not_empty not_full s.cancelled c

  consumer-Consistent :
      (s : System A) (not_empty : Waiters)
      → Consistent m capacity s
      → Consistent m capacity (record s { not_empty = not_empty })
  consumer-Consistent s not_empty c = waiters-Consistent s not_empty s.not_full s.cancelled c

  Step-Consistent :
      (s t : System A) → Consistent m capacity s → Step m s t → Consistent m capacity t
  Step-Consistent s t c (enqueued _ entry x ok signals q able h) =
      let (room, same, _, at) = enqueue_returns m s.queue x ok signals q h in
      rw (same, at)
        (enqueue-Consistent (producer_enters entry s) x signals (producer-Consistent s _ c) room)
  Step-Consistent s t c (enqueue_waited _ entry x able h) = producer-Consistent s _ c
  Step-Consistent s t c (enqueued_cancel _ entry x cancelled ok signals q able h) =
      let from = count_cancelled (is_set cancelled) (producer_enters entry s) in
      let k = waiters-Consistent s s.not_empty from.not_full from.cancelled c in
      elim (cancel_returns m s.queue x cancelled ok signals q h) [
        | inl (_, same, _, at) ↦ rw (same, at) (rejected-Consistent from x signals k)
        | inr (_, room, same, _, at) ↦ rw (same, at) (enqueue-Consistent from x signals k room)
      ]
  Step-Consistent s t c (enqueue_cancel_waited _ entry x cancelled able h) =
      producer-Consistent s _ c
  Step-Consistent s t c (dequeued _ entry finished item signals q able h) =
      elim (dequeue_returns m s.queue finished item signals q h) [
        | inl (_, same, _, at) ↦
            rw (same, at)
              (finished-Consistent (consumer_enters entry s) signals (consumer-Consistent s _ c))
        | inr (_, same, _, at) ↦
            rw (same, at)
              (dequeue-Consistent (consumer_enters entry s) signals (consumer-Consistent s _ c))
      ]
  Step-Consistent s t c (dequeue_waited _ entry finished able h) = consumer-Consistent s _ c
  Step-Consistent s t c (producer_woken _) = producer-Consistent s _ c
  Step-Consistent s t c (consumer_woken _) = consumer-Consistent s _ c

  -- In every state that threads reach by the three calls, the items accepted are the items handed
  -- out followed by the queue's contents, in order, and the capacity is the initial one.
  pub Reach-Consistent :
      (s : System A) → capacity ≤ int_max → Reach m capacity s → Consistent m capacity s
  Reach-Consistent s small (created q h) = create-Consistent q small h
  Reach-Consistent s small (stepped {s = before} r step) =
      Step-Consistent before s (Reach-Consistent before small r) step
