-- ===== src/Queue/Tests.antt =====
-- The queue at a ring of three slots whose items wrap around its end.
use fast_sync.Prelude.{ℕ, length, ◌≡◌, refl, [], ◌∷◌, true, false, none, some, arith, ◌⊎◌}
use fast_sync.Queue.{
  Memory, Queue, create, is_empty, is_full, double_capacity, copy_items, stale_slots, move_items,
  put, enqueue, dequeue, pop, enqueue_multithreaded, dequeue_multithreaded,
}
use fast_sync.Queue.Grow.{Refused}
use fast_sync.Queue.Refine.{Represents}
use fast_sync.Queue.Ends.{enqueue-Represents, dequeue-Represents, pop-Represents}
use fast_sync.Queue.Threads.{
  wake, signal_if, arrives, resumes, System, fresh_system, Step, Reach, Consistent, created,
  stepped, enqueued, dequeued, dequeue_waited, accept, hand_out,
}
use fast_sync.Queue.Fifo.{Reach-Consistent}
use fast_sync.Queue.Wakeups.{NoLostWakeup, Reach-NoLostWakeup}

abbrev generous : Memory ℕ
generous = record { alloc = λ n. true; stale = λ i. none }

abbrev ring : Queue ℕ
ring = record { items = some 5 ∷ none ∷ some 4 ∷ []; capacity = 3; front = 2; rear = 1; size = 2 }

abbrev full_ring : Queue ℕ
full_ring = record { items = some 5 ∷ some 4 ∷ []; capacity = 2; front = 1; rear = 1; size = 2 }

abbrev empty_ring : Queue ℕ
empty_ring = record { items = none ∷ []; capacity = 1; front = 0; rear = 0; size = 0 }

abbrev one_item : Queue ℕ
one_item = record { items = some 7 ∷ []; capacity = 1; front = 0; rear = 0; size = 1 }

ring-Represents : Represents ring (4 ∷ 5 ∷ [])
ring-Represents = record {
  slots = refl;
  positive = omega arith;
  small = omega arith;
  front_in = omega arith;
  size_in = omega arith;
  rear_at = refl;
  holds = refl;
}

full_ring-Represents : Represents full_ring (4 ∷ 5 ∷ [])
full_ring-Represents = record {
  slots = refl;
  positive = omega arith;
  small = omega arith;
  front_in = omega arith;
  size_in = omega arith;
  rear_at = refl;
  holds = refl;
}

enqueue_grows : enqueue generous full_ring (some 6) ≡ (
  true,
  record {
    items = some 4 ∷ some 5 ∷ some 6 ∷ none ∷ [];
    capacity = 4;
    front = 0;
    rear = 3;
    size = 3;
  },
)
unfolding enqueue is_full double_capacity move_items copy_items stale_slots put
enqueue_grows = refl

abbrev popped_ring : Queue ℕ
popped_ring = record {
  items = none ∷ none ∷ some 4 ∷ [];
  capacity = 3;
  front = 2;
  rear = 0;
  size = 1;
}

pop_wraps : pop ring ≡ some (some 5, popped_ring)
unfolding pop is_empty
pop_wraps = refl

enqueue-Represents_example :
    (((enqueue generous full_ring (some 6)).0 ≡ true)
      × Represents (enqueue generous full_ring (some 6)).1 (4 ∷ 5 ∷ 6 ∷ []))
    ⊎ ((enqueue generous full_ring (some 6) ≡ (false, full_ring))
        × (length {A = ℕ} (4 ∷ 5 ∷ []) ≡ full_ring.capacity)
        × Refused generous full_ring)
enqueue-Represents_example =
    enqueue-Represents generous full_ring (4 ∷ 5 ∷ []) 6 full_ring-Represents

dequeue-Represents_example : ((dequeue ring).0 ≡ some 4) × Represents (dequeue ring).1 (5 ∷ [])
dequeue-Represents_example = dequeue-Represents ring (4 ∷ 5 ∷ []) ring-Represents

pop-Represents_example :
    (popped : Queue ℕ) × (pop ring ≡ some (some 5, popped)) × Represents popped (4 ∷ [])
pop-Represents_example = pop-Represents ring (4 ∷ []) 5 (omega arith) ring-Represents

-- One item passes through a ring of one slot. A consumer comes first and waits; the signal of the
-- producer wakes it.
abbrev consumer_waits : System ℕ
consumer_waits = record (fresh_system empty_ring) { not_empty = record { waiting = 1; woken = 0 } }

abbrev item_sent : System ℕ
item_sent = record (fresh_system one_item) {
  sent = 7 ∷ [];
  not_empty = record { waiting = 0; woken = 1 };
}

abbrev passed : System ℕ
passed = record (fresh_system empty_ring) { sent = 7 ∷ []; received = 7 ∷ [] }

wait : Step generous (fresh_system empty_ring) consumer_waits
unfolding dequeue_multithreaded dequeue is_empty
wait = dequeue_waited (fresh_system empty_ring) arrives false tt refl

send : Step generous consumer_waits item_sent
unfolding accept signal_if wake enqueue_multithreaded enqueue is_full put
send = enqueued consumer_waits arrives 7 true true one_item tt refl

receive : Step generous item_sent passed
unfolding hand_out signal_if wake dequeue_multithreaded dequeue is_empty
receive = dequeued item_sent resumes false (some 7) true empty_ring (omega arith) refl

fresh : create generous 1 ≡ some empty_ring
unfolding create
fresh = refl

item_sent-Reach : Reach generous 1 item_sent
item_sent-Reach = stepped (stepped (created empty_ring fresh) wait) send

Reach-Consistent_example : Consistent generous 1 passed
Reach-Consistent_example =
    Reach-Consistent generous 1 passed (omega arith) (stepped item_sent-Reach receive)

Reach-NoLostWakeup_example : NoLostWakeup item_sent
Reach-NoLostWakeup_example = Reach-NoLostWakeup generous 1 item_sent item_sent-Reach
