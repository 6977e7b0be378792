-- ===== src/Queue/Threads.antt =====
-- Threads that share a queue under its mutex: the critical sections of `queue_enqueue_multithreaded`,
-- `queue_enqueue_multithreaded_cancel` and `queue_dequeue_multithreaded`, in any order, and the threads
-- that wait for the two condition variables.
use fast_sync.Prelude.{
  ℕ, zero, suc, ◌+◌, ◌-◌, ◌<◌, ◌≡◌, List, [], ◌∷◌, ◌++◌, Bool, true, false, Option, none, some,
}
use fast_sync.Queue.{
  waits, returns, is_set, enqueue_multithreaded, enqueue_multithreaded_cancel,
  dequeue_multithreaded, Memory, Queue, create,
}
use fast_sync.Queue.Refine.{Represents}

-- The threads at one condition variable: those that no wake-up has reached, and those that were woken
-- and have not taken the mutex again.
pub record Waiters : Type 0 where
  pub waiting : ℕ
  pub woken : ℕ

abbrev pub nobody : Waiters
nobody = record { waiting = 0; woken = 0 }

-- One waiting thread is woken, when there is one: `cnd_signal`, a round of `cnd_broadcast`, or a wake-up
-- without a cause, which `cnd_wait` allows.
unfoldable pub wake : Waiters → Waiters
wake w = go w.waiting w.woken
  where
    go : ℕ → ℕ → Waiters
    go zero woken = record { waiting = 0; woken = woken }
    go (suc n) woken = record { waiting = n; woken = suc woken }

unfoldable pub signal_if : Bool → Waiters → Waiters
signal_if true w = wake w
signal_if false w = w

-- How a thread comes to hold the mutex: it calls, or it returns from `cnd_wait`.
pub data Entry : Type 0 where
  arrives : Entry
  resumes : Entry

abbrev pub CanEnter : Entry → Waiters → Type 0
CanEnter arrives w = Unit {0}
CanEnter resumes w = 0 < w.woken

abbrev pub enter : Entry → Waiters → Waiters
enter arrives w = w
enter resumes w = record w { woken = w.woken - 1 }

abbrev pub sleep : Waiters → Waiters
sleep w = record w { waiting = w.waiting + 1 }

-- The queue, the items that were accepted and the items that were handed out, oldest first, the threads
-- at `condition_not_empty` and at `condition_not_full`, and the number of enqueues that returned because
-- they were cancelled.
pub record System (A : Type 0) : Type 0 where
  pub queue : Queue A
  pub sent : List A
  pub received : List A
  pub not_empty : Waiters
  pub not_full : Waiters
  pub cancelled : ℕ

abbrev pub fresh_system : {A : Type 0} → Queue A → System A
fresh_system q = record {
  queue = q;
  sent = [];
  received = [];
  not_empty = nobody;
  not_full = nobody;
  cancelled = 0;
}

abbrev pub producer_enters : {A : Type 0} → Entry → System A → System A
producer_enters entry s = record s { not_full = enter entry s.not_full }

abbrev pub consumer_enters : {A : Type 0} → Entry → System A → System A
consumer_enters entry s = record s { not_empty = enter entry s.not_empty }

abbrev pub one_if : Bool → ℕ
one_if true = 1
one_if false = 0

abbrev pub count_cancelled : {A : Type 0} → Bool → System A → System A
count_cancelled b s = record s { cancelled = s.cancelled + one_if b }

module _ {A : Type 0} (memory : Memory A) where
  unfoldable pub accept : System A → A → Bool → Bool → Queue A → System A
  accept s x true signals q = record s {
    queue = q;
    sent = s.sent ++ (x ∷ []);
    not_empty = signal_if signals s.not_empty;
  }
  accept s x false signals q = record s { queue = q; not_empty = signal_if signals s.not_empty }

  unfoldable pub hand_out : System A → Option A → Bool → Queue A → System A
  hand_out s none signals q = record s { queue = q; not_full = signal_if signals s.not_full }
  hand_out s (some x) signals q = record s {
    queue = q;
    received = s.received ++ (x ∷ []);
    not_full = signal_if signals s.not_full;
  }

  pub data Step : System A → System A → Type 0 where
    enqueued :
        (s : System A) (entry : Entry) (x : A) (ok signals : Bool) (q : Queue A)
        → CanEnter entry s.not_full
        → enqueue_multithreaded memory s.queue (some x) ≡ returns ok signals q
        → Step s (accept (producer_enters entry s) x ok signals q)
    enqueue_waited :
        (s : System A) (entry : Entry) (x : A)
        → CanEnter entry s.not_full
        → enqueue_multithreaded memory s.queue (some x) ≡ waits
        → Step s (record s { not_full = sleep (enter entry s.not_full) })
    enqueued_cancel :
        (s : System A) (entry : Entry) (x : A) (cancelled : Option Bool) (ok signals : Bool)
        (q : Queue A)
        → CanEnter entry s.not_full
        → enqueue_multithreaded_cancel memory s.queue (some x) cancelled ≡ returns ok signals q
        → Step s
            (accept (count_cancelled (is_set cancelled) (producer_enters entry s)) x ok signals q)
    enqueue_cancel_waited :
        (s : System A) (entry : Entry) (x : A) (cancelled : Option Bool)
        → CanEnter entry s.not_full
        → enqueue_multithreaded_cancel memory s.queue (some x) cancelled ≡ waits
        → Step s (record s { not_full = sleep (enter entry s.not_full) })
    dequeued :
        (s : System A) (entry : Entry) (other_thread_done : Bool) (item : Option A) (signals : Bool)
        (q : Queue A)
        → CanEnter entry s.not_empty
        → dequeue_multithreaded s.queue other_thread_done ≡ returns item signals q
        → Step s (hand_out (consumer_enters entry s) item signals q)
    dequeue_waited :
        (s : System A) (entry : Entry) (other_thread_done : Bool)
        → CanEnter entry s.not_empty
        → dequeue_multithreaded s.queue other_thread_done ≡ waits
        → Step s (record s { not_empty = sleep (enter entry s.not_empty) })
    producer_woken : (s : System A) → Step s (record s { not_full = wake s.not_full })
    consumer_woken : (s : System A) → Step s (record s { not_empty = wake s.not_empty })

  pub data Reach (capacity : ℕ) : System A → Type 0 where
    created : (q : Queue A) → create memory capacity ≡ some q → Reach capacity (fresh_system q)
    stepped : {s t : System A} → Reach capacity s → Step s t → Reach capacity t

  -- What was accepted has been handed out or is in the queue, in order, and the array never grows.
  pub record Consistent (capacity : ℕ) (s : System A) : Type 0 where
    pub contents : List A
    pub represented : Represents s.queue contents
    pub in_order : s.sent ≡ s.received ++ contents
    pub same_capacity : s.queue.capacity ≡ capacity
