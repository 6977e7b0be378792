-- ===== src/Queue/Wakeups.antt =====
-- Wake-ups of the threads that wait at a queue.
use fast_sync.Prelude.{
  ℕ, zero, suc, ◌+◌, ◌-◌, ◌≤◌, ◌<◌, ◌≡◌, ◌⊎◌, inl, inr, refl, ap, ◌∙◌, Bool, true, false, Option,
  none, some, arith,
}
use fast_sync.Queue.{is_set, Memory, Queue, is_empty, is_full, put, enqueue, dequeue}
use fast_sync.Queue.Sections.{
  enqueue_returns, cancel_returns, dequeue_returns, enqueue_waits, cancel_waits, dequeue_waits,
}
use fast_sync.Queue.Threads.{
  Waiters, wake, signal_if, Entry, arrives, resumes, CanEnter, enter, System, producer_enters,
  consumer_enters, one_if, accept, hand_out, Step, enqueued, enqueue_waited, enqueued_cancel,
  enqueue_cancel_waited, dequeued, dequeue_waited, producer_woken, consumer_woken, Reach, created,
  stepped,
}

-- Nobody waits without a wake-up, or the woken threads and `extra` are enough for what there is to do.
abbrev pub Covered : Waiters → ℕ → ℕ → Type 0
Covered w need extra = (w.waiting ≡ 0) ⊎ (need ≤ extra + w.woken)

-- Where a consumer waits, a thread is woken for each item. Where a producer waits, one is woken for each
-- free slot, those left out whose wake-up went to an enqueue that was cancelled.
pub record NoLostWakeup {A : Type 0} (s : System A) : Type 0 where
  pub consumers : Covered s.not_empty s.queue.size 0
  pub producers : Covered s.not_full s.queue.capacity (s.queue.size + s.cancelled)

Covered-le :
    (w : Waiters) (need extra need' extra' : ℕ)
    → need' + extra ≤ need + extra'
    → Covered w need extra
    → Covered w need' extra'
Covered-le w need extra need' extra' h (inl e) = inl e
Covered-le w need extra need' extra' h (inr e) = inr (omega arith)

wake-Covered :
    (w : Waiters) (need extra : ℕ) → Covered w need extra → Covered (wake w) (need + 1) extra
unfolding wake
wake-Covered w need extra h = go w.waiting w.woken h
  where
    go :
        (waiting woken : ℕ)
        → Covered (record { waiting = waiting; woken = woken }) need extra
        → Covered (wake (record { waiting = waiting; woken = woken })) (need + 1) extra
    go zero woken h = inl refl
    go (suc waiting) woken (inl e) = absurd (omega arith)
    go (suc waiting) woken (inr e) = inr (omega arith)

enter-Covered :
    (entry : Entry) (w : Waiters) (need extra : ℕ)
    → CanEnter entry w
    → Covered w need extra
    → Covered (enter entry w) need (extra + 1)
enter-Covered arrives w need extra able h = Covered-le w need extra need (extra + 1) (omega arith) h
enter-Covered resumes w need extra able (inl e) = inl e
enter-Covered resumes w need extra able (inr e) = inr (omega arith)

module _ {A : Type 0} (m : Memory A) where
  enqueue-room : (q : Queue A) (x : A) → is_full q ≡ false → enqueue m q (some x) ≡ (true, put q x)
  unfolding enqueue
  enqueue-room q x room = rw room refl

  full_lem : (q : Queue A) → is_full q ≡ true → q.size ≡ q.capacity
  unfolding is_full
  full_lem q h = ground arith

  empty_lem : (q : Queue A) → is_empty q ≡ true → q.size ≡ 0
  unfolding is_empty
  empty_lem q h = ground arith

  some_item_lem : (q : Queue A) → is_empty q ≡ false → 0 < q.size
  unfolding is_empty
  some_item_lem q h = ground arith

  -- An item comes in: a consumer is woken, and the producer may have been a woken one.
  accepted-NoLostWakeup :
      (s : System A) (entry : Entry) (x : A) (cancelled : ℕ)
      → s.cancelled ≤ cancelled
      → CanEnter entry s.not_full
      → NoLostWakeup s
      → NoLostWakeup (
          accept m
            (record (producer_enters entry s) { cancelled = cancelled })
            x
            true
            true
            (put s.queue x))
  unfolding accept signal_if put
  accepted-NoLostWakeup s entry x cancelled more able n = record {
    consumers = wake-Covered s.not_empty s.queue.size 0 n.consumers;
    producers =
        Covered-le (enter entry s.not_full) s.queue.capacity (s.queue.size + s.cancelled + 1)
          s.queue.capacity (s.queue.size + 1 + cancelled) (omega arith)
          (enter-Covered entry s.not_full s.queue.capacity (s.queue.size + s.cancelled) able
            n.producers);
  }

  enqueued-NoLostWakeup :
      (s : System A) (entry : Entry) (x : A) (cancelled : ℕ) (ok signals : Bool) (q : Queue A)
      → is_full s.queue ≡ false
      → ok ≡ (enqueue m s.queue (some x)).0
      → signals ≡ true
      → q ≡ (enqueue m s.queue (some x)).1
      → s.cancelled ≤ cancelled
      → CanEnter entry s.not_full
      → NoLostWakeup s
      → NoLostWakeup
          (accept m (record (producer_enters entry s) { cancelled = cancelled }) x ok signals q)
  enqueued-NoLostWakeup s entry x cancelled ok signals q room same sent at more able n =
      let done = enqueue-room s.queue x room in
      let ok_is : ok ≡ true = same ∙ ap (λ o. o.0) done in
      let queue_is : q ≡ put s.queue x = at ∙ ap (λ o. o.1) done in
      rw (ok_is, sent, queue_is) (accepted-NoLostWakeup s entry x cancelled more able n)

  cancelled-NoLostWakeup :
      (s : System A) (entry : Entry) (x : A) (cancelled : ℕ)
      → s.cancelled + 1 ≤ cancelled
      → CanEnter entry s.not_full
      → NoLostWakeup s
      → NoLostWakeup (
          accept m
            (record (producer_enters entry s) { cancelled = cancelled })
            x
            false
            false
            s.queue)
  unfolding accept signal_if
  cancelled-NoLostWakeup s entry x cancelled more able n = record {
    consumers = n.consumers;
    producers =
        Covered-le (enter entry s.not_full) s.queue.capacity (s.queue.size + s.cancelled + 1)
          s.queue.capacity (s.queue.size + cancelled) (omega arith)
          (enter-Covered entry s.not_full s.queue.capacity (s.queue.size + s.cancelled) able
            n.producers);
  }

  dequeued-NoLostWakeup :
      (s : System A) (entry : Entry) (item : Option A)
      → is_empty s.queue ≡ false
      → CanEnter entry s.not_empty
      → NoLostWakeup s
      → NoLostWakeup (hand_out m (consumer_enters entry s) item true (dequeue s.queue).1)
  unfolding hand_out signal_if dequeue
  dequeued-NoLostWakeup s entry item some_item able n = go item
    where
      consumers : Covered (enter entry s.not_empty) (s.queue.size - 1) 0
      consumers =
          Covered-le (enter entry s.not_empty) s.queue.size 1 (s.queue.size - 1) 0
            (omega (arith, some_item_lem s.queue some_item))
            (enter-Covered entry s.not_empty s.queue.size 0 able n.consumers)

      producers : Covered (wake s.not_full) s.queue.capacity (s.queue.size - 1 + s.cancelled)
      producers =
          Covered-le (wake s.not_full) (s.queue.capacity + 1) (s.queue.size + s.cancelled)
            s.queue.capacity (s.queue.size - 1 + s.cancelled)
            (omega (arith, some_item_lem s.queue some_item))
            (wake-Covered s.not_full s.queue.capacity (s.queue.size + s.cancelled) n.producers)

      go :
          (o : Option A)
          → NoLostWakeup (hand_out m (consumer_enters entry s) o true (dequeue s.queue).1)
      go none = rw some_item (record { consumers = consumers; producers = producers })
      go (some x) = rw some_item (record { consumers = consumers; producers = producers })

  finished-NoLostWakeup :
      (s : System A) (entry : Entry)
      → is_empty s.queue ≡ true
      → NoLostWakeup s
      → NoLostWakeup (hand_out m (consumer_enters entry s) none false s.queue)
  unfolding hand_out signal_if
  finished-NoLostWakeup s entry empty n = record {
    consumers = inr (omega (arith, empty_lem s.queue empty));
    producers = n.producers;
  }

  Step-NoLostWakeup : (s t : System A) → NoLostWakeup s → Step m s t → NoLostWakeup t
  Step-NoLostWakeup s t n (enqueued _ entry x ok signals q able h) =
      let (room, same, sent, at) = enqueue_returns m s.queue x ok signals q h in
      enqueued-NoLostWakeup s entry x s.cancelled ok signals q room same sent at (omega arith) able
        n
  Step-NoLostWakeup s t n (enqueue_waited _ entry x able h) = record {
    consumers = n.consumers;
    producers = inr (omega (arith, full_lem s.queue (enqueue_waits m s.queue x h)));
  }
  Step-NoLostWakeup s t n (enqueued_cancel _ entry x cancelled ok signals q able h) =
      elim (cancel_returns m s.queue x cancelled ok signals q h) [
        | inl (stop, same, quiet, at) ↦
            rw (stop, same, quiet, at)
              (cancelled-NoLostWakeup s entry x (s.cancelled + 1) (omega arith) able n)
        | inr (go_on, room, same, sent, at) ↦
            enqueued-NoLostWakeup s entry x (s.cancelled + one_if (is_set cancelled)) ok signals q
              room same sent at (omega arith) able n
      ]
  Step-NoLostWakeup s t n (enqueue_cancel_waited _ entry x cancelled able h) = record {
    consumers = n.consumers;
    producers = inr (omega (arith, full_lem s.queue (cancel_waits m s.queue x cancelled h)));
  }
  Step-NoLostWakeup s t n (dequeued _ entry finished item signals q able h) =
      elim (dequeue_returns m s.queue finished item signals q h) [
        | inl (empty, same, quiet, at) ↦
            rw (same, quiet, at) (finished-NoLostWakeup s entry empty n)
        | inr (some_item, same, sent, at) ↦
            rw (sent, at) (dequeued-NoLostWakeup s entry item some_item able n)
      ]
  Step-NoLostWakeup s t n (dequeue_waited _ entry finished able h) = record {
    consumers = inr (omega (arith, empty_lem s.queue (dequeue_waits m s.queue finished h)));
    producers = n.producers;
  }
  Step-NoLostWakeup s t n (producer_woken _) = record {
    consumers = n.consumers;
    producers =
        Covered-le (wake s.not_full) (s.queue.capacity + 1) (s.queue.size + s.cancelled)
          s.queue.capacity (s.queue.size + s.cancelled) (omega arith)
          (wake-Covered s.not_full s.queue.capacity (s.queue.size + s.cancelled) n.producers);
  }
  Step-NoLostWakeup s t n (consumer_woken _) = record {
    consumers =
        Covered-le (wake s.not_empty) (s.queue.size + 1) 0 s.queue.size 0 (omega arith)
          (wake-Covered s.not_empty s.queue.size 0 n.consumers);
    producers = n.producers;
  }

  -- In every state that threads reach by the three calls, from a queue that nobody waits for: when a
  -- consumer waits for a signal, at least as many consumers have been woken and are about to run as
  -- there are items; and when a producer waits for a signal, at least as many producers have been woken
  -- as there are free slots, less the number of enqueues that returned because they were cancelled.
  pub Reach-NoLostWakeup : (capacity : ℕ) (s : System A) → Reach m capacity s → NoLostWakeup s
  Reach-NoLostWakeup capacity s (created q h) = record {
    consumers = inl refl;
    producers = inl refl;
  }
  Reach-NoLostWakeup capacity s (stepped {s = before} r step) =
      Step-NoLostWakeup before s (Reach-NoLostWakeup capacity before r) step
