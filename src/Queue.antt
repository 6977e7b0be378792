-- ===== src/Queue.antt =====
-- src/shared/queue.c: a ring buffer of pointers that grows, used as a queue between threads and as a
-- stack. Lengths and indices are non-negative `int`s; a slot holds `none` for the null pointer.
pub mod Contents
pub mod Refine
pub mod Grow
pub mod Ends
pub mod Sections
pub mod Threads
pub mod Fifo
pub mod Wakeups
mod Tests
use fast_sync.Prelude.{
  ℕ, zero, suc, ◌+◌, ◌-◌, ◌*◌, ◌/◌, ◌%◌, ◌^◌, List, [], ◌∷◌, ◌++◌, Bool, true, false, Option, none,
  some, get_or, set, replicate, ltb, leb, ◌==◌, if◌then◌else◌, guard, ◌>>◌, not, ◌&&◌,
}

abbrev pub int_max : ℕ
int_max = 2 ^ 31 - 1

-- `malloc`, which grants or refuses a request of so many bytes, and what fresh slots hold.
pub record Memory (A : Type 0) : Type 0 where
  pub alloc : ℕ → Bool
  pub stale : ℕ → Option A

pub record Queue (A : Type 0) : Type 0 where
  pub items : List (Option A)
  pub capacity : ℕ
  pub front : ℕ
  pub rear : ℕ
  pub size : ℕ

-- What a critical section does, from the moment it has the mutex: it goes into `cnd_wait`, which gives
-- the mutex up; or it returns, and the Boolean says whether it calls `cnd_signal` before it unlocks.
pub data Outcome (A R : Type 0) : Type 0 where
  waits : Outcome A R
  returns : R → Bool → Queue A → Outcome A R

-- `cancelled != NULL && atomic_load(cancelled)`
abbrev pub is_set : Option Bool → Bool
is_set none = false
is_set (some value) = value

module _ {A : Type 0} where
  -- 40 and 8 are the sizes of a `Queue` and of a pointer. A capacity that is not positive is 0 here.
  pub create : Memory A → ℕ → Option (Queue A)
  create memory capacity = if capacity == 0 then none else do
    guard (memory.alloc 40)
    guard (memory.alloc (capacity * 8))
    some (record {
      items = replicate capacity none;
      capacity = capacity;
      front = 0;
      rear = 0;
      size = 0;
    })

  pub is_empty : Queue A → Bool
  is_empty q = q.size == 0

  pub is_full : Queue A → Bool
  is_full q = q.size == q.capacity

  -- The copying loop from round `i` on.
  pub copy_items : Queue A → ℕ → ℕ → List (Option A)
  copy_items q i zero = []
  copy_items q i (suc left) =
      get_or q.items ((i + q.front) % q.capacity) none ∷ copy_items q (i + 1) left

  pub stale_slots : Memory A → ℕ → ℕ → List (Option A)
  stale_slots memory i zero = []
  stale_slots memory i (suc left) = memory.stale i ∷ stale_slots memory (i + 1) left

  -- The move to an array of `new_capacity` slots.
  pub move_items : Memory A → Queue A → ℕ → Queue A
  move_items memory q new_capacity = record {
    items = copy_items q 0 q.size ++ stale_slots memory q.size (new_capacity - q.size);
    capacity = new_capacity;
    front = 0;
    rear = q.size;
    size = q.size;
  }

  pub double_capacity : Memory A → Queue A → Option (Queue A)
  double_capacity memory q =
      if ltb (int_max / 2) q.capacity
      then none
      else (let new_capacity = if leb (q.capacity * 2) 1 then 100 else q.capacity * 2 in
          do guard (memory.alloc (new_capacity * 8)); some (move_items memory q new_capacity))

  -- The writes of `queue_enqueue` once there is room.
  pub put : Queue A → A → Queue A
  put q item = record q {
    items = set q.items q.rear (some item);
    rear = (q.rear + 1) % q.capacity;
    size = q.size + 1;
  }

  pub enqueue : Memory A → Queue A → Option A → Bool × Queue A
  enqueue memory q none = (false, q)
  enqueue memory q (some item) =
      if is_full q
      then elim (double_capacity memory q) [
        | none ↦ (false, q)
        | some grown ↦ (true, put grown item)
      ]
      else (true, put q item)

  pub dequeue : Queue A → Option A × Queue A
  dequeue q = if is_empty q then (none, q) else (
    get_or q.items q.front none,
    record q {
      items = set q.items q.front none;
      front = (q.front + 1) % q.capacity;
      size = q.size - 1;
    },
  )

  -- `queue_push`
  pub push : Memory A → Queue A → Option A → Bool × Queue A
  push = enqueue

  -- The sum `rear - 1 + capacity` is an `int`: past `int_max` the call is undefined, which is `none`.
  -- The sum is 0 at least, since the capacity is above 0.
  pub pop : Queue A → Option (Option A × Queue A)
  pop q =
      if is_empty q
      then some (none, q)
      else if ltb int_max (q.rear + q.capacity - 1)
      then none
      else (let last = (q.rear + q.capacity - 1) % q.capacity in
          some (
            get_or q.items last none,
            record q { items = set q.items last none; rear = last; size = q.size - 1 },
          ))

  -- `queue_enqueue_multithreaded` from the lock, or the return of `cnd_wait` with the mutex, to the
  -- next `cnd_wait` on `condition_not_full` or the unlock; the signal is of `condition_not_empty`.
  pub enqueue_multithreaded : Memory A → Queue A → Option A → Outcome A Bool
  enqueue_multithreaded memory q item =
      if is_full q then waits else returns (enqueue memory q item).0 true (enqueue memory q item).1

  -- `cancelled` is `none` for the null pointer.
  pub enqueue_multithreaded_cancel : Memory A → Queue A → Option A → Option Bool → Outcome A Bool
  enqueue_multithreaded_cancel memory q item cancelled =
      if is_full q && not (is_set cancelled)
      then waits
      else if is_set cancelled
      then returns false false q
      else returns (enqueue memory q item).0 true (enqueue memory q item).1

  -- It waits on `condition_not_empty` and signals `condition_not_full`.
  pub dequeue_multithreaded : Queue A → Bool → Outcome A (Option A)
  dequeue_multithreaded q other_thread_done =
      if is_empty q && not other_thread_done
      then waits
      else if is_empty q && other_thread_done
      then returns none false q
      else returns (dequeue q).0 true (dequeue q).1
