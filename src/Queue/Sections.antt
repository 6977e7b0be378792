-- ===== src/Queue/Sections.antt =====
-- The outcomes of the critical sections of src/shared/queue.c, branch by branch.
use fast_sync.Prelude.{
  ◌≡◌, ◌≢◌, ◌⊎◌, inl, inr, refl, Bool, true, false, not, ◌&&◌, Option, none, some, if◌then◌else◌,
}
use fast_sync.Queue.{
  Memory, Queue, Outcome, waits, returns, is_set, is_empty, is_full, enqueue, dequeue,
  enqueue_multithreaded, enqueue_multithreaded_cancel, dequeue_multithreaded,
}

-- The tests of the three critical sections, on Booleans.
module _ {A R : Type 0} (r : R) (q : Queue A) (other : R) (same : Queue A) where
  one_test :
      (full : Bool) (s : R) (signals : Bool) (t : Queue A)
      → (if full then waits else returns r true q) ≡ returns s signals t
      → (full ≡ false) × (s ≡ r) × (signals ≡ true) × (t ≡ q)
  one_test true s signals t h = cc
  one_test false s signals t h = (refl, cc, cc, cc)

  two_tests :
      (full stop : Bool) (s : R) (signals : Bool) (t : Queue A)
      → (if full && not stop
          then waits
          else if stop
          then returns other false same
          else returns r true q)
        ≡ returns s signals t
      → ((stop ≡ true) × (s ≡ other) × (signals ≡ false) × (t ≡ same))
        ⊎ ((stop ≡ false) × (full ≡ false) × (s ≡ r) × (signals ≡ true) × (t ≡ q))
  two_tests true true s signals t h = inl (refl, cc, cc, cc)
  two_tests true false s signals t h = cc
  two_tests false true s signals t h = inl (refl, cc, cc, cc)
  two_tests false false s signals t h = inr (refl, refl, cc, cc, cc)

  done_tests :
      (empty done : Bool) (s : R) (signals : Bool) (t : Queue A)
      → (if empty && not done
          then waits
          else if empty && done
          then returns other false same
          else returns r true q)
        ≡ returns s signals t
      → ((empty ≡ true) × (s ≡ other) × (signals ≡ false) × (t ≡ same))
        ⊎ ((empty ≡ false) × (s ≡ r) × (signals ≡ true) × (t ≡ q))
  done_tests true true s signals t h = inl (refl, cc, cc, cc)
  done_tests true false s signals t h = cc
  done_tests false done s signals t h = inr (refl, cc, cc, cc)

wait_test :
    {A R : Type 0} (b c : Bool) (o : Outcome A R)
    → o ≢ waits
    → (if b && c then waits else o) ≡ waits
    → b ≡ true
wait_test true c o h e = refl
wait_test false c o h e = absurd (h e)

module _ {A : Type 0} (m : Memory A) (q : Queue A) where
  pub enqueue_returns :
      (x : A) (ok signals : Bool) (t : Queue A)
      → enqueue_multithreaded m q (some x) ≡ returns ok signals t
      → (is_full q ≡ false)
        × (ok ≡ (enqueue m q (some x)).0)
        × (signals ≡ true)
        × (t ≡ (enqueue m q (some x)).1)
  unfolding enqueue_multithreaded
  enqueue_returns x ok signals t h =
      let e = enqueue m q (some x) in one_test e.0 e.1 false q (is_full q) ok signals t h

  pub cancel_returns :
      (x : A) (cancelled : Option Bool) (ok signals : Bool) (t : Queue A)
      → enqueue_multithreaded_cancel m q (some x) cancelled ≡ returns ok signals t
      → ((is_set cancelled ≡ true) × (ok ≡ false) × (signals ≡ false) × (t ≡ q))
        ⊎ ((is_set cancelled ≡ false)
            × (is_full q ≡ false)
            × (ok ≡ (enqueue m q (some x)).0)
            × (signals ≡ true)
            × (t ≡ (enqueue m q (some x)).1))
  unfolding enqueue_multithreaded_cancel
  cancel_returns x cancelled ok signals t h =
      let e = enqueue m q (some x) in
      two_tests e.0 e.1 false q (is_full q) (is_set cancelled) ok signals t h

  pub dequeue_returns :
      (other_thread_done : Bool) (item : Option A) (signals : Bool) (t : Queue A)
      → dequeue_multithreaded q other_thread_done ≡ returns item signals t
      → ((is_empty q ≡ true) × (item ≡ none) × (signals ≡ false) × (t ≡ q))
        ⊎ ((is_empty q ≡ false) × (item ≡ (dequeue q).0) × (signals ≡ true) × (t ≡ (dequeue q).1))
  unfolding dequeue_multithreaded
  dequeue_returns finished item signals t h =
      done_tests (dequeue q).0 (dequeue q).1 none q (is_empty q) finished item signals t h

  pub enqueue_waits : (x : A) → enqueue_multithreaded m q (some x) ≡ waits → is_full q ≡ true
  unfolding enqueue_multithreaded
  enqueue_waits x h = go (is_full q) h
    where
      go :
          (b : Bool)
          → (if b then waits else returns (enqueue m q (some x)).0 true (enqueue m q (some x)).1)
            ≡ waits
          → b ≡ true
      go true g = refl
      go false g = cc

  pub cancel_waits :
      (x : A) (cancelled : Option Bool)
      → enqueue_multithreaded_cancel m q (some x) cancelled ≡ waits
      → is_full q ≡ true
  unfolding enqueue_multithreaded_cancel
  cancel_waits x cancelled h =
      wait_test (is_full q) (not (is_set cancelled)) _ (go (is_set cancelled)) h
    where
      go :
          (b : Bool)
          → (if b
              then returns false false q
              else returns (enqueue m q (some x)).0 true (enqueue m q (some x)).1)
            ≢ waits
      go true e = cc
      go false e = cc

  pub dequeue_waits :
      (other_thread_done : Bool)
      → dequeue_multithreaded q other_thread_done ≡ waits
      → is_empty q ≡ true
  unfolding dequeue_multithreaded
  dequeue_waits finished h = wait_test (is_empty q) (not finished) _ (go (is_empty q && finished)) h
    where
      go :
          (b : Bool)
          → (if b then returns none false q else returns (dequeue q).0 true (dequeue q).1) ≢ waits
      go true e = cc
      go false e = cc
