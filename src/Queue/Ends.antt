-- ===== src/Queue/Ends.antt =====
-- The operations at the two ends of the ring, against a list.
use native.Mathlib.Nat.{mod-eq_of_lt, mod-add-mod, mod-lt}
use mathlib.Core.List.{map, head?, tail, map-append}
use fast_sync.Prelude.{
  ℕ, suc, ◌+◌, ◌-◌, ◌%◌, ◌^◌, ◌≤◌, ◌<◌, ◌≡◌, ◌⊎◌, inl, inr, refl, sym, ap, ap₂, ◌∙◌, List, [], ◌∷◌,
  ◌++◌, true, false, Option, none, some, arith, length, get_or, set, ◌==◌, ltb, Bool-cases,
  length-append, length-set, get_or-middle, take, drop, take-append,
}
use fast_sync.Queue.{int_max, Memory, Queue, is_empty, is_full, enqueue, dequeue, pop}
use fast_sync.Queue.Contents.{
  items_from, length-items_from, items_from-snoc, slot-ne, items_from-set, items_from-shift, wraps,
}
use fast_sync.Queue.Grow.{Refused, double_capacity-Represents}
use fast_sync.Queue.Refine.{Represents, length-map-some, size-eq-length, put-Represents}

module _ {A : Type 0} where
  -- `queue_enqueue` of an item on a ring that holds `xs`: it gives true and the ring holds `xs` and
  -- then the item; or it gives false, nothing changes, the ring was full, and a larger array was
  -- refused by the bound on the capacity or by `malloc`.
  pub enqueue-Represents :
      (m : Memory A) (q : Queue A) (xs : List A) (x : A)
      → Represents q xs
      → (((enqueue m q (some x)).0 ≡ true) × Represents (enqueue m q (some x)).1 (xs ++ (x ∷ [])))
        ⊎ ((enqueue m q (some x) ≡ (false, q)) × (length xs ≡ q.capacity) × Refused m q)
  unfolding enqueue is_full
  enqueue-Represents m q xs x r = elim (Bool-cases (q.size == q.capacity)) [
    | inr e ↦ rw e (inl (refl, put-Represents q xs x r (ground (arith, r.size_in))))
    | inl e ↦ elim (double_capacity-Represents m q xs r) [
      | inl (nothing, why) ↦
          rw (e, nothing) (inr (refl, sym (size-eq-length q xs r) ∙ ground arith, why))
      | inr (grown, got, same, size, capacity) ↦
          rw (e, got)
            (inl (
              refl,
              put-Represents grown xs x same
                  (ground (arith, r.size_in, r.positive, size, capacity)),
            ))
    ]
  ]

  dequeue-holds :
      (q : Queue A) (x : A) (rest : List A) (n : ℕ)
      → Represents q (x ∷ rest)
      → q.size ≡ suc n
      → (get_or q.items q.front none ≡ some x)
        × (items_from (set q.items q.front none) q.capacity ((q.front + 1) % q.capacity) 0 n
            ≡ map some rest)
  dequeue-holds q x rest n r size =
      let whole = ap (items_from q.items q.capacity q.front 0) (sym size) ∙ r.holds in
      let first : (q.front + 0) % q.capacity ≡ q.front =
        ap (λ t. t % q.capacity) {x = q.front + 0} {y = q.front} (omega arith)
        ∙ mod-eq_of_lt r.front_in in
      (
        ap (λ t. get_or q.items t none) (sym first) ∙ ap (λ l. get_or l 0 none) whole,
        items_from-shift (set q.items q.front none) q.capacity q.front 0 n
            ∙ items_from-set q.items q.capacity q.front q.front none (0 + 1) n (λ j a b p.
              slot-ne q.front 0 j q.capacity r.front_in (omega arith) (omega (arith, r.size_in))
                (first ∙ p))
            ∙ ap (drop 1) whole,
      )

  -- `queue_dequeue` of a ring that holds `xs` gives the head of `xs`, null when there is none, and
  -- leaves a ring that holds the tail.
  pub dequeue-Represents :
      (q : Queue A) (xs : List A)
      → Represents q xs
      → ((dequeue q).0 ≡ head? xs) × Represents (dequeue q).1 (tail xs)
  unfolding dequeue is_empty
  dequeue-Represents q [] r =
      let empty : (q.size == 0) ≡ true = ground (arith, size-eq-length q [] r) in rw empty (refl, r)
  dequeue-Represents q (x ∷ rest) r =
      let size = size-eq-length q (x ∷ rest) r in
      let some_item : (q.size == 0) ≡ false = ground (arith, size) in
      let (item, left) = dequeue-holds q x rest (length rest) r size in
      rw some_item (
        item,
        record {
          slots = length-set q.items q.front none ∙ r.slots;
          positive = r.positive;
          small = r.small;
          front_in = mod-lt (q.front + 1) r.positive;
          size_in = omega (arith, r.size_in);
          rear_at =
              r.rear_at
              ∙ ap (λ t. t % q.capacity) {x = q.front + q.size} {y = q.front + 1 + (q.size - 1)}
                  (omega (arith, size))
              ∙ sym (mod-add-mod (q.front + 1) q.capacity (q.size - 1));
          holds =
              ap (items_from (set q.items q.front none) q.capacity ((q.front + 1) % q.capacity) 0)
                {x = q.size - 1} {y = length rest} (omega (arith, size))
              ∙ left;
        },
      )

  snoc-cancel :
      (us vs : List (Option A)) (a b : Option A)
      → length us ≡ length vs
      → us ++ (a ∷ []) ≡ vs ++ (b ∷ [])
      → (us ≡ vs) × (a ≡ b)
  snoc-cancel us vs a b l e = (
    sym (take-append us (a ∷ [])) ∙ ap₂ take l e ∙ take-append vs (b ∷ []),
    sym (get_or-middle us a [] none)
        ∙ ap₂ (λ n xs. get_or xs n none) l e
        ∙ get_or-middle vs b [] none,
  )

  pop-holds :
      (q : Queue A) (xs : List A) (x : A) (last : ℕ)
      → Represents q (xs ++ (x ∷ []))
      → q.size ≡ suc (length xs)
      → last ≡ (q.front + length xs) % q.capacity
      → (get_or q.items last none ≡ some x)
        × (items_from (set q.items last none) q.capacity q.front 0 (length xs) ≡ map some xs)
  pop-holds q xs x last r size at =
      let n = length xs in
      let (front, end) =
        snoc-cancel (items_from q.items q.capacity q.front 0 n) (map some xs)
          (get_or q.items ((q.front + (0 + n)) % q.capacity) none) (some x)
          (length-items_from q.items q.capacity q.front 0 n ∙ sym (length-map-some xs))
          (sym (items_from-snoc q.items q.capacity q.front 0 n)
            ∙ ap (items_from q.items q.capacity q.front 0) (sym size)
            ∙ r.holds
            ∙ map-append some xs (x ∷ [])) in
      (
        ap (λ t. get_or q.items t none)
              (at ∙ ap (λ t. (q.front + t) % q.capacity) {x = n} {y = 0 + n} (omega arith))
            ∙ end,
        items_from-set q.items q.capacity q.front last none 0 n (λ j a b p.
              slot-ne q.front j n q.capacity r.front_in (omega arith) (omega (arith, r.size_in))
                (sym p ∙ at))
            ∙ front,
      )

  -- `queue_pop` of a ring of at most 2 ^ 30 slots that holds `xs` and then `x` is defined, no `int`
  -- overflows; it gives `x` and leaves a ring that holds `xs`.
  pub pop-Represents :
      (q : Queue A) (xs : List A) (x : A)
      → q.capacity ≤ 2 ^ 30
      → Represents q (xs ++ (x ∷ []))
      → (popped : Queue A) × (pop q ≡ some (some x, popped)) × Represents popped xs
  unfolding pop is_empty
  pop-Represents q xs x bound r =
      let at_rear : q.rear < q.capacity =
        omega (arith, r.rear_at, mod-lt (q.front + q.size) r.positive) in
      let in_range : ltb int_max (q.rear + q.capacity - 1) ≡ false =
        ground (arith, at_rear, bound) in
      let size : q.size ≡ suc (length xs) =
        omega (arith, size-eq-length q (xs ++ (x ∷ [])) r, length-append xs (x ∷ [])) in
      let some_item : (q.size == 0) ≡ false = ground (arith, size) in
      let at : (q.rear + q.capacity - 1) % q.capacity ≡ (q.front + length xs) % q.capacity =
        ground (
          arith,
          size,
          r.front_in,
          r.size_in,
          r.rear_at,
          wraps (q.front + q.size) q.capacity (omega (arith, r.front_in, r.size_in)),
          wraps (q.front + length xs) q.capacity (omega (arith, r.front_in, r.size_in)),
          wraps (q.rear + q.capacity - 1) q.capacity
              (omega (arith, r.rear_at, mod-lt (q.front + q.size) r.positive)),
        ) in
      let (item, left) = pop-holds q xs x ((q.rear + q.capacity - 1) % q.capacity) r size at in
      (
        record q {
          items = set q.items ((q.rear + q.capacity - 1) % q.capacity) none;
          rear = (q.rear + q.capacity - 1) % q.capacity;
          size = q.size - 1;
        },
        rw (some_item, in_range, item) refl,
        record {
          slots = length-set q.items ((q.rear + q.capacity - 1) % q.capacity) none ∙ r.slots;
          positive = r.positive;
          small = r.small;
          front_in = r.front_in;
          size_in = omega (arith, r.size_in);
          rear_at =
              at
              ∙ ap (λ t. (q.front + t) % q.capacity) {x = length xs} {y = q.size - 1}
                  (omega (arith, size));
          holds =
              ap
                (items_from (set q.items ((q.rear + q.capacity - 1) % q.capacity) none) q.capacity
                  q.front 0)
                {x = q.size - 1} {y = length xs} (omega (arith, size))
              ∙ left;
        },
      )
