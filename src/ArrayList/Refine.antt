-- ===== src/ArrayList/Refine.antt =====
-- The growing array behaves as the list of its items.
use mathlib.Core.List.{map, map-append}
use fast_sync.Prelude.{
  ℕ, zero, suc, ◌+◌, ◌-◌, ◌*◌, ◌/◌, ◌≤◌, ◌<◌, ◌≡◌, ◌⊎◌, inl, inr, refl, sym, ap, ◌∙◌, List, [], ◌∷◌,
  ◌++◌, true, false, Option, none, some, arith, ltb, ◌==◌, if◌then◌else◌, set, take, length,
  length-append, length-set, Bool-cases,
}
use fast_sync.ArrayList.{
  int_max, initial_array_size, Allocator, ArrayList, fresh_slots, extend, append_item, add, alloc,
}

-- The array is well formed and holds the items `xs` in its first slots.
pub record Represents {A : Type 0} (l : ArrayList A) (xs : List A) : Type 0 where
  pub slots : length l.items ≡ l.capacity
  pub small : l.capacity ≤ int_max
  pub size_in : l.size ≤ l.capacity
  pub count : l.size ≡ length xs
  pub holds : take l.size l.items ≡ map some xs

module _ {A : Type 0} where
  length-fresh_slots : (m : Allocator A) (i n : ℕ) → length (fresh_slots m i n) ≡ n
  unfolding fresh_slots
  length-fresh_slots m i zero = refl
  length-fresh_slots m i (suc n) = ap suc (length-fresh_slots m (i + 1) n)

  take-set :
      (slots : List (Option A)) (n : ℕ) (v : Option A)
      → n < length slots
      → take (suc n) (set slots n v) ≡ take n slots ++ (v ∷ [])
  take-set [] n v h = absurd (omega arith)
  take-set (x ∷ slots) zero v h = refl
  take-set (x ∷ slots) (suc n) v h = ap (λ t. x ∷ t) (take-set slots n v (omega arith))

  take-append_left :
      (xs ys : List (Option A)) (n : ℕ) → n ≤ length xs → take n (xs ++ ys) ≡ take n xs
  take-append_left xs ys zero h = refl
  take-append_left [] ys (suc n) h = absurd (omega arith)
  take-append_left (x ∷ xs) ys (suc n) h = ap (λ t. x ∷ t) (take-append_left xs ys n (omega arith))

  append_item-Represents :
      (l : ArrayList A) (xs : List A) (x : A)
      → Represents l xs
      → l.size < l.capacity
      → Represents (append_item l x) (xs ++ (x ∷ []))
  unfolding append_item
  append_item-Represents l xs x r room = record {
    slots = length-set l.items l.size (some x) ∙ r.slots;
    small = r.small;
    size_in = omega arith;
    count = omega (arith, r.count, length-append xs (x ∷ []));
    holds =
        ap (λ n. take n (set l.items l.size (some x))) {x = l.size + 1} {y = suc l.size}
          (omega arith)
        ∙ take-set l.items l.size (some x) (omega (arith, r.slots))
        ∙ ap (λ t. t ++ (some x ∷ [])) r.holds
        ∙ sym (map-append some xs (x ∷ []));
  }

  grown-Represents :
      (m : Allocator A) (l : ArrayList A) (xs : List A) (n : ℕ)
      → Represents l xs
      → l.capacity ≤ n
      → n ≤ int_max
      → Represents
          (record l { items = l.items ++ fresh_slots m l.capacity (n - l.capacity); capacity = n })
          xs
  grown-Represents m l xs n r room small = record {
    slots = omega (
      arith,
      r.slots,
      length-append l.items (fresh_slots m l.capacity (n - l.capacity)),
      length-fresh_slots m l.capacity (n - l.capacity),
    );
    small = small;
    size_in = omega (arith, r.size_in);
    count = r.count;
    holds =
        take-append_left l.items (fresh_slots m l.capacity (n - l.capacity)) l.size
          (omega (arith, r.slots, r.size_in))
        ∙ r.holds;
  }

  extend-Represents :
      (m : Allocator A) (l : ArrayList A) (xs : List A)
      → Represents l xs
      → (extend m l ≡ none)
        ⊎ ((grown : ArrayList A) × (extend m l ≡ some grown)
            × Represents grown xs
            × (grown.size ≡ l.size)
            × (l.capacity < grown.capacity))
  unfolding extend
  extend-Represents m l xs r =
      let n = if l.capacity * 2 == 0 then initial_array_size else l.capacity * 2 in
      elim (Bool-cases (ltb (int_max / 2) l.capacity)) [
        | inl e ↦ inl (rw e refl)
        | inr e ↦ elim (Bool-cases (alloc m (n * 8))) [
          | inr f ↦ inl (rw (e, f) refl)
          | inl f ↦ inr (
            record l { items = l.items ++ fresh_slots m l.capacity (n - l.capacity); capacity = n },
            rw (e, f) refl,
            grown-Represents m l xs n r (larger l.capacity).0 (bounded l.capacity e),
            refl,
            (larger l.capacity).1,
          )
        ]
      ]
    where
      larger :
          (c : ℕ)
          → (c ≤ (if c * 2 == 0 then initial_array_size else c * 2))
            × (c < (if c * 2 == 0 then initial_array_size else c * 2))
      larger c = (ground arith, ground arith)

      bounded :
          (c : ℕ)
          → ltb (int_max / 2) c ≡ false
          → (if c * 2 == 0 then initial_array_size else c * 2) ≤ int_max
      bounded c e = ground arith

  -- `array_list_add` on an array that holds `xs`: it gives true and the array holds `xs` and then
  -- the item; or it gives false, nothing changes, the array was full and could not be extended.
  pub add-Represents :
      (m : Allocator A) (l : ArrayList A) (xs : List A) (x : A)
      → Represents l xs
      → (((add m l x).0 ≡ true) × Represents (add m l x).1 (xs ++ (x ∷ [])))
        ⊎ ((add m l x ≡ (false, l)) × (length xs ≡ l.capacity) × (extend m l ≡ none))
  unfolding add
  add-Represents m l xs x r = elim (Bool-cases (l.capacity == l.size)) [
    | inr e ↦ rw e (inl (refl, append_item-Represents l xs x r (ground (arith, r.size_in))))
    | inl e ↦ elim (extend-Represents m l xs r) [
      | inl nothing ↦ rw (e, nothing) (inr (refl, ground (arith, r.count), refl))
      | inr (grown, got, same, size, larger) ↦
          rw (e, got)
            (inl (
              refl,
              append_item-Represents grown xs x same (ground (arith, r.size_in, size, larger)),
            ))
    ]
  ]
