-- ===== src/Queue/Grow.antt =====
-- Doubling the ring and adding an item at its end.
use native.Mathlib.Nat.{mod-eq_of_lt}
use mathlib.Core.List.{map}
use fast_sync.Prelude.{
  ℕ, zero, suc, ◌+◌, ◌-◌, ◌*◌, ◌/◌, ◌%◌, ◌≤◌, ◌<◌, ◌≡◌, ◌⊎◌, inl, inr, refl, sym, ap, ap₂, ◌∙◌,
  List, [], ◌∷◌, ◌++◌, false, Option, none, some, arith, length, get_or, leb, ltb, Bool-cases,
  length-append, get_or-middle, append_assoc,
}
use fast_sync.Queue.{int_max, Memory, Queue, copy_items, stale_slots, double_capacity, move_items}
use fast_sync.Queue.Contents.{items_from, length-items_from}
use fast_sync.Queue.Refine.{Represents}

module _ {A : Type 0} where
  -- `double_capacity` copies the items in order.
  copy_items-eq :
      (q : Queue A) (i n : ℕ) → copy_items q i n ≡ items_from q.items q.capacity q.front i n
  unfolding copy_items
  copy_items-eq q i zero = refl
  copy_items-eq q i (suc n) =
      ap₂ ◌∷◌ (ap (λ t. get_or q.items (t % q.capacity) none) {x = i + q.front} (omega arith))
        (copy_items-eq q (i + 1) n)

  length-stale_slots : (m : Memory A) (i n : ℕ) → length (stale_slots m i n) ≡ n
  unfolding stale_slots
  length-stale_slots m i zero = refl
  length-stale_slots m i (suc n) = ap suc (length-stale_slots m (i + 1) n)

  -- Read from slot `k` on, the items of a buffer that starts with `xs` are the rest of `xs`.
  items_from-prefix :
      (whole : List (Option A)) (capacity k : ℕ) (pre xs ys : List (Option A))
      → whole ≡ pre ++ (xs ++ ys)
      → length pre ≡ k
      → k + length xs ≤ capacity
      → items_from whole capacity 0 k (length xs) ≡ xs
  items_from-prefix whole capacity k pre [] ys e l h = refl
  items_from-prefix whole capacity k pre (x ∷ xs) ys e l h =
      let slot : (0 + k) % capacity ≡ k =
        ap (λ t. t % capacity) {x = 0 + k} (omega arith) ∙ mod-eq_of_lt (omega arith) in
      ap₂ ◌∷◌
        (ap (λ t. get_or whole t none) (slot ∙ sym l)
          ∙ ap (λ t. get_or t (length pre) none) e
          ∙ get_or-middle pre x (xs ++ ys) none)
        (items_from-prefix whole capacity (k + 1) (pre ++ (x ∷ [])) xs ys
          (e ∙ sym (append_assoc pre (x ∷ []) (xs ++ ys)))
          (omega (arith, length-append pre (x ∷ []))) (omega arith))

  -- A larger array holds the same items, and has room.
  move_items-Represents :
      (m : Memory A) (q : Queue A) (xs : List A) (n : ℕ)
      → Represents q xs
      → q.size < n
      → n ≤ int_max
      → Represents (move_items m q n) xs
  unfolding move_items
  move_items-Represents m q xs n r room small =
      let copied : copy_items q 0 q.size ≡ map some xs = copy_items-eq q 0 q.size ∙ r.holds in
      let count : length (copy_items q 0 q.size) ≡ q.size =
        ap length (copy_items-eq q 0 q.size)
        ∙ length-items_from q.items q.capacity q.front 0 q.size in
      let rest = stale_slots m q.size (n - q.size) in
      record {
        slots = omega (
          arith,
          count,
          length-append (copy_items q 0 q.size) rest,
          length-stale_slots m q.size (n - q.size),
        );
        positive = omega arith;
        small = small;
        front_in = omega arith;
        size_in = omega arith;
        rear_at = sym (
            ap (λ t. t % n) {x = 0 + q.size} {y = q.size} (omega arith)
            ∙ mod-eq_of_lt {n = q.size} {m = n} room);
        holds =
            ap (items_from (copy_items q 0 q.size ++ rest) n 0 0) (sym count)
            ∙ items_from-prefix (copy_items q 0 q.size ++ rest) n 0 [] (copy_items q 0 q.size) rest
                refl refl (omega (arith, count))
            ∙ copied;
      }

  -- A ring is refused a larger array only by its size or by `malloc`.
  unfoldable pub Refused : Memory A → Queue A → Type 0
  Refused m q = (int_max / 2 < q.capacity) ⊎ (m.alloc (q.capacity * 2 * 8) ≡ false)

  pub double_capacity-Represents :
      (m : Memory A) (q : Queue A) (xs : List A)
      → Represents q xs
      → ((double_capacity m q ≡ none) × Refused m q)
        ⊎ ((grown : Queue A) × (double_capacity m q ≡ some grown)
            × Represents grown xs
            × (grown.size ≡ q.size)
            × (grown.capacity ≡ q.capacity * 2))
  unfolding double_capacity Refused move_items
  double_capacity-Represents m q xs r =
      let twice : leb (q.capacity * 2) 1 ≡ false = ground (arith, r.positive) in
      elim (Bool-cases (ltb (int_max / 2) q.capacity)) [
        | inl e ↦ inl (rw e refl, inl (ground arith))
        | inr e ↦ elim (Bool-cases (m.alloc (q.capacity * 2 * 8))) [
          | inl granted ↦ inr (
            move_items m q (q.capacity * 2),
            rw (e, twice, granted) refl,
            move_items-Represents m q xs (q.capacity * 2) r (omega (arith, r.positive, r.size_in))
                (ground arith),
            refl,
            refl,
          )
          | inr refused ↦ inl (rw (e, twice, refused) refl, inr refused)
        ]
      ]
