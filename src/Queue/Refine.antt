-- ===== src/Queue/Refine.antt =====
-- The ring behaves as the list of its items.
use native.Mathlib.Nat.{mod-add-mod, mod-lt}
use mathlib.Core.List.{map, map-append}
use fast_sync.Prelude.{
  ℕ, suc, ◌+◌, ◌%◌, ◌≤◌, ◌<◌, ◌≡◌, ◌≢◌, refl, sym, ap, ap₂, ◌∙◌, List, [], ◌∷◌, ◌++◌, none, some,
  arith, length, get_or, set, length-set, get_or-set_self,
}
use fast_sync.Queue.{int_max, Queue, put}
use fast_sync.Queue.Contents.{
  items_from, length-items_from, items_from-snoc, slot-ne, items_from-set,
}

-- The ring is well formed and holds the items `xs`, oldest first.
pub record Represents {A : Type 0} (q : Queue A) (xs : List A) : Type 0 where
  pub slots : length q.items ≡ q.capacity
  pub positive : 0 < q.capacity
  pub small : q.capacity ≤ int_max
  pub front_in : q.front < q.capacity
  pub size_in : q.size ≤ q.capacity
  pub rear_at : q.rear ≡ (q.front + q.size) % q.capacity
  pub holds : items_from q.items q.capacity q.front 0 q.size ≡ map some xs

module _ {A : Type 0} where
  pub length-map-some : (xs : List A) → length (map some xs) ≡ length xs
  length-map-some [] = refl
  length-map-some (x ∷ xs) = ap suc (length-map-some xs)

  pub size-eq-length : (q : Queue A) (xs : List A) → Represents q xs → q.size ≡ length xs
  size-eq-length q xs r =
      sym (length-items_from q.items q.capacity q.front 0 q.size)
      ∙ ap length r.holds
      ∙ length-map-some xs

  put-holds :
      (q : Queue A) (xs : List A) (x : A)
      → Represents q xs
      → q.size < q.capacity
      → items_from (set q.items q.rear (some x)) q.capacity q.front 0 (suc q.size)
        ≡ map some (xs ++ (x ∷ []))
  put-holds q xs x r room =
      let other : (j : ℕ) → 0 ≤ j → j < 0 + q.size → q.rear ≢ (q.front + j) % q.capacity =
        λ j a b p.
          slot-ne q.front j q.size q.capacity r.front_in (omega arith) room (sym p ∙ r.rear_at) in
      let here : (q.front + (0 + q.size)) % q.capacity ≡ q.rear =
        ap (λ t. (q.front + t) % q.capacity) {x = 0 + q.size} (omega arith) ∙ sym r.rear_at in
      let inside : q.rear < length q.items =
        omega (arith, r.slots, r.rear_at, mod-lt (q.front + q.size) r.positive) in
      items_from-snoc (set q.items q.rear (some x)) q.capacity q.front 0 q.size
      ∙ ap₂ ◌++◌
          (items_from-set q.items q.capacity q.front q.rear (some x) 0 q.size other ∙ r.holds)
          (ap (λ t. get_or (set q.items q.rear (some x)) t none ∷ []) here
            ∙ ap (λ t. t ∷ []) (get_or-set_self q.items q.rear (some x) none inside))
      ∙ sym (map-append some xs (x ∷ []))

  pub put-Represents :
      (q : Queue A) (xs : List A) (x : A)
      → Represents q xs
      → q.size < q.capacity
      → Represents (put q x) (xs ++ (x ∷ []))
  unfolding put
  put-Represents q xs x r room = record {
    slots = length-set q.items q.rear (some x) ∙ r.slots;
    positive = r.positive;
    small = r.small;
    front_in = r.front_in;
    size_in = omega arith;
    rear_at =
        ap (λ t. (t + 1) % q.capacity) r.rear_at
        ∙ mod-add-mod (q.front + q.size) q.capacity 1
        ∙ ap (λ t. t % q.capacity) (omega arith);
    holds =
        ap (items_from (set q.items q.rear (some x)) q.capacity q.front 0) {x = q.size + 1}
          {y = suc q.size} (omega arith)
        ∙ put-holds q xs x r room;
  }
