-- ===== src/Queue/Contents.antt =====
-- The items of a ring in order, and what the writes to its slots do to them.
use native.Mathlib.Nat.{mod-eq_of_lt, mod-eq-sub-mod, mod-add-mod}
use fast_sync.Prelude.{
  ℕ, zero, suc, ◌+◌, ◌-◌, ◌%◌, ◌≤◌, ◌<◌, ◌≡◌, ◌≢◌, ◌⊎◌, inl, inr, refl, ap, ap₂, ◌∙◌, List, [], ◌∷◌,
  ◌++◌, Option, none, arith, length, get_or, set, ltb, Bool-cases, get_or-set_ne,
}

module _ {A : Type 0} (items : List (Option A)) (capacity front : ℕ) where
  -- The `n` items from the `k`-th on.
  abbrev pub items_from : ℕ → ℕ → List (Option A)
  items_from k zero = []
  items_from k (suc n) = get_or items ((front + k) % capacity) none ∷ items_from (k + 1) n

  pub length-items_from : (k n : ℕ) → length (items_from k n) ≡ n
  length-items_from k zero = refl
  length-items_from k (suc n) = ap suc (length-items_from (k + 1) n)

  pub items_from-snoc :
      (k n : ℕ)
      → items_from k (suc n)
        ≡ items_from k n ++ (get_or items ((front + (k + n)) % capacity) none ∷ [])
  items_from-snoc k zero = ap (λ t. get_or items ((front + t) % capacity) none ∷ []) (omega arith)
  items_from-snoc k (suc n) =
      ap (λ t. get_or items ((front + k) % capacity) none ∷ t)
        (items_from-snoc (k + 1) n
          ∙ ap (λ t. items_from (k + 1) n ++ (get_or items ((front + t) % capacity) none ∷ []))
              (omega arith))

-- A number below twice the capacity wraps once at most.
pub wraps :
    (x capacity : ℕ)
    → x < capacity + capacity
    → ((x < capacity) × (x % capacity ≡ x)) ⊎ ((capacity ≤ x) × (x % capacity + capacity ≡ x))
wraps x capacity h = elim (Bool-cases (ltb x capacity)) [
  | inl e ↦ let below : x < capacity = ground arith in inl (below, mod-eq_of_lt below)
  | inr e ↦
      let above : capacity ≤ x = ground arith in
      inr (
        above,
        omega (
          arith,
          mod-eq-sub-mod above,
          mod-eq_of_lt {n = x - capacity} {m = capacity} (omega arith),
        ),
      )
]

-- Different items stand in different slots.
pub slot-ne :
    (front a b capacity : ℕ)
    → front < capacity
    → a < b
    → b < capacity
    → (front + a) % capacity ≢ (front + b) % capacity
slot-ne front a b capacity h p q =
    ground
      (arith, wraps (front + a) capacity (omega arith), wraps (front + b) capacity (omega arith))

module _ {A : Type 0} where
  pub items_from-set :
      (items : List (Option A)) (capacity front i : ℕ) (v : Option A) (k n : ℕ)
      → ((j : ℕ) → k ≤ j → j < k + n → i ≢ (front + j) % capacity)
      → items_from (set items i v) capacity front k n ≡ items_from items capacity front k n
  items_from-set items capacity front i v k zero out = refl
  items_from-set items capacity front i v k (suc n) out =
      ap₂ ◌∷◌
        (get_or-set_ne items i ((front + k) % capacity) v none (out k (omega arith) (omega arith)))
        (items_from-set items capacity front i v (k + 1) n
          (λ j a b. out j (omega arith) (omega arith)))

  pub items_from-shift :
      (items : List (Option A)) (capacity front k n : ℕ)
      → items_from items capacity ((front + 1) % capacity) k n
        ≡ items_from items capacity front (k + 1) n
  items_from-shift items capacity front k zero = refl
  items_from-shift items capacity front k (suc n) =
      ap₂ ◌∷◌
        (ap (λ t. get_or items t none)
          (mod-add-mod (front + 1) capacity k ∙ ap (λ t. t % capacity) (omega arith)))
        (items_from-shift items capacity front (k + 1) n)
