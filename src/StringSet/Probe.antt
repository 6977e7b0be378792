-- ===== src/StringSet/Probe.antt =====
-- Probing: where a walk through the slots stops, and that it does.
use native.Mathlib.Nat.{mod-eq_of_lt, mod-add-mod, mod-lt, add-mod_right}
use fast_sync.Prelude.{
  ℕ, zero, suc, ◌+◌, ◌-◌, ◌%◌, ◌^◌, ◌<◌, ◌≡◌, inl, inr, refl, sym, ap, ap₂, ◌∙◌, List, [], ◌∷◌,
  true, false, ◌&&◌, Option, none, some, arith, bit_and, ◌==◌, ltb, Bool-cases, length, get_or, set,
}
use fast_sync.Prelude.Masks.{bit_and-low}
use fast_sync.StringSet.{Key, same_key}

pub same_key-eq : (a b : Key) → same_key a b ≡ true → a ≡ b
unfolding same_key
same_key-eq [] [] h = refl
same_key-eq [] (y ∷ ys) h = cc
same_key-eq (x ∷ xs) [] h = cc
same_key-eq (x ∷ xs) (y ∷ ys) h = elim (Bool-cases (x == y)) [
  | inl e ↦ ap₂ ◌∷◌ (ground arith) (same_key-eq xs ys (sym (ap (λ b. b && same_key xs ys) e) ∙ h))
  | inr e ↦ absurd_of (sym (ap (λ b. b && same_key xs ys) e) ∙ h)
]
  where
    absurd_of : false ≡ true → x ∷ xs ≡ y ∷ ys
    absurd_of f = cc

pub same_key_refl : (a : Key) → same_key a a ≡ true
unfolding same_key
same_key_refl [] = refl
same_key_refl (x ∷ xs) = let e : (x == x) ≡ true = ground arith in rw e (same_key_refl xs)

-- The occupied slots.
abbrev pub occupied : List (Option Key) → ℕ
occupied [] = 0
occupied (none ∷ slots) = occupied slots
occupied (some key ∷ slots) = suc (occupied slots)

pub empty_slot :
    (slots : List (Option Key))
    → occupied slots < length slots
    → (i : ℕ) × (i < length slots) × (get_or slots i none ≡ none)
empty_slot [] h = absurd (omega arith)
empty_slot (none ∷ slots) h = (0, omega arith, refl)
empty_slot (some key ∷ slots) h =
    let (i, inside, empty) = empty_slot slots (omega arith) in (suc i, omega arith, empty)

pub occupied-set :
    (slots : List (Option Key)) (i : ℕ) (key : Key)
    → i < length slots
    → get_or slots i none ≡ none
    → occupied (set slots i (some key)) ≡ occupied slots + 1
occupied-set [] i key h e = absurd (omega arith)
occupied-set (none ∷ slots) zero key h e = omega arith
occupied-set (some k ∷ slots) zero key h e = cc
occupied-set (none ∷ slots) (suc i) key h e = occupied-set slots i key (omega arith) e
occupied-set (some k ∷ slots) (suc i) key h e =
    omega (arith, occupied-set slots i key (omega arith) e)

-- Every slot stands at some distance below the capacity from where a probe starts.
pub distance :
    (h i capacity : ℕ) → i < capacity → (d : ℕ) × (d < capacity) × ((h + d) % capacity ≡ i)
distance h i capacity inside =
    let start = h % capacity in
    let below : start < capacity = mod-lt h (omega arith) in
    elim (Bool-cases (ltb i start)) [
      | inl e ↦
          let d = i + capacity - start in
          (
            d,
            ground arith,
            sym (mod-add-mod h capacity d)
                ∙ ap (λ t. t % capacity) {x = start + d} {y = i + capacity} (ground arith)
                ∙ add-mod_right i capacity
                ∙ mod-eq_of_lt inside,
          )
      | inr e ↦
          let d = i - start in
          (
            d,
            ground arith,
            sym (mod-add-mod h capacity d)
                ∙ ap (λ t. t % capacity) {x = start + d} {y = i} (ground arith)
                ∙ mod-eq_of_lt inside,
          )
    ]

-- The masked index, on a capacity that is a power of two.
pub start_index : (h log : ℕ) → bit_and h (2 ^ log - 1) ≡ (h + 0) % 2 ^ log
start_index h log = bit_and-low h log ∙ ap (λ t. t % 2 ^ log) {x = h} {y = h + 0} (omega arith)

pub next_index :
    (h d log : ℕ) → bit_and ((h + d) % 2 ^ log + 1) (2 ^ log - 1) ≡ (h + suc d) % 2 ^ log
next_index h d log =
    bit_and-low ((h + d) % 2 ^ log + 1) log
    ∙ mod-add-mod (h + d) (2 ^ log) 1
    ∙ ap (λ t. t % 2 ^ log) {x = h + d + 1} {y = h + suc d} (omega arith)
