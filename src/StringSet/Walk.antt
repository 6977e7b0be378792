-- ===== src/StringSet/Walk.antt =====
-- The two probing loops: both stop at the first slot that is empty or holds the key.
use fast_sync.Prelude.{
  ℕ, zero, suc, ◌+◌, ◌-◌, ◌%◌, ◌^◌, ◌≤◌, ◌<◌, ◌≡◌, ◌≢◌, ◌⊎◌, inl, inr, refl, sym, ap, ◌∙◌, List,
  Bool, true, false, Option, none, some, arith, bit_and, ◌==◌, Bool-cases, get_or, set,
}
use mathlib.Core.Path.{subst}
use fast_sync.StringSet.{Key, StrHashSet, same_key, put_at, find_at, put_slot, find_slot}
use fast_sync.StringSet.Probe.{next_index}

-- A slot that a probe for the key passes.
abbrev pub Passes : Key → Option Key → Type 0
Passes key none = ⊥
Passes key (some stored) = same_key stored key ≡ false

-- A slot that stops a probe for the key.
abbrev pub Stops : Key → Option Key → Type 0
Stops key none = Unit {0}
Stops key (some stored) = same_key stored key ≡ true

pub Stops-or_Passes : (key : Key) (slot : Option Key) → Stops key slot ⊎ Passes key slot
Stops-or_Passes key none = inl tt
Stops-or_Passes key (some stored) = Bool-cases (same_key stored key)

-- The first stop, at distance `s` from the start of the probe, at or behind distance `d`.
pub record Stop (slots : List (Option Key)) (capacity h : ℕ) (key : Key) (d s : ℕ) : Type 0 where
  pub behind : d ≤ s
  pub stops : Stops key (get_or slots ((h + s) % capacity) none)
  pub passes : (e : ℕ) → d ≤ e → e < s → Passes key (get_or slots ((h + e) % capacity) none)

module _ (slots : List (Option Key)) (capacity h : ℕ) (key : Key) where
  pub first-Stop :
      (n d limit : ℕ)
      → limit ≡ d + n
      → Stops key (get_or slots ((h + limit) % capacity) none)
      → (s : ℕ) × (s ≤ limit) × Stop slots capacity h key d s
  first-Stop zero d limit e at_limit = (
    limit,
    omega arith,
    record { behind = omega arith; stops = at_limit; passes = λ x a b. absurd (omega arith) },
  )
  first-Stop (suc n) d limit e at_limit =
      elim (Stops-or_Passes key (get_or slots ((h + d) % capacity) none)) [
        | inl here ↦ (
          d,
          omega arith,
          record { behind = omega arith; stops = here; passes = λ x a b. absurd (omega arith) },
        )
        | inr on ↦
            let (s, below, rest) = first-Stop n (suc d) limit (omega arith) at_limit in
            (
              s,
              below,
              record {
                behind = omega (arith, rest.behind);
                stops = rest.stops;
                passes = λ x a b. at_or_behind s rest x a b on;
              },
            )
      ]
    where
      at_or_behind :
          (s : ℕ)
          → Stop slots capacity h key (suc d) s
          → (x : ℕ) → d ≤ x
          → x < s
          → Passes key (get_or slots ((h + d) % capacity) none)
          → Passes key (get_or slots ((h + x) % capacity) none)
      at_or_behind s rest x a b on = elim (Bool-cases (x == d)) [
        | inl e ↦ let same : d ≡ x = ground arith in coe_passes same on
        | inr e ↦ rest.passes x (ground arith) b
      ]
        where
          coe_passes :
              d ≡ x
              → Passes key (get_or slots ((h + d) % capacity) none)
              → Passes key (get_or slots ((h + x) % capacity) none)
          coe_passes same p =
              subst (λ t. Passes key (get_or slots ((h + t) % capacity) none)) same p

-- What the loops do at the slot where they stop.
unfoldable pub put_here : StrHashSet → Key → ℕ → Option Key → Bool × StrHashSet
put_here table key index none =
    (true, record table { slots = set table.slots index (some key); size = table.size + 1 })
put_here table key index (some stored) = (false, table)

abbrev pub found_here : Option Key → Bool
found_here none = false
found_here (some stored) = true

module _ (table : StrHashSet) (key : Key) where
  put_at_here :
      (fuel index : ℕ) (slot : Option Key)
      → get_or table.slots index none ≡ slot
      → Stops key slot
      → put_at (suc fuel) table key index ≡ some (put_here table key index slot)
  unfolding put_at put_slot put_here
  put_at_here fuel index none e stop =
      ap
        (λ slot.
          put_slot table key index slot
            (put_at fuel table key (bit_and (index + 1) (table.capacity - 1))))
        e
  put_at_here fuel index (some stored) e stop =
      ap
        (λ slot.
          put_slot table key index slot
            (put_at fuel table key (bit_and (index + 1) (table.capacity - 1))))
        e
      ∙ rw stop refl

  put_at_on :
      (fuel index : ℕ) (slot : Option Key)
      → get_or table.slots index none ≡ slot
      → Passes key slot
      → put_at (suc fuel) table key index
        ≡ put_at fuel table key (bit_and (index + 1) (table.capacity - 1))
  unfolding put_at put_slot
  put_at_on fuel index none e pass = absurd pass
  put_at_on fuel index (some stored) e pass =
      ap
        (λ slot.
          put_slot table key index slot
            (put_at fuel table key (bit_and (index + 1) (table.capacity - 1))))
        e
      ∙ rw pass refl

  find_at_here :
      (fuel index : ℕ) (slot : Option Key)
      → get_or table.slots index none ≡ slot
      → Stops key slot
      → find_at (suc fuel) table key index ≡ some (found_here slot)
  unfolding find_at find_slot
  find_at_here fuel index none e stop =
      ap
        (λ slot.
          find_slot key slot (find_at fuel table key (bit_and (index + 1) (table.capacity - 1))))
        e
  find_at_here fuel index (some stored) e stop =
      ap
        (λ slot.
          find_slot key slot (find_at fuel table key (bit_and (index + 1) (table.capacity - 1))))
        e
      ∙ rw stop refl

  find_at_on :
      (fuel index : ℕ) (slot : Option Key)
      → get_or table.slots index none ≡ slot
      → Passes key slot
      → find_at (suc fuel) table key index
        ≡ find_at fuel table key (bit_and (index + 1) (table.capacity - 1))
  unfolding find_at find_slot
  find_at_on fuel index none e pass = absurd pass
  find_at_on fuel index (some stored) e pass =
      ap
        (λ slot.
          find_slot key slot (find_at fuel table key (bit_and (index + 1) (table.capacity - 1))))
        e
      ∙ rw pass refl

module _ (table : StrHashSet) (log h : ℕ) (key : Key) (power : table.capacity ≡ 2 ^ log) where
  index_after :
      (d : ℕ)
      → bit_and ((h + d) % table.capacity + 1) (table.capacity - 1) ≡ (h + suc d) % table.capacity
  index_after d =
      ap (λ c. bit_and ((h + d) % c + 1) (c - 1)) power
      ∙ next_index h d log
      ∙ ap (λ c. (h + suc d) % c) (sym power)

  later :
      (d s : ℕ)
      → d ≢ s
      → Stop table.slots table.capacity h key d s
      → Stop table.slots table.capacity h key (suc d) s
  later d s ne stop = record {
    behind = omega (arith, stop.behind);
    stops = stop.stops;
    passes = λ e a b. stop.passes e (omega arith) b;
  }

  pub put_at-Stop :
      (fuel d s : ℕ)
      → s < d + fuel
      → Stop table.slots table.capacity h key d s
      → put_at fuel table key ((h + d) % table.capacity)
        ≡ some (
            put_here table key
              ((h + s) % table.capacity)
              (get_or table.slots ((h + s) % table.capacity) none))
  put_at-Stop zero d s room stop = absurd (omega (arith, stop.behind))
  put_at-Stop (suc fuel) d s room stop = elim (Bool-cases (d == s)) [
    | inl e ↦
        let same : d ≡ s = ground arith in
        ap (λ t. put_at (suc fuel) table key ((h + t) % table.capacity)) same
        ∙ put_at_here table key fuel ((h + s) % table.capacity) _ refl stop.stops
    | inr e ↦
        put_at_on table key fuel ((h + d) % table.capacity) _ refl
          (stop.passes d (omega arith) (ground (arith, stop.behind)))
        ∙ ap (put_at fuel table key) (index_after d)
        ∙ put_at-Stop fuel (suc d) s (omega arith) (later d s (ground arith) stop)
  ]

  pub find_at-Stop :
      (fuel d s : ℕ)
      → s < d + fuel
      → Stop table.slots table.capacity h key d s
      → find_at fuel table key ((h + d) % table.capacity)
        ≡ some (found_here (get_or table.slots ((h + s) % table.capacity) none))
  find_at-Stop zero d s room stop = absurd (omega (arith, stop.behind))
  find_at-Stop (suc fuel) d s room stop = elim (Bool-cases (d == s)) [
    | inl e ↦
        let same : d ≡ s = ground arith in
        ap (λ t. find_at (suc fuel) table key ((h + t) % table.capacity)) same
        ∙ find_at_here table key fuel ((h + s) % table.capacity) _ refl stop.stops
    | inr e ↦
        find_at_on table key fuel ((h + d) % table.capacity) _ refl
          (stop.passes d (omega arith) (ground (arith, stop.behind)))
        ∙ ap (find_at fuel table key) (index_after d)
        ∙ find_at-Stop fuel (suc d) s (omega arith) (later d s (ground arith) stop)
  ]
