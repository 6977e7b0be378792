-- ===== src/StringSet/Table.antt =====
-- The invariant of the table, and what one lookup and one insertion do under it.
use native.Mathlib.Nat.{one-le-pow}
use mathlib.Core.Path.{subst}
use fast_sync.Prelude.{
  ℕ, ◌+◌, ◌-◌, ◌*◌, ◌%◌, ◌^◌, ◌≤◌, ◌<◌, ◌≡◌, ◌⊎◌, inl, inr, refl, sym, ap, ◌∙◌, List, true, false,
  Option, none, some, arith, bit_and, ◌==◌, ltb, Bool-cases, length, get_or,
}
use fast_sync.StringSet.{Key, Services, StrHashSet, same_key, find_at, lookup}
use fast_sync.StringSet.Probe.{
  same_key-eq, same_key_refl, occupied, empty_slot, distance, start_index,
}
use fast_sync.StringSet.Walk.{Passes, Stops, Stop, first-Stop, found_here, find_at-Stop}

-- The key stands in some slot.
unfoldable pub Member : StrHashSet → Key → Type 0
Member table key = (i : ℕ) × (get_or table.slots i none ≡ some key)

abbrev pub Filled : Option Key → Type 0
Filled none = ⊥
Filled (some key) = Unit {0}

-- Slot `i` is reached from the hash `h` over filled slots.
abbrev pub Reached : List (Option Key) → ℕ → ℕ → ℕ → Type 0
Reached slots capacity h i =
    (d : ℕ) × ((h + d) % capacity ≡ i)
    × ((e : ℕ) → e < d → Filled (get_or slots ((h + e) % capacity) none))

-- The capacity is a power of two below 2 ^ 60, `size` counts the filled slots, a quarter of the slots is empty,
-- and every key is reached from its hash.
pub record IsTable (services : Services) (table : StrHashSet) : Type 0 where
  pub log : ℕ
  pub power : table.capacity ≡ 2 ^ log
  pub small : table.capacity < 2 ^ 60
  pub whole : length table.slots ≡ table.capacity
  pub count : table.size ≡ occupied table.slots
  pub load : table.size * 4 ≤ table.capacity * 3
  pub reached :
      (i : ℕ) (key : Key)
      → get_or table.slots i none ≡ some key
      → Reached table.slots table.capacity (services.hash key) i

pub capacity_pos :
    (services : Services) (table : StrHashSet) → IsTable services table → 0 < table.capacity
capacity_pos services table t = omega (arith, t.power, one-le-pow t.log 2 (omega arith))

Stops-empty : (key : Key) (slot : Option Key) → slot ≡ none → Stops key slot
Stops-empty key none e = tt
Stops-empty key (some stored) e = cc

-- A probe stops within the capacity.
pub Stop-within :
    (services : Services) (table : StrHashSet) (key : Key)
    → IsTable services table
    → (s : ℕ) × (s < table.capacity) × Stop table.slots table.capacity (services.hash key) key 0 s
Stop-within services table key t =
    let positive = capacity_pos services table t in
    let (i, inside, empty) = empty_slot table.slots (omega (arith, t.whole, t.count, t.load)) in
    let (d, below, at) = distance (services.hash key) i table.capacity (omega (arith, t.whole)) in
    let (s, within, stop) =
      first-Stop table.slots table.capacity (services.hash key) key d 0 d (omega arith)
        (Stops-empty key _ (ap (λ x. get_or table.slots x none) at ∙ empty)) in
    (s, omega arith, stop)

same_slot : (key : Key) (slot : Option Key) → slot ≡ some key → Passes key slot → ⊥
same_slot key none e pass = pass
same_slot key (some stored) e pass =
    let same : stored ≡ key = cc in
    let yes : same_key stored key ≡ true =
      subst (λ k. same_key k key ≡ true) (sym same) (same_key_refl key) in
    cc

stop_of_Filled : (key : Key) (slot : Option Key) → Filled slot → Stops key slot → slot ≡ some key
stop_of_Filled key none f stop = absurd f
stop_of_Filled key (some stored) f stop = ap some (same_key-eq stored key stop)

-- A key in the table is where its probe stops.
member_at-Stop :
    (services : Services) (table : StrHashSet) (key : Key) (s : ℕ)
    → IsTable services table
    → Stop table.slots table.capacity (services.hash key) key 0 s
    → Member table key
    → get_or table.slots ((services.hash key + s) % table.capacity) none ≡ some key
unfolding Member
member_at-Stop services table key s t stop (i, held) =
    let (d, at, filled) = t.reached i key held in
    let held_at = ap (λ x. get_or table.slots x none) at ∙ held in
    elim (Bool-cases (ltb s d)) [
      | inl e ↦ stop_of_Filled key _ (filled s (ground arith)) stop.stops
      | inr e ↦ elim (Bool-cases (s == d)) [
        | inl f ↦
            ap (λ x. get_or table.slots ((services.hash key + x) % table.capacity) none) {x = s}
              {y = d} (ground arith)
            ∙ held_at
        | inr f ↦ absurd (same_slot key _ held_at (stop.passes d (omega arith) (ground arith)))
      ]
    ]

found-Member :
    (table : StrHashSet) (key : Key) (i : ℕ) (slot : Option Key)
    → get_or table.slots i none ≡ slot
    → Stops key slot
    → ((found_here slot ≡ true) × Member table key)
      ⊎ ((found_here slot ≡ false) × (get_or table.slots i none ≡ none))
unfolding Member
found-Member table key i none e stop = inr (refl, e)
found-Member table key i (some stored) e stop =
    inl (refl, (i, e ∙ ap some (same_key-eq stored key stop)))

-- Where a probe from the hash begins.
pub probe_start :
    (services : Services) (table : StrHashSet) (key : Key)
    → IsTable services table
    → bit_and (services.hash key) (table.capacity - 1) ≡ (services.hash key + 0) % table.capacity
probe_start services table key t =
    ap (λ c. bit_and (services.hash key) (c - 1)) t.power
    ∙ start_index (services.hash key) t.log
    ∙ ap (λ c. (services.hash key + 0) % c) (sym t.power)

pub not_both : (key : Key) (slot : Option Key) → slot ≡ none → slot ≡ some key → ⊥
not_both key slot a b = cc

-- On a well-formed table a lookup ends: it finds the key and the key stands in a slot, or it does
-- not find it and the key stands in none.
pub lookup_lem :
    (services : Services) (table : StrHashSet) (key : Key)
    → IsTable services table
    → ((lookup services table key ≡ some true) × Member table key)
      ⊎ ((lookup services table key ≡ some false) × (Member table key → ⊥))
unfolding lookup
lookup_lem services table key t =
    let usable : (table.capacity == 0) ≡ false = ground (arith, capacity_pos services table t) in
    let (s, within, stop) = Stop-within services table key t in
    let h = services.hash key in
    let found =
      ap (find_at table.capacity table key) (probe_start services table key t)
      ∙ find_at-Stop table t.log h key t.power table.capacity 0 s (omega arith) stop in
    elim (found-Member table key ((h + s) % table.capacity) _ refl stop.stops) [
      | inl (is_found, member) ↦ inl (rw usable (found ∙ ap some is_found), member)
      | inr (fails, empty) ↦ inr (
        rw usable (found ∙ ap some fails),
        λ member. not_both key _ empty (member_at-Stop services table key s t stop member),
      )
    ]
