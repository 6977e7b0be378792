-- ===== src/StringSet/Insert.antt =====
-- One insertion into a table with room.
use native.Mathlib.Nat.{mod-lt}
use mathlib.Core.Path.{subst}
use fast_sync.Prelude.{
  ℕ, ◌+◌, ◌*◌, ◌%◌, ◌≤◌, ◌<◌, ◌≡◌, ◌↔◌, ◌⊎◌, inl, inr, refl, sym, ap, ◌∙◌, List, Bool, Option, none,
  some, arith, ◌==◌, Bool-cases, length, get_or, set, length-set, get_or-set_self, get_or-set_ne,
}
use fast_sync.StringSet.{Key, Services, StrHashSet, put_at, put}
use fast_sync.StringSet.Probe.{same_key-eq, occupied-set}
use fast_sync.StringSet.Walk.{Passes, Stops, Stop, put_here, put_at-Stop}
use fast_sync.StringSet.Table.{
  Member, Filled, Reached, IsTable, capacity_pos, Stop-within, probe_start, not_both,
}

-- What `str_hash_set_put` gives for a table with room.
pub record Put (services : Services) (table : StrHashSet) (key : Key) (result : Bool × StrHashSet)
    : Type 0 where
  pub ends : put services table key ≡ some result
  pub kept : IsTable services result.1
  pub members : (k : Key) → Member result.1 k ↔ (Member table k ⊎ (k ≡ key))
  pub grown : result.1.size ≤ table.size + 1
  pub same_capacity : result.1.capacity ≡ table.capacity

module _ (slots : List (Option Key)) (i : ℕ) (key : Key) (inside : i < length slots) where
  set-Filled :
      (j : ℕ) → Filled (get_or slots j none) → Filled (get_or (set slots i (some key)) j none)
  set-Filled j f = elim (Bool-cases (i == j)) [
    | inl e ↦
        let same : i ≡ j = ground arith in
        subst (λ x. Filled (get_or (set slots i (some key)) x none)) same
          (subst Filled (sym (get_or-set_self slots i (some key) none inside)) tt)
    | inr e ↦ subst Filled (sym (get_or-set_ne slots i j (some key) none (ground arith))) f
  ]

  set-Reached :
      (capacity h j : ℕ)
      → Reached slots capacity h j
      → Reached (set slots i (some key)) capacity h j
  set-Reached capacity h j (d, at, filled) =
      (d, at, λ e below. set-Filled ((h + e) % capacity) (filled e below))

  set_back :
      (j : ℕ) (k : Key)
      → get_or (set slots i (some key)) j none ≡ some k
      → (get_or slots j none ≡ some k) ⊎ ((j ≡ i) × (k ≡ key))
  set_back j k held = elim (Bool-cases (i == j)) [
    | inl e ↦
        let same : i ≡ j = ground arith in
        let new = get_or-set_self slots i (some key) none inside in
        let old = ap (λ x. get_or (set slots i (some key)) x none) same ∙ held in inr (sym same, cc)
    | inr e ↦ inl (sym (get_or-set_ne slots i j (some key) none (ground arith)) ∙ held)
  ]

  set_forth :
      (j : ℕ) (k : Key)
      → get_or slots i none ≡ none
      → get_or slots j none ≡ some k
      → get_or (set slots i (some key)) j none ≡ some k
  set_forth j k empty held =
      get_or-set_ne slots i j (some key) none
        (λ e. not_both k (get_or slots i none) empty (ap (λ x. get_or slots x none) e ∙ held))
      ∙ held

Passes-Filled : (key : Key) (slot : Option Key) → Passes key slot → Filled slot
Passes-Filled key none p = p
Passes-Filled key (some stored) p = tt

module _ (services : Services) (table : StrHashSet) (key : Key) (t : IsTable services table) where
  -- The key in the empty slot where its probe stops.
  filled_slot : ℕ → StrHashSet
  filled_slot i = record table { slots = set table.slots i (some key); size = table.size + 1 }

  filled_slot-IsTable :
      (s : ℕ)
      → Stop table.slots table.capacity (services.hash key) key 0 s
      → get_or table.slots ((services.hash key + s) % table.capacity) none ≡ none
      → (table.size + 1) * 4 ≤ table.capacity * 3
      → IsTable services (filled_slot ((services.hash key + s) % table.capacity))
  unfolding filled_slot
  filled_slot-IsTable s stop empty room =
      let i = (services.hash key + s) % table.capacity in
      let inside : i < length table.slots =
        omega (arith, t.whole, mod-lt (services.hash key + s) (capacity_pos services table t)) in
      record {
        log = t.log;
        power = t.power;
        small = t.small;
        whole = length-set table.slots i (some key) ∙ t.whole;
        count = omega (arith, t.count, occupied-set table.slots i key inside empty);
        load = room;
        reached = λ j k held.
            set-Reached table.slots i key inside table.capacity (services.hash k) j
              (elim (set_back table.slots i key inside j k held) [
                | inl old ↦ t.reached j k old
                | inr (at, new) ↦ (
                  s,
                  ap (λ x. (services.hash x + s) % table.capacity) new ∙ sym at,
                  λ e below.
                      subst
                        (λ x.
                          Filled (get_or table.slots ((services.hash x + e) % table.capacity) none))
                        (sym new) (Passes-Filled key _ (stop.passes e (omega arith) below)),
                )
              ]);
      }

  filled_slot-Member :
      (i : ℕ)
      → i < length table.slots
      → get_or table.slots i none ≡ none
      → (k : Key) → Member (filled_slot i) k ↔ (Member table k ⊎ (k ≡ key))
  unfolding filled_slot Member
  filled_slot-Member i inside empty k = (
    λ m. elim (set_back table.slots i key inside m.0 k m.1) [
      | inl old ↦ inl (m.0, old)
      | inr (at, new) ↦ inr new
    ],
    λ c. elim c [
      | inl m ↦ (m.0, set_forth table.slots i key inside m.0 k empty m.1)
      | inr e ↦ (i, get_or-set_self table.slots i (some key) none inside ∙ ap some (sym e))
    ],
  )

  put_result :
      (s : ℕ) (slot : Option Key)
      → Stop table.slots table.capacity (services.hash key) key 0 s
      → get_or table.slots ((services.hash key + s) % table.capacity) none ≡ slot
      → Stops key slot
      → (table.size + 1) * 4 ≤ table.capacity * 3
      → put services table key
        ≡ some (put_here table key ((services.hash key + s) % table.capacity) slot)
      → Put services table key (put_here table key ((services.hash key + s) % table.capacity) slot)
  unfolding put_here filled_slot
  put_result s none stop at ends_here room ends =
      let i = (services.hash key + s) % table.capacity in
      let inside : i < length table.slots =
        omega (arith, t.whole, mod-lt (services.hash key + s) (capacity_pos services table t)) in
      record {
        ends = ends;
        kept = filled_slot-IsTable s stop at room;
        members = filled_slot-Member i inside at;
        grown = omega arith;
        same_capacity = refl;
      }
  put_result s (some stored) stop at ends_here room ends =
      let same = same_key-eq stored key ends_here in
      record {
        ends = ends;
        kept = t;
        members = λ k. (
          λ m. inl m,
          λ c. elim c [
            | inl m ↦ m
            | inr e ↦
                present ((services.hash key + s) % table.capacity) k (at ∙ ap some (same ∙ sym e))
          ],
        );
        grown = omega arith;
        same_capacity = refl;
      }
    where
      present : (i : ℕ) (k : Key) → get_or table.slots i none ≡ some k → Member table k
      present i k h = unfold Member in (i, h)

  -- An insertion with room ends; it adds the key to the members and nothing else.
  pub put_lem :
      (table.size + 1) * 4 ≤ table.capacity * 3
      → (result : Bool × StrHashSet) × Put services table key result
  put_lem room =
      let (s, within, stop) = Stop-within services table key t in
      let h = services.hash key in
      (
        put_here table key ((h + s) % table.capacity)
            (get_or table.slots ((h + s) % table.capacity) none),
        put_result s _ stop refl stop.stops room (put_ends s within stop),
      )
    where
      put_ends :
          (s : ℕ)
          → s < table.capacity
          → Stop table.slots table.capacity (services.hash key) key 0 s
          → put services table key
            ≡ some (
                put_here table key
                  ((services.hash key + s) % table.capacity)
                  (get_or table.slots ((services.hash key + s) % table.capacity) none))
      put_ends s within stop =
          unfold put in
          (ap (put_at table.capacity table key) (probe_start services table key t)
            ∙ put_at-Stop table t.log (services.hash key) key t.power table.capacity 0 s
                (omega arith) stop)
