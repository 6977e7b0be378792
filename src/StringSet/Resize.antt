-- ===== src/StringSet/Resize.antt =====
-- Growing the table keeps its members and makes room.
use native.Mathlib.Nat.{pow-suc}
use fast_sync.Prelude.{
  ℕ, zero, suc, ◌+◌, ◌*◌, ◌%◌, ◌^◌, ◌≤◌, ◌<◌, ◌≡◌, ◌↔◌, ◌⊎◌, inl, inr, refl, sym, ap, ◌∙◌, List, [],
  ◌∷◌, true, false, Option, none, some, arith, ◌==◌, leb, Bool-cases, ◌>>=◌, if◌then◌else◌, get_or,
  replicate, length-replicate, get_or-replicate,
}
use fast_sync.StringSet.{Key, Services, StrHashSet, reinsert, resize, grow, empty_table}
use fast_sync.StringSet.Probe.{occupied}
use fast_sync.StringSet.Table.{Member, IsTable, capacity_pos, not_both}
use fast_sync.StringSet.Insert.{put_lem}

-- The keys of some slots.
abbrev pub Holds : List (Option Key) → Key → Type 0
Holds [] k = ⊥
Holds (none ∷ slots) k = Holds slots k
Holds (some key ∷ slots) k = (k ≡ key) ⊎ Holds slots k

Holds-get_or :
    (slots : List (Option Key)) (k : Key) → Holds slots k → (i : ℕ) × (get_or slots i none ≡ some k)
Holds-get_or [] k h = absurd h
Holds-get_or (none ∷ slots) k h = let (i, e) = Holds-get_or slots k h in (suc i, e)
Holds-get_or (some key ∷ slots) k (inl e) = (0, ap some (sym e))
Holds-get_or (some key ∷ slots) k (inr h) = let (i, e) = Holds-get_or slots k h in (suc i, e)

get_or-Holds :
    (slots : List (Option Key)) (k : Key) (i : ℕ) → get_or slots i none ≡ some k → Holds slots k
get_or-Holds [] k i e = cc
get_or-Holds (none ∷ slots) k zero e = cc
get_or-Holds (none ∷ slots) k (suc i) e = get_or-Holds slots k i e
get_or-Holds (some key ∷ slots) k zero e = inl cc
get_or-Holds (some key ∷ slots) k (suc i) e = inr (get_or-Holds slots k i e)

pub Member-Holds : (table : StrHashSet) (k : Key) → Member table k ↔ Holds table.slots k
unfolding Member
Member-Holds table k = (λ m. get_or-Holds table.slots k m.0 m.1, λ h. Holds-get_or table.slots k h)

occupied-replicate : (n : ℕ) → occupied (replicate n none) ≡ 0
occupied-replicate zero = refl
occupied-replicate (suc n) = occupied-replicate n

pub empty_table-IsTable :
    (services : Services) (log : ℕ) → 2 ^ log < 2 ^ 60 → IsTable services (empty_table (2 ^ log))
empty_table-IsTable services log small = record {
  log = log;
  power = refl;
  small = small;
  whole = length-replicate (2 ^ log) none;
  count = sym (occupied-replicate (2 ^ log));
  load = omega arith;
  reached = λ i key held. absurd (not_both key _ (get_or-replicate (2 ^ log) i none) held);
}

pub empty_table-Member : (capacity : ℕ) (k : Key) → Member (empty_table capacity) k → ⊥
unfolding Member
empty_table-Member capacity k (i, held) = not_both k _ (get_or-replicate capacity i none) held

-- What the reinsertion of old slots gives.
record Reinserted (services : Services) (old_slots : List (Option Key)) (table result : StrHashSet)
    : Type 0 where
  pub ends : reinsert services old_slots table ≡ some result
  pub kept : IsTable services result
  pub members : (k : Key) → Member result k ↔ (Member table k ⊎ Holds old_slots k)
  pub grown : result.size ≤ table.size + occupied old_slots
  pub same_capacity : result.capacity ≡ table.capacity

reinsert_lem :
    (services : Services) (old_slots : List (Option Key)) (table : StrHashSet)
    → IsTable services table
    → (table.size + occupied old_slots) * 4 ≤ table.capacity * 3
    → (result : StrHashSet) × Reinserted services old_slots table result
unfolding reinsert
reinsert_lem services [] table t room = (
  table,
  record {
    ends = refl;
    kept = t;
    members = λ k. (λ m. inl m, λ c. elim c [ inl m ↦ m | inr h ↦ absurd h ]);
    grown = omega arith;
    same_capacity = refl;
  },
)
reinsert_lem services (none ∷ old_slots) table t room =
    let (result, r) = reinsert_lem services old_slots table t room in
    (
      result,
      record {
        ends = r.ends;
        kept = r.kept;
        members = r.members;
        grown = r.grown;
        same_capacity = r.same_capacity;
      },
    )
reinsert_lem services (some key ∷ old_slots) table t room =
    let (next, p) = put_lem services table key t (omega arith) in
    let (result, r) =
      reinsert_lem services old_slots next.1 p.kept (omega (arith, p.grown, p.same_capacity)) in
    (
      result,
      record {
        ends = ap (λ m. m >>= λ x. reinsert services old_slots x.1) p.ends ∙ r.ends;
        kept = r.kept;
        members = λ k. (
          λ m. elim ((r.members k).0 m) [
            | inl n ↦ elim ((p.members k).0 n) [ inl old ↦ inl old | inr e ↦ inr (inl e) ]
            | inr h ↦ inr (inr h)
          ],
          λ c. elim c [
            | inl old ↦ (r.members k).1 (inl ((p.members k).1 (inl old)))
            | inr h ↦ elim h [
              | inl e ↦ (r.members k).1 (inl ((p.members k).1 (inr e)))
              | inr g ↦ (r.members k).1 (inr g)
            ]
          ],
        );
        grown = omega (arith, p.grown, r.grown);
        same_capacity = r.same_capacity ∙ p.same_capacity;
      },
    )

-- `calloc` refuses an array above `PTRDIFF_MAX` bytes.
unfoldable pub BoundedCalloc : Services → Type 0
BoundedCalloc services = (n : ℕ) → services.calloc n ≡ true → n * 8 < 2 ^ 63

-- A table with the members of another one and room for one more key.
pub record Roomy (services : Services) (table grown : StrHashSet) : Type 0 where
  pub kept : IsTable services grown
  pub members : (k : Key) → Member grown k ↔ Member table k
  pub room : (grown.size + 1) * 4 ≤ grown.capacity * 3

doubled :
    (services : Services) (table : StrHashSet)
    → IsTable services table
    → table.capacity * 2 < 2 ^ 60
    → services.calloc (table.capacity * 2) ≡ true
    → (grown : StrHashSet) × (resize services table (table.capacity * 2) ≡ some (true, grown))
      × Roomy services table grown
unfolding resize
doubled services table t small granted =
    let power : table.capacity * 2 ≡ 2 ^ suc t.log = omega (arith, t.power, pow-suc 2 t.log) in
    let fresh : IsTable services (empty_table (table.capacity * 2)) =
      rw power (empty_table-IsTable services (suc t.log) (omega (arith, power))) in
    let (grown, r) =
      reinsert_lem services table.slots (empty_table (table.capacity * 2)) fresh
        (omega (arith, t.count, t.load)) in
    (
      grown,
      rw granted (ap (λ m. m >>= λ x. some (true, x)) r.ends),
      record {
        kept = r.kept;
        members = λ k. (
          λ m. elim ((r.members k).0 m) [
            | inl n ↦ absurd (empty_table-Member (table.capacity * 2) k n)
            | inr h ↦ (Member-Holds table k).1 h
          ],
          λ m. (r.members k).1 (inr ((Member-Holds table k).0 m)),
        );
        room =
            omega (arith, r.grown, r.same_capacity, t.count, t.load, capacity_pos services table t);
      },
    )

grow_eq :
    (services : Services) (table : StrHashSet)
    → IsTable services table
    → grow services table ≡ (
        if leb ((table.size + 1) * 4) (table.capacity * 3)
        then some (true, table)
        else resize services table (table.capacity * 2))
unfolding grow
grow_eq services table t =
    let usable : (table.capacity == 0) ≡ false = ground (arith, capacity_pos services table t) in
    let needed : (table.size + 1) * 4 % 2 ^ 64 ≡ (table.size + 1) * 4 =
      omega (arith, t.small, t.load) in
    let there : table.capacity * 3 % 2 ^ 64 ≡ table.capacity * 3 = omega (arith, t.small) in
    let twice : table.capacity * 2 % 2 ^ 64 ≡ table.capacity * 2 = omega (arith, t.small) in
    rw (usable, needed, there, twice) refl

resize-refused :
    (services : Services) (table : StrHashSet) (n : ℕ)
    → services.calloc n ≡ false
    → resize services table n ≡ some (false, table)
unfolding resize
resize-refused services table n refused = rw refused refl

-- Growing ends with room for one more key, or `calloc` refuses and the table stays.
pub grow_lem :
    (services : Services) (table : StrHashSet)
    → BoundedCalloc services
    → IsTable services table
    → ((grown : StrHashSet) × (grow services table ≡ some (true, grown))
        × Roomy services table grown)
      ⊎ ((grow services table ≡ some (false, table))
          × (services.calloc (table.capacity * 2) ≡ false))
unfolding BoundedCalloc
grow_lem services table bounded t =
    elim (Bool-cases (leb ((table.size + 1) * 4) (table.capacity * 3))) [
      | inl fits ↦ inl (
        table,
        grow_eq services table t ∙ rw fits refl,
        record { kept = t; members = λ k. (λ m. m, λ m. m); room = ground arith },
      )
      | inr full ↦
          let resized : grow services table ≡ resize services table (table.capacity * 2) =
            grow_eq services table t ∙ rw full refl in
          elim (Bool-cases (services.calloc (table.capacity * 2))) [
            | inl granted ↦
                let (grown, e, roomy) =
                  doubled services table t (omega (arith, bounded (table.capacity * 2) granted))
                    granted in
                inl (grown, resized ∙ e, roomy)
            | inr refused ↦
                inr (resized ∙ resize-refused services table (table.capacity * 2) refused, refused)
          ]
    ]
