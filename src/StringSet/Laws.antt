-- ===== src/StringSet/Laws.antt =====
-- The set refines a set of strings: what insertions do to later lookups.
use native.Mathlib.Nat.{pow-suc}
use mathlib.Core.Path.{subst}
use fast_sync.Prelude.{
  ℕ, zero, suc, ◌+◌, ◌-◌, ◌*◌, ◌/◌, ◌%◌, ◌^◌, ◌≤◌, ◌≡◌, ◌↔◌, ◌⊎◌, inl, inr, refl, sym, ap, ◌∙◌,
  Bool, true, false, Option, none, some, arith, ltb, leb, ◌&&◌, Bool-cases, ◌>>=◌, if◌then◌else◌,
}
use fast_sync.StringSet.{
  Key, Services, StrHashSet, put, empty_table, init, init_capacity, insert_ref, lookup,
}
use fast_sync.StringSet.Table.{Member, IsTable, lookup_lem}
use fast_sync.StringSet.Insert.{put_lem}
use fast_sync.StringSet.Resize.{BoundedCalloc, grow_lem, empty_table-IsTable, empty_table-Member}

-- A lookup finds exactly the members.
pub lookup-Member :
    (services : Services) (table : StrHashSet) (key : Key)
    → IsTable services table
    → (lookup services table key ≡ some true) ↔ Member table key
lookup-Member services table key t = elim (lookup_lem services table key t) [
  | inl (found, member) ↦ (λ e. member, λ m. found)
  | inr (lost, out) ↦ (λ e. clash (lookup services table key) lost e, λ m. absurd (out m))
]
  where
    clash : (o : Option Bool) → o ≡ some false → o ≡ some true → Member table key
    clash o a b = cc

-- A table after the insertion of a key into another one.
pub record Inserted (services : Services) (table : StrHashSet) (key : Key) (result : StrHashSet)
    : Type 0 where
  pub kept : IsTable services result
  pub finds :
      (k : Key)
      → (lookup services result k ≡ some true) ↔ ((lookup services table k ≡ some true) ⊎ (k ≡ key))

-- On a well-formed table, `str_hash_set_insert_ref` ends: it gives true and a well-formed table in
-- which a lookup finds the key and what it found before, and nothing else; or it gives false and
-- the table as it was, and `calloc` has refused the doubled table. The condition on `calloc` is that
-- it refuses arrays above PTRDIFF_MAX.
pub insert_ref-lookup :
    (services : Services) (table : StrHashSet) (key : Key)
    → BoundedCalloc services
    → IsTable services table
    → ((result : StrHashSet) × (insert_ref services table key ≡ some (true, result))
        × Inserted services table key result)
      ⊎ ((insert_ref services table key ≡ some (false, table))
          × (services.calloc (table.capacity * 2) ≡ false))
unfolding insert_ref
insert_ref-lookup services table key bounded t = elim (grow_lem services table bounded t) [
  | inr (stays, refused) ↦ inr (ap (λ m. m >>= insert_grown) stays, refused)
  | inl (grown, grows, roomy) ↦
      let (result, p) = put_lem services grown key roomy.kept roomy.room in
      inl (
        result.1,
        ap (λ m. m >>= insert_grown) grows ∙ ap (λ m. m >>= λ x. some (true, x.1)) p.ends,
        record {
          kept = p.kept;
          finds = λ k.
              let after = lookup-Member services result.1 k p.kept in
              let before = lookup-Member services table k t in
              (
                λ e. elim ((p.members k).0 (after.0 e)) [
                  | inl m ↦ inl (before.1 ((roomy.members k).0 m))
                  | inr same ↦ inr same
                ],
                λ c. elim c [
                  | inl e ↦ after.1 ((p.members k).1 (inl ((roomy.members k).1 (before.0 e))))
                  | inr same ↦ after.1 ((p.members k).1 (inr same))
                ],
              );
        },
      )
]
  where
    insert_grown : Bool × StrHashSet → Option (Bool × StrHashSet)
    insert_grown grown =
        if grown.0
        then (put services grown.1 key >>= λ result. some (true, result.1))
        else some (false, grown.1)

init_capacity-pow :
    (fuel hint log : ℕ) → (top : ℕ) × (log ≤ top) × (init_capacity fuel hint (2 ^ log) ≡ 2 ^ top)
unfolding init_capacity
init_capacity-pow zero hint log = (log, omega arith, refl)
init_capacity-pow (suc fuel) hint log =
    let (top, above, e) = init_capacity-pow fuel hint (suc log) in
    let double : 2 ^ log * 2 ≡ 2 ^ suc log = sym (pow-suc 2 log) in
    elim (Bool-cases
      (ltb (2 ^ log) ((hint + 1) * 2 % 2 ^ 64) && leb (2 ^ log) ((2 ^ 64 - 1) / 2))) [
        | inl again ↦ (top, omega arith, rw again (ap (init_capacity fuel hint) double ∙ e))
        | inr enough ↦ (log, omega arith, rw enough refl)
      ]

-- A table that `str_hash_set_init` gives is well formed and a lookup finds nothing in it. The
-- condition on `calloc` is that it refuses arrays above PTRDIFF_MAX.
pub init-lookup :
    (services : Services) (hint : ℕ) (table : StrHashSet)
    → BoundedCalloc services
    → init services hint ≡ some table
    → IsTable services table × ((k : Key) → lookup services table k ≡ some false)
unfolding init BoundedCalloc
init-lookup services hint table bounded h =
    let (top, above, capacity) = init_capacity-pow 60 hint 4 in
    go (services.calloc (init_capacity 60 hint 16)) top capacity refl h
  where
    some-inj : {x y : StrHashSet} → some x ≡ some y → x ≡ y
    some-inj e = cc

    go :
        (granted : Bool) (top : ℕ)
        → init_capacity 60 hint 16 ≡ 2 ^ top
        → services.calloc (init_capacity 60 hint 16) ≡ granted
        → (if granted then some (empty_table (init_capacity 60 hint 16)) else none) ≡ some table
        → IsTable services table × ((k : Key) → lookup services table k ≡ some false)
    go false top capacity e made = cc
    go true top capacity e made =
        let same : empty_table (2 ^ top) ≡ table = ap empty_table (sym capacity) ∙ some-inj made in
        let t = empty_table-IsTable services top (omega (arith, capacity, bounded _ e)) in
        subst (λ x. IsTable services x × ((k : Key) → lookup services x k ≡ some false)) same
          (
            t,
            λ k. elim (lookup_lem services (empty_table (2 ^ top)) k t) [
              | inl (found, member) ↦ absurd (empty_table-Member (2 ^ top) k member)
              | inr (lost, out) ↦ lost
            ],
          )
