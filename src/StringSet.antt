-- ===== src/StringSet.antt =====
-- The hash set of strings in src/shared/utils.c: open addressing with linear probing. A key is the
-- list of its bytes; a probe runs on fuel, and `none` is a probe that never ends.
pub mod Probe
pub mod Walk
pub mod Table
pub mod Insert
pub mod Resize
pub mod Laws
mod Tests
use fast_sync.Prelude.{
  ℕ, zero, suc, ◌+◌, ◌-◌, ◌*◌, ◌/◌, ◌%◌, ◌^◌, List, [], ◌∷◌, Bool, true, false, not, ◌&&◌, ◌||◌,
  Option, none, some, bit_and, ltb, leb, ◌==◌, if◌then◌else◌, ◌>>=◌, get_or, set, replicate,
}

abbrev pub Key : Type 0
Key = List ℕ

-- What the set takes from elsewhere: `XXH64` of a key with the seed 0, and `calloc`, which grants or
-- refuses so many slots of 8 bytes.
pub record Services : Type 0 where
  pub hash : Key → ℕ
  pub calloc : ℕ → Bool

pub record StrHashSet : Type 0 where
  pub slots : List (Option Key)
  pub capacity : ℕ
  pub size : ℕ

-- `strlen(slot->key) == len && memcmp(slot->key, key, len) == 0`
unfoldable pub same_key : Key → Key → Bool
same_key [] [] = true
same_key [] (y ∷ ys) = false
same_key (x ∷ xs) [] = false
same_key (x ∷ xs) (y ∷ ys) = x == y && same_key xs ys

-- One round of the loop of `str_hash_set_put`; `rest` is what the later rounds give.
pub put_slot :
    StrHashSet → Key → ℕ → Option Key → Option (Bool × StrHashSet) → Option (Bool × StrHashSet)
put_slot table key index none rest =
    some (true, record table { slots = set table.slots index (some key); size = table.size + 1 })
put_slot table key index (some stored) rest =
    if same_key stored key then some (false, table) else rest

pub put_at : ℕ → StrHashSet → Key → ℕ → Option (Bool × StrHashSet)
put_at zero table key index = none
put_at (suc fuel) table key index =
    put_slot table key index (get_or table.slots index none)
      (put_at fuel table key (bit_and (index + 1) (table.capacity - 1)))

-- Every slot is probed once at most.
pub put : Services → StrHashSet → Key → Option (Bool × StrHashSet)
put services table key =
    put_at table.capacity table key (bit_and (services.hash key) (table.capacity - 1))

-- The loop of `str_hash_set_resize` over the old slots.
pub reinsert : Services → List (Option Key) → StrHashSet → Option StrHashSet
reinsert services [] table = some table
reinsert services (none ∷ old_slots) table = reinsert services old_slots table
reinsert services (some key ∷ old_slots) table =
    put services table key >>= λ result. reinsert services old_slots result.1

abbrev pub empty_table : ℕ → StrHashSet
empty_table capacity = record { slots = replicate capacity none; capacity = capacity; size = 0 }

pub resize : Services → StrHashSet → ℕ → Option (Bool × StrHashSet)
resize services table new_capacity =
    if services.calloc new_capacity
    then (reinsert services table.slots (empty_table new_capacity) >>= λ grown. some (true, grown))
    else some (false, table)

pub grow : Services → StrHashSet → Option (Bool × StrHashSet)
grow services table =
    if not (table.capacity == 0)
      && leb ((table.size + 1) * 4 % 2 ^ 64) (table.capacity * 3 % 2 ^ 64)
    then some (true, table)
    else resize services table (if table.capacity == 0 then 16 else table.capacity * 2 % 2 ^ 64)

-- The loop of `str_hash_set_init`.
pub init_capacity : ℕ → ℕ → ℕ → ℕ
init_capacity zero hint capacity = capacity
init_capacity (suc fuel) hint capacity =
    let rest = init_capacity fuel hint (capacity * 2) in
    if ltb capacity ((hint + 1) * 2 % 2 ^ 64) && leb capacity ((2 ^ 64 - 1) / 2)
    then rest
    else capacity

-- 60 doublings take the capacity from 16 to 2 ^ 64.
pub init : Services → ℕ → Option StrHashSet
init services hint =
    let capacity = init_capacity 60 hint 16 in
    if services.calloc capacity then some (empty_table capacity) else none

pub insert_ref : Services → StrHashSet → Key → Option (Bool × StrHashSet)
insert_ref services table key = grow services table >>= λ grown.
    if grown.0
    then (put services grown.1 key >>= λ result. some (true, result.1))
    else some (false, grown.1)

-- One round of the loop of `str_hash_set_find_n`; the result tells whether a slot is found.
unfoldable pub find_slot : Key → Option Key → Option Bool → Option Bool
find_slot key none rest = some false
find_slot key (some stored) rest = if same_key stored key then some true else rest

unfoldable pub find_at : ℕ → StrHashSet → Key → ℕ → Option Bool
find_at zero table key index = none
find_at (suc fuel) table key index =
    find_slot key (get_or table.slots index none)
      (find_at fuel table key (bit_and (index + 1) (table.capacity - 1)))

-- `str_hash_set_lookup_n`, and `str_hash_set_lookup` of the whole string.
unfoldable pub lookup : Services → StrHashSet → Key → Option Bool
lookup services table key =
    if table.capacity == 0
    then some false
    else find_at table.capacity table key (bit_and (services.hash key) (table.capacity - 1))
