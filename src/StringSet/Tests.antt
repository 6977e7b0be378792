-- ===== src/StringSet/Tests.antt =====
-- The string set with a hash that makes keys of one length collide.
use fast_sync.Prelude.{◌≡◌, ◌⊎◌, refl, [], ◌∷◌, true, false, some, arith, length, leb, ◌>>=◌}
use fast_sync.StringSet.{
  Key, Services, StrHashSet, empty_table, init, init_capacity, insert_ref, lookup, grow, put,
  put_at, put_slot, find_at, find_slot, same_key, resize, reinsert,
}
use fast_sync.StringSet.Table.{IsTable, Member, lookup_lem}
use fast_sync.StringSet.Resize.{BoundedCalloc, empty_table-IsTable}
use fast_sync.StringSet.Laws.{Inserted, insert_ref-lookup, init-lookup}

toy : Services
toy = record { hash = λ key. length key; calloc = λ n. leb n 64 }

toy-BoundedCalloc : BoundedCalloc toy
unfolding BoundedCalloc toy
toy-BoundedCalloc n h = ground arith

toy-IsTable : IsTable toy (empty_table 16)
toy-IsTable = empty_table-IsTable toy 4 (omega arith)

abbrev home : Key
home = 104 ∷ 109 ∷ []

abbrev temp : Key
temp = 116 ∷ 109 ∷ []

-- Two keys with one hash go to neighbouring slots, and a third one is not found.
collide :
    (insert_ref toy (empty_table 16) home >>= λ a.
    insert_ref toy a.1 temp >>= λ b. lookup toy b.1 temp)
    ≡ some true
unfolding toy insert_ref grow put put_at put_slot lookup find_at find_slot same_key
collide = refl

absent : (insert_ref toy (empty_table 16) home >>= λ a. lookup toy a.1 temp) ≡ some false
unfolding toy insert_ref grow put put_at put_slot lookup find_at find_slot same_key
absent = refl

-- A table of one slot grows before it takes a key.
grows : (insert_ref toy (empty_table 1) home >>= λ a. some a.1.capacity) ≡ some 2
unfolding toy insert_ref grow put put_at put_slot resize reinsert
grows = refl

insert_ref-lookup_example :
    ((result : StrHashSet) × (insert_ref toy (empty_table 16) home ≡ some (true, result))
      × Inserted toy (empty_table 16) home result)
    ⊎ ((insert_ref toy (empty_table 16) home ≡ some (false, empty_table 16))
        × (toy.calloc 32 ≡ false))
insert_ref-lookup_example =
    insert_ref-lookup toy (empty_table 16) home toy-BoundedCalloc toy-IsTable

lookup_lem_example :
    ((lookup toy (empty_table 16) temp ≡ some true) × Member (empty_table 16) temp)
    ⊎ ((lookup toy (empty_table 16) temp ≡ some false) × (Member (empty_table 16) temp → ⊥))
lookup_lem_example = lookup_lem toy (empty_table 16) temp toy-IsTable

fresh : init toy 3 ≡ some (empty_table 16)
unfolding toy init init_capacity
fresh = refl

init-lookup_example :
    IsTable toy (empty_table 16) × ((k : Key) → lookup toy (empty_table 16) k ≡ some false)
init-lookup_example = init-lookup toy 3 (empty_table 16) toy-BoundedCalloc fresh
