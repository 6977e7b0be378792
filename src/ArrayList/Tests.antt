-- ===== src/ArrayList/Tests.antt =====
-- An array of two slots that holds one item, and then one more than fits.
use fast_sync.Prelude.{ℕ, ◌≡◌, ◌⊎◌, refl, [], ◌∷◌, true, false, none, some, arith, length}
use fast_sync.ArrayList.{
  Allocator, ArrayList, add, append_item, extend, fresh_slots, alloc, allocation_allowed,
}
use fast_sync.ArrayList.Refine.{Represents, add-Represents}

abbrev generous : Allocator ℕ
generous = record { malloc = λ n. true; stale = λ i. none; max_alloc = 1000 }

abbrev full_list : ArrayList ℕ
full_list = record { items = some 3 ∷ some 4 ∷ []; size = 2; capacity = 2 }

full_list-Represents : Represents full_list (3 ∷ 4 ∷ [])
full_list-Represents = record {
  slots = refl;
  small = omega arith;
  size_in = omega arith;
  count = refl;
  holds = refl;
}

add_extends :
    add generous full_list 5
    ≡ (true, record { items = some 3 ∷ some 4 ∷ some 5 ∷ none ∷ []; size = 3; capacity = 4 })
unfolding add append_item extend fresh_slots alloc allocation_allowed
add_extends = refl

add-Represents_example :
    (((add generous full_list 5).0 ≡ true)
      × Represents (add generous full_list 5).1 (3 ∷ 4 ∷ 5 ∷ []))
    ⊎ ((add generous full_list 5 ≡ (false, full_list))
        × (length {A = ℕ} (3 ∷ 4 ∷ []) ≡ full_list.capacity)
        × (extend generous full_list ≡ none))
add-Represents_example = add-Represents generous full_list (3 ∷ 4 ∷ []) 5 full_list-Represents
