-- ===== src/ArrayList.antt =====
-- src/shared/array_list.c: a growing array of pointers. Sizes are non-negative `int`s; a slot that
-- nothing has been written to holds some value or none.
pub mod Refine
mod Tests
use fast_sync.Prelude.{
  ℕ, zero, suc, ◌+◌, ◌-◌, ◌*◌, ◌/◌, ◌^◌, List, [], ◌∷◌, ◌++◌, Bool, true, false, not, ◌&&◌, ◌||◌,
  leb, Option, none, some, ltb, ◌==◌, if◌then◌else◌, guard, ◌>>◌, set, take,
}

abbrev pub int_max : ℕ
int_max = 2 ^ 31 - 1

abbrev pub initial_array_size : ℕ
initial_array_size = 100

-- `malloc` and `realloc`, which grant or refuse so many bytes, what fresh slots hold, and the
-- session's `max_alloc`.
pub record Allocator (A : Type 0) : Type 0 where
  pub malloc : ℕ → Bool
  pub stale : ℕ → Option A
  pub max_alloc : ℕ

pub record ArrayList (A : Type 0) : Type 0 where
  pub items : List (Option A)
  pub size : ℕ
  pub capacity : ℕ

module _ {A : Type 0} where
  pub allocation_allowed : Allocator A → ℕ → Bool
  allocation_allowed memory size = memory.max_alloc == 0 || leb size memory.max_alloc

  -- `protocol_alloc` and `protocol_realloc` (src/shared/protocol.c).
  pub alloc : Allocator A → ℕ → Bool
  alloc memory size = allocation_allowed memory size && memory.malloc size

  -- The slots from index `i` on of a fresh piece of memory.
  pub fresh_slots : Allocator A → ℕ → ℕ → List (Option A)
  fresh_slots memory i zero = []
  fresh_slots memory i (suc n) = memory.stale i ∷ fresh_slots memory (i + 1) n

  -- 32 and 8 are the sizes of an `ArrayList` and of a pointer.
  pub create : Allocator A → Option (ArrayList A)
  create memory = do
    guard (alloc memory 32)
    guard (alloc memory (initial_array_size * 8))
    some (record {
      items = fresh_slots memory 0 initial_array_size;
      size = 0;
      capacity = initial_array_size;
    })

  pub extend : Allocator A → ArrayList A → Option (ArrayList A)
  extend memory array_list =
      let doubled = array_list.capacity * 2 in
      let new_capacity = if doubled == 0 then initial_array_size else doubled in
      do
        guard (not (ltb (int_max / 2) array_list.capacity))
        guard (alloc memory (new_capacity * 8))
        some (record array_list {
          items =
              array_list.items
              ++ fresh_slots memory array_list.capacity (new_capacity - array_list.capacity);
          capacity = new_capacity;
        })

  -- The writes of `array_list_add` once there is room.
  pub append_item : ArrayList A → A → ArrayList A
  append_item array_list item = record array_list {
    items = set array_list.items array_list.size (some item);
    size = array_list.size + 1;
  }

  pub add : Allocator A → ArrayList A → A → Bool × ArrayList A
  add memory array_list item =
      if array_list.capacity == array_list.size
      then elim (extend memory array_list) [
        | none ↦ (false, array_list)
        | some grown ↦ (true, append_item grown item)
      ]
      else (true, append_item array_list item)
