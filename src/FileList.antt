-- ===== src/FileList.antt =====
-- src/shared/file_list.c: the entries of a `--files-from` list. A string is the list of its bytes.
pub mod Segments
pub mod Normal
pub mod Scope
mod Tests
use fast_sync.Prelude.{
  ℕ, zero, suc, ◌+◌, ◌-◌, ◌*◌, ◌/◌, ◌^◌, List, [], ◌∷◌, ◌++◌, Bool, true, false, not, ◌&&◌, ◌||◌,
  Option, none, some, ltb, ◌==◌, if◌then◌else◌, guard, ◌>>◌, length, get_or, take,
}

abbrev pub int_max : ℕ
int_max = 2 ^ 31 - 1

-- `malloc` and `realloc`, which grant or refuse so many bytes.
pub record Memory : Type 0 where
  pub malloc : ℕ → Bool
  pub realloc : ℕ → Bool

-- The length of `items` is `count`.
pub record StringList : Type 0 where
  pub items : List (List ℕ)
  pub capacity : ℕ

unfoldable pub string_list_add : Memory → StringList → List ℕ → Option StringList
string_list_add memory list text =
    let new_cap = if ltb 0 list.capacity then list.capacity * 2 else 16 in
    let full = length list.items == list.capacity in
    do
      guard (not (full && ltb (int_max / 2) list.capacity))
      guard (not full || memory.realloc (new_cap * 8))
      guard (memory.malloc (length text + 1))
      some (record {
        items = list.items ++ (text ∷ []);
        capacity = if full then new_cap else list.capacity;
      })

-- The entry without the CR and LF at its end.
unfoldable pub strip_endings : List ℕ → List ℕ
strip_endings [] = []
strip_endings (c ∷ raw) =
    let rest = strip_endings raw in
    if length rest == 0 && (c == 10 || c == 13) then [] else c ∷ rest

unfoldable pub has_nul : List ℕ → Bool
has_nul [] = false
has_nul (c ∷ raw) = c == 0 || has_nul raw

-- The string at the start of a buffer: the bytes before the first NUL.
unfoldable pub c_string : List ℕ → List ℕ
c_string [] = []
c_string (c ∷ raw) = let rest = c_string raw in if c == 0 then [] else c ∷ rest

unfoldable pub first_cons : ℕ → List (List ℕ) → List (List ℕ)
first_cons c [] = (c ∷ []) ∷ []
first_cons c (part ∷ parts) = (c ∷ part) ∷ parts

-- The parts between the slashes, as `strchr` finds them.
unfoldable pub segments : List ℕ → List (List ℕ)
segments [] = [] ∷ []
segments (c ∷ path) = let rest = segments path in if c == 47 then [] ∷ rest else first_cons c rest

abbrev pub is_dot : List ℕ → Bool
is_dot part = length part == 1 && get_or part 0 0 == 46

abbrev pub is_dot_dot : List ℕ → Bool
is_dot_dot part = length part == 2 && (get_or part 0 0 == 46 && get_or part 1 0 == 46)

-- The writes for one part at the end of what was kept. The source keeps it at the start of the same
-- buffer, before the part that it reads.
unfoldable pub keep_part : List ℕ → List ℕ → List ℕ
keep_part out part = if ltb 0 (length out) then out ++ (47 ∷ part) else part

-- The loop that rebuilds the path, over the parts.
unfoldable pub rebuild : List ℕ → List (List ℕ) → Option (List ℕ)
rebuild out [] = some out
rebuild out (part ∷ parts) =
    let skipped = rebuild out parts in
    let kept = rebuild (keep_part out part) parts in
    if is_dot part
    then skipped
    else if is_dot_dot part
    then none
    else if ltb 0 (length part)
    then kept
    else skipped

-- The results 1, 0 and -1 of `normalize_entry`.
pub data Normalized : Type 0 where
  added : StringList → Normalized
  blank invalid : Normalized

-- The tail of `normalize_entry`, from the copy of the entry on.
unfoldable pub add_entry : Memory → List ℕ → StringList → Normalized
add_entry memory entry out =
    if memory.malloc (length entry + 1)
    then elim (rebuild [] (segments (c_string entry))) [
      | none ↦ invalid
      | some path ↦ elim (string_list_add memory out path) [
        | none ↦ invalid
        | some list ↦ added list
      ]
    ]
    else invalid

unfoldable pub normalize_entry : Memory → List ℕ → Bool → StringList → Normalized
normalize_entry memory raw strip_line_endings out =
    let entry = if strip_line_endings then strip_endings raw else raw in
    if length entry == 0
    then blank
    else if get_or entry 0 0 == 47
    then invalid
    else if has_nul (if strip_line_endings then entry else take (length entry - 1) entry)
    then invalid
    else add_entry memory entry out
