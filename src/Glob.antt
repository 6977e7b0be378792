-- ===== src/Glob.antt =====
-- `glob_match` of src/shared/utils.c: a table over the positions of the pattern and the string, of
-- which four rows are kept. A string is the list of its bytes; a byte of a row is 0 or 1, a `Bool`.
pub mod Matches
pub mod Cells
pub mod Rows
pub mod Positions
pub mod Values
pub mod Table
mod Tests
use fast_sync.Prelude.{
  ℕ, zero, suc, ◌+◌, ◌-◌, ◌*◌, ◌/◌, ◌%◌, ◌^◌, List, [], ◌∷◌, Bool, true, false, not, ◌&&◌, ◌||◌,
  Option, none, some, bit_and, ltb, ◌==◌, if◌then◌else◌, length, get_or, set, modify,
}

-- The memory for the four rows of so many bytes each: the array on the stack and `malloc`'s.
pub record Scratch : Type 0 where
  pub stack : ℕ → List (List Bool)
  pub malloc : ℕ → Option (List (List Bool))

unfoldable pub rows_for : Scratch → ℕ → Option (List (List Bool))
rows_for scratch row_bytes =
    if ltb 257 row_bytes then scratch.malloc row_bytes else some (scratch.stack row_bytes)

-- `GLOB_ROW`
unfoldable pub glob_row : ℕ → ℕ → ℕ
glob_row pattern_len i = bit_and (pattern_len - i) 3

abbrev pub cell : ℕ → List (List Bool) → ℕ → ℕ → Bool
cell pattern_len rows i j = get_or (get_or rows (glob_row pattern_len i) []) j false

abbrev pub write : ℕ → List (List Bool) → ℕ → ℕ → Bool → List (List Bool)
write pattern_len rows i j v = modify rows (glob_row pattern_len i) (λ row. set row j v)

abbrev pub char_at : List ℕ → ℕ → ℕ
char_at str i = get_or str i 0

-- An optional slash after a globstar.
unfoldable pub after_slash : List ℕ → ℕ → ℕ
after_slash pattern rest =
    if ltb rest (length pattern) && char_at pattern rest == 47 then rest + 1 else rest

module _ (pattern str : List ℕ) where
  -- The byte for the positions `i` and `j`; 42, 63 and 47 are `*`, `?` and the slash.
  unfoldable pub value : List (List Bool) → ℕ → ℕ → Bool
  value rows i j =
      let n = length pattern in
      let m = length str in
      let pc = char_at pattern i in
      if pc == 42
      then (if ltb (i + 1) n && char_at pattern (i + 1) == 42
          then cell n rows (after_slash pattern (i + 2)) j || (ltb j m && cell n rows i (j + 1))
          else cell n rows (i + 1) j
            || (ltb j m && (not (char_at str j == 47) && cell n rows i (j + 1))))
      else if pc == 63
      then ltb j m && (not (char_at str j == 47) && cell n rows (i + 1) (j + 1))
      else if ltb j m && char_at str j == pc
      then cell n rows (i + 1) (j + 1)
      else if (pc == 47 && ltb (i + 2) n)
          && (char_at pattern (i + 1) == 42 && char_at pattern (i + 2) == 42)
      then cell n rows (after_slash pattern (i + 3)) j
      else false

  -- The loops over `j`, of which so many rounds are left.
  unfoldable pub fill_row : ℕ → ℕ → List (List Bool) → List (List Bool)
  fill_row i zero rows = rows
  fill_row i (suc j) rows = fill_row i j (write (length pattern) rows i j (value rows i j))

  -- The loop over `i`.
  unfoldable pub fill_rows : ℕ → List (List Bool) → List (List Bool)
  fill_rows zero rows = rows
  fill_rows (suc i) rows = fill_rows i (fill_row i (length str + 1) rows)

  unfoldable pub base_row : ℕ → ℕ → List (List Bool) → List (List Bool)
  base_row zero j rows = rows
  base_row (suc left) j rows =
      base_row left (j + 1) (write (length pattern) rows (length pattern) j (j == length str))

  abbrev pub match_rows : Option (List (List Bool)) → Bool
  match_rows none = false
  match_rows (some rows) =
      cell (length pattern) (fill_rows (length pattern) (base_row (length str + 1) 0 rows)) 0 0

unfoldable pub glob_match : Scratch → List ℕ → List ℕ → Bool
glob_match scratch pattern str =
    let n = length pattern in
    let m = length str in
    if n == 0
    then m == 0
    else if ltb ((2 ^ 64 - 1) / (n + 1) - 1) m
    then false
    else if ltb (64 * 1024 * 1024) ((n + 1) * (m + 1) % 2 ^ 64)
    then false
    else match_rows pattern str (rows_for scratch (m + 1))
