-- ===== src/Glob/Table.antt =====
-- The table tells what the pattern matches, although a row takes the place of the one four rows below.
use mathlib.Core.Path.{subst}
use native.Mathlib.Nat.{mod-eq_of_lt, le-div_iff_mul-le, mul_comm}
use fast_sync.Prelude.{
  ℕ, zero, suc, ◌+◌, ◌-◌, ◌*◌, ◌/◌, ◌%◌, ◌^◌, ◌≤◌, ◌<◌, ◌≡◌, ◌≢◌, ◌↔◌, inl, inr, refl, sym, ap, ◌∙◌,
  List, [], ◌∷◌, Bool, true, false, some, arith, ltb, ◌==◌, Bool-cases, length, get_or, drop,
  length-drop, ltb→lt,
}
use fast_sync.Glob.{
  Scratch, rows_for, glob_row, write, value, fill_row, fill_rows, base_row, match_rows, glob_match,
}
use fast_sync.Glob.Matches.{Matches, ends, empty_inv}
use fast_sync.Glob.Cells.{Tells}
use fast_sync.Glob.Rows.{
  glob_row_lem, Shaped, cell-write_self, cell-write_row, cell-write_column, write-Shaped,
}
use fast_sync.Glob.Positions.{drop_end}
use fast_sync.Glob.Values.{Right, Readable, value_lem}

same_row : (n e i : ℕ) → n - e ≡ n - i → glob_row n e ≡ glob_row n i
same_row n e i h = glob_row_lem n e ∙ ap (λ x. x % 4) h ∙ sym (glob_row_lem n i)

-- The row four below is in the place of the row.
four_below : (n i : ℕ) → i + 4 ≤ n → glob_row n (i + 4) ≡ glob_row n i
four_below n i h = omega (arith, glob_row_lem n (i + 4), glob_row_lem n i)

near_rows : (n e i : ℕ) → i < e → e < i + 4 → e ≤ n → glob_row n i ≢ glob_row n e
near_rows n e i above near inside same = omega (arith, glob_row_lem n e, glob_row_lem n i)

of_cell : {a b : Bool} {p s : List ℕ} → a ≡ b → Tells b p s → Tells a p s
of_cell {p = p} {s = s} e h = subst (λ x. Tells x p s) (sym e) h

module _ (pattern str : List ℕ) where
  -- A row that is right in every column.
  abbrev Known : List (List Bool) → ℕ → Type 0
  Known rows e = (j : ℕ) → j ≤ length str → Right pattern str rows e j

  -- The rows from `i` on that are kept.
  record Kept (rows : List (List Bool)) (i : ℕ) : Type 0 where
    pub shaped : Shaped (length str + 1) rows
    pub rows_known : (e : ℕ) → i ≤ e → e < i + 4 → e ≤ length pattern → Known rows e

  -- Inside row `i`, with the columns from `k` on written.
  record Partly (rows : List (List Bool)) (i k : ℕ) : Type 0 where
    pub shaped : Shaped (length str + 1) rows
    pub later : (e : ℕ) → i < e → e < i + 4 → e ≤ length pattern → Known rows e
    pub written : (j : ℕ) → k ≤ j → j ≤ length str → Right pattern str rows i j
    pub before :
        (j : ℕ) → j < k → j ≤ length str → i + 4 ≤ length pattern → Right pattern str rows (i + 4) j

  Partly-Readable :
      (rows : List (List Bool)) (i j : ℕ)
      → i < length pattern
      → j ≤ length str
      → Partly rows i (suc j)
      → Readable pattern str rows i j
  Partly-Readable rows i j inside low p = record {
    below = λ e above near last. elim (Bool-cases (ltb e (i + 4))) [
      | inl t ↦ p.later e above (ltb→lt _ _ t) last j low
      | inr t ↦
          let same : i + 4 ≡ e = ground arith in
          subst (λ e. Right pattern str rows e j) same (p.before j (omega arith) low (omega arith))
    ];
    diagonal =
        λ left. p.later (i + 1) (omega arith) (omega arith) (omega arith) (j + 1) (omega arith);
    beside = λ left. p.written (j + 1) (omega arith) (omega arith);
  }

  -- One round of an inner loop.
  put-Partly :
      (rows : List (List Bool)) (i j : ℕ)
      → i < length pattern
      → j ≤ length str
      → Partly rows i (suc j)
      → Partly (write (length pattern) rows i j (value pattern str rows i j)) i j
  put-Partly rows i j inside low p = record {
    shaped = write-Shaped w n i j rows v p.shaped;
    later = λ e above near last k column.
        of_cell (cell-write_row n i j e k rows v (near_rows n e i above near last))
          (p.later e above near last k column);
    written = λ k from column. elim (Bool-cases (j == k)) [
      | inl t ↦
          let same : j ≡ k = ground arith in
          subst (λ k. Right pattern str (write n rows i j v) i k) same
            (of_cell (cell-write_self w n i j rows v p.shaped (omega arith))
              (value_lem pattern str rows i j inside (Partly-Readable rows i j inside low p)))
      | inr t ↦
          of_cell (cell-write_column w n i j k rows v p.shaped (λ e. ground arith))
            (p.written k (ground arith) column)
    ];
    before = λ k under column four.
        of_cell
          (ap (λ x. get_or (get_or (write n rows i j v) x []) k false) (four_below n i four)
            ∙ cell-write_column w n i j k rows v p.shaped (omega arith)
            ∙ ap (λ x. get_or (get_or rows x []) k false) (sym (four_below n i four)))
          (p.before k (omega arith) column four);
  }
    where
      n : ℕ
      n = length pattern

      w : ℕ
      w = length str + 1

      v : Bool
      v = value pattern str rows i j

  fill_row-Partly :
      (k i : ℕ) (rows : List (List Bool))
      → i < length pattern
      → k ≤ length str + 1
      → Partly rows i k
      → Partly (fill_row pattern str i k rows) i 0
  unfolding fill_row
  fill_row-Partly zero i rows inside low p = p
  fill_row-Partly (suc j) i rows inside low p =
      fill_row-Partly j i (write (length pattern) rows i j (value pattern str rows i j)) inside
        (omega arith) (put-Partly rows i j inside (omega arith) p)

  fill_row-Kept :
      (i : ℕ) (rows : List (List Bool))
      → i < length pattern
      → Kept rows (suc i)
      → Kept (fill_row pattern str i (length str + 1) rows) i
  fill_row-Kept i rows inside kept =
      let start : Partly rows i (length str + 1) = record {
        shaped = kept.shaped;
        later = λ e above near last. kept.rows_known e (omega arith) (omega arith) last;
        written = λ j from column. absurd (omega arith);
        before = λ j under column four.
            kept.rows_known (i + 4) (omega arith) (omega arith) four j column;
      } in
      let done = fill_row-Partly (length str + 1) i rows inside (omega arith) start in
      record {
        shaped = done.shaped;
        rows_known = λ e from near last j column. elim (Bool-cases (ltb i e)) [
          | inl t ↦ done.later e (ltb→lt _ _ t) near last j column
          | inr t ↦
              let same : i ≡ e = ground arith in
              subst (λ e. Right pattern str (fill_row pattern str i (length str + 1) rows) e j) same
                (done.written j (omega arith) column)
        ];
      }

  fill_rows-Kept :
      (i : ℕ) (rows : List (List Bool))
      → i ≤ length pattern
      → Kept rows i
      → Kept (fill_rows pattern str i rows) 0
  unfolding fill_rows
  fill_rows-Kept zero rows inside kept = kept
  fill_rows-Kept (suc i) rows inside kept =
      fill_rows-Kept i (fill_row pattern str i (length str + 1) rows) (omega arith)
        (fill_row-Kept i rows (omega arith) kept)

  -- The row of the pattern's end, with the columns below `j` written.
  record Base (rows : List (List Bool)) (j : ℕ) : Type 0 where
    pub shaped : Shaped (length str + 1) rows
    pub written : (k : ℕ) → k < j → k ≤ length str → Right pattern str rows (length pattern) k

  end_value :
      (j : ℕ)
      → j ≤ length str
      → Tells (j == length str) (drop (length pattern) pattern) (drop j str)
  end_value j low =
      let finished = drop_end pattern (length pattern) (omega arith) in
      subst (λ p. Tells (j == length str) p (drop j str)) (sym finished)
        (
          λ h. ends refl (drop_end str j (ground arith)),
          λ m.
              let none_left = ap length (empty_inv m) in
              let size = length-drop j str in
              let same : j ≡ length str = omega arith in ground arith,
        )

  base_row-Base :
      (left j : ℕ) (rows : List (List Bool))
      → j + left ≡ length str + 1
      → Base rows j
      → Base (base_row pattern str left j rows) (length str + 1)
  unfolding base_row
  base_row-Base zero j rows h b =
      let same : j ≡ length str + 1 = omega arith in subst (Base rows) same b
  base_row-Base (suc left) j rows h b =
      let n = length pattern in
      let w = length str + 1 in
      base_row-Base left (j + 1) (write n rows n j (j == length str)) (omega arith) (record {
        shaped = write-Shaped w n n j rows (j == length str) b.shaped;
        written = λ k under column. elim (Bool-cases (j == k)) [
          | inl t ↦
              let same : j ≡ k = ground arith in
              subst (λ k. Right pattern str (write n rows n j (j == length str)) n k) same
                (of_cell (cell-write_self w n n j rows (j == length str) b.shaped (omega arith))
                  (end_value j (omega arith)))
          | inr t ↦
              of_cell
                (cell-write_column w n n j k rows (j == length str) b.shaped (λ e. ground arith))
                (b.written k (ground arith) column)
        ];
      })

  pub match_rows-Tells :
      (rows : List (List Bool))
      → Shaped (length str + 1) rows
      → Tells (match_rows pattern str (some rows)) pattern str
  match_rows-Tells rows shaped =
      let n = length pattern in
      let base =
        base_row-Base (length str + 1) 0 rows (omega arith)
          (record { shaped = shaped; written = λ k under column. absurd (omega arith) }) in
      let kept =
        fill_rows-Kept n (base_row pattern str (length str + 1) 0 rows) (omega arith) (record {
          shaped = base.shaped;
          rows_known = λ e from near last j column.
              let same : n ≡ e = omega arith in
              subst (λ e. Right pattern str (base_row pattern str (length str + 1) 0 rows) e j) same
                (base.written j (omega arith) column);
        }) in
      kept.rows_known 0 (omega arith) (omega arith) (omega arith) 0 (omega arith)

no_length : (str : List ℕ) → length str ≡ 0 → str ≡ []
no_length [] h = refl
no_length (x ∷ str) h = absurd (omega arith)

lt_test : (a b : ℕ) → b ≤ a → ltb a b ≡ false
lt_test a b h = ground arith

-- The two tests of the size.
within_cap :
    (n m : ℕ)
    → (n + 1) * (m + 1) ≤ 64 * 1024 * 1024
    → (ltb ((2 ^ 64 - 1) / (n + 1) - 1) m ≡ false)
      × (ltb (64 * 1024 * 1024) ((n + 1) * (m + 1) % 2 ^ 64) ≡ false)
within_cap n m small =
    let swapped : (m + 1) * (n + 1) ≤ 2 ^ 64 - 1 = omega (arith, mul_comm (n + 1) (m + 1)) in
    let some_row : 0 < n + 1 = omega arith in
    let room : m + 1 ≤ (2 ^ 64 - 1) / (n + 1) =
      (le-div_iff_mul-le {k = n + 1} some_row).1 swapped in
    let word : (n + 1) * (m + 1) % 2 ^ 64 ≡ (n + 1) * (m + 1) = mod-eq_of_lt (omega arith) in
    (lt_test _ _ (omega arith), rw word (lt_test _ _ small))

-- Memory for the rows, where there is some, is four rows of the width asked for.
abbrev pub GivesRows : Scratch → ℕ → Type 0
GivesRows scratch w = (rows : List (List Bool)) × (rows_for scratch w ≡ some rows) × Shaped w rows

-- Where there is memory for four rows, and the pattern and the string, with an end mark each, span no
-- more than 64 Mi pairs of positions, `glob_match` returns true exactly when the pattern matches the
-- string: `?` for one character and `*` for any number of them, but no slash; `**` for anything, with
-- an optional slash after it and, where the string has none, before it.
pub glob_match-Matches :
    (scratch : Scratch) (pattern str : List ℕ)
    → GivesRows scratch (length str + 1)
    → (length pattern + 1) * (length str + 1) ≤ 64 * 1024 * 1024
    → (glob_match scratch pattern str ≡ true) ↔ Matches pattern str
unfolding glob_match
glob_match-Matches scratch [] str given small = (
  λ h. ends refl (no_length str (ground arith)),
  λ m. let size = ap length (empty_inv m) in ground arith,
)
glob_match-Matches scratch (c ∷ pattern) str (rows, given, shaped) small =
    let n = length (c ∷ pattern) in
    let m = length str in
    let some_pattern : (n == 0) ≡ false = ground arith in
    let (first, second) = within_cap n m small in
    rw (some_pattern, first, second, given) (match_rows-Tells (c ∷ pattern) str rows shaped)
