-- ===== src/Glob/Rows.antt =====
-- Writes and reads of the four rows.
use mathlib.Core.Path.{subst}
use fast_sync.Prelude.{
  ℕ, ◌-◌, ◌%◌, ◌<◌, ◌≡◌, ◌≢◌, inl, inr, ap, ◌∙◌, List, Bool, false, arith, ◌==◌, Bool-cases, ==_iff,
  length, get_or, set, length-modify, length-set, get_or-set_self, get_or-set_ne,
  get_or-modify_self, get_or-modify_ne, List, [],
}
use fast_sync.Prelude.Masks.{bit_and-low}
use fast_sync.Glob.{glob_row, cell, write}

pub glob_row_lem : (n i : ℕ) → glob_row n i ≡ (n - i) % 4
unfolding glob_row
glob_row_lem n i = bit_and-low (n - i) 2

-- Four rows of `w` bytes.
pub record Shaped (w : ℕ) (rows : List (List Bool)) : Type 0 where
  pub four : length rows ≡ 4
  pub wide : (k : ℕ) → k < 4 → length (get_or rows k []) ≡ w

glob_row-lt : (n i : ℕ) → glob_row n i < 4
glob_row-lt n i = omega (arith, glob_row_lem n i)

pub cell-write_self :
    (w n i j : ℕ) (rows : List (List Bool)) (v : Bool)
    → Shaped w rows
    → j < w
    → cell n (write n rows i j v) i j ≡ v
cell-write_self w n i j rows v shaped h =
    let low = glob_row-lt n i in
    ap (λ row. get_or row j false)
      (get_or-modify_self rows (glob_row n i) (λ row. set row j v) [] (omega (arith, shaped.four)))
    ∙ get_or-set_self (get_or rows (glob_row n i) []) j v false
        (omega (arith, shaped.wide (glob_row n i) low))

-- Another row.
pub cell-write_row :
    (n i j e k : ℕ) (rows : List (List Bool)) (v : Bool)
    → glob_row n i ≢ glob_row n e
    → cell n (write n rows i j v) e k ≡ cell n rows e k
cell-write_row n i j e k rows v h =
    ap (λ row. get_or row k false)
      (get_or-modify_ne rows (glob_row n i) (glob_row n e) (λ row. set row j v) [] h)

-- Another column of the same row.
pub cell-write_column :
    (w n i j k : ℕ) (rows : List (List Bool)) (v : Bool)
    → Shaped w rows
    → j ≢ k
    → cell n (write n rows i j v) i k ≡ cell n rows i k
cell-write_column w n i j k rows v shaped h =
    ap (λ row. get_or row k false)
      (get_or-modify_self rows (glob_row n i) (λ row. set row j v) []
        (omega (arith, shaped.four, glob_row-lt n i)))
    ∙ get_or-set_ne (get_or rows (glob_row n i) []) j k v false h

pub write-Shaped :
    (w n i j : ℕ) (rows : List (List Bool)) (v : Bool)
    → Shaped w rows
    → Shaped w (write n rows i j v)
write-Shaped w n i j rows v shaped = record {
  four = length-modify rows (glob_row n i) (λ row. set row j v) ∙ shaped.four;
  wide = λ k h. elim (Bool-cases (glob_row n i == k)) [
    | inl e ↦
        let same : glob_row n i ≡ k = (==_iff _ _).0 e in
        subst (λ x. length (get_or (write n rows i j v) x []) ≡ w) same
          (ap length (
              get_or-modify_self rows (glob_row n i) (λ row. set row j v) []
                (omega (arith, shaped.four, glob_row-lt n i)))
            ∙ length-set (get_or rows (glob_row n i) []) j v
            ∙ shaped.wide (glob_row n i) (glob_row-lt n i))
    | inr e ↦
        ap length (
          get_or-modify_ne rows (glob_row n i) k (λ row. set row j v) []
            (λ same. let t = (==_iff (glob_row n i) k).1 same in cc))
        ∙ shaped.wide k h
  ];
}
