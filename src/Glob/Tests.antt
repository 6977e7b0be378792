-- ===== src/Glob/Tests.antt =====
-- Runs of the glob matcher and an instance of its theorem.
use fast_sync.Prelude.{
  ℕ, zero, suc, List, [], ◌∷◌, ◌≡◌, ◌↔◌, Bool, true, false, refl, some, arith, length, replicate,
  length-replicate, get_or, ◌<◌,
}
use fast_sync.Glob.{
  Scratch, rows_for, glob_row, after_slash, value, fill_row, fill_rows, base_row, glob_match,
}
use fast_sync.Glob.Matches.{Matches}
use fast_sync.Glob.Table.{glob_match-Matches}

abbrev four_rows : ℕ → List (List Bool)
four_rows w = replicate 4 (replicate w false)

abbrev scratch : Scratch
scratch = record { stack = four_rows; malloc = λ w. some (four_rows w) }

-- `a/**/b`, `a/b`, `a/x/y/b`, `ax/b`
abbrev deep : List ℕ
deep = 97 ∷ 47 ∷ 42 ∷ 42 ∷ 47 ∷ 98 ∷ []

abbrev near : List ℕ
near = 97 ∷ 47 ∷ 98 ∷ []

abbrev far : List ℕ
far = 97 ∷ 47 ∷ 120 ∷ 47 ∷ 121 ∷ 47 ∷ 98 ∷ []

near_matches : glob_match scratch deep near ≡ true
unfolding glob_match rows_for glob_row after_slash value fill_row fill_rows base_row
near_matches = refl

far_matches : glob_match scratch deep far ≡ true
unfolding glob_match rows_for glob_row after_slash value fill_row fill_rows base_row
far_matches = refl

-- `a*b` does not cross a slash.
star_stays : glob_match scratch (97 ∷ 42 ∷ 98 ∷ []) near ≡ false
unfolding glob_match rows_for glob_row after_slash value fill_row fill_rows base_row
star_stays = refl

four_rows-wide : (w k : ℕ) → k < 4 → length (get_or (four_rows w) k []) ≡ w
four_rows-wide w zero h = length-replicate w false
four_rows-wide w (suc zero) h = length-replicate w false
four_rows-wide w (suc (suc zero)) h = length-replicate w false
four_rows-wide w (suc (suc (suc zero))) h = length-replicate w false
four_rows-wide w (suc (suc (suc (suc k)))) h = absurd (omega arith)

glob_match-Matches_example : (glob_match scratch deep far ≡ true) ↔ Matches deep far
unfolding rows_for
glob_match-Matches_example =
    glob_match-Matches scratch deep far
      (four_rows 8, refl, record { four = refl; wide = four_rows-wide 8 }) (omega arith)
