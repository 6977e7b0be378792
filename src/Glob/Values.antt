-- ===== src/Glob/Values.antt =====
-- The byte that the inner loops compute.
use mathlib.Core.Path.{subst}
use fast_sync.Prelude.{
  ℕ, ◌+◌, ◌≤◌, ◌<◌, ◌≡◌, ◌≢◌, inl, inr, sym, ap, ◌∙◌, List, [], ◌∷◌, Bool, true, false, ◌&&◌, ◌||◌,
  arith, ltb, ◌==◌, Bool-cases, length, get_or, drop, length-drop, ltb→lt, ltb→le,
}
use fast_sync.Glob.{cell, char_at, after_slash, value}
use fast_sync.Glob.Matches.{NotSlash, skip_slash}
use fast_sync.Glob.Cells.{
  Tells, Front, plain, Elsewhere, globstar_cell, star_cell, any_cell, literal_cell,
  no_directory_cell, no_cell,
}
use fast_sync.Glob.Positions.{
  drop_front, drop_end, get_or-drop, after_slash_lem, after_slash-bounds, star_at, star_at-eq_true,
  star_at-eq_false,
}

for_pattern : {b : Bool} {p q s : List ℕ} → q ≡ p → Tells b p s → Tells b q s
for_pattern {b = b} {s = s} e h = subst (λ p. Tells b p s) (sym e) h

module _ (pattern str : List ℕ) where
  -- The pattern from `e` on against the string from `j` on.
  abbrev pub Right : List (List Bool) → ℕ → ℕ → Type 0
  Right rows e j = Tells (cell (length pattern) rows e j) (drop e pattern) (drop j str)

  front : (j : ℕ) → Front (ltb j (length str)) (char_at str j) (drop j str) (drop (j + 1) str)
  front j = elim (Bool-cases (ltb j (length str))) [
    | inl e ↦ inl (e, drop_front str j (ltb→lt _ _ e))
    | inr e ↦ inr (e, drop_end str j (ltb→le _ _ e))
  ]

  -- What a cell may read.
  pub record Readable (rows : List (List Bool)) (i j : ℕ) : Type 0 where
    pub below : (e : ℕ) → i < e → e ≤ i + 4 → e ≤ length pattern → Right rows e j
    pub diagonal : j < length str → Right rows (i + 1) (j + 1)
    pub beside : j < length str → Right rows i (j + 1)

  module _ (rows : List (List Bool)) (i j : ℕ) (inside : i < length pattern)
      (r : Readable rows i j) where
    -- A cell that begins after a globstar.
    after_globstar :
        (rest : ℕ)
        → i < rest
        → rest ≤ i + 3
        → rest ≤ length pattern
        → Tells
            (cell (length pattern) rows (after_slash pattern rest) j)
            (skip_slash (drop rest pattern))
            (drop j str)
    after_globstar rest above near fits =
        let (low, high, last) = after_slash-bounds pattern rest fits in
        subst (λ p. Tells (cell (length pattern) rows (after_slash pattern rest) j) p (drop j str))
          (after_slash_lem pattern rest)
          (r.below (after_slash pattern rest) (omega arith) (omega arith) last)

    -- The cell to the right, for the pattern as it is known.
    beside_as :
        (p : List ℕ)
        → drop i pattern ≡ p
        → ltb j (length str) ≡ true
        → Tells (cell (length pattern) rows i (j + 1)) p (drop (j + 1) str)
    beside_as p e h =
        subst (λ p. Tells (cell (length pattern) rows i (j + 1)) p (drop (j + 1) str)) e
          (r.beside (ltb→lt _ _ h))

    globstar_value :
        char_at pattern i ≡ 42
        → star_at pattern (i + 1) ≡ true
        → Tells
            (cell (length pattern) rows (after_slash pattern (i + 2)) j
              || (ltb j (length str) && cell (length pattern) rows i (j + 1)))
            (drop i pattern)
            (drop j str)
    globstar_value star again =
        let (room, next) = star_at-eq_true pattern (i + 1) again in
        let two : i + 1 + 1 ≡ i + 2 = omega arith in
        let whole : drop i pattern ≡ 42 ∷ 42 ∷ drop (i + 2) pattern =
          drop_front pattern i inside
          ∙ ap (λ c. c ∷ drop (i + 1) pattern) star
          ∙ ap (λ p. 42 ∷ p) next
          ∙ ap (λ k. 42 ∷ 42 ∷ drop k pattern) two in
        for_pattern whole (
          globstar_cell _ _ _ (front j)
            (after_globstar (i + 2) (omega arith) (omega arith) (omega arith)) (beside_as _ whole))

    star_value :
        char_at pattern i ≡ 42
        → star_at pattern (i + 1) ≡ false
        → Tells
            (cell (length pattern) rows (i + 1) j
              || plain (char_at str j) (ltb j (length str)) (cell (length pattern) rows i (j + 1)))
            (drop i pattern)
            (drop j str)
    star_value star lone =
        let whole : drop i pattern ≡ 42 ∷ drop (i + 1) pattern =
          drop_front pattern i inside ∙ ap (λ c. c ∷ drop (i + 1) pattern) star in
        for_pattern whole (
          star_cell _ _ _ (star_at-eq_false pattern (i + 1) lone) (front j)
            (r.below (i + 1) (omega arith) (omega arith) (omega arith)) (beside_as _ whole))

    any_value :
        char_at pattern i ≡ 63
        → Tells
            (plain
              (char_at str j)
              (ltb j (length str))
              (cell (length pattern) rows (i + 1) (j + 1)))
            (drop i pattern)
            (drop j str)
    any_value question =
        let whole : drop i pattern ≡ 63 ∷ drop (i + 1) pattern =
          drop_front pattern i inside ∙ ap (λ c. c ∷ drop (i + 1) pattern) question in
        for_pattern whole (any_cell _ _ (front j) (λ h. r.diagonal (ltb→lt _ _ h)))

    literal_value :
        char_at pattern i ≢ 42
        → char_at pattern i ≢ 63
        → (ltb j (length str) && char_at str j == char_at pattern i) ≡ true
        → Tells (cell (length pattern) rows (i + 1) (j + 1)) (drop i pattern) (drop j str)
    literal_value no_star no_any hit =
        let left : j < length str = ground arith in
        let same : char_at str j ≡ char_at pattern i = ground arith in
        for_pattern (drop_front pattern i inside)
          (literal_cell _ no_star no_any (drop_front str j left) same (r.diagonal left))

    elsewhere :
        (c : ℕ) → (ltb j (length str) && char_at str j == c) ≡ false → Elsewhere c (drop j str)
    elsewhere c miss = elim (Bool-cases (ltb j (length str))) [
      | inl e ↦ subst (Elsewhere c) (sym (drop_front str j (ltb→lt _ _ e))) (λ s. ground arith)
      | inr e ↦ subst (Elsewhere c) (sym (drop_end str j (ltb→le _ _ e))) tt
    ]

    NotSlash-Elsewhere : (s : List ℕ) → Elsewhere 47 s → NotSlash s
    NotSlash-Elsewhere [] h = tt
    NotSlash-Elsewhere (x ∷ s) h = h

    -- The test for a globstar after the slash.
    abbrev globstar_after : Bool
    globstar_after =
        (char_at pattern i == 47 && ltb (i + 2) (length pattern))
        && (char_at pattern (i + 1) == 42 && char_at pattern (i + 2) == 42)

    no_directory_value :
        globstar_after ≡ true
        → (ltb j (length str) && char_at str j == char_at pattern i) ≡ false
        → Tells
            (cell (length pattern) rows (after_slash pattern (i + 3)) j)
            (drop i pattern)
            (drop j str)
    no_directory_value after miss =
        let slash : char_at pattern i ≡ 47 = ground arith in
        let room : i + 2 < length pattern = ground arith in
        let first : char_at pattern (i + 1) ≡ 42 = ground arith in
        let second : char_at pattern (i + 2) ≡ 42 = ground arith in
        let two : i + 1 + 1 ≡ i + 2 = omega arith in
        let three : i + 2 + 1 ≡ i + 3 = omega arith in
        let stars : drop (i + 1) pattern ≡ 42 ∷ 42 ∷ drop (i + 3) pattern =
          drop_front pattern (i + 1) (omega arith)
          ∙ ap (λ c. c ∷ drop (i + 1 + 1) pattern) first
          ∙ ap (λ k. 42 ∷ drop k pattern) two
          ∙ ap (λ p. 42 ∷ p) (drop_front pattern (i + 2) room)
          ∙ ap (λ c. 42 ∷ c ∷ drop (i + 2 + 1) pattern) second
          ∙ ap (λ k. 42 ∷ 42 ∷ drop k pattern) three in
        let whole : drop i pattern ≡ 47 ∷ drop (i + 1) pattern =
          drop_front pattern i inside ∙ ap (λ c. c ∷ drop (i + 1) pattern) slash in
        for_pattern whole (
          no_directory_cell _ stars
            (NotSlash-Elsewhere (drop j str)
              (subst (λ c. Elsewhere c (drop j str)) slash (elsewhere _ miss)))
            (after_globstar (i + 3) (omega arith) (omega arith) (omega arith)))

    no_value :
        char_at pattern i ≢ 42
        → char_at pattern i ≢ 63
        → (ltb j (length str) && char_at str j == char_at pattern i) ≡ false
        → globstar_after ≡ false
        → Tells false (drop i pattern) (drop j str)
    no_value no_star no_any miss after = for_pattern (drop_front pattern i inside) (
        no_cell no_star no_any (elsewhere _ miss) (λ q slash stars.
          let size : length (drop (i + 1) pattern) ≡ length (42 ∷ 42 ∷ q) = ap length stars in
          let first : char_at pattern (i + 1) ≡ 42 =
            ap (char_at pattern) (omega arith)
            ∙ sym (get_or-drop pattern (i + 1) 0)
            ∙ ap (λ p. get_or p 0 0) stars in
          let second : char_at pattern (i + 2) ≡ 42 =
            ap (char_at pattern) (omega arith)
            ∙ sym (get_or-drop pattern (i + 1) 1)
            ∙ ap (λ p. get_or p 1 0) stars in
          let room : i + 2 < length pattern = omega (arith, length-drop (i + 1) pattern) in
          ground arith))

    pub value_lem : Tells (value pattern str rows i j) (drop i pattern) (drop j str)
    unfolding value
    value_lem = elim (Bool-cases (char_at pattern i == 42)) [
      | inl star ↦ elim (Bool-cases (star_at pattern (i + 1))) [
        | inl again ↦ rw (star, again) (globstar_value (ground arith) again)
        | inr lone ↦ rw (star, lone) (star_value (ground arith) lone)
      ]
      | inr no_star ↦ elim (Bool-cases (char_at pattern i == 63)) [
        | inl question ↦ rw (no_star, question) (any_value (ground arith))
        | inr no_any ↦
            elim (Bool-cases (ltb j (length str) && char_at str j == char_at pattern i)) [
              | inl hit ↦
                  rw (no_star, no_any, hit)
                    (literal_value (λ e. ground arith) (λ e. ground arith) hit)
              | inr miss ↦ elim (Bool-cases globstar_after) [
                | inl after ↦ rw (no_star, no_any, miss, after) (no_directory_value after miss)
                | inr after ↦
                    rw (no_star, no_any, miss, after)
                      (no_value (λ e. ground arith) (λ e. ground arith) miss after)
              ]
            ]
      ]
    ]
