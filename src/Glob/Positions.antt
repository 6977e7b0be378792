-- ===== src/Glob/Positions.antt =====
-- Positions of a pattern and the lists that begin there.
use mathlib.Core.Path.{subst}
use fast_sync.Prelude.{
  ℕ, zero, suc, ◌+◌, ◌≤◌, ◌<◌, ◌≡◌, inl, inr, refl, sym, ap, ◌∙◌, List, [], ◌∷◌, Bool, true, false,
  ◌&&◌, arith, ltb, ◌==◌, Bool-cases, length, get_or, drop, ltb→lt, ltb→le,
}
use fast_sync.Glob.{char_at, after_slash}
use fast_sync.Glob.Matches.{NotStar, skip_slash}

drop-suc : (xs : List ℕ) (i : ℕ) → i < length xs → drop i xs ≡ get_or xs i 0 ∷ drop (suc i) xs
drop-suc [] i h = absurd (omega arith)
drop-suc (x ∷ xs) zero h = refl
drop-suc (x ∷ xs) (suc i) h = drop-suc xs i (omega arith)

pub drop_front : (xs : List ℕ) (i : ℕ) → i < length xs → drop i xs ≡ get_or xs i 0 ∷ drop (i + 1) xs
drop_front xs i h =
    let next : suc i ≡ i + 1 = omega arith in
    drop-suc xs i h ∙ ap (λ k. get_or xs i 0 ∷ drop k xs) next

pub get_or-drop : (xs : List ℕ) (a b : ℕ) → get_or (drop a xs) b 0 ≡ get_or xs (a + b) 0
get_or-drop xs zero b = ap (λ k. get_or xs k 0) (omega arith)
get_or-drop [] (suc a) b = refl
get_or-drop (x ∷ xs) (suc a) b =
    let e : suc a + b ≡ suc (a + b) = omega arith in rw e (get_or-drop xs a b)

pub drop_end : (xs : List ℕ) (i : ℕ) → length xs ≤ i → drop i xs ≡ []
drop_end [] zero h = refl
drop_end [] (suc i) h = refl
drop_end (x ∷ xs) zero h = absurd (omega arith)
drop_end (x ∷ xs) (suc i) h = drop_end xs i (omega arith)

module _ (pattern : List ℕ) where
  pub after_slash_lem :
      (rest : ℕ) → drop (after_slash pattern rest) pattern ≡ skip_slash (drop rest pattern)
  unfolding after_slash
  after_slash_lem rest = elim (Bool-cases (ltb rest (length pattern))) [
    | inl e ↦
        let front = drop_front pattern rest (ltb→lt _ _ e) in
        elim (Bool-cases (char_at pattern rest == 47)) [
          | inl f ↦ rw (e, f, front, f) refl
          | inr f ↦ rw (e, f, front, f) refl
        ]
    | inr e ↦ let over = drop_end pattern rest (ltb→le _ _ e) in rw (e, over) refl
  ]

  pub after_slash-bounds :
      (rest : ℕ)
      → rest ≤ length pattern
      → (rest ≤ after_slash pattern rest)
        × (after_slash pattern rest ≤ rest + 1)
        × (after_slash pattern rest ≤ length pattern)
  unfolding after_slash
  after_slash-bounds rest h =
      elim (Bool-cases (ltb rest (length pattern) && char_at pattern rest == 47)) [
        | inl e ↦ rw e (omega arith, omega arith, ground arith)
        | inr e ↦ rw e (omega arith, omega arith, h)
      ]

  -- Whether a star stands at a position.
  abbrev pub star_at : ℕ → Bool
  star_at i = ltb i (length pattern) && char_at pattern i == 42

  pub star_at-eq_true :
      (i : ℕ)
      → star_at i ≡ true
      → (i < length pattern) × (drop i pattern ≡ 42 ∷ drop (i + 1) pattern)
  star_at-eq_true i h =
      let inside : i < length pattern = ground arith in
      let star : char_at pattern i ≡ 42 = ground arith in
      (inside, drop_front pattern i inside ∙ ap (λ c. c ∷ drop (i + 1) pattern) star)

  pub star_at-eq_false : (i : ℕ) → star_at i ≡ false → NotStar (drop i pattern)
  star_at-eq_false i h = elim (Bool-cases (ltb i (length pattern))) [
    | inl e ↦
        let inside : i < length pattern = ltb→lt _ _ e in
        subst NotStar (sym (drop_front pattern i inside)) (λ s. ground arith)
    | inr e ↦ subst NotStar (sym (drop_end pattern i (ltb→le _ _ e))) tt
  ]
