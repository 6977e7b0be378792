-- ===== src/Glob/Cells.antt =====
-- The byte of a cell from those that it is computed from, for each kind of pattern character.
use mathlib.Core.Path.{subst}
use fast_sync.Prelude.{
  ℕ, List, [], ◌∷◌, Bool, true, false, not, ◌&&◌, ◌||◌, ◌==◌, ◌≡◌, ◌≢◌, ◌⊎◌, ◌↔◌, inl, inr, refl,
  sym, ap, ◌∙◌, arith,
}
use fast_sync.Glob.Matches.{
  Matches, literal, any, star_none, star_more, globstar_none, globstar_more, no_directory, NotSlash,
  NotStar, skip_slash, literal_inv, any_inv, star_inv, globstar_inv, cons_head, cons_tail,
}

lost : false ≡ true → ⊥
lost h = cc

-- The bit tells whether the pattern matches the string.
abbrev pub Tells : Bool → List ℕ → List ℕ → Type 0
Tells b p s = (b ≡ true) ↔ Matches p s

-- The bit tells whether a character is left; the string is that character and the rest.
abbrev pub Front : Bool → ℕ → List ℕ → List ℕ → Type 0
Front t x s s' = ((t ≡ true) × (s ≡ x ∷ s')) ⊎ ((t ≡ false) × (s ≡ []))

-- A character that is no slash.
abbrev pub plain : ℕ → Bool → Bool → Bool
plain x t r = t && (not (x == 47) && r)

plain-eq_true : (x : ℕ) (t r : Bool) → plain x t r ≡ true → (t ≡ true) × (x ≢ 47) × (r ≡ true)
plain-eq_true x true true h = (refl, (λ e. ground arith), refl)
plain-eq_true x true false h = ground arith
plain-eq_true x false r h = cc

plain-of_parts : (x : ℕ) (t r : Bool) → t ≡ true → x ≢ 47 → r ≡ true → plain x t r ≡ true
plain-of_parts x true true h k l = ground arith
plain-of_parts x true false h k l = cc
plain-of_parts x false r h k l = cc

module _ {x : ℕ} {s s' : List ℕ} where
  pub globstar_cell :
      {q : List ℕ} (a t r : Bool)
      → Front t x s s'
      → Tells a (skip_slash q) s
      → (t ≡ true → Tells r (42 ∷ 42 ∷ q) s')
      → Tells (a || (t && r)) (42 ∷ 42 ∷ q) s
  globstar_cell true t r front here next = (λ h. globstar_none refl (here.0 refl), λ m. refl)
  globstar_cell false true true (inl (e, f)) here next =
      (λ h. globstar_more refl f ((next refl).0 refl), λ m. refl)
  globstar_cell false true true (inr (e, f)) here next = cc
  globstar_cell false false r (inl (e, f)) here next = cc
  globstar_cell false false r (inr (e, f)) here next =
      (λ h. cc, λ m. elim (globstar_inv m) [ inl k ↦ here.1 k | inr (y, t, g, k) ↦ cc (sym f ∙ g) ])
  globstar_cell false true false (inl (e, f)) here next = (
    λ h. cc,
    λ m. elim (globstar_inv m) [
      | inl k ↦ here.1 k
      | inr (y, t, g, k) ↦ (next refl).1 (subst (Matches _) (sym (cons_tail (sym f ∙ g))) k)
    ],
  )
  globstar_cell false true false (inr (e, f)) here next = cc

  pub star_cell :
      {p : List ℕ} (a t r : Bool)
      → NotStar p
      → Front t x s s'
      → Tells a p s
      → (t ≡ true → Tells r (42 ∷ p) s')
      → Tells (a || plain x t r) (42 ∷ p) s
  star_cell true t r lone front here next = (λ h. star_none refl lone (here.0 refl), λ m. refl)
  star_cell false t r lone (inl (e, f)) here next = (
    λ h.
        let (left, other, on) = plain-eq_true x t r h in
        star_more refl lone f other ((next e).0 on),
    λ m. elim (star_inv lone m) [
      | inl k ↦ absurd (lost (here.1 k))
      | inr (y, rest, g, other, k) ↦
          let same = sym f ∙ g in
          plain-of_parts x t r e (λ z. other (sym (cons_head same) ∙ z))
            ((next e).1 (subst (Matches _) (sym (cons_tail same)) k))
    ],
  )
  star_cell false t r lone (inr (e, f)) here next = (
    λ h. let (left, other, on) = plain-eq_true x t r h in cc,
    λ m. elim (star_inv lone m) [
      | inl k ↦ absurd (lost (here.1 k))
      | inr (y, rest, g, other, k) ↦ cc (sym f ∙ g)
    ],
  )

  pub any_cell :
      {p : List ℕ} (t r : Bool)
      → Front t x s s'
      → (t ≡ true → Tells r p s')
      → Tells (plain x t r) (63 ∷ p) s
  any_cell t r (inl (e, f)) next = (
    λ h. let (left, other, on) = plain-eq_true x t r h in any refl f other ((next e).0 on),
    λ m.
        let (y, rest, g, other, k) = any_inv m in
        let same = sym f ∙ g in
        plain-of_parts x t r e (λ z. other (sym (cons_head same) ∙ z))
          ((next e).1 (subst (Matches _) (sym (cons_tail same)) k)),
  )
  any_cell t r (inr (e, f)) next = (
    λ h. let (left, other, on) = plain-eq_true x t r h in cc,
    λ m. let (y, rest, g, other, k) = any_inv m in cc (sym f ∙ g),
  )

  pub literal_cell :
      {c : ℕ} {p : List ℕ} (r : Bool)
      → c ≢ 42
      → c ≢ 63
      → s ≡ x ∷ s'
      → x ≡ c
      → Tells r p s'
      → Tells r (c ∷ p) s
  literal_cell {c = c} r no_star no_any f same next = (
    λ h. literal refl (f ∙ ap (λ y. y ∷ s') same) no_star no_any (next.0 h),
    λ m. elim (literal_inv no_star no_any m) [
      | inl (rest, g, k) ↦ next.1 (subst (Matches _) (sym (cons_tail (sym f ∙ g))) k)
      | inr (q, slash, g, other, k) ↦ absurd (subst NotSlash f other (same ∙ slash))
    ],
  )

-- The character does not stand at the front of the string.
abbrev pub Elsewhere : ℕ → List ℕ → Type 0
Elsewhere c [] = Unit {0}
Elsewhere c (x ∷ s) = x ≢ c

Elsewhere-absurd : {c : ℕ} {s s' : List ℕ} → Elsewhere c s → s ≡ c ∷ s' → ⊥
Elsewhere-absurd other e = subst (Elsewhere _) e other refl

-- The slash before a globstar is left out.
pub no_directory_cell :
    {p q s : List ℕ} (r : Bool)
    → p ≡ 42 ∷ 42 ∷ q
    → NotSlash s
    → Tells r (skip_slash q) s
    → Tells r (47 ∷ p) s
no_directory_cell {q = q} {s = s} r e other here = (
  λ h. no_directory (ap (λ t. 47 ∷ t) e) other (here.0 h),
  λ m. elim (literal_inv (λ z. omega arith) (λ z. omega arith) m) [
    | inl (rest, g, k) ↦ absurd (subst NotSlash g other refl)
    | inr (q', slash, g, other', k) ↦
        here.1 (subst (λ t. Matches (skip_slash t) s) (cons_tail (cons_tail (sym g ∙ e))) k)
  ],
)

-- Nothing matches.
pub no_cell :
    {c : ℕ} {p s : List ℕ}
    → c ≢ 42
    → c ≢ 63
    → Elsewhere c s
    → ((q : List ℕ) → c ≡ 47 → p ≡ 42 ∷ 42 ∷ q → ⊥)
    → Tells false (c ∷ p) s
no_cell no_star no_any other no_globstar = (
  λ h. cc,
  λ m. elim (literal_inv no_star no_any m) [
    | inl (rest, g, k) ↦ absurd (Elsewhere-absurd other g)
    | inr (q, slash, g, other', k) ↦ absurd (no_globstar q slash g)
  ],
)
