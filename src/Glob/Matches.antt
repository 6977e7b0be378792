-- ===== src/Glob/Matches.antt =====
-- What a pattern matches, without the table.
use mathlib.Core.Path.{subst}
use fast_sync.Prelude.{
  ℕ, List, [], ◌∷◌, ◌≡◌, ◌≢◌, ◌⊎◌, inl, inr, refl, sym, ap, ◌∙◌, arith, ◌==◌, if◌then◌else◌, get_or,
  drop,
}

abbrev pub NotSlash : List ℕ → Type 0
NotSlash [] = Unit {0}
NotSlash (x ∷ str) = x ≢ 47

abbrev pub NotStar : List ℕ → Type 0
NotStar [] = Unit {0}
NotStar (c ∷ pattern) = c ≢ 42

-- The pattern without a slash at its front.
abbrev pub skip_slash : List ℕ → List ℕ
skip_slash [] = []
skip_slash (c ∷ pattern) = if c == 47 then pattern else c ∷ pattern

-- A `?` stands for a character, `*` for any number of them, neither for a slash; `**` stands for
-- anything, a slash after it may be missing in the string, and so may one before it.
pub data Matches : List ℕ → List ℕ → Type 0 where
  ends : {p s : List ℕ} → p ≡ [] → s ≡ [] → Matches p s
  literal :
      {p s : List ℕ} {c : ℕ} {p' s' : List ℕ}
      → p ≡ c ∷ p'
      → s ≡ c ∷ s'
      → c ≢ 42
      → c ≢ 63
      → Matches p' s'
      → Matches p s
  any :
      {p s : List ℕ} {x : ℕ} {p' s' : List ℕ}
      → p ≡ 63 ∷ p'
      → s ≡ x ∷ s'
      → x ≢ 47
      → Matches p' s'
      → Matches p s
  star_none : {p s p' : List ℕ} → p ≡ 42 ∷ p' → NotStar p' → Matches p' s → Matches p s
  star_more :
      {p s : List ℕ} {x : ℕ} {p' s' : List ℕ}
      → p ≡ 42 ∷ p'
      → NotStar p'
      → s ≡ x ∷ s'
      → x ≢ 47
      → Matches p s'
      → Matches p s
  globstar_none : {p s q : List ℕ} → p ≡ 42 ∷ 42 ∷ q → Matches (skip_slash q) s → Matches p s
  globstar_more :
      {p s : List ℕ} {x : ℕ} {q s' : List ℕ}
      → p ≡ 42 ∷ 42 ∷ q
      → s ≡ x ∷ s'
      → Matches p s'
      → Matches p s
  no_directory :
      {p s q : List ℕ} → p ≡ 47 ∷ 42 ∷ 42 ∷ q → NotSlash s → Matches (skip_slash q) s → Matches p s

pub cons_head : {c d : ℕ} {p q : List ℕ} → c ∷ p ≡ d ∷ q → c ≡ d
cons_head e = ap (λ l. get_or l 0 0) e

pub cons_tail : {c d : ℕ} {p q : List ℕ} → c ∷ p ≡ d ∷ q → p ≡ q
cons_tail e = ap (drop 1) e

pub empty_inv : {s : List ℕ} → Matches [] s → s ≡ []
empty_inv (ends e f) = f
empty_inv (literal e f k l m) = cc
empty_inv (any e f k m) = cc
empty_inv (star_none e k m) = cc
empty_inv (star_more e k f l m) = cc
empty_inv (globstar_none e m) = cc
empty_inv (globstar_more e f m) = cc
empty_inv (no_directory e k m) = cc

pub literal_inv :
    {c : ℕ} {p s : List ℕ}
    → c ≢ 42
    → c ≢ 63
    → Matches (c ∷ p) s
    → ((s' : List ℕ) × (s ≡ c ∷ s') × Matches p s')
      ⊎ ((q : List ℕ) × (c ≡ 47) × (p ≡ 42 ∷ 42 ∷ q) × NotSlash s × Matches (skip_slash q) s)
literal_inv no_star no_any (ends e f) = cc
literal_inv {p = p} {s = s} no_star no_any (literal {p' = p'} {s' = s'} e f k l m) =
    inl (
      s',
      f ∙ ap (λ x. x ∷ s') (sym (cons_head e)),
      subst (λ t. Matches t s') (sym (cons_tail e)) m,
    )
literal_inv no_star no_any (any e f k m) = absurd (no_any (cons_head e))
literal_inv no_star no_any (star_none e k m) = absurd (no_star (cons_head e))
literal_inv no_star no_any (star_more e k f l m) = absurd (no_star (cons_head e))
literal_inv no_star no_any (globstar_none e m) = absurd (no_star (cons_head e))
literal_inv no_star no_any (globstar_more e f m) = absurd (no_star (cons_head e))
literal_inv no_star no_any (no_directory {q = q} e k m) = inr (q, cons_head e, cons_tail e, k, m)

pub any_inv :
    {p s : List ℕ}
    → Matches (63 ∷ p) s
    → (x : ℕ) × (s' : List ℕ) × (s ≡ x ∷ s') × (x ≢ 47) × Matches p s'
any_inv (ends e f) = cc
any_inv (literal e f k l m) = absurd (l (sym (cons_head e)))
any_inv (any {x = x} {s' = s'} e f k m) =
    (x, s', f, k, subst (λ t. Matches t s') (sym (cons_tail e)) m)
any_inv (star_none e k m) = let c = cons_head e in absurd (omega arith)
any_inv (star_more e k f l m) = let c = cons_head e in absurd (omega arith)
any_inv (globstar_none e m) = let c = cons_head e in absurd (omega arith)
any_inv (globstar_more e f m) = let c = cons_head e in absurd (omega arith)
any_inv (no_directory e k m) = let c = cons_head e in absurd (omega arith)

pub star_inv :
    {p s : List ℕ}
    → NotStar p
    → Matches (42 ∷ p) s
    → Matches p s ⊎ ((x : ℕ) × (s' : List ℕ) × (s ≡ x ∷ s') × (x ≢ 47) × Matches (42 ∷ p) s')
star_inv lone (ends e f) = cc
star_inv lone (literal e f k l m) = absurd (k (sym (cons_head e)))
star_inv lone (any e f k m) = let c = cons_head e in absurd (omega arith)
star_inv {s = s} lone (star_none e k m) = inl (subst (λ t. Matches t s) (sym (cons_tail e)) m)
star_inv lone (star_more {x = x} {s' = s'} e k f l m) = inr (x, s', f, l, m)
star_inv lone (globstar_none e m) = absurd (subst NotStar (cons_tail e) lone refl)
star_inv lone (globstar_more e f m) = absurd (subst NotStar (cons_tail e) lone refl)
star_inv lone (no_directory e k m) = let c = cons_head e in absurd (omega arith)

pub globstar_inv :
    {p s : List ℕ}
    → Matches (42 ∷ 42 ∷ p) s
    → Matches (skip_slash p) s ⊎ ((x : ℕ) × (s' : List ℕ) × (s ≡ x ∷ s') × Matches (42 ∷ 42 ∷ p) s')
globstar_inv (ends e f) = cc
globstar_inv (literal e f k l m) = absurd (k (sym (cons_head e)))
globstar_inv (any e f k m) = let c = cons_head e in absurd (omega arith)
globstar_inv (star_none e k m) = absurd (subst NotStar (sym (cons_tail e)) k refl)
globstar_inv (star_more e k f l m) = absurd (subst NotStar (sym (cons_tail e)) k refl)
globstar_inv {s = s} (globstar_none e m) =
    inl (subst (λ t. Matches (skip_slash t) s) (sym (cons_tail (cons_tail e))) m)
globstar_inv (globstar_more {x = x} {s' = s'} e f m) = inr (x, s', f, m)
globstar_inv (no_directory e k m) = let c = cons_head e in absurd (omega arith)
