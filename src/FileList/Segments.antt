-- ===== src/FileList/Segments.antt =====
-- Splitting a path at its slashes.
use fast_sync.Prelude.{
  ℕ, ◌≡◌, inl, inr, refl, ap, ◌∙◌, List, [], ◌∷◌, ◌++◌, false, ◌==◌, Bool-cases,
}
use fast_sync.FileList.{first_cons, segments}

abbrev pub HasNoSlash : List ℕ → Type 0
HasNoSlash [] = Unit {0}
HasNoSlash (c ∷ part) = ((c == 47) ≡ false) × HasNoSlash part

-- A property of every part.
abbrev pub All : (List ℕ → Type 0) → List (List ℕ) → Type 0
All P [] = Unit {0}
All P (part ∷ parts) = P part × All P parts

pub All-append :
    (P : List ℕ → Type 0) (ps qs : List (List ℕ)) → All P ps → All P qs → All P (ps ++ qs)
All-append P [] qs a b = b
All-append P (p ∷ ps) qs a b = (a.0, All-append P ps qs a.1 b)

pub segments_cons : (path : List ℕ) → (p : List ℕ) × (ps : List (List ℕ)) × (segments path ≡ p ∷ ps)
unfolding segments first_cons
segments_cons [] = ([], [], refl)
segments_cons (c ∷ path) =
    let (p, ps, e) = segments_cons path in
    elim (Bool-cases (c == 47)) [
      | inl slash ↦ ([], segments path, rw slash refl)
      | inr other ↦ (c ∷ p, ps, rw (other, e) refl)
    ]

first_cons-append :
    (c : ℕ) (parts qs : List (List ℕ)) (p : List ℕ) (ps : List (List ℕ))
    → parts ≡ p ∷ ps
    → first_cons c (parts ++ qs) ≡ first_cons c parts ++ qs
unfolding first_cons
first_cons-append c [] qs p ps e = cc
first_cons-append c (q ∷ parts) qs p ps e = refl

-- A slash separates the parts before it from those behind it.
pub segments-append : (xs ys : List ℕ) → segments (xs ++ (47 ∷ ys)) ≡ segments xs ++ segments ys
unfolding segments
segments-append [] ys = refl
segments-append (c ∷ xs) ys = elim (Bool-cases (c == 47)) [
  | inl slash ↦ rw slash (ap (λ t. [] ∷ t) (segments-append xs ys))
  | inr other ↦
      let (p, ps, e) = segments_cons xs in
      rw other (
        ap (first_cons c) (segments-append xs ys)
        ∙ first_cons-append c (segments xs) (segments ys) p ps e)
]

pub segments_no_slash : (part : List ℕ) → HasNoSlash part → segments part ≡ part ∷ []
unfolding segments first_cons
segments_no_slash [] h = refl
segments_no_slash (c ∷ part) h = let whole = segments_no_slash part h.1 in rw (h.0, whole) refl

first_cons-HasNoSlash :
    (c : ℕ) (parts : List (List ℕ))
    → (c == 47) ≡ false
    → All HasNoSlash parts
    → All HasNoSlash (first_cons c parts)
unfolding first_cons
first_cons-HasNoSlash c [] e a = ((e, tt), tt)
first_cons-HasNoSlash c (part ∷ parts) e a = ((e, a.0), a.1)

pub segments-HasNoSlash : (path : List ℕ) → All HasNoSlash (segments path)
unfolding segments
segments-HasNoSlash [] = (tt, tt)
segments-HasNoSlash (c ∷ path) = elim (Bool-cases (c == 47)) [
  | inl slash ↦ rw slash (tt, segments-HasNoSlash path)
  | inr other ↦ rw other (first_cons-HasNoSlash c (segments path) other (segments-HasNoSlash path))
]
