-- ===== src/FileList/Scope.antt =====
-- `file_list_dir_in_scope` of src/shared/file_list.c over the exact paths of the path index.
use fast_sync.Prelude.{
  ℕ, zero, suc, ◌+◌, ◌<◌, ◌≡◌, ◌⊎◌, inl, inr, refl, sym, ap, ◌∙◌, List, [], ◌∷◌, ◌++◌, Bool, true,
  false, append_assoc, Option, none, some, arith, ◌==◌, Bool-cases, Option-cases, if◌then◌else◌,
  length,
}
use mathlib.Core.Path.{subst}
use fast_sync.StringSet.{Services, StrHashSet, lookup}
use fast_sync.StringSet.Table.{Member, IsTable, lookup_lem}

-- The path before the last slash; `none` without a slash.
unfoldable pub parent : List ℕ → Option (List ℕ)
parent [] = none
parent (c ∷ path) = elim (parent path) [
  | none ↦ if c == 47 then some [] else none
  | some before ↦ some (c ∷ before)
]

-- One round of the loop over the directories above a path; `rest` is what the later rounds give.
unfoldable pub listed_or :
    Services → StrHashSet → Option (List ℕ) → (List ℕ → Option Bool) → Option Bool
listed_or services exact none rest = some false
listed_or services exact (some before) rest = elim (lookup services exact before) [
  | none ↦ none
  | some found ↦ if found then some true else rest before
]

unfoldable pub ancestor_listed : Services → StrHashSet → ℕ → List ℕ → Option Bool
ancestor_listed services exact zero path = none
ancestor_listed services exact (suc fuel) path =
    listed_or services exact (parent path) (ancestor_listed services exact fuel)

-- `exact` of the index and `whole_tree`.
pub record FileListSet : Type 0 where
  pub exact : StrHashSet
  pub whole_tree : Bool

-- Every directory above is shorter.
unfoldable pub dir_in_scope : Services → Option FileListSet → List ℕ → Option Bool
dir_in_scope services none rel = some true
dir_in_scope services (some files) rel =
    if files.whole_tree
    then some true
    else if length rel == 0
    then some false
    else elim (ancestor_listed services files.exact (length rel + 1) rel) [
      | none ↦ none
      | some found ↦ if found then some true else lookup services files.exact rel
    ]

-- A directory above a path.
pub IsAncestor : List ℕ → List ℕ → Type 0
IsAncestor dir path = (rest : List ℕ) × (path ≡ dir ++ (47 ∷ rest))

parent_sound :
    (path before : List ℕ)
    → parent path ≡ some before
    → IsAncestor before path × (length before < length path)
unfolding parent IsAncestor
parent_sound [] before e = cc
parent_sound (c ∷ path) before e = elim (Option-cases (parent path)) [
  | inl nothing ↦ top (c == 47) refl (
      sym (
        ap (λ o. elim o [ none ↦ if c == 47 then some [] else none | some b ↦ some (c ∷ b) ])
          nothing)
      ∙ e)
  | inr (b, found) ↦
      let ((rest, whole), shorter) = parent_sound path b found in
      let same : before ≡ c ∷ b = cons_of b (
        sym (
          ap (λ o. elim o [ none ↦ if c == 47 then some [] else none | some b ↦ some (c ∷ b) ])
            found)
        ∙ e) in
      subst
        (λ x. ((rest : List ℕ) × (c ∷ path ≡ x ++ (47 ∷ rest))) × (length x < suc (length path)))
        (sym same) ((rest, ap (λ t. c ∷ t) whole), omega arith)
]
  where
    cons_of : (b : List ℕ) → some (c ∷ b) ≡ some before → before ≡ c ∷ b
    cons_of b h = cc

    top :
        (slash : Bool)
        → (c == 47) ≡ slash
        → (if slash then some [] else none) ≡ some before
        → ((rest : List ℕ) × (c ∷ path ≡ before ++ (47 ∷ rest)))
          × (length before < suc (length path))
    top false p h = cc
    top true p h =
        let same : [] ≡ before = cc in
        let is_slash : c ≡ 47 = ground arith in
        subst
          (λ x. ((rest : List ℕ) × (c ∷ path ≡ x ++ (47 ∷ rest))) × (length x < suc (length path)))
          same ((path, ap (λ t. t ∷ path) is_slash), omega arith)

-- Every directory above a path is its parent or above its parent.
IsAncestor-parent :
    (dir rest : List ℕ)
    → (before : List ℕ) × (parent (dir ++ (47 ∷ rest)) ≡ some before)
      × ((dir ≡ before) ⊎ IsAncestor dir before)
unfolding parent IsAncestor
IsAncestor-parent [] rest = elim (Option-cases (parent rest)) [
  | inl nothing ↦ ([], rw nothing refl, inl refl)
  | inr (b, found) ↦ (47 ∷ b, rw found refl, inr (b, refl))
]
IsAncestor-parent (c ∷ dir) rest =
    let (before, found, place) = IsAncestor-parent dir rest in
    (
      c ∷ before,
      rw found refl,
      elim place [
        | inl same ↦ inl (ap (λ t. c ∷ t) same)
        | inr (more, e) ↦ inr (more, ap (λ t. c ∷ t) e)
      ],
    )

above_above :
    (dir before path : List ℕ)
    → IsAncestor dir before
    → IsAncestor before path
    → IsAncestor dir path
unfolding IsAncestor
above_above dir before path (r, e) (r', e') =
    (r ++ (47 ∷ r'), e' ∙ ap (λ x. x ++ (47 ∷ r')) e ∙ append_assoc dir (47 ∷ r) (47 ∷ r'))

at_or_above :
    (dir before path : List ℕ)
    → parent path ≡ some before
    → IsAncestor dir path
    → (dir ≡ before) ⊎ IsAncestor dir before
unfolding IsAncestor
at_or_above dir before path found (rest, e) =
    let (b, found_b, place) = IsAncestor-parent dir rest in
    let same : b ≡ before = some-inj b (sym found_b ∙ sym (ap parent e) ∙ found) in
    subst (λ x. (dir ≡ x) ⊎ ((rest : List ℕ) × (x ≡ dir ++ (47 ∷ rest)))) same
      (unfold IsAncestor in place)
  where
    some-inj : (b : List ℕ) → some b ≡ some before → b ≡ before
    some-inj b h = cc

no_parent : (dir path : List ℕ) → parent path ≡ none → IsAncestor dir path → ⊥
unfolding IsAncestor
no_parent dir path nothing (rest, e) =
    let (b, found, place) = IsAncestor-parent dir rest in
    clash (parent path) b nothing (ap parent e ∙ found)
  where
    clash : (o : Option (List ℕ)) (b : List ℕ) → o ≡ none → o ≡ some b → ⊥
    clash o b x y = cc

listed_or-some :
    (services : Services) (exact : StrHashSet) (before : List ℕ) (rest : List ℕ → Option Bool)
    (found : Bool)
    → lookup services exact before ≡ some found
    → listed_or services exact (some before) rest ≡ (if found then some true else rest before)
unfolding listed_or
listed_or-some services exact before rest found e =
    ap (λ o. elim o [ none ↦ none | some f ↦ if f then some true else rest before ]) e

-- A listed directory is above the path.
abbrev pub HasListedAncestor : StrHashSet → List ℕ → Type 0
HasListedAncestor exact path = (dir : List ℕ) × IsAncestor dir path × Member exact dir

module _ (services : Services) (exact : StrHashSet) (t : IsTable services exact) where
  ancestor_listed_lem :
      (fuel : ℕ) (path : List ℕ)
      → length path < fuel
      → ((ancestor_listed services exact fuel path ≡ some true) × HasListedAncestor exact path)
        ⊎ ((ancestor_listed services exact fuel path ≡ some false)
            × (HasListedAncestor exact path → ⊥))
  unfolding ancestor_listed listed_or
  ancestor_listed_lem zero path h = absurd (omega arith)
  ancestor_listed_lem (suc fuel) path h = elim (Option-cases (parent path)) [
    | inl nothing ↦ inr (
      ap (λ o. listed_or services exact o (ancestor_listed services exact fuel)) nothing,
      λ l. no_parent l.0 path nothing l.1,
    )
    | inr (before, found) ↦
        let (above, shorter) = parent_sound path before found in
        elim (lookup_lem services exact before t) [
          | inl (hit, member) ↦ inl (
            ap (λ o. listed_or services exact o (ancestor_listed services exact fuel)) found
                ∙ listed_or-some services exact before (ancestor_listed services exact fuel) true
                    hit,
            (before, above, member),
          )
          | inr (miss, out) ↦ elim (ancestor_listed_lem fuel before (omega arith)) [
            | inl (higher, (dir, a, m)) ↦ inl (
              ap (λ o. listed_or services exact o (ancestor_listed services exact fuel)) found
                  ∙ listed_or-some services exact before (ancestor_listed services exact fuel) false
                      miss
                  ∙ higher,
              (dir, above_above dir before path a above, m),
            )
            | inr (nowhere, none_above) ↦ inr (
              ap (λ o. listed_or services exact o (ancestor_listed services exact fuel)) found
                  ∙ listed_or-some services exact before (ancestor_listed services exact fuel) false
                      miss
                  ∙ nowhere,
              λ l. elim (at_or_above l.0 before path found l.1) [
                | inl same ↦ out (subst (Member exact) same l.2)
                | inr a ↦ none_above (l.0, a, l.2)
              ],
            )
          ]
        ]
  ]

-- The directory is in the subtree of a listed one.
abbrev pub IsInScope : FileListSet → List ℕ → Type 0
IsInScope files rel =
    (files.whole_tree ≡ true)
    ⊎ ((0 < length rel) × (Member files.exact rel ⊎ HasListedAncestor files.exact rel))

-- On a list whose set of exact paths is well formed, `file_list_dir_in_scope` ends. It gives true
-- when the whole tree is listed or the path, which is not empty, or a directory above it is listed;
-- it gives false when none of these holds.
pub dir_in_scope_lem :
    (services : Services) (files : FileListSet) (rel : List ℕ)
    → IsTable services files.exact
    → ((dir_in_scope services (some files) rel ≡ some true) × IsInScope files rel)
      ⊎ ((dir_in_scope services (some files) rel ≡ some false) × (IsInScope files rel → ⊥))
unfolding dir_in_scope
dir_in_scope_lem services files rel t = elim (Bool-cases files.whole_tree) [
  | inl all ↦ inl (rw all refl, inl all)
  | inr some_only ↦ elim (Bool-cases (length rel == 0)) [
    | inl empty ↦ inr (
      rw (some_only, empty) refl,
      λ s. elim s [
        | inl all ↦ clash files.whole_tree some_only all
        | inr (positive, l) ↦ not_empty (length rel) empty positive
      ],
    )
    | inr longer ↦
        let positive = is_positive (length rel) longer in
        elim (ancestor_listed_lem services files.exact t (length rel + 1) rel (omega arith)) [
          | inl (hit, l) ↦ inl (rw (some_only, longer, hit) refl, inr (positive, inr l))
          | inr (miss, none_above) ↦ elim (lookup_lem services files.exact rel t) [
            | inl (listed, m) ↦ inl (rw (some_only, longer, miss) listed, inr (positive, inl m))
            | inr (unlisted, out) ↦ inr (
              rw (some_only, longer, miss) unlisted,
              λ s. elim s [
                | inl all ↦ clash files.whole_tree some_only all
                | inr (p, l) ↦ elim l [ inl m ↦ out m | inr above ↦ none_above above ]
              ],
            )
          ]
        ]
  ]
]
  where
    clash : (b : Bool) → b ≡ false → b ≡ true → ⊥
    clash b x y = cc

    not_empty : (n : ℕ) → (n == 0) ≡ true → 0 < n → ⊥
    not_empty n e h = ground arith

    is_positive : (n : ℕ) → (n == 0) ≡ false → 0 < n
    is_positive n e = ground arith
