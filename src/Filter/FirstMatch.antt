-- ===== src/Filter/FirstMatch.antt =====
-- Which rule decides, and on what.
use fast_sync.Prelude.{
  ℕ, List, [], ◌∷◌, ◌++◌, ◌≡◌, ◌≢◌, ◌⊎◌, ◌↔◌, inl, inr, refl, sym, ap, ◌∙◌, Bool, true, false, ◌==◌,
  Option, none, some, arith, bit_and, Bool-cases, ==_iff, ap₂, append_assoc,
}
use fast_sync.Filter.{
  FilterAction, no_action, exclude, include, protect, risk, FilterRule, owned, after_owner,
  below_verdict, pattern_verdict, rule_matches, or_next, apply_side,
}

-- What stands before the entry's path in the directory of the owner.
abbrev pub owner_prefix : Option (List ℕ) → List ℕ
owner_prefix none = []
owner_prefix (some []) = []
owner_prefix (some (o ∷ owner)) = o ∷ owner ++ (47 ∷ [])

-- A path below the owner, and not the owner itself.
abbrev pub InScope : Option (List ℕ) → List ℕ → Type 0
InScope owner rel_path = (c : ℕ) × (rel2 : List ℕ) × (rel_path ≡ owner_prefix owner ++ (c ∷ rel2))

after_owner_lem :
    (owner path rel2 : List ℕ) → after_owner owner path ≡ some rel2 → path ≡ owner ++ (47 ∷ rel2)
unfolding after_owner
after_owner_lem [] [] rel2 h = cc
after_owner_lem [] (c ∷ path) rel2 h = elim (Bool-cases (c == 47)) [
  | inl e ↦
      let slash : c ≡ 47 = (==_iff _ _).0 e in
      let rest : some path ≡ some rel2 = sym (rw e refl) ∙ h in
      let same : path ≡ rel2 = cc rest in ap₂ (λ x y. x ∷ y) slash same
  | inr e ↦ let clash : none ≡ some rel2 = sym (rw e refl) ∙ h in cc
]
after_owner_lem (o ∷ owner) [] rel2 h = cc
after_owner_lem (o ∷ owner) (c ∷ path) rel2 h = elim (Bool-cases (o == c)) [
  | inl e ↦
      let same : o ≡ c = (==_iff _ _).0 e in
      ap₂ (λ x y. x ∷ y) (sym same) (after_owner_lem owner path rel2 (sym (rw e refl) ∙ h))
  | inr e ↦ let clash : none ≡ some rel2 = sym (rw e refl) ∙ h in cc
]

owned-InScope :
    (owner : Option (List ℕ)) (path : List ℕ) (c : ℕ) (rel2 : List ℕ)
    → owned owner path ≡ some (c ∷ rel2)
    → InScope owner path
unfolding owned
owned-InScope none path c rel2 h = (c, rel2, cc)
owned-InScope (some []) path c rel2 h = (c, rel2, cc)
owned-InScope (some (o ∷ owner)) path c rel2 h = (
  c,
  rel2,
  after_owner_lem (o ∷ owner) path (c ∷ rel2) h
      ∙ sym (append_assoc (o ∷ owner) (47 ∷ []) (c ∷ rel2)),
)

or_next-cases :
    (first next said : FilterAction)
    → or_next first next ≡ said
    → ((first ≡ no_action) × (next ≡ said)) ⊎ (first ≡ said)
or_next-cases no_action next said h = inl (refl, h)
or_next-cases exclude next said h = inr h
or_next-cases include next said h = inr h
or_next-cases protect next said h = inr h
or_next-cases risk next said h = inr h

or_next-first : (first next : FilterAction) → first ≢ no_action → or_next first next ≡ first
or_next-first no_action next h = absurd (h refl)
or_next-first exclude next h = refl
or_next-first include next h = refl
or_next-first protect next h = refl
or_next-first risk next h = refl

module _ (glob_match : List ℕ → List ℕ → Bool) (rel_path leaf : List ℕ) (is_dir : Bool)
    (side : ℕ) where
  abbrev pub says : FilterRule → FilterAction
  says rule = rule_matches glob_match rule rel_path leaf is_dir side

  abbrev pub AllSilent : List FilterRule → Type 0
  AllSilent [] = Unit {0}
  AllSilent (rule ∷ rules) = (says rule ≡ no_action) × AllSilent rules

  -- The first rule that says something says this, is for the side and has the entry in scope.
  pub record Decides (rules : List FilterRule) (said : FilterAction) : Type 0 where
    pub before : List FilterRule
    pub rule : FilterRule
    pub after : List FilterRule
    pub split : rules ≡ before ++ (rule ∷ after)
    pub silent : AllSilent before
    pub speaks : says rule ≡ said
    pub for_side : bit_and rule.sides side ≢ 0
    pub in_scope : InScope rule.owner rel_path

  speaks-InScope :
      (rule : FilterRule) (said : FilterAction)
      → said ≢ no_action
      → says rule ≡ said
      → (bit_and rule.sides side ≢ 0) × InScope rule.owner rel_path
  unfolding rule_matches
  speaks-InScope rule said speaking h =
      go rule.pattern (Bool-cases (bit_and rule.sides side == 0)) h
    where
      below :
          (pattern : List ℕ) (o : Option (List ℕ))
          → owned rule.owner rel_path ≡ o
          → below_verdict glob_match rule pattern leaf is_dir side o ≡ said
          → InScope rule.owner rel_path
      below pattern none e k = absurd (speaking (sym k))
      below pattern (some []) e k = absurd (speaking (sym k))
      below pattern (some (c ∷ rel2)) e k = owned-InScope rule.owner rel_path c rel2 e

      go :
          (p : Option (List ℕ))
          → ((bit_and rule.sides side == 0) ≡ true) ⊎ ((bit_and rule.sides side == 0) ≡ false)
          → pattern_verdict glob_match rule rel_path leaf is_dir side p ≡ said
          → (bit_and rule.sides side ≢ 0) × InScope rule.owner rel_path
      go none t k = absurd (speaking (sym k))
      go (some pattern) (inl t) k = absurd (speaking (sym k ∙ rw t refl))
      go (some pattern) (inr t) k =
          (λ z. ground arith, below pattern (owned rule.owner rel_path) refl (sym (rw t refl) ∙ k))

  apply-Decides :
      (rules : List FilterRule) (said : FilterAction)
      → said ≢ no_action
      → apply_side glob_match rules rel_path leaf is_dir side ≡ said
      → Decides rules said
  unfolding apply_side
  apply-Decides [] said speaking h = absurd (speaking (sym h))
  apply-Decides (rule ∷ rules) said speaking h = elim (or_next-cases (says rule) _ said h) [
    | inl (quiet, later) ↦
        let d = apply-Decides rules said speaking later in
        record {
          before = rule ∷ d.before;
          rule = d.rule;
          after = d.after;
          split = ap (λ t. rule ∷ t) d.split;
          silent = (quiet, d.silent);
          speaks = d.speaks;
          for_side = d.for_side;
          in_scope = d.in_scope;
        }
    | inr now ↦
        let (for_side, in_scope) = speaks-InScope rule said speaking now in
        record {
          before = [];
          rule = rule;
          after = rules;
          split = refl;
          silent = tt;
          speaks = now;
          for_side = for_side;
          in_scope = in_scope;
        }
  ]

  silent-apply :
      (before : List FilterRule) (rule : FilterRule) (after : List FilterRule)
      → AllSilent before
      → says rule ≢ no_action
      → apply_side glob_match (before ++ (rule ∷ after)) rel_path leaf is_dir side ≡ says rule
  unfolding apply_side
  silent-apply [] rule after silent speaking = or_next-first (says rule) _ speaking
  silent-apply (quiet ∷ before) rule after silent speaking =
      ap
        (λ a.
          or_next a (apply_side glob_match (before ++ (rule ∷ after)) rel_path leaf is_dir side))
        silent.0
      ∙ silent-apply before rule after silent.1 speaking

  -- `filter_rules_apply_side` gives a verdict on an entry exactly when it is the verdict of the first
  -- rule of the list that has one. That rule is for the side asked for, and the entry lies strictly
  -- below its owner.
  pub apply_side_iff :
      (rules : List FilterRule) (said : FilterAction)
      → said ≢ no_action
      → (apply_side glob_match rules rel_path leaf is_dir side ≡ said) ↔ Decides rules said
  apply_side_iff rules said speaking = (
    apply-Decides rules said speaking,
    λ d.
        ap (λ l. apply_side glob_match l rel_path leaf is_dir side) d.split
        ∙ silent-apply d.before d.rule d.after d.silent (λ e. speaking (sym d.speaks ∙ e))
        ∙ d.speaks,
  )
