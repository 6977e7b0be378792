-- ===== src/Filter/Modifiers.antt =====
-- The kinds of rules and their modifiers in src/shared/filter.c.
use fast_sync.Prelude.{
  ℕ, List, [], ◌∷◌, Bool, true, false, not, ◌&&◌, ◌||◌, Option, none, some, ◌==◌, if◌then◌else◌,
}
use fast_sync.Filter.{sender, receiver, str_eq}

pub data RuleKind : Type 0 where
  kind_exclude : RuleKind
  kind_include : RuleKind
  kind_hide : RuleKind
  kind_show : RuleKind
  kind_protect : RuleKind
  kind_risk : RuleKind
  kind_merge : RuleKind
  kind_dir_merge : RuleKind
  kind_clear : RuleKind

-- `-`, `+`, `H`, `S`, `P`, `R`, `.`, `:` and `!`
unfoldable pub short_rule_char : ℕ → Option RuleKind
short_rule_char c =
    if c == 45
    then some kind_exclude
    else if c == 43
    then some kind_include
    else if c == 72
    then some kind_hide
    else if c == 83
    then some kind_show
    else if c == 80
    then some kind_protect
    else if c == 82
    then some kind_risk
    else if c == 46
    then some kind_merge
    else if c == 58
    then some kind_dir_merge
    else if c == 33
    then some kind_clear
    else none

-- The words of `long_rule_name`.
abbrev pub long_names : List (List ℕ × RuleKind)
long_names =
    (101 ∷ 120 ∷ 99 ∷ 108 ∷ 117 ∷ 100 ∷ 101 ∷ [], kind_exclude)
    ∷ (105 ∷ 110 ∷ 99 ∷ 108 ∷ 117 ∷ 100 ∷ 101 ∷ [], kind_include)
    ∷ (104 ∷ 105 ∷ 100 ∷ 101 ∷ [], kind_hide)
    ∷ (115 ∷ 104 ∷ 111 ∷ 119 ∷ [], kind_show)
    ∷ (112 ∷ 114 ∷ 111 ∷ 116 ∷ 101 ∷ 99 ∷ 116 ∷ [], kind_protect)
    ∷ (114 ∷ 105 ∷ 115 ∷ 107 ∷ [], kind_risk)
    ∷ (109 ∷ 101 ∷ 114 ∷ 103 ∷ 101 ∷ [], kind_merge)
    ∷ (100 ∷ 105 ∷ 114 ∷ 45 ∷ 109 ∷ 101 ∷ 114 ∷ 103 ∷ 101 ∷ [], kind_dir_merge)
    ∷ (99 ∷ 108 ∷ 101 ∷ 97 ∷ 114 ∷ [], kind_clear)
    ∷ []

abbrev pub find_name : List (List ℕ × RuleKind) → List ℕ → Option RuleKind
find_name [] name = none
find_name ((word, kind) ∷ table) name =
    let rest = find_name table name in if str_eq word name then some kind else rest

unfoldable pub long_rule_name : List ℕ → Option RuleKind
long_rule_name name = find_name long_names name

abbrev pub is_blank_mark : ℕ → Bool
is_blank_mark c = c == 32 || c == 95

-- `s`, `r`, `p`, `x`, the slash, `!` and `C`
abbrev pub is_modifier_char : ℕ → Bool
is_modifier_char c =
    c == 115 || (c == 114 || (c == 112 || (c == 120 || (c == 47 || (c == 33 || c == 67)))))

abbrev pub is_merge_rule : RuleKind → Bool
is_merge_rule kind = elim kind [ kind_merge ↦ true | kind_dir_merge ↦ true | _ ↦ false ]

-- `e`, `n` and `w`
abbrev pub is_unsupported_modifier_char : ℕ → Bool
is_unsupported_modifier_char c = c == 101 || (c == 110 || c == 119)

abbrev pub is_merge_modifier_char : ℕ → Bool
is_merge_modifier_char c = is_unsupported_modifier_char c || c == 45

abbrev pub is_consumed_modifier_char : ℕ → RuleKind → Bool
is_consumed_modifier_char c kind =
    is_modifier_char c || (is_merge_rule kind && is_merge_modifier_char c)

abbrev pub is_modifier_scan_char : ℕ → RuleKind → Bool
is_modifier_scan_char c kind =
    is_modifier_char c
    || (is_unsupported_modifier_char c || (is_merge_rule kind && is_merge_modifier_char c))

-- The loop of `unsupported_modifier_in_token`; 0 stands for no such character.
unfoldable pub unsupported_from : RuleKind → ℕ → List ℕ → ℕ
unsupported_from kind bad [] = bad
unsupported_from kind bad (c ∷ tok) =
    let found = if not (is_merge_rule kind) && is_unsupported_modifier_char c then c else bad in
    let rest = unsupported_from kind found tok in
    if is_blank_mark c then bad else if not (is_modifier_scan_char c kind) then 0 else rest

unfoldable pub unsupported_modifier_in_token : List ℕ → RuleKind → ℕ
unsupported_modifier_in_token tok kind = unsupported_from kind 0 tok

pub record Modifiers : Type 0 where
  pub sides : ℕ
  pub sides_explicit : Bool
  pub negate : Bool
  pub anchored_mod : Bool
  pub perishable : Bool
  pub xattr : Bool
  pub cvs_inject : Bool

abbrev pub no_modifiers : Modifiers
no_modifiers = record {
  sides = 3;
  sides_explicit = false;
  negate = false;
  anchored_mod = false;
  perishable = false;
  xattr = false;
  cvs_inject = false;
}

unfoldable pub modify_by : Modifiers → ℕ → Modifiers
modify_by m c =
    if c == 115
    then record m { sides = sender; sides_explicit = true }
    else if c == 114
    then record m { sides = receiver; sides_explicit = true }
    else if c == 33
    then record m { negate = true }
    else if c == 47
    then record m { anchored_mod = true }
    else if c == 112
    then record m { perishable = true }
    else if c == 120
    then record m { xattr = true }
    else if c == 67
    then record m { cvs_inject = true }
    else m

unfoldable pub modify_all : Modifiers → List ℕ → Modifiers
modify_all m [] = m
modify_all m (c ∷ run) = modify_all (modify_by m c) run
