-- ===== src/Filter.antt =====
-- src/shared/filter.c: filter rules, the ordered list of them, and which rule decides on an entry.
-- A string is the list of its bytes, a null pointer is `none`. The texts of errors are left out.
pub mod Modifiers
pub mod Extends
pub mod Syntax
pub mod Files
pub mod FirstMatch
pub mod Appends
pub mod Lists
mod Tests
use fast_sync.Prelude.{
  ℕ, zero, suc, ◌+◌, ◌-◌, ◌*◌, ◌/◌, ◌^◌, List, [], ◌∷◌, ◌++◌, Bool, true, false, not, ◌&&◌, ◌||◌,
  Option, none, some, bit_and, ltb, ◌==◌, if◌then◌else◌, guard, ◌>>◌, ◌>>=◌, length, get_or, drop,
}

pub data FilterAction : Type 0 where
  no_action : FilterAction
  exclude : FilterAction
  include : FilterAction
  protect : FilterAction
  risk : FilterAction

abbrev pub sender : ℕ
sender = 1

abbrev pub receiver : ℕ
receiver = 2

pub record FilterRule : Type 0 where
  pub action : FilterAction
  pub sides : ℕ
  pub anchored : Bool
  pub dir_only : Bool
  pub negate : Bool
  pub perishable : Bool
  pub owner : Option (List ℕ)
  pub pattern : Option (List ℕ)

-- The lengths of the lists are `count` and `dir_merge_count`.
pub record FilterRuleList : Type 0 where
  pub items : List FilterRule
  pub capacity : ℕ
  pub dir_merge_names : List (List ℕ)
  pub dir_merge_capacity : ℕ

-- The allocator: so many bytes are granted or not.
pub record Memory : Type 0 where
  pub malloc : ℕ → Bool
  pub calloc : ℕ → Bool
  pub realloc : ℕ → Bool

abbrev pub str_eq : List ℕ → List ℕ → Bool
str_eq [] [] = true
str_eq [] (d ∷ t) = false
str_eq (c ∷ s) [] = false
str_eq (c ∷ s) (d ∷ t) = let rest = str_eq s t in c == d && rest

abbrev pub head : List ℕ → ℕ
head s = get_or s 0 0

unfoldable pub filter_rule_list_add : Memory → FilterRuleList → FilterRule → Option FilterRuleList
filter_rule_list_add memory list rule =
    let full = length list.items == list.capacity in
    let new_cap = if ltb 0 list.capacity then list.capacity * 2 else 8 in
    do
      guard (not (full && ltb ((2 ^ 31 - 1) / 2) list.capacity))
      guard (not full || memory.realloc (new_cap * 8))
      some (record list {
        items = list.items ++ (rule ∷ []);
        capacity = if full then new_cap else list.capacity;
      })

abbrev pub has_name : List (List ℕ) → List ℕ → Bool
has_name [] name = false
has_name (known ∷ names) name = let rest = has_name names name in str_eq known name || rest

-- The name goes to the end.
unfoldable pub grow_dir_merge : Memory → FilterRuleList → List ℕ → Option FilterRuleList
grow_dir_merge memory list name =
    let full = length list.dir_merge_names == list.dir_merge_capacity in
    let new_cap = if ltb 0 list.dir_merge_capacity then list.dir_merge_capacity * 2 else 4 in
    do
      guard (not full || memory.realloc (new_cap * 8))
      guard (memory.malloc (length name + 1))
      some (record list {
        dir_merge_names = list.dir_merge_names ++ (name ∷ []);
        dir_merge_capacity = if full then new_cap else list.dir_merge_capacity;
      })

unfoldable pub filter_rule_list_add_dir_merge :
    Memory → FilterRuleList → List ℕ → Option FilterRuleList
filter_rule_list_add_dir_merge memory list name =
    if length name == 0
    then none
    else if has_name list.dir_merge_names name
    then some list
    else grow_dir_merge memory list name

-- The path below the owner directory: all of it for the root, or what follows the owner and a slash.
unfoldable pub after_owner : List ℕ → List ℕ → Option (List ℕ)
after_owner [] (c ∷ path) = if c == 47 then some path else none
after_owner [] [] = none
after_owner (o ∷ owner) [] = none
after_owner (o ∷ owner) (c ∷ path) =
    let rest = after_owner owner path in if o == c then rest else none

unfoldable pub owned : Option (List ℕ) → List ℕ → Option (List ℕ)
owned none path = some path
owned (some []) path = some path
owned (some (o ∷ owner)) path = after_owner (o ∷ owner) path

abbrev pub has_slash : List ℕ → Bool
has_slash [] = false
has_slash (c ∷ s) = let rest = has_slash s in c == 47 || rest

-- The receiver's verdicts.
abbrev pub verdict : FilterAction → ℕ → FilterAction
verdict action side =
    if side == receiver
    then elim action [
      | exclude ↦ protect
      | no_action ↦ risk
      | include ↦ risk
      | protect ↦ risk
      | risk ↦ risk
    ]
    else action

abbrev pub or_next : FilterAction → FilterAction → FilterAction
or_next no_action next = next
or_next exclude next = exclude
or_next include next = include
or_next protect next = protect
or_next risk next = risk

-- `glob_match`, which Glob models, is an argument.
module _ (glob_match : List ℕ → List ℕ → Bool) where
  -- The loop of `glob_suffix_match` over the slashes.
  abbrev pub after_slashes : List ℕ → List ℕ → Bool
  after_slashes pattern [] = false
  after_slashes pattern (c ∷ s) =
      let rest = after_slashes pattern s in
      if c == 47 then (if glob_match pattern s then true else rest) else rest

  unfoldable pub glob_suffix_match : List ℕ → List ℕ → Bool
  glob_suffix_match pattern s = if glob_match pattern s then true else after_slashes pattern s

  unfoldable pub pattern_hits : FilterRule → List ℕ → List ℕ → List ℕ → Bool → Bool
  pattern_hits rule pattern rel2 leaf is_dir =
      let matched =
        if rule.dir_only && not is_dir
        then false
        else if rule.anchored
        then glob_match pattern rel2
        else if has_slash pattern
        then glob_suffix_match pattern rel2
        else glob_match pattern leaf in
      if rule.negate then not matched else matched

  -- From the test of the path below the owner on.
  abbrev pub below_verdict :
      FilterRule → List ℕ → List ℕ → Bool → ℕ → Option (List ℕ) → FilterAction
  below_verdict rule pattern leaf is_dir side none = no_action
  below_verdict rule pattern leaf is_dir side (some []) = no_action
  below_verdict rule pattern leaf is_dir side (some (c ∷ rel2)) =
      if pattern_hits rule pattern (c ∷ rel2) leaf is_dir
      then verdict rule.action side
      else no_action

  abbrev pub pattern_verdict :
      FilterRule → List ℕ → List ℕ → Bool → ℕ → Option (List ℕ) → FilterAction
  pattern_verdict rule rel_path leaf is_dir side none = no_action
  pattern_verdict rule rel_path leaf is_dir side (some pattern) =
      if bit_and rule.sides side == 0
      then no_action
      else below_verdict rule pattern leaf is_dir side (owned rule.owner rel_path)

  unfoldable pub rule_matches : FilterRule → List ℕ → List ℕ → Bool → ℕ → FilterAction
  rule_matches rule rel_path leaf is_dir side =
      pattern_verdict rule rel_path leaf is_dir side rule.pattern

  -- The loop of `filter_rules_apply_side`.
  unfoldable pub apply_side : List FilterRule → List ℕ → List ℕ → Bool → ℕ → FilterAction
  apply_side [] rel_path leaf is_dir side = no_action
  apply_side (rule ∷ rules) rel_path leaf is_dir side =
      or_next (rule_matches rule rel_path leaf is_dir side)
        (apply_side rules rel_path leaf is_dir side)

  unfoldable pub filter_rules_apply_side :
      Option FilterRuleList → List ℕ → List ℕ → Bool → ℕ → FilterAction
  filter_rules_apply_side none rel_path leaf is_dir side = no_action
  filter_rules_apply_side (some list) rel_path leaf is_dir side =
      apply_side list.items rel_path leaf is_dir side
