-- ===== src/Filter/Tests.antt =====
-- Runs of the filter rules and instances of their theorems.
use mathlib.Core.Path.{subst}
use fast_sync.Prelude.{ℕ, List, [], ◌∷◌, ◌≡◌, ◌≢◌, ◌↔◌, true, false, refl, ap, Option, none, some}
use fast_sync.Filter.{
  no_action, exclude, protect, FilterRule, FilterRuleList, Memory, owned, after_owner,
  filter_rule_list_add, pattern_hits, rule_matches, apply_side, str_eq,
}
use fast_sync.Filter.Syntax.{
  rule_name, modifier_run, trimmed_length, parse_rule_syntax, rule_sides, unanchored, pattern_rule,
  rule_of, filter_rule_parse,
}
use fast_sync.Filter.Modifiers.{
  short_rule_char, unsupported_from, unsupported_modifier_in_token, modify_by, modify_all,
}
use fast_sync.Filter.Files.{
  World, Reading, Step, path_cat, append_lines, append_parsed, parse_append, finish_file,
  filter_file_append,
}
use fast_sync.Filter.FirstMatch.{Decides, apply_side_iff}
use fast_sync.Filter.Lists.{
  append_files, filter_rule_list_create, read_dir_filters, read_dir_filters-AllOwned,
}
use fast_sync.Filter.Appends.{AllOwned, Appended, filter_file_append-Appended}
use fast_sync.Filter.Extends.{NoClear, ClearsNothing}

abbrev memory : Memory
memory = record { malloc = λ n. true; calloc = λ n. true; realloc = λ n. true }

-- Every path is a file with these lines.
abbrev world_of : List (List ℕ) → World
world_of lines = record {
  memory = memory;
  fopen = λ path. some (record { lines = lines; complete = true });
}

-- `- a` and `+ b`, `!` and `- /a`
abbrev two_rules : List (List ℕ)
two_rules = (45 ∷ 32 ∷ 97 ∷ []) ∷ (43 ∷ 32 ∷ 98 ∷ []) ∷ []

abbrev clear_first : List (List ℕ)
clear_first = (33 ∷ []) ∷ (45 ∷ 32 ∷ 47 ∷ 97 ∷ []) ∷ []

abbrev rule : FilterRule
rule = record {
  action = exclude;
  sides = 3;
  anchored = false;
  dir_only = false;
  negate = false;
  perishable = false;
  owner = some (100 ∷ []);
  pattern = some (97 ∷ []);
}

abbrev one_rule : FilterRuleList
one_rule = record { items = rule ∷ []; capacity = 8; dir_merge_names = []; dir_merge_capacity = 0 }

abbrev lines_of : Option Reading → List (List ℕ)
lines_of none = []
lines_of (some reading) = reading.lines

abbrev owner_of : Step → Option (List ℕ)
owner_of (ok, list) = elim list.items [ [] ↦ some [] | rule ∷ rules ↦ rule.owner ]

-- A file that clears a list with a rule in it: its own rule gets no owner.
cleared_owner :
    owner_of
      (filter_file_append (world_of clear_first) false (100 ∷ []) (102 ∷ []) (100 ∷ []) one_rule)
    ≡ none
unfolding filter_file_append path_cat append_lines parse_append append_parsed finish_file
    parse_rule_syntax rule_name short_rule_char modifier_run unsupported_modifier_in_token
    unsupported_from modify_all modify_by trimmed_length filter_rule_parse rule_of pattern_rule
    unanchored rule_sides filter_rule_list_add
cleared_owner = refl

two_rules-ClearsNothing : ClearsNothing (world_of two_rules)
unfolding NoClear parse_rule_syntax rule_name short_rule_char unsupported_modifier_in_token
    unsupported_from modifier_run
two_rules-ClearsNothing path reading h = subst NoClear (ap lines_of h) (refl, (refl, tt))

filter_file_append-Appended_example :
    Appended one_rule
      (100 ∷ [])
      (filter_file_append (world_of two_rules) false (100 ∷ []) (102 ∷ []) (100 ∷ []) one_rule)
filter_file_append-Appended_example =
    filter_file_append-Appended (world_of two_rules) false (100 ∷ []) (102 ∷ []) (100 ∷ []) one_rule
      two_rules-ClearsNothing

-- The list that the two rules make in the directory `d`.
abbrev list_of : Option FilterRuleList → FilterRuleList
list_of none = one_rule
list_of (some list) = list

abbrev dir_list : FilterRuleList
dir_list =
    list_of
      (read_dir_filters (world_of two_rules) false (100 ∷ []) (100 ∷ []) true ((102 ∷ []) ∷ []))

read_dir_filters-AllOwned_example : AllOwned (100 ∷ []) dir_list.items
unfolding read_dir_filters filter_rule_list_create append_files filter_file_append path_cat
    append_lines parse_append append_parsed finish_file parse_rule_syntax rule_name short_rule_char
    modifier_run unsupported_modifier_in_token unsupported_from modify_all modify_by trimmed_length
    filter_rule_parse rule_of pattern_rule unanchored rule_sides filter_rule_list_add
read_dir_filters-AllOwned_example =
    read_dir_filters-AllOwned (world_of two_rules) false (100 ∷ []) (100 ∷ []) true
      ((102 ∷ []) ∷ []) dir_list two_rules-ClearsNothing refl

-- Names are matched by equality here: `d/a` for `a` below `d`.
excludes : exclude ≢ no_action
excludes h = cc

apply_side_iff_example :
    (apply_side str_eq (rule ∷ []) (100 ∷ 47 ∷ 97 ∷ []) (97 ∷ []) false 1 ≡ exclude)
    ↔ Decides str_eq (100 ∷ 47 ∷ 97 ∷ []) (97 ∷ []) false 1 (rule ∷ []) exclude
apply_side_iff_example =
    apply_side_iff str_eq (100 ∷ 47 ∷ 97 ∷ []) (97 ∷ []) false 1 (rule ∷ []) exclude excludes

excluded_below : apply_side str_eq (rule ∷ []) (100 ∷ 47 ∷ 97 ∷ []) (97 ∷ []) false 1 ≡ exclude
unfolding apply_side rule_matches owned after_owner pattern_hits
excluded_below = refl

protected_below : apply_side str_eq (rule ∷ []) (100 ∷ 47 ∷ 97 ∷ []) (97 ∷ []) false 2 ≡ protect
unfolding apply_side rule_matches owned after_owner pattern_hits
protected_below = refl
