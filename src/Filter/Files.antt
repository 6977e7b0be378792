-- ===== src/Filter/Files.antt =====
-- Rules from lines and merge files: the list-level parsing of src/shared/filter.c. A call gives whether
-- it succeeded, and the list as it left it; `*exists`, whether the file is there, is left out.
use fast_sync.Prelude.{
  ℕ, zero, suc, ◌+◌, ◌-◌, List, [], ◌∷◌, ◌++◌, Bool, true, false, not, ◌&&◌, ◌||◌, Option, none,
  some, ltb, ◌==◌, if◌then◌else◌, length, get_or, take, drop,
}
use fast_sync.Filter.{
  exclude, FilterRule, FilterRuleList, Memory, head, filter_rule_list_add,
  filter_rule_list_add_dir_merge,
}
use fast_sync.Filter.Syntax.{Parsed, parse_rule_syntax, filter_rule_parse, skip_blanks, at_line_end}
use fast_sync.Filter.Modifiers.{
  RuleKind, kind_exclude, kind_include, kind_hide, kind_show, kind_protect, kind_risk, kind_merge,
  kind_dir_merge, kind_clear,
}

-- The lines that a file gives, and whether they end at its end and not at an error.
pub record Reading : Type 0 where
  pub lines : List (List ℕ)
  pub complete : Bool

-- What the code takes from the system: memory, and files by their paths.
pub record World : Type 0 where
  pub memory : Memory
  pub fopen : List ℕ → Option Reading

abbrev pub Step : Type 0
Step = Bool × FilterRuleList

-- The path without a slash at its end.
abbrev pub unslashed : List ℕ → List ℕ
unslashed path = if get_or path (length path - 1) 0 == 47 then take (length path - 1) path else path

unfoldable pub path_cat : Memory → List ℕ → List ℕ → Option (List ℕ)
path_cat memory path1 path2 =
    let tail = if head path2 == 47 then drop 1 path2 else path2 in
    let joined =
      if length path1 == 0
      then path2
      else if length path2 == 0
      then path1
      else unslashed path1 ++ (47 ∷ tail) in
    if memory.malloc (length joined + 1) then some joined else none

abbrev pub added : FilterRuleList → Option FilterRuleList → Step
added list none = (false, list)
added list (some longer) = (true, longer)

abbrev pub is_comment : List ℕ → Bool
is_comment p = at_line_end p || head p == 35

-- A later line is read only when the one before was accepted.
abbrev pub and_then : Step → (FilterRuleList → Step) → Step
and_then (true, list) next = next list
and_then (false, list) next = (false, list)

-- The loop over the lines of a file.
unfoldable pub append_lines :
    (List ℕ → FilterRuleList → Step) → List (List ℕ) → Bool → FilterRuleList → Step
append_lines parse [] complete list = (complete, list)
append_lines parse (line ∷ lines) complete list =
    let p = skip_blanks line in
    and_then (if is_comment p then (true, list) else parse p list)
      (append_lines parse lines complete)

unfoldable pub append_cvs_rule : Memory → ℕ → List ℕ × Bool → FilterRuleList → Step
append_cvs_rule memory sides (pattern, dir_only) list =
    let rule : FilterRule = record {
      action = exclude;
      sides = sides;
      anchored = false;
      dir_only = dir_only;
      negate = false;
      perishable = false;
      owner = some [];
      pattern = some pattern;
    } in
    if memory.calloc 32 && (memory.malloc (length pattern + 1) && memory.malloc 1)
    then added list (filter_rule_list_add memory list rule)
    else (false, list)

-- `CVS_DEFAULTS`, without the slash at the end of the four patterns for directories.
abbrev pub cvs_defaults : List (List ℕ × Bool)
cvs_defaults =
    (82 ∷ 67 ∷ 83 ∷ [], false)
    ∷ (83 ∷ 67 ∷ 67 ∷ 83 ∷ [], false)
    ∷ (67 ∷ 86 ∷ 83 ∷ [], false)
    ∷ (67 ∷ 86 ∷ 83 ∷ 46 ∷ 97 ∷ 100 ∷ 109 ∷ [], false)
    ∷ (82 ∷ 67 ∷ 83 ∷ 76 ∷ 79 ∷ 71 ∷ [], false)
    ∷ (99 ∷ 118 ∷ 115 ∷ 108 ∷ 111 ∷ 103 ∷ 46 ∷ 42 ∷ [], false)
    ∷ (116 ∷ 97 ∷ 103 ∷ 115 ∷ [], false)
    ∷ (84 ∷ 65 ∷ 71 ∷ 83 ∷ [], false)
    ∷ (46 ∷ 109 ∷ 97 ∷ 107 ∷ 101 ∷ 46 ∷ 115 ∷ 116 ∷ 97 ∷ 116 ∷ 101 ∷ [], false)
    ∷ (46 ∷ 110 ∷ 115 ∷ 101 ∷ 95 ∷ 100 ∷ 101 ∷ 112 ∷ 105 ∷ 110 ∷ 102 ∷ 111 ∷ [], false)
    ∷ (42 ∷ 126 ∷ [], false)
    ∷ (35 ∷ 42 ∷ [], false)
    ∷ (46 ∷ 35 ∷ 42 ∷ [], false)
    ∷ (44 ∷ 42 ∷ [], false)
    ∷ (95 ∷ 36 ∷ 42 ∷ [], false)
    ∷ (42 ∷ 36 ∷ [], false)
    ∷ (42 ∷ 46 ∷ 111 ∷ 108 ∷ 100 ∷ [], false)
    ∷ (42 ∷ 46 ∷ 98 ∷ 97 ∷ 107 ∷ [], false)
    ∷ (42 ∷ 46 ∷ 66 ∷ 65 ∷ 75 ∷ [], false)
    ∷ (42 ∷ 46 ∷ 111 ∷ 114 ∷ 105 ∷ 103 ∷ [], false)
    ∷ (42 ∷ 46 ∷ 114 ∷ 101 ∷ 106 ∷ [], false)
    ∷ (46 ∷ 100 ∷ 101 ∷ 108 ∷ 45 ∷ 42 ∷ [], false)
    ∷ (42 ∷ 46 ∷ 97 ∷ [], false)
    ∷ (42 ∷ 46 ∷ 111 ∷ 108 ∷ 98 ∷ [], false)
    ∷ (42 ∷ 46 ∷ 111 ∷ [], false)
    ∷ (42 ∷ 46 ∷ 111 ∷ 98 ∷ 106 ∷ [], false)
    ∷ (42 ∷ 46 ∷ 115 ∷ 111 ∷ [], false)
    ∷ (42 ∷ 46 ∷ 101 ∷ 120 ∷ 101 ∷ [], false)
    ∷ (42 ∷ 46 ∷ 90 ∷ [], false)
    ∷ (42 ∷ 46 ∷ 101 ∷ 108 ∷ 99 ∷ [], false)
    ∷ (42 ∷ 46 ∷ 108 ∷ 110 ∷ [], false)
    ∷ (99 ∷ 111 ∷ 114 ∷ 101 ∷ [], false)
    ∷ (46 ∷ 115 ∷ 118 ∷ 110 ∷ [], true)
    ∷ (46 ∷ 103 ∷ 105 ∷ 116 ∷ [], true)
    ∷ (46 ∷ 104 ∷ 103 ∷ [], true)
    ∷ (46 ∷ 98 ∷ 122 ∷ 114 ∷ [], true)
    ∷ []

unfoldable pub append_cvs : Memory → ℕ → List (List ℕ × Bool) → FilterRuleList → Step
append_cvs memory sides [] list = (true, list)
append_cvs memory sides (entry ∷ table) list =
    and_then (append_cvs_rule memory sides entry list) (append_cvs memory sides table)

unfoldable pub filter_list_append_cvs : Memory → ℕ → FilterRuleList → Step
filter_list_append_cvs memory sides list = append_cvs memory sides cvs_defaults list

abbrev pub merge_reading : (List ℕ → FilterRuleList → Step) → FilterRuleList → Option Reading → Step
merge_reading parse list none = (false, list)
merge_reading parse list (some reading) = append_lines parse reading.lines reading.complete list

abbrev pub merge_path :
    World → (List ℕ → FilterRuleList → Step) → FilterRuleList → Option (List ℕ) → Step
merge_path world parse list none = (false, list)
merge_path world parse list (some path) = merge_reading parse list (world.fopen path)

-- `parse` is the parser for the lines of the file, one level down.
unfoldable pub filter_list_merge_file :
    World → (List ℕ → FilterRuleList → Step) → List ℕ → List ℕ → FilterRuleList → Step
filter_list_merge_file world parse base_dir name list =
    if head name == 0
    then (false, list)
    else merge_path world parse list (
        if not (length base_dir == 0) && not (head name == 47)
        then path_cat world.memory base_dir name
        else if world.memory.malloc (length name + 1)
        then some name
        else none)

-- The rules of the list level; `rule` is the step of the other kinds.
abbrev pub append_kind :
    World
    → (List ℕ → FilterRuleList → Step)
    → List ℕ
    → Parsed
    → FilterRuleList
    → Step
    → RuleKind
    → Step
append_kind world parse base_dir parsed list rule kind_clear =
    if parsed.pat_len == 0 then (true, record list { items = [] }) else (false, list)
append_kind world parse base_dir parsed list rule kind_merge =
    if not (parsed.pat_len == 0) && world.memory.malloc (parsed.pat_len + 1)
    then filter_list_merge_file world parse base_dir (take parsed.pat_len parsed.pat) list
    else (false, list)
append_kind world parse base_dir parsed list rule kind_dir_merge =
    if not (parsed.pat_len == 0) && world.memory.malloc (parsed.pat_len + 1)
    then added list
        (filter_rule_list_add_dir_merge world.memory list (take parsed.pat_len parsed.pat))
    else (false, list)
append_kind world parse base_dir parsed list rule kind_exclude = rule
append_kind world parse base_dir parsed list rule kind_include = rule
append_kind world parse base_dir parsed list rule kind_hide = rule
append_kind world parse base_dir parsed list rule kind_show = rule
append_kind world parse base_dir parsed list rule kind_protect = rule
append_kind world parse base_dir parsed list rule kind_risk = rule

abbrev pub add_parsed : Memory → FilterRuleList → Option FilterRule → Step
add_parsed memory list none = (false, list)
add_parsed memory list (some rule) = added list (filter_rule_list_add memory list rule)

-- From the tests of the modifiers on.
unfoldable pub append_parsed :
    World
    → (List ℕ → FilterRuleList → Step)
    → Bool
    → List ℕ
    → List ℕ
    → Parsed
    → FilterRuleList
    → Step
append_parsed world parse delete_excluded base_dir p parsed list =
    if parsed.modifiers.xattr
    then (false, list)
    else if parsed.modifiers.cvs_inject
    then filter_list_append_cvs world.memory parsed.modifiers.sides list
    else append_kind world parse base_dir parsed list
        (add_parsed world.memory list (filter_rule_parse world.memory delete_excluded p))
        parsed.kind

abbrev pub append_syntax :
    World
    → (List ℕ → FilterRuleList → Step)
    → Bool
    → List ℕ
    → List ℕ
    → FilterRuleList
    → Option Parsed
    → Step
append_syntax world parse delete_excluded base_dir p list none = (false, list)
append_syntax world parse delete_excluded base_dir p list (some parsed) =
    append_parsed world parse delete_excluded base_dir p parsed list

-- `filter_list_parse_append_depth`, with the levels that are left: at the depth d these are 17 - d.
unfoldable pub parse_append : World → Bool → List ℕ → ℕ → List ℕ → FilterRuleList → Step
parse_append world delete_excluded base_dir zero line list = (false, list)
parse_append world delete_excluded base_dir (suc left) line list =
    let p = skip_blanks line in
    let parse = parse_append world delete_excluded base_dir left in
    if at_line_end p
    then (true, list)
    else append_syntax world parse delete_excluded base_dir p list (parse_rule_syntax p)

-- `filter_file_rollback`, with the counts before the file.
unfoldable pub rollback : ℕ → ℕ → FilterRuleList → FilterRuleList
rollback rules_before dir_merges_before list = record list {
  items = take rules_before list.items;
  dir_merge_names = take dir_merges_before list.dir_merge_names;
}

abbrev pub own : List ℕ → FilterRule → FilterRule
own owner rule = record rule { owner = some owner }

abbrev pub own_from : ℕ → List ℕ → List FilterRule → List FilterRule
own_from n owner [] = []
own_from zero owner (rule ∷ rules) = own owner rule ∷ own_from zero owner rules
own_from (suc n) owner (rule ∷ rules) = rule ∷ own_from n owner rules

-- The rules that the file added get the directory as their owner; the last rule before which memory
-- ran out does not matter, since the rules are then dropped.
unfoldable pub finish_file : Memory → ℕ → ℕ → List ℕ → Step → Step
finish_file memory rules_before dir_merges_before owner_rel (false, list) =
    (false, rollback rules_before dir_merges_before list)
finish_file memory rules_before dir_merges_before owner_rel (true, list) =
    if ltb rules_before (length list.items) && not (memory.malloc (length owner_rel + 1))
    then (false, rollback rules_before dir_merges_before list)
    else (true, record list { items = own_from rules_before owner_rel list.items })

-- A file that cannot be opened adds nothing.
abbrev pub file_reading : World → Bool → List ℕ → List ℕ → FilterRuleList → Option Reading → Step
file_reading world delete_excluded dir_path owner_rel list none = (true, list)
file_reading world delete_excluded dir_path owner_rel list (some reading) =
    finish_file world.memory (length list.items) (length list.dir_merge_names) owner_rel (
      append_lines (parse_append world delete_excluded dir_path 17) reading.lines reading.complete
        list)

abbrev pub file_path : World → Bool → List ℕ → List ℕ → FilterRuleList → Option (List ℕ) → Step
file_path world delete_excluded dir_path owner_rel list none = (false, list)
file_path world delete_excluded dir_path owner_rel list (some path) =
    file_reading world delete_excluded dir_path owner_rel list (world.fopen path)

unfoldable pub filter_file_append : World → Bool → List ℕ → List ℕ → List ℕ → FilterRuleList → Step
filter_file_append world delete_excluded dir_path name owner_rel list =
    file_path world delete_excluded dir_path owner_rel list (path_cat world.memory dir_path name)
