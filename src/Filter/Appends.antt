-- ===== src/Filter/Appends.antt =====
-- What a merge file does to the list that it is appended to.
use fast_sync.Prelude.{
  ℕ, zero, suc, ◌+◌, List, [], ◌∷◌, ◌++◌, ◌≡◌, refl, sym, ap, ◌∙◌, Bool, true, false, not, ◌&&◌,
  ◌==◌, ltb, Option, none, some, if◌then◌else◌, length, take, take-append, append-nil,
}
use fast_sync.Filter.{FilterRule, FilterRuleList, Memory, head, filter_rule_list_add_dir_merge}
use fast_sync.Filter.Syntax.{Parsed, parse_rule_syntax, filter_rule_parse, skip_blanks, at_line_end}
use fast_sync.Filter.Modifiers.{
  RuleKind, kind_exclude, kind_include, kind_hide, kind_show, kind_protect, kind_risk, kind_merge,
  kind_dir_merge, kind_clear,
}
use fast_sync.Filter.Files.{
  World, Reading, Step, path_cat, added, is_comment, append_lines, cvs_defaults,
  filter_list_append_cvs, merge_reading, merge_path, filter_list_merge_file, append_kind,
  add_parsed, append_syntax, file_reading, file_path, append_parsed, parse_append, rollback,
  own_from, finish_file, filter_file_append,
}
use fast_sync.Filter.Extends.{
  Extends, Extends-refl, clears, is_clear, NoClear, ClearsNothing, added-Extends, add-Extends,
  add_dir_merge-Extends, if-Extends, and_then-Extends, append_cvs-Extends, skip_blanks-twice,
}

module _ (world : World) (plain : ClearsNothing world) (delete_excluded : Bool)
    (base_dir : List ℕ) where
  append_lines-Extends :
      (parse : List ℕ → FilterRuleList → Step)
      → ((line : List ℕ) (list : FilterRuleList)
          → is_clear (parse_rule_syntax (skip_blanks line)) ≡ false
          → Extends list (parse line list).1)
      → (lines : List (List ℕ)) (complete : Bool) (list : FilterRuleList) → NoClear lines
      → Extends list (append_lines parse lines complete list).1
  unfolding append_lines NoClear
  append_lines-Extends parse each [] complete list quiet = Extends-refl list
  append_lines-Extends parse each (line ∷ lines) complete list quiet =
      and_then-Extends list _ (append_lines parse lines complete)
        (if-Extends list (is_comment (skip_blanks line)) (true, list)
          (parse (skip_blanks line) list) (Extends-refl list)
          (each (skip_blanks line) list
            (ap (λ s. is_clear (parse_rule_syntax s)) (skip_blanks-twice line) ∙ quiet.0)))
        (λ l. append_lines-Extends parse each lines complete l quiet.1)

  module _ (parse : List ℕ → FilterRuleList → Step)
      (each : (line : List ℕ) (list : FilterRuleList)
        → is_clear (parse_rule_syntax (skip_blanks line)) ≡ false
        → Extends list (parse line list).1) where
    merge_reading-Extends :
        (list : FilterRuleList) (o : Option Reading)
        → ((reading : Reading) → o ≡ some reading → NoClear reading.lines)
        → Extends list (merge_reading parse list o).1
    merge_reading-Extends list none quiet = Extends-refl list
    merge_reading-Extends list (some reading) quiet =
        append_lines-Extends parse each reading.lines reading.complete list (quiet reading refl)

    merge_path-Extends :
        (list : FilterRuleList) (o : Option (List ℕ))
        → Extends list (merge_path world parse list o).1
    merge_path-Extends list none = Extends-refl list
    merge_path-Extends list (some path) = merge_reading-Extends list (world.fopen path) (plain path)

    merge_file-Extends :
        (name : List ℕ) (list : FilterRuleList)
        → Extends list (filter_list_merge_file world parse base_dir name list).1
    unfolding filter_list_merge_file
    merge_file-Extends name list =
        if-Extends list (head name == 0) (false, list) _ (Extends-refl list)
          (merge_path-Extends list _)

    add_parsed-Extends :
        (list : FilterRuleList) (o : Option FilterRule)
        → Extends list (add_parsed world.memory list o).1
    add_parsed-Extends list none = Extends-refl list
    add_parsed-Extends list (some rule) = added-Extends list _ (add-Extends world.memory list rule)

    append_kind-Extends :
        (parsed : Parsed) (list : FilterRuleList) (step : Step) (kind : RuleKind)
        → clears kind ≡ false
        → Extends list step.1
        → Extends list (append_kind world parse base_dir parsed list step kind).1
    append_kind-Extends parsed list step kind_clear quiet h = cc
    append_kind-Extends parsed list step kind_merge quiet h =
        if-Extends list _ (filter_list_merge_file world parse base_dir _ list) (false, list)
          (merge_file-Extends _ list) (Extends-refl list)
    append_kind-Extends parsed list step kind_dir_merge quiet h =
        let name = take parsed.pat_len parsed.pat in
        if-Extends list (not (parsed.pat_len == 0) && world.memory.malloc (parsed.pat_len + 1))
          (added list (filter_rule_list_add_dir_merge world.memory list name)) (false, list)
          (added-Extends list _ (add_dir_merge-Extends world.memory list name)) (Extends-refl list)
    append_kind-Extends parsed list step kind_exclude quiet h = h
    append_kind-Extends parsed list step kind_include quiet h = h
    append_kind-Extends parsed list step kind_hide quiet h = h
    append_kind-Extends parsed list step kind_show quiet h = h
    append_kind-Extends parsed list step kind_protect quiet h = h
    append_kind-Extends parsed list step kind_risk quiet h = h

    append_syntax-Extends :
        (p : List ℕ) (list : FilterRuleList) (o : Option Parsed)
        → is_clear o ≡ false
        → Extends list (append_syntax world parse delete_excluded base_dir p list o).1
    unfolding append_parsed filter_list_append_cvs
    append_syntax-Extends p list none quiet = Extends-refl list
    append_syntax-Extends p list (some parsed) quiet =
        if-Extends list parsed.modifiers.xattr (false, list) _ (Extends-refl list)
          (if-Extends list parsed.modifiers.cvs_inject _ _
            (append_cvs-Extends world.memory parsed.modifiers.sides cvs_defaults list)
            (append_kind-Extends parsed list _ parsed.kind quiet
              (add_parsed-Extends list (filter_rule_parse world.memory delete_excluded p))))

  parse_append-Extends :
      (left : ℕ) (line : List ℕ) (list : FilterRuleList)
      → is_clear (parse_rule_syntax (skip_blanks line)) ≡ false
      → Extends list (parse_append world delete_excluded base_dir left line list).1
  unfolding parse_append
  parse_append-Extends zero line list quiet = Extends-refl list
  parse_append-Extends (suc left) line list quiet =
      if-Extends list (at_line_end (skip_blanks line)) (true, list) _ (Extends-refl list)
        (append_syntax-Extends (parse_append world delete_excluded base_dir left)
          (parse_append-Extends left) (skip_blanks line) list (parse_rule_syntax (skip_blanks line))
          quiet)

own_from-append :
    (xs ys : List FilterRule) (owner : List ℕ)
    → own_from (length xs) owner (xs ++ ys) ≡ xs ++ own_from 0 owner ys
own_from-append [] ys owner = refl
own_from-append (x ∷ xs) ys owner = ap (λ t. x ∷ t) (own_from-append xs ys owner)

-- All rules belong to the directory.
abbrev pub AllOwned : List ℕ → List FilterRule → Type 0
AllOwned rel [] = Unit {0}
AllOwned rel (rule ∷ rules) = (rule.owner ≡ some rel) × AllOwned rel rules

own_from-AllOwned : (rel : List ℕ) (rules : List FilterRule) → AllOwned rel (own_from 0 rel rules)
own_from-AllOwned rel [] = tt
own_from-AllOwned rel (rule ∷ rules) = (refl, own_from-AllOwned rel rules)

-- The outcome of a merge file in a directory: nothing changed when it fails; when it succeeds the
-- rules and the names before it are as they were, and each rule after them has the owner.
abbrev pub Appended : FilterRuleList → List ℕ → Step → Type 0
Appended before owner (false, after) =
    (after.items ≡ before.items) × (after.dir_merge_names ≡ before.dir_merge_names)
Appended before owner (true, after) =
    (rules : List FilterRule) × (names : List (List ℕ)) × (after.items ≡ before.items ++ rules)
    × AllOwned owner rules
    × (after.dir_merge_names ≡ before.dir_merge_names ++ names)

rolled_back :
    (before after : FilterRuleList) (owner : List ℕ)
    → Extends before after
    → Appended before owner
        (false, rollback (length before.items) (length before.dir_merge_names) after)
unfolding rollback
rolled_back before after owner x = (
  ap (take (length before.items)) x.items_are ∙ take-append before.items x.rules,
  ap (take (length before.dir_merge_names)) x.names_are
      ∙ take-append before.dir_merge_names x.names,
)

finish-Appended :
    (memory : Memory) (before : FilterRuleList) (owner : List ℕ) (step : Step)
    → Extends before step.1
    → Appended before owner
        (finish_file memory (length before.items) (length before.dir_merge_names) owner step)
unfolding finish_file
finish-Appended memory before owner (false, after) x = rolled_back before after owner x
finish-Appended memory before owner (true, after) x =
    go (ltb (length before.items) (length after.items) && not (memory.malloc (length owner + 1)))
  where
    go :
        (b : Bool)
        → Appended before owner (
            if b
            then (false, rollback (length before.items) (length before.dir_merge_names) after)
            else (true, record after { items = own_from (length before.items) owner after.items }))
    go true = rolled_back before after owner x
    go false = (
      own_from 0 owner x.rules,
      x.names,
      ap (own_from (length before.items) owner) x.items_are
          ∙ own_from-append before.items x.rules owner,
      own_from-AllOwned owner x.rules,
      x.names_are,
    )

-- Where no merge file holds a `clear`, `filter_file_append` on a list either fails and leaves the
-- list's rules and dir-merge names as they were, or succeeds and leaves them followed by further rules
-- and names, and the directory is the owner of every further rule.
pub filter_file_append-Appended :
    (world : World) (delete_excluded : Bool) (dir_path name owner_rel : List ℕ)
    (list : FilterRuleList)
    → ClearsNothing world
    → Appended list owner_rel
        (filter_file_append world delete_excluded dir_path name owner_rel list)
unfolding filter_file_append
filter_file_append-Appended world delete_excluded dir_path name owner_rel list plain =
    at_path (path_cat world.memory dir_path name)
  where
    nothing : Appended list owner_rel (true, list)
    nothing = ([], [], sym (append-nil list.items), tt, sym (append-nil list.dir_merge_names))

    at_reading :
        (o : Option Reading)
        → ((reading : Reading) → o ≡ some reading → NoClear reading.lines)
        → Appended list owner_rel (file_reading world delete_excluded dir_path owner_rel list o)
    at_reading none quiet = nothing
    at_reading (some reading) quiet = finish-Appended world.memory list owner_rel _ (
        append_lines-Extends world plain delete_excluded dir_path
          (parse_append world delete_excluded dir_path 17)
          (parse_append-Extends world plain delete_excluded dir_path 17) reading.lines
          reading.complete list (quiet reading refl))

    at_path :
        (o : Option (List ℕ))
        → Appended list owner_rel (file_path world delete_excluded dir_path owner_rel list o)
    at_path none = (refl, refl)
    at_path (some path) = at_reading (world.fopen path) (plain path)
