-- ===== src/Filter/Extends.antt =====
-- The steps that only add to a list.
use mathlib.Core.Path.{subst}
use fast_sync.Prelude.{
  ℕ, ◌+◌, List, [], ◌∷◌, ◌++◌, ◌≡◌, inl, inr, refl, sym, ap, ◌∙◌, Bool, true, false, not, ◌&&◌,
  ◌||◌, ◌==◌, ltb, Option, none, some, if◌then◌else◌, Bool-cases, length, append-nil, append_assoc,
  guard-eq-some, ◌*◌, ◌/◌, ◌-◌, ◌^◌,
}
use fast_sync.Filter.{
  FilterRule, FilterRuleList, Memory, filter_rule_list_add, grow_dir_merge,
  filter_rule_list_add_dir_merge, has_name,
}
use fast_sync.Filter.Syntax.{Parsed, parse_rule_syntax, skip_blanks}
use fast_sync.Filter.Modifiers.{RuleKind, kind_clear}
use fast_sync.Filter.Files.{World, Reading, Step, added, and_then, append_cvs_rule, append_cvs}

-- The list with rules and names added at the end.
pub record Extends (before after : FilterRuleList) : Type 0 where
  pub rules : List FilterRule
  pub names : List (List ℕ)
  pub items_are : after.items ≡ before.items ++ rules
  pub names_are : after.dir_merge_names ≡ before.dir_merge_names ++ names

pub Extends-refl : (list : FilterRuleList) → Extends list list
Extends-refl list = record {
  rules = [];
  names = [];
  items_are = sym (append-nil list.items);
  names_are = sym (append-nil list.dir_merge_names);
}

Extends-trans : (a b c : FilterRuleList) → Extends a b → Extends b c → Extends a c
Extends-trans a b c x y = record {
  rules = x.rules ++ y.rules;
  names = x.names ++ y.names;
  items_are =
      y.items_are ∙ ap (λ l. l ++ y.rules) x.items_are ∙ append_assoc a.items x.rules y.rules;
  names_are =
      y.names_are
      ∙ ap (λ l. l ++ y.names) x.names_are
      ∙ append_assoc a.dir_merge_names x.names y.names;
}

abbrev pub clears : RuleKind → Bool
clears kind = elim kind [ kind_clear ↦ true | _ ↦ false ]

-- A line that asks for the list to be cleared.
abbrev pub is_clear : Option Parsed → Bool
is_clear none = false
is_clear (some parsed) = clears parsed.kind

unfoldable pub NoClear : List (List ℕ) → Type 0
NoClear [] = Unit {0}
NoClear (line ∷ lines) = (is_clear (parse_rule_syntax (skip_blanks line)) ≡ false) × NoClear lines

-- No file that may be read has such a line.
abbrev pub ClearsNothing : World → Type 0
ClearsNothing world =
    (path : List ℕ) (reading : Reading) → world.fopen path ≡ some reading → NoClear reading.lines

pub added-Extends :
    (list : FilterRuleList) (o : Option FilterRuleList)
    → ((longer : FilterRuleList) → o ≡ some longer → Extends list longer)
    → Extends list (added list o).1
added-Extends list none h = Extends-refl list
added-Extends list (some longer) h = h longer refl

-- The list that a step made, to compare the parts.
made : FilterRuleList → Option FilterRuleList → FilterRuleList
made list none = list
made list (some l) = l

pub add-Extends :
    (memory : Memory) (list : FilterRuleList) (rule : FilterRule) (longer : FilterRuleList)
    → filter_rule_list_add memory list rule ≡ some longer
    → Extends list longer
unfolding filter_rule_list_add made
add-Extends memory list rule longer h =
    let full = length list.items == list.capacity in
    let new_cap = if ltb 0 list.capacity then list.capacity * 2 else 8 in
    let (room, h1) = guard-eq-some (not (full && ltb ((2 ^ 31 - 1) / 2) list.capacity)) _ h in
    let (granted, h2) = guard-eq-some (not full || memory.realloc (new_cap * 8)) _ h1 in
    let same = ap (made list) h2 in
    record {
      rules = rule ∷ [];
      names = [];
      items_are = sym (ap (λ (l : FilterRuleList). l.items) same);
      names_are =
          sym (ap (λ (l : FilterRuleList). l.dir_merge_names) same)
          ∙ sym (append-nil list.dir_merge_names);
    }

grow-Extends :
    (memory : Memory) (list : FilterRuleList) (name : List ℕ) (longer : FilterRuleList)
    → grow_dir_merge memory list name ≡ some longer
    → Extends list longer
unfolding grow_dir_merge made
grow-Extends memory list name longer h =
    let full = length list.dir_merge_names == list.dir_merge_capacity in
    let new_cap = if ltb 0 list.dir_merge_capacity then list.dir_merge_capacity * 2 else 4 in
    let (granted, h1) = guard-eq-some (not full || memory.realloc (new_cap * 8)) _ h in
    let (copied, h2) = guard-eq-some (memory.malloc (length name + 1)) _ h1 in
    let same = ap (made list) h2 in
    record {
      rules = [];
      names = name ∷ [];
      items_are = sym (ap (λ (l : FilterRuleList). l.items) same) ∙ sym (append-nil list.items);
      names_are = sym (ap (λ (l : FilterRuleList). l.dir_merge_names) same);
    }

pub add_dir_merge-Extends :
    (memory : Memory) (list : FilterRuleList) (name : List ℕ) (longer : FilterRuleList)
    → filter_rule_list_add_dir_merge memory list name ≡ some longer
    → Extends list longer
unfolding filter_rule_list_add_dir_merge
add_dir_merge-Extends memory list name longer h =
    go (length name == 0) (has_name list.dir_merge_names name) h
  where
    go :
        (b c : Bool)
        → (if b then none else if c then some list else grow_dir_merge memory list name)
          ≡ some longer
        → Extends list longer
    go true c h = cc
    go false true h =
        let same : list ≡ longer = cc h in subst (Extends list) same (Extends-refl list)
    go false false h = grow-Extends memory list name longer h

pub if-Extends :
    (list : FilterRuleList) (b : Bool) (x y : Step)
    → Extends list x.1
    → Extends list y.1
    → Extends list (if b then x else y).1
if-Extends list true x y h k = h
if-Extends list false x y h k = k

pub and_then-Extends :
    (list : FilterRuleList) (step : Step) (next : FilterRuleList → Step)
    → Extends list step.1
    → ((l : FilterRuleList) → Extends l (next l).1)
    → Extends list (and_then step next).1
and_then-Extends list (true, l) next h k = Extends-trans list l (next l).1 h (k l)
and_then-Extends list (false, l) next h k = h

append_cvs_rule-Extends :
    (memory : Memory) (sides : ℕ) (entry : List ℕ × Bool) (list : FilterRuleList)
    → Extends list (append_cvs_rule memory sides entry list).1
unfolding append_cvs_rule
append_cvs_rule-Extends memory sides (pattern, dir_only) list =
    if-Extends list _ _ _ (added-Extends list _ (add-Extends memory list _)) (Extends-refl list)

pub append_cvs-Extends :
    (memory : Memory) (sides : ℕ) (table : List (List ℕ × Bool)) (list : FilterRuleList)
    → Extends list (append_cvs memory sides table list).1
unfolding append_cvs
append_cvs-Extends memory sides [] list = Extends-refl list
append_cvs-Extends memory sides (entry ∷ table) list =
    and_then-Extends list (append_cvs_rule memory sides entry list) (append_cvs memory sides table)
      (append_cvs_rule-Extends memory sides entry list)
      (λ l. append_cvs-Extends memory sides table l)

pub skip_blanks-twice : (s : List ℕ) → skip_blanks (skip_blanks s) ≡ skip_blanks s
skip_blanks-twice [] = refl
skip_blanks-twice (c ∷ s) = elim (Bool-cases (c == 32 || c == 9)) [
  | inl e ↦ rw e (skip_blanks-twice s)
  | inr e ↦ rw (e, e) refl
]
