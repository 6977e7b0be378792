-- ===== src/Filter/Syntax.antt =====
-- The syntax of a rule: `parse_rule_syntax` and `filter_rule_parse` of src/shared/filter.c.
use fast_sync.Prelude.{
  ℕ, ◌+◌, ◌-◌, List, [], ◌∷◌, Bool, true, false, not, ◌&&◌, ◌||◌, Option, none, some, leb, ltb,
  ◌==◌, if◌then◌else◌, guard, ◌>>◌, ◌>>=◌, length, get_or, take, drop,
}
use fast_sync.Filter.{
  FilterAction, no_action, exclude, include, sender, receiver, FilterRule, Memory, head,
}
use fast_sync.Filter.Modifiers.{
  RuleKind, kind_include, kind_hide, kind_show, kind_protect, kind_risk, kind_merge, kind_dir_merge,
  kind_clear, short_rule_char, long_rule_name, is_blank_mark, is_consumed_modifier_char,
  unsupported_modifier_in_token, Modifiers, no_modifiers, modify_all,
}

-- The characters at the front that a loop takes.
abbrev pub taken : (ℕ → Bool) → List ℕ → List ℕ
taken test [] = []
taken test (c ∷ s) = let rest = taken test s in if test c then c ∷ rest else []

-- `isalpha`, or `-`
abbrev pub is_name_char : ℕ → Bool
is_name_char c = (leb 65 c && leb c 90) || ((leb 97 c && leb c 122) || c == 45)

-- The rule's name, whether it is a short one, and what follows it.
pub record Named : Type 0 where
  pub kind : RuleKind
  pub is_short : Bool
  pub rest : List ℕ

unfoldable pub rule_name : List ℕ → Option Named
rule_name text = elim (short_rule_char (head text)) [
  | some kind ↦ some (record { kind = kind; is_short = true; rest = drop 1 text })
  | none ↦
      let name = taken is_name_char text in
      let after = drop (length name) text in
      do
        guard (not (length name == 0))
        kind ← long_rule_name name
        guard (length after == 0 || (head after == 44 || is_blank_mark (head after)))
        some (record { kind = kind; is_short = false; rest = after })
]

-- The committed run of modifiers and what follows it.
unfoldable pub modifier_run : Named → List ℕ × List ℕ
modifier_run named =
    let p = named.rest in
    if head p == 44
    then (let run = taken (λ c. is_consumed_modifier_char c named.kind) (drop 1 p) in
        (run, drop (length run) (drop 1 p)))
    else (let run = taken (λ c. is_consumed_modifier_char c named.kind) p in
        let after = drop (length run) p in
        if named.is_short && (length after == 0 || is_blank_mark (head after))
        then (run, after)
        else ([], p))

-- The length without the CR and LF at the end.
unfoldable pub trimmed_length : List ℕ → ℕ
trimmed_length [] = 0
trimmed_length (c ∷ s) =
    let rest = trimmed_length s in if rest == 0 && (c == 10 || c == 13) then 0 else rest + 1

pub record Parsed : Type 0 where
  pub kind : RuleKind
  pub modifiers : Modifiers
  pub pat : List ℕ
  pub pat_len : ℕ

unfoldable pub parse_rule_syntax : List ℕ → Option Parsed
parse_rule_syntax text = do
  named ← rule_name text
  let bad =
      if head named.rest == 44
      then unsupported_modifier_in_token (drop 1 named.rest) named.kind
      else if named.is_short
      then unsupported_modifier_in_token named.rest named.kind
      else 0
  guard (bad == 0)
  let run = modifier_run named
  let pat = if is_blank_mark (head run.1) then drop 1 run.1 else run.1
  some (record {
    kind = named.kind;
    modifiers = modify_all no_modifiers run.0;
    pat = pat;
    pat_len = trimmed_length pat;
  })

abbrev pub skip_blanks : List ℕ → List ℕ
skip_blanks [] = []
skip_blanks (c ∷ s) = let rest = skip_blanks s in if c == 32 || c == 9 then rest else c ∷ s

abbrev pub at_line_end : List ℕ → Bool
at_line_end s = head s == 0 || (head s == 10 || head s == 13)

abbrev pub kind_action : RuleKind → FilterAction
kind_action kind = elim kind [
  | kind_include ↦ include
  | kind_show ↦ include
  | kind_risk ↦ include
  | _ ↦ exclude
]

-- The side that a kind is for, where there is one.
abbrev pub kind_side : RuleKind → Option ℕ
kind_side kind = elim kind [
  | kind_hide ↦ some sender
  | kind_show ↦ some sender
  | kind_protect ↦ some receiver
  | kind_risk ↦ some receiver
  | _ ↦ none
]

unfoldable pub rule_sides : Bool → RuleKind → Modifiers → ℕ
rule_sides delete_excluded kind m = elim (kind_side kind) [
  | some side ↦ side
  | none ↦ if delete_excluded && not m.sides_explicit then sender else m.sides
]

-- The pattern without its anchor, its length, and whether there was an anchor.
unfoldable pub unanchored : Parsed → List ℕ × ℕ × Bool
unanchored parsed =
    let rest = skip_blanks (drop 1 parsed.pat) in
    if head parsed.pat == 47
    then (rest, trimmed_length rest, true)
    else (parsed.pat, parsed.pat_len, parsed.modifiers.anchored_mod)

unfoldable pub pattern_rule : Memory → Bool → Parsed → Option FilterRule
pattern_rule memory delete_excluded parsed = do
  guard (not (parsed.pat_len == 0))
  let (pat, pat_len, anchored) = unanchored parsed
  guard (not (pat_len == 0))
  let dir_only = ltb 1 pat_len && get_or pat (pat_len - 1) 0 == 47
  let cleaned = take (if dir_only then pat_len - 1 else pat_len) pat
  guard (not (length cleaned == 0))
  guard (memory.calloc 32)
  guard (memory.malloc (length cleaned + 1))
  some (record {
    action = kind_action parsed.kind;
    sides = rule_sides delete_excluded parsed.kind parsed.modifiers;
    anchored = anchored;
    dir_only = dir_only;
    negate = parsed.modifiers.negate;
    perishable = parsed.modifiers.perishable;
    owner = none;
    pattern = some cleaned;
  })

-- The mark of a `clear`.
abbrev pub clear_mark : FilterRule
clear_mark = record {
  action = no_action;
  sides = 0;
  anchored = false;
  dir_only = false;
  negate = false;
  perishable = false;
  owner = none;
  pattern = none;
}

unfoldable pub rule_of : Memory → Bool → Parsed → Option FilterRule
rule_of memory delete_excluded parsed = elim parsed.kind [
  | kind_merge ↦ none
  | kind_dir_merge ↦ none
  | kind_clear ↦ (do guard (parsed.pat_len == 0); guard (memory.calloc 32); some clear_mark)
  | _ ↦ pattern_rule memory delete_excluded parsed
]

unfoldable pub filter_rule_parse : Memory → Bool → List ℕ → Option FilterRule
filter_rule_parse memory delete_excluded line =
    let p = skip_blanks line in
    do
      guard (not (at_line_end p))
      parsed ← parse_rule_syntax p
      guard (not parsed.modifiers.cvs_inject)
      guard (not parsed.modifiers.xattr)
      rule_of memory delete_excluded parsed
