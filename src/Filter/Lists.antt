-- ===== src/Filter/Lists.antt =====
-- Whole rule lists: `filter_base_build` and `filter_file_read_named` of src/shared/filter.c, and
-- `read_dir_filters` of src/client/scanner_filter.c. Whether a file was there is left out.
use mathlib.Core.Path.{subst}
use fast_sync.Prelude.{
  ℕ, List, [], ◌∷◌, ◌++◌, ◌≡◌, refl, sym, Bool, true, false, not, ◌||◌, ◌==◌, Option, none, some,
  if◌then◌else◌, length,
}
use fast_sync.Filter.{FilterRule, FilterRuleList, Memory}
use fast_sync.Filter.Files.{
  World, Step, and_then, filter_list_append_cvs, parse_append, filter_file_append,
}
use fast_sync.Filter.Extends.{ClearsNothing}
use fast_sync.Filter.Appends.{AllOwned, Appended, filter_file_append-Appended}

abbrev pub fresh_list : FilterRuleList
fresh_list = record { items = []; capacity = 0; dir_merge_names = []; dir_merge_capacity = 0 }

unfoldable pub filter_rule_list_create : Memory → Option FilterRuleList
filter_rule_list_create memory = if memory.calloc 32 then some fresh_list else none

-- The list of a call that succeeded.
abbrev pub succeeded : Step → Option FilterRuleList
succeeded (true, list) = some list
succeeded (false, list) = none

abbrev pub on_list : Option FilterRuleList → (FilterRuleList → Step) → Option FilterRuleList
on_list none next = none
on_list (some list) next = succeeded (next list)

-- The loop over the rules of the command line, of which some may be null.
unfoldable pub append_texts : World → Bool → List (Option (List ℕ)) → FilterRuleList → Step
append_texts world delete_excluded [] list = (true, list)
append_texts world delete_excluded (none ∷ texts) list =
    append_texts world delete_excluded texts list
append_texts world delete_excluded (some text ∷ texts) list =
    and_then (parse_append world delete_excluded [] 17 text list)
      (append_texts world delete_excluded texts)

unfoldable pub filter_base_build :
    World → List (Option (List ℕ)) → Bool → Bool → Option FilterRuleList
filter_base_build world rule_texts cvs_exclude delete_excluded =
    on_list (filter_rule_list_create world.memory) (λ list.
      and_then (append_texts world delete_excluded rule_texts list) (λ built.
        if cvs_exclude then filter_list_append_cvs world.memory 3 built else (true, built)))

unfoldable pub filter_file_read_named :
    World → Bool → List ℕ → List ℕ → List ℕ → Option FilterRuleList
filter_file_read_named world delete_excluded dir_path name owner_rel =
    on_list (filter_rule_list_create world.memory)
      (filter_file_append world delete_excluded dir_path name owner_rel)

-- `.rsync-filter`
abbrev pub rsync_filter : List ℕ
rsync_filter = 46 ∷ 114 ∷ 115 ∷ 121 ∷ 110 ∷ 99 ∷ 45 ∷ 102 ∷ 105 ∷ 108 ∷ 116 ∷ 101 ∷ 114 ∷ []

module _ (world : World) (delete_excluded : Bool) (dir_path rel : List ℕ) where
  -- The files of the directory, one after the other, on one list.
  unfoldable pub append_files : List (List ℕ) → FilterRuleList → Step
  append_files [] list = (true, list)
  append_files (name ∷ names) list =
      and_then (filter_file_append world delete_excluded dir_path name rel list)
        (append_files names)

  unfoldable pub read_dir_filters : Bool → List (List ℕ) → Option FilterRuleList
  read_dir_filters per_dir_filters dir_merge_names =
      if not (per_dir_filters || not (length dir_merge_names == 0))
      then none
      else on_list (filter_rule_list_create world.memory) (
          append_files
            (if per_dir_filters then rsync_filter ∷ dir_merge_names else dir_merge_names))

  append-AllOwned :
      (old rules : List FilterRule)
      → AllOwned rel old
      → AllOwned rel rules
      → AllOwned rel (old ++ rules)
  append-AllOwned [] rules h k = k
  append-AllOwned (rule ∷ old) rules h k = (h.0, append-AllOwned old rules h.1 k)

  -- Rules that a step leaves, when it succeeds.
  abbrev LeavesOwned : Step → Type 0
  LeavesOwned (true, list) = AllOwned rel list.items
  LeavesOwned (false, list) = Unit {0}

  Appended-LeavesOwned :
      (before : FilterRuleList) (step : Step)
      → AllOwned rel before.items
      → Appended before rel step
      → LeavesOwned step
  Appended-LeavesOwned before (false, after) h a = tt
  Appended-LeavesOwned before (true, after) h (rules, names, items, owned, more) =
      subst (AllOwned rel) (sym items) (append-AllOwned before.items rules h owned)

  and_then-LeavesOwned :
      (step : Step) (next : FilterRuleList → Step)
      → LeavesOwned step
      → ((list : FilterRuleList) → AllOwned rel list.items → LeavesOwned (next list))
      → LeavesOwned (and_then step next)
  and_then-LeavesOwned (true, list) next h k = k list h
  and_then-LeavesOwned (false, list) next h k = tt

  append_files-LeavesOwned :
      (names : List (List ℕ)) (list : FilterRuleList)
      → ClearsNothing world
      → AllOwned rel list.items
      → LeavesOwned (append_files names list)
  unfolding append_files
  append_files-LeavesOwned [] list plain h = h
  append_files-LeavesOwned (name ∷ names) list plain h =
      and_then-LeavesOwned (filter_file_append world delete_excluded dir_path name rel list)
        (append_files names)
        (Appended-LeavesOwned list _ h
          (filter_file_append-Appended world delete_excluded dir_path name rel list plain))
        (λ l k. append_files-LeavesOwned names l plain k)

  created-AllOwned :
      (o : Option FilterRuleList) (names : List (List ℕ)) (list : FilterRuleList)
      → ClearsNothing world
      → ((l : FilterRuleList) → o ≡ some l → AllOwned rel l.items)
      → on_list o (append_files names) ≡ some list
      → AllOwned rel list.items
  created-AllOwned none names list plain h e = cc
  created-AllOwned (some l) names list plain h e =
      go (append_files names l) (append_files-LeavesOwned names l plain (h l refl)) e
    where
      go : (step : Step) → LeavesOwned step → succeeded step ≡ some list → AllOwned rel list.items
      go (true, done) k e =
          let same : done ≡ list = cc e in
          subst (λ (x : FilterRuleList). AllOwned rel x.items) same k
      go (false, done) k e = cc

  create-AllOwned :
      (l : FilterRuleList) → filter_rule_list_create world.memory ≡ some l → AllOwned rel l.items
  unfolding filter_rule_list_create
  create-AllOwned l e = go (world.memory.calloc 32) e
    where
      go : (b : Bool) → (if b then some fresh_list else none) ≡ some l → AllOwned rel l.items
      go true e =
          let same : fresh_list ≡ l = cc e in
          subst (λ (x : FilterRuleList). AllOwned rel x.items) same tt
      go false e = cc

  -- Where no merge file holds a `clear`, every rule of the list that `read_dir_filters` returns has
  -- the directory as its owner, from whichever of the directory's files it comes.
  pub read_dir_filters-AllOwned :
      (per_dir_filters : Bool) (dir_merge_names : List (List ℕ)) (list : FilterRuleList)
      → ClearsNothing world
      → read_dir_filters per_dir_filters dir_merge_names ≡ some list
      → AllOwned rel list.items
  unfolding read_dir_filters
  read_dir_filters-AllOwned per_dir_filters dir_merge_names list plain h =
      go (not (per_dir_filters || not (length dir_merge_names == 0))) h
    where
      names : List (List ℕ)
      names = if per_dir_filters then rsync_filter ∷ dir_merge_names else dir_merge_names

      go :
          (b : Bool)
          → (if b
              then none
              else on_list (filter_rule_list_create world.memory) (append_files names))
            ≡ some list
          → AllOwned rel list.items
      go true e = cc
      go false e =
          created-AllOwned (filter_rule_list_create world.memory) names list plain create-AllOwned e
