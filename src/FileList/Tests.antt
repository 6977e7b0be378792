-- ===== src/FileList/Tests.antt =====
-- Entries of a list: `./a//b/` in a line and with NULs, `a/../b`, and an empty entry.
use fast_sync.Prelude.{ℕ, ◌≡◌, refl, List, [], ◌∷◌, true, false}
use fast_sync.FileList.{
  Memory, StringList, added, blank, invalid, normalize_entry, add_entry, rebuild, segments,
  c_string, has_nul, strip_endings, string_list_add, keep_part, first_cons,
}
use fast_sync.Prelude.{zero, suc, get_or, ◌⊎◌, none, some, arith}
use fast_sync.StringSet.{Key, Services, lookup, find_at, find_slot, same_key}
use fast_sync.StringSet.Table.{IsTable, Reached}
use fast_sync.FileList.Scope.{
  FileListSet, IsInScope, dir_in_scope, ancestor_listed, listed_or, parent, dir_in_scope_lem,
}
use fast_sync.FileList.Normal.{AddsRelative, normalize_entry-AddsRelative}

abbrev generous : Memory
generous = record { malloc = λ n. true; realloc = λ n. true }

abbrev no_entries : StringList
no_entries = record { items = []; capacity = 0 }

abbrev dotted : List ℕ
dotted = 46 ∷ 47 ∷ 97 ∷ 47 ∷ 47 ∷ 98 ∷ 47 ∷ 13 ∷ 10 ∷ []

abbrev one_entry : StringList
one_entry = record { items = (97 ∷ 47 ∷ 98 ∷ []) ∷ []; capacity = 16 }

line : normalize_entry generous dotted true no_entries ≡ added one_entry
unfolding normalize_entry add_entry rebuild segments c_string has_nul strip_endings string_list_add
    keep_part first_cons
line = refl

traversal :
    normalize_entry generous (97 ∷ 47 ∷ 46 ∷ 46 ∷ 47 ∷ 98 ∷ 10 ∷ []) true no_entries ≡ invalid
unfolding normalize_entry add_entry rebuild segments c_string has_nul strip_endings keep_part
    first_cons
traversal = refl

-- An empty line is skipped, an empty entry that a NUL ends is the source root.
empty_line : normalize_entry generous (10 ∷ []) true no_entries ≡ blank
unfolding normalize_entry strip_endings
empty_line = refl

empty_entry :
    normalize_entry generous (0 ∷ []) false no_entries
    ≡ added (record { items = [] ∷ []; capacity = 16 })
unfolding normalize_entry add_entry rebuild segments c_string has_nul string_list_add keep_part
    first_cons
empty_entry = refl

normalize_entry-AddsRelative_example : AddsRelative no_entries one_entry
normalize_entry-AddsRelative_example =
    normalize_entry-AddsRelative generous dotted true no_entries one_entry line

-- A list with the one path `a`, in a set of two slots.
abbrev toy : Services
toy = record { hash = λ key. 1; calloc = λ n. true }

abbrev listed : FileListSet
listed = record {
  exact = record { slots = none ∷ some (97 ∷ []) ∷ []; capacity = 2; size = 1 };
  whole_tree = false;
}

listed-Reached :
    (i : ℕ) (key : Key)
    → get_or listed.exact.slots i none ≡ some key
    → Reached listed.exact.slots 2 1 i
listed-Reached zero key e = cc
listed-Reached (suc zero) key e = (0, refl, λ e below. absurd (omega arith))
listed-Reached (suc (suc i)) key e = cc

listed-IsTable : IsTable toy listed.exact
listed-IsTable = record {
  log = 1;
  power = refl;
  small = omega arith;
  whole = refl;
  count = refl;
  load = omega arith;
  reached = listed-Reached;
}

-- `a/b` is below `a`, and `b` is not.
below : dir_in_scope toy (some listed) (97 ∷ 47 ∷ 98 ∷ []) ≡ some true
unfolding dir_in_scope ancestor_listed listed_or parent lookup find_at find_slot same_key
below = refl

beside : dir_in_scope toy (some listed) (98 ∷ []) ≡ some false
unfolding dir_in_scope ancestor_listed listed_or parent lookup find_at find_slot same_key
beside = refl

dir_in_scope_lem_example :
    ((dir_in_scope toy (some listed) (97 ∷ 47 ∷ 98 ∷ []) ≡ some true)
      × IsInScope listed (97 ∷ 47 ∷ 98 ∷ []))
    ⊎ ((dir_in_scope toy (some listed) (97 ∷ 47 ∷ 98 ∷ []) ≡ some false)
        × (IsInScope listed (97 ∷ 47 ∷ 98 ∷ []) → ⊥))
dir_in_scope_lem_example = dir_in_scope_lem toy listed (97 ∷ 47 ∷ 98 ∷ []) listed-IsTable
