-- ===== src/FileList/Normal.antt =====
-- What a rebuilt path is made of.
use fast_sync.Prelude.{
  ℕ, ◌+◌, ◌<◌, ◌≡◌, ◌⊎◌, inl, inr, refl, sym, ap, ◌∙◌, List, [], ◌∷◌, ◌++◌, Bool, true, false, ◌&&◌,
  Option, none, some, arith, ltb, guard-eq-some, not, ◌||◌, ◌*◌, ◌/◌, ◌-◌, take, ◌==◌,
  if◌then◌else◌, length, get_or,
}
use mathlib.Core.Path.{subst}
use fast_sync.FileList.{
  int_max, segments, is_dot, is_dot_dot, keep_part, rebuild, c_string, Memory, StringList,
  string_list_add, Normalized, added, blank, invalid, add_entry, normalize_entry, strip_endings,
  has_nul,
}
use fast_sync.FileList.Segments.{
  HasNoSlash, All, All-append, segments-append, segments_no_slash, segments-HasNoSlash,
}

-- A part that names an entry of a directory.
pub record IsName (part : List ℕ) : Type 0 where
  pub nonempty : 0 < length part
  pub not_dot : is_dot part ≡ false
  pub not_dot_dot : is_dot_dot part ≡ false

-- The source root, or a path of names.
abbrev pub IsRelative : List ℕ → Type 0
IsRelative path = (path ≡ []) ⊎ All IsName (segments path)

keep_part-IsRelative :
    (out part : List ℕ)
    → IsRelative out
    → HasNoSlash part
    → IsName part
    → IsRelative (keep_part out part)
unfolding keep_part
keep_part-IsRelative [] part r s n =
    inr (subst (All IsName) (sym (segments_no_slash part s)) (n, tt))
keep_part-IsRelative (c ∷ out) part (inl e) s n = cc
keep_part-IsRelative (c ∷ out) part (inr names) s n =
    let more : ltb 0 (length (c ∷ out)) ≡ true = ground arith in
    rw more (
      inr (
        subst (All IsName)
          (sym (
            segments-append (c ∷ out) part
            ∙ ap (λ t. segments (c ∷ out) ++ t) (segments_no_slash part s)))
          (All-append IsName (segments (c ∷ out)) (part ∷ []) names (n, tt))))

rebuild-IsRelative :
    (out : List ℕ) (parts : List (List ℕ)) (path : List ℕ)
    → IsRelative out
    → All HasNoSlash parts
    → rebuild out parts ≡ some path
    → IsRelative path
unfolding rebuild
rebuild-IsRelative out [] path r s e = subst IsRelative (some-inj e) r
  where
    some-inj : some out ≡ some path → out ≡ path
    some-inj h = cc
rebuild-IsRelative out (part ∷ parts) path r s e =
    go (is_dot part) (is_dot_dot part) (ltb 0 (length part)) refl refl refl
      (rebuild-IsRelative out parts path r s.1)
      (λ n.
        rebuild-IsRelative (keep_part out part) parts path (keep_part-IsRelative out part r s.0 n)
          s.1)
      e
  where
    go :
        (dot dot_dot some_bytes : Bool)
        → is_dot part ≡ dot
        → is_dot_dot part ≡ dot_dot
        → ltb 0 (length part) ≡ some_bytes
        → (rebuild out parts ≡ some path → IsRelative path)
        → (IsName part → rebuild (keep_part out part) parts ≡ some path → IsRelative path)
        → (if dot
            then rebuild out parts
            else if dot_dot
            then none
            else if some_bytes
            then rebuild (keep_part out part) parts
            else rebuild out parts)
          ≡ some path
        → IsRelative path
    go true b c p q z skip keep h = skip h
    go false true c p q z skip keep h = cc
    go false false false p q z skip keep h = skip h
    go false false true p q z skip keep h =
        keep (record { nonempty = ground arith; not_dot = p; not_dot_dot = q }) h

-- What the loop of `normalize_entry` makes of an entry.
rebuild-segments-IsRelative :
    (entry path : List ℕ) → rebuild [] (segments (c_string entry)) ≡ some path → IsRelative path
rebuild-segments-IsRelative entry path e =
    rebuild-IsRelative [] (segments (c_string entry)) path (inl refl)
      (segments-HasNoSlash (c_string entry)) e

string_list_add-items :
    (m : Memory) (list : StringList) (text : List ℕ) (l : StringList)
    → string_list_add m list text ≡ some l
    → l.items ≡ list.items ++ (text ∷ [])
unfolding string_list_add
string_list_add-items m list text l h =
    let full = length list.items == list.capacity in
    let new_cap = if ltb 0 list.capacity then list.capacity * 2 else 16 in
    let (a, h1) = guard-eq-some (not (full && ltb (int_max / 2) list.capacity)) _ h in
    let (b, h2) = guard-eq-some (not full || m.realloc (new_cap * 8)) _ h1 in
    let (c, h3) = guard-eq-some (m.malloc (length text + 1)) _ h2 in sym (ap items_of h3)
  where
    items_of : Option StringList → List (List ℕ)
    items_of none = []
    items_of (some l) = l.items

-- The outcome of an entry that was added to the list `out`.
abbrev pub AddsRelative : StringList → StringList → Type 0
AddsRelative out list = (path : List ℕ) × (list.items ≡ out.items ++ (path ∷ [])) × IsRelative path

add_entry-AddsRelative :
    (m : Memory) (entry : List ℕ) (out list : StringList)
    → add_entry m entry out ≡ added list
    → AddsRelative out list
unfolding add_entry
add_entry-AddsRelative m entry out list h =
    go (m.malloc (length entry + 1)) (rebuild [] (segments (c_string entry))) refl h
  where
    finish :
        (path : List ℕ) (o : Option StringList)
        → string_list_add m out path ≡ o
        → IsRelative path
        → elim o [ none ↦ invalid | some l ↦ added l ] ≡ added list
        → AddsRelative out list
    finish path none e r z = cc
    finish path (some l) e r z =
        let same : l ≡ list = cc in
        (path, string_list_add-items m out path list (e ∙ ap some same), r)

    go :
        (granted : Bool) (rebuilt : Option (List ℕ))
        → rebuild [] (segments (c_string entry)) ≡ rebuilt
        → (if granted
            then elim rebuilt [
              | none ↦ invalid
              | some path ↦ elim (string_list_add m out path) [ none ↦ invalid | some l ↦ added l ]
            ]
            else invalid)
          ≡ added list
        → AddsRelative out list
    go false rebuilt e z = cc
    go true none e z = cc
    go true (some path) e z =
        finish path (string_list_add m out path) refl (rebuild-segments-IsRelative entry path e) z

-- When `normalize_entry` adds an entry, in either mode, the list has one more item at its end, which
-- is empty, standing for the source root, or a path whose parts between slashes are neither empty
-- nor `.` nor `..`; so it has no slash at either end and leads to nothing outside the root.
pub normalize_entry-AddsRelative :
    (m : Memory) (raw : List ℕ) (strip_line_endings : Bool) (out list : StringList)
    → normalize_entry m raw strip_line_endings out ≡ added list
    → AddsRelative out list
unfolding normalize_entry
normalize_entry-AddsRelative m raw strip_line_endings out list h =
    let entry = if strip_line_endings then strip_endings raw else raw in
    go (length entry == 0) (get_or entry 0 0 == 47)
      (has_nul (if strip_line_endings then entry else take (length entry - 1) entry))
      (add_entry-AddsRelative m entry out list) h
  where
    go :
        (a b c : Bool) {last : Normalized}
        → (last ≡ added list → AddsRelative out list)
        → (if a then blank else if b then invalid else if c then invalid else last) ≡ added list
        → AddsRelative out list
    go true b c f z = cc
    go false true c f z = cc
    go false false true f z = cc
    go false false false f z = f z
