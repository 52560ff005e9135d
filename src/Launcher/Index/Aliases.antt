-- ===== src/Launcher/Index/Aliases.antt =====
-- The aliases of map.txt: which line counts, and what the names become.
use mathlib.Core.List.{Perm}
use mathlib.Core.List.Perm
use darkui.Base.{
  true, ◌⊎◌, ◌≡◌, false, Bool-cases, Option-cases, inl, inr, List, [], ◌∷◌, ◌++◌, Option, none,
  some, if◌then◌else◌, refl, sym, ap, ◌∙◌, append_assoc, append-nil, arith, All, subst,
}
use darkui.CString.{Bytes}
use darkui.Names.{hide}
use darkui.Collections.{Hash, hash_new, hash_get}
use darkui.Collections.Maps.{
  Holds, first_match, hash_new-Holds, hash_set-Holds, hash_get-first_match,
}
use darkui.Launcher.Files.{split_tab}
use darkui.Launcher.Entries.{Entry}
use darkui.Launcher.Entries.Sorting.{Sorted, sort_entries-Sorted, sort_entries-All}
use darkui.Launcher.Index.{
  map_line, map_lines, alias_of, rename, rename_all, must_sort, must_filter, drop_hidden, apply_map,
  filename,
}

-- The lines with a tab, as pairs.
pub pair_of : Bytes × Option Bytes → List (Bytes × Bytes)
pair_of (key, none) = []
pair_of (key, some value) = (key, value) ∷ []

pub pairs : List Bytes → List (Bytes × Bytes)
pairs [] = []
pairs (line ∷ lines) = pair_of (split_tab line) ++ pairs lines

map_line-Holds :
    (map : Hash) (old : List (Bytes × Bytes)) (split : Bytes × Option Bytes)
    → Holds map old
    → Holds (map_line map split) (old ++ pair_of split)
unfolding map_line pair_of
map_line-Holds map old (key, none) h = rw (append-nil old) h
map_line-Holds map old (key, some value) h = hash_set-Holds map old key value h

map_lines-Holds :
    (map : Hash) (old : List (Bytes × Bytes)) (lines : List Bytes)
    → Holds map old
    → Holds (map_lines map lines) (old ++ pairs lines)
unfolding map_lines pairs
map_lines-Holds map old [] h = rw (append-nil old) h
map_lines-Holds map old (line ∷ lines) h =
    let rest =
      map_lines-Holds (map_line map (split_tab line)) (old ++ pair_of (split_tab line)) lines
        (map_line-Holds map old (split_tab line) h) in
    subst (Holds (map_lines (map_line map (split_tab line)) lines))
      (append_assoc old (pair_of (split_tab line)) (pairs lines)) rest

-- The alias of a file is the one that the first line for it gives, and lines without a tab give
-- none.
pub map_lines-first_match :
    (lines : List Bytes) (key : Bytes)
    → hash_get (map_lines hash_new lines) key ≡ first_match key (pairs lines)
map_lines-first_match lines key =
    hash_get-first_match (map_lines hash_new lines) (pairs lines) key
      (map_lines-Holds hash_new [] lines hash_new-Holds)

-- An entry with an alias bears it as its name, and the alias is not hidden.
abbrev pub Shown : Hash → Entry → Type 0
Shown map e =
    (alias : Bytes) → alias_of map e ≡ some alias → (e.name ≡ alias) × (hide e.name ≡ false)

-- The name alone.
abbrev Named : Hash → Entry → Type 0
Named map e = (alias : Bytes) → alias_of map e ≡ some alias → e.name ≡ alias

rename-path : (map : Hash) (e : Entry) → (rename map e).path ≡ e.path
unfolding rename
rename-path map e = elim (Option-cases (alias_of map e)) [
  | inl n ↦ rw (n, rename) refl
  | inr (a, n) ↦ rw (n, rename) refl
]

alias_of-rename : (map : Hash) (e : Entry) → alias_of map (rename map e) ≡ alias_of map e
unfolding alias_of filename
alias_of-rename map e = rw (rename-path map e) refl

rename-Named : (map : Hash) (e : Entry) → Named map (rename map e)
unfolding rename
rename-Named map e alias h =
    let known : alias_of map e ≡ some alias = sym (alias_of-rename map e) ∙ h in
    rw (known, rename) refl

rename_all-none :
    (map : Hash) (entries : List Entry)
    → must_sort map entries ≡ false
    → (rename_all map entries ≡ entries) × (must_filter map entries ≡ false)
unfolding rename_all must_sort must_filter rename
rename_all-none map [] h = (refl, refl)
rename_all-none map (e ∷ entries) h = elim (Option-cases (alias_of map e)) [
  | inl n ↦
      let (same, none_hidden) = rename_all-none map entries (rw (n, must_sort) at h) in
      (rw (n, rename_all, rename) (ap (◌∷◌ e) same), rw (n, must_filter) none_hidden)
  | inr (a, n) ↦ absurd (let never = rw (n, must_sort) at h in cc)
]

rename_all-Named : (map : Hash) (entries : List Entry) → All (Named map) (rename_all map entries)
unfolding rename_all
rename_all-Named map [] = tt
rename_all-Named map (e ∷ entries) = (rename-Named map e, rename_all-Named map entries)

-- The names that stay after the filter are not hidden.
drop_hidden-Shown :
    (map : Hash) (entries : List Entry)
    → All (Named map) entries
    → All (Shown map) (drop_hidden entries)
unfolding drop_hidden
drop_hidden-Shown map [] n = tt
drop_hidden-Shown map (e ∷ entries) n =
    let rest = drop_hidden-Shown map entries n.1 in
    elim (Bool-cases (hide e.name)) [
      | inl t ↦ rw t rest
      | inr t ↦ rw t (λ alias h. (n.0 alias h, t), rest)
    ]

-- Without a hidden alias nothing need be filtered.
rename_all-Shown :
    (map : Hash) (entries : List Entry)
    → must_filter map entries ≡ false
    → All (Shown map) (rename_all map entries)
unfolding must_filter rename_all
rename_all-Shown map [] h = tt
rename_all-Shown map (e ∷ entries) h = elim (Option-cases (alias_of map e)) [
  | inl n ↦
      let rest = rename_all-Shown map entries (rw (n, must_filter) at h) in
      (λ alias k. absurd (let never = sym n ∙ sym (alias_of-rename map e) ∙ k in cc), rest)
  | inr (a, n) ↦
      let both = rw (n, must_filter) at h in
      let rest = rename_all-Shown map entries (ground arith) in
      (
        λ alias k.
            let name = rename-Named map e alias k in
            let own : (rename map e).name ≡ a = unfold rename in rw (n, rename) refl in
            (name, rw own (ground arith)),
        rest,
      )
]

filter-Shown :
    (map : Hash) (entries : List Entry)
    → All (Shown map) (
        if must_filter map entries
        then drop_hidden (rename_all map entries)
        else rename_all map entries)
filter-Shown map entries = elim (Bool-cases (must_filter map entries)) [
  | inl t ↦ rw t (drop_hidden-Shown map (rename_all map entries) (rename_all-Named map entries))
  | inr t ↦ rw t (rename_all-Shown map entries t)
]

-- the name that an entry is to be shown under, and the entry with it
pub shown_name : Option Bytes → Bytes → Bytes
shown_name none name = name
shown_name (some alias) name = alias

abbrev pub shown_entry : Hash → Entry → Entry
shown_entry map e = record e { name = shown_name (alias_of map e) e.name }

-- The list has the entries in their order, each under the name it is to be shown under, and lacks
-- none but those with a hidden name.
pub Keeps : Hash → List Entry → List Entry → Type 0
Keeps map [] kept = kept ≡ []
Keeps map (e ∷ entries) kept =
    ((rest : List Entry) × (kept ≡ shown_entry map e ∷ rest) × Keeps map entries rest)
    ⊎ ((hide (shown_entry map e).name ≡ true) × Keeps map entries kept)

rename-shown_entry : (map : Hash) (e : Entry) → rename map e ≡ shown_entry map e
unfolding rename shown_name
rename-shown_entry map e = elim (Option-cases (alias_of map e)) [
  | inl n ↦ rw (n, rename) refl
  | inr (a, n) ↦ rw (n, rename) refl
]

rename_all-Keeps : (map : Hash) (entries : List Entry) → Keeps map entries (rename_all map entries)
unfolding rename_all Keeps
rename_all-Keeps map [] = refl
rename_all-Keeps map (e ∷ entries) =
    let rest = rename_all map entries in
    inl (rest, ap (λ f. f ∷ rest) (rename-shown_entry map e), rename_all-Keeps map entries)

drop_hidden-Keeps :
    (map : Hash) (entries : List Entry) → Keeps map entries (drop_hidden (rename_all map entries))
unfolding rename_all drop_hidden Keeps
drop_hidden-Keeps map [] = refl
drop_hidden-Keeps map (e ∷ entries) =
    let rest = drop_hidden (rename_all map entries) in
    let later = drop_hidden-Keeps map entries in
    elim (Bool-cases (hide (rename map e).name)) [
      | inl t ↦ rw t (inr (sym (ap (λ f. hide f.name) (rename-shown_entry map e)) ∙ t, later))
      | inr t ↦ rw t (inl (rest, ap (λ f. f ∷ rest) (rename-shown_entry map e), later))
    ]

filter-Keeps :
    (map : Hash) (entries : List Entry)
    → Keeps map entries (
        if must_filter map entries
        then drop_hidden (rename_all map entries)
        else rename_all map entries)
filter-Keeps map entries = elim (Bool-cases (must_filter map entries)) [
  | inl t ↦ rw t (drop_hidden-Keeps map entries)
  | inr t ↦ rw t (rename_all-Keeps map entries)
]

-- After the aliases are applied to a sorted directory it is sorted by the names shown, as in a
-- dictionary that disregards case; it has all its entries, each under its alias if it has one,
-- but for entries whose shown name is hidden; and no entry stays whose alias is a hidden name.
pub apply_map-Sorted :
    (map : Hash) (entries : List Entry)
    → Sorted entries
    → Sorted (apply_map map entries)
      × All (Shown map) (apply_map map entries)
      × ((kept : List Entry) × Perm (apply_map map entries) kept × Keeps map entries kept)
unfolding apply_map
apply_map-Sorted map entries s = elim (Bool-cases (must_sort map entries)) [
  | inl t ↦
      let shown : List Entry =
        if must_filter map entries
        then drop_hidden (rename_all map entries)
        else rename_all map entries in
      let sorted = sort_entries-Sorted shown in
      rw t (
        sorted.0,
        sort_entries-All (Shown map) shown (filter-Shown map entries),
        (shown, sorted.1, filter-Keeps map entries),
      )
  | inr t ↦
      let (same, none_hidden) = rename_all-none map entries t in
      let all = rename_all-Shown map entries none_hidden in
      let keeps = rename_all-Keeps map entries in
      rw (t, none_hidden)
        (rw same s, all, (rename_all map entries, Perm.refl (rename_all map entries), keeps))
]
