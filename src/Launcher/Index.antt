-- ===== src/Launcher/Index.antt =====
-- `Directory_index` of workspace/all/minui/minui.c: the aliases of map.txt, the labels of entries
-- of the same name, and the index of first letters.
pub mod Aliases
pub mod Unique
pub mod Alphas
pub mod Complete
mod Tests
use darkui.Base.{
  ℕ, zero, suc, ◌+◌, ◌-◌, Bool, true, false, not, ◌&&◌, ◌||◌, List, [], ◌∷◌, ◌++◌, Option, none,
  some, leb, ◌==◌, if◌then◌else◌, get_or,
}
use darkui.CString.{Bytes, bytes, tolower, after_last}
use darkui.Names.{
  Platform, roms_path, collections_path, faux_recent_path, prefix_match, exact_match, hide,
  get_emu_name,
}
use darkui.Collections.{Hash, hash_new, hash_set, hash_get, IntArray, int_array_push}
use darkui.Launcher.Files.{Files, text_lines, split_tab}
use darkui.Launcher.Entries.{Entry, sort_entries}

-- 1 to 26 for a letter, 0 for anything else
pub get_index_char : Bytes → ℕ
get_index_char str =
    let c = tolower (get_or str 0 0) in if leb b'a' c && leb c b'z' then c - b'a' + 1 else 0

pub get_unique_name : Platform → Entry → Bytes
unfolding get_emu_name
get_unique_name p entry =
    entry.name ++ (bytes " (" ++ (get_emu_name (roms_path p) entry.path ++ bytes ")"))

-- one line of map.txt; a line without a tab is passed over
pub map_line : Hash → Bytes × Option Bytes → Hash
unfolding hash_set
map_line map (key, none) = map
map_line map (key, some value) = hash_set true true map key value

pub map_lines : Hash → List Bytes → Hash
unfolding map_line split_tab
map_lines map [] = map
map_lines map (line ∷ lines) = map_lines (map_line map (split_tab line)) lines

-- `none` where there is no file
unfoldable pub read_map : Files → Bytes → Option Hash
unfolding map_lines hash_new text_lines
read_map files map_path =
    if files.exists map_path
    then elim (files.read map_path) [
      | none ↦ none
      | some text ↦ some (map_lines hash_new (text_lines text))
    ]
    else none

-- the file name of an entry; its path has a slash
pub filename : Entry → Bytes
unfolding after_last
filename entry = after_last entry.path b'/'

pub alias_of : Hash → Entry → Option Bytes
unfolding hash_get filename
alias_of map entry = hash_get map (filename entry)

pub rename : Hash → Entry → Entry
unfolding alias_of
rename map entry = elim (alias_of map entry) [
  | none ↦ entry
  | some alias ↦ record entry { name = alias }
]

unfoldable pub rename_all : Hash → List Entry → List Entry
unfolding rename
rename_all map [] = []
rename_all map (entry ∷ entries) = rename map entry ∷ rename_all map entries

-- whether the loop sets `resort`, and whether it sets `filter`
unfoldable pub must_sort : Hash → List Entry → Bool
unfolding alias_of
must_sort map [] = false
must_sort map (entry ∷ entries) = elim (alias_of map entry) [
  | none ↦ must_sort map entries
  | some alias ↦ true
]

pub must_filter : Hash → List Entry → Bool
unfolding alias_of hide
must_filter map [] = false
must_filter map (entry ∷ entries) = elim (alias_of map entry) [
  | none ↦ must_filter map entries
  | some alias ↦ hide alias || must_filter map entries
]

pub drop_hidden : List Entry → List Entry
unfolding hide
drop_hidden [] = []
drop_hidden (entry ∷ entries) =
    let later = drop_hidden entries in if hide entry.name then later else entry ∷ later

-- the aliases of `map`: names, hidden entries, order
unfoldable pub apply_map : Hash → List Entry → List Entry
unfolding rename_all must_sort must_filter drop_hidden sort_entries
apply_map map entries =
    let named = rename_all map entries in
    let shown = if must_filter map entries then drop_hidden named else named in
    if must_sort map entries then sort_entries shown else shown

-- the labels of two neighbours of the same name
pub label_first : Platform → Entry → Entry → Entry
unfolding filename get_unique_name exact_match
label_first p prior entry = record prior {
  unique = some (
      if exact_match (filename prior) (filename entry)
      then get_unique_name p prior
      else filename prior);
}

pub label_second : Platform → Entry → Entry → Entry
unfolding filename get_unique_name exact_match
label_second p prior entry = record entry {
  unique = some (
      if exact_match (filename prior) (filename entry)
      then get_unique_name p entry
      else filename entry);
}

-- the second loop, as far as it labels entries: `prior` is the entry before, with its label so far
pub label_from : Platform → Entry → List Entry → List Entry
unfolding label_first label_second exact_match
label_from p prior [] = prior ∷ []
label_from p prior (entry ∷ entries) =
    let labelled = label_first p prior entry ∷ label_from p (label_second p prior entry) entries in
    let plain = prior ∷ label_from p entry entries in
    if exact_match prior.name entry.name then labelled else plain

pub label : Platform → List Entry → List Entry
unfolding label_from
label p [] = []
label p (entry ∷ entries) = label_from p entry entries

-- `index` and `alpha` of the second loop, the latter `none` for -1, and the directory's `alphas`
pub record Letters : Type 0 where
  pub alphas : IntArray
  pub index : ℕ
  pub alpha : Option ℕ

pub same_letter : Option ℕ → ℕ → Bool
same_letter none a = false
same_letter (some alpha) a = alpha == a

-- the second loop's step for the letter of the entry at place `i`
pub letter_step : ℕ → Entry → Letters → Letters
unfolding get_index_char same_letter int_array_push
letter_step i entry l =
    let a = get_index_char entry.name in
    if same_letter l.alpha a
    then l
    else record { alphas = int_array_push l.alphas i; index = l.alphas.count; alpha = some a }

-- the second loop from place `i` on, as far as it indexes
pub index_letters : ℕ → Letters → List Entry → List Entry × IntArray
unfolding letter_step
index_letters i l [] = ([], l.alphas)
index_letters i l (entry ∷ entries) =
    let l' = letter_step i entry l in
    let (rest, alphas) = index_letters (i + 1) l' entries in
    (record entry { alpha = l'.index } ∷ rest, alphas)

-- `Directory_index`: the entries and the index that it leaves. The second loop sets the aliases
-- again, which changes nothing, and labels and indexes each entry in one round; labels and
-- letters do not depend on each other, so here they are two passes.
unfoldable pub directory_index :
    Platform → Files → Bytes → List Entry → IntArray → List Entry × IntArray
unfolding read_map apply_map label index_letters prefix_match exact_match
directory_index p files path entries alphas =
    let is_collection = prefix_match (collections_path p) path in
    let skip_index = exact_match (faux_recent_path p) path || is_collection in
    let map_path = (if is_collection then collections_path p else path) ++ bytes "/map.txt" in
    let mapped : List Entry = elim (read_map files map_path) [
      | none ↦ entries
      | some map ↦ apply_map map entries
    ] in
    let labelled = label p mapped in
    if skip_index
    then (labelled, alphas)
    else index_letters 0 (record { alphas = alphas; index = 0; alpha = none }) labelled
