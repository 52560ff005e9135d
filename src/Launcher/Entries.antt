-- ===== src/Launcher/Entries.antt =====
-- `Entry` of workspace/all/minui/minui.c, and what the launcher reads into lists of entries:
-- getRecents, getCollection, getDiscs, getFirstDisc, addEntries and getEntries. An `Array` of
-- entries is the list of its contents here: it is only appended to, with memory granted.
pub mod Sorting
pub mod Discs
mod Tests
use darkui.Base.{
  ℕ, zero, suc, ◌+◌, ◌-◌, Bool, true, false, not, ◌&&◌, ◌||◌, List, [], ◌∷◌, ◌++◌, Option, none,
  some, ltb, ◌==◌, if◌then◌else◌, take, drop, length, get_or, Ordering, ◌%◌, ◌/◌,
}
use darkui.CString.{Bytes, bytes, tolower, strcasecmp, strrchr, after_last, before_last, qsort}
use darkui.Names.{
  Platform, roms_path, collections_path, prefix_match, suffix_match, exact_match, hide,
  get_display_name, get_emu_name,
}
use darkui.Launcher.Files.{Files, text_lines, has_emu, parent_path}
use darkui.Launcher.Recents.{Recent}

pub data EntryType : Type 0 where
  entry_dir entry_pak entry_rom : EntryType

pub record Entry : Type 0 where
  pub path : Bytes
  pub name : Bytes
  pub unique : Option Bytes
  pub kind : EntryType
  pub alpha : ℕ

unfoldable pub entry_new : Platform → Bytes → EntryType → Entry
unfolding get_display_name
entry_new p path kind = record {
  path = path;
  name = get_display_name p.platform path;
  unique = none;
  kind = kind;
  alpha = 0;
}

-- `EntryArray_sortEntry(a, b) <= 0`
unfoldable pub in_order : Entry → Entry → Bool
unfolding strcasecmp
in_order a b = elim (strcasecmp a.name b.name) [
  | Ordering.lt ↦ true
  | Ordering.eq ↦ true
  | Ordering.gt ↦ false
]

-- `EntryArray_sort`
unfoldable pub sort_entries : List Entry → List Entry
unfolding in_order qsort
sort_entries entries = qsort in_order entries

-- `suffixMatch(".pak", sd_path) ? ENTRY_PAK : ENTRY_ROM`
pub game_kind : Bytes → EntryType
unfolding suffix_match
game_kind sd_path = if suffix_match (bytes ".pak") sd_path then entry_pak else entry_rom

-- the loop of `getRecents` over the games of the list
unfoldable pub get_recents : Platform → List Recent → List Entry
unfolding entry_new game_kind
get_recents p [] = []
get_recents p (recent ∷ recents) =
    let sd_path = p.sdcard_path ++ recent.path in
    let entry = entry_new p sd_path (game_kind sd_path) in
    let named : Entry = elim recent.alias [
      | none ↦ entry
      | some alias ↦ record entry { name = alias }
    ] in
    let later = get_recents p recents in if recent.available then named ∷ later else later

-- the loop of `getCollection` over the lines of the file
pub collection_lines : Platform → Files → List Bytes → List Entry
unfolding entry_new game_kind hide has_emu get_emu_name after_last
collection_lines p files [] = []
collection_lines p files (line ∷ lines) =
    let sd_path = p.sdcard_path ++ line in
    let later = collection_lines p files lines in
    if files.exists sd_path
      && not (hide (after_last sd_path b'/'))
      && has_emu p files (get_emu_name (roms_path p) sd_path)
    then entry_new p sd_path (game_kind sd_path) ∷ later
    else later

unfoldable pub get_collection : Platform → Files → Bytes → List Entry
unfolding collection_lines text_lines
get_collection p files path = elim (files.read path) [
  | none ↦ []
  | some text ↦ collection_lines p files (text_lines text)
]

-- the digits of `%i`, with fuel
unfoldable pub digits : ℕ → ℕ → Bytes
digits zero n = []
digits (suc fuel) n =
    let front = digits fuel (n / 10) in
    if ltb n 10 then (b'0' + n) ∷ [] else front ++ (b'0' + n % 10) ∷ []

-- the first 15 bytes of "Disc %i", all that `name` has room for
pub disc_name : ℕ → Bytes
unfolding digits
disc_name disc = take 15 (bytes "Disc " ++ digits (suc disc) disc)

-- the loop of `getDiscs` over the lines of the playlist, with `disc` discs found
pub disc_lines : Platform → Files → Bytes → ℕ → List Bytes → List Entry
unfolding entry_new disc_name
disc_lines p files base_path disc [] = []
disc_lines p files base_path disc (line ∷ lines) =
    let disc_path = base_path ++ line in
    let found =
      record (entry_new p disc_path entry_rom) { name = disc_name (disc + 1) }
      ∷ disc_lines p files base_path (disc + 1) lines in
    let later = disc_lines p files base_path disc lines in
    if files.exists disc_path then found else later

unfoldable pub get_discs : Platform → Files → Bytes → List Entry
unfolding disc_lines text_lines parent_path
get_discs p files path = elim (files.read path) [
  | none ↦ []
  | some text ↦ disc_lines p files (parent_path path) 0 (text_lines text)
]

-- the first line of a playlist, if any: its path, and whether it exists
pub first_disc : Files → Bytes → List Bytes → Option (Bool × Bytes)
first_disc files base_path [] = none
first_disc files base_path (line ∷ lines) =
    some (files.exists (base_path ++ line), base_path ++ line)

-- `getFirstDisc`: whether the disc was found, and what `disc_path` holds; `old` is what it held
unfoldable pub get_first_disc : Files → Bytes → Bytes → Bool × Bytes
unfolding first_disc text_lines parent_path
get_first_disc files m3u_path old = elim (files.read m3u_path) [
  | none ↦ (false, old)
  | some text ↦ elim (first_disc files (parent_path m3u_path) (text_lines text)) [
    | none ↦ (false, old)
    | some found ↦ found
  ]
]

-- the type of the file `name` at `full_path`
pub file_kind : Platform → Bytes → Bytes → Bool → EntryType
unfolding suffix_match prefix_match
file_kind p name full_path is_dir =
    if is_dir
    then (if suffix_match (bytes ".pak") name then entry_pak else entry_dir)
    else if prefix_match (collections_path p) full_path
    then entry_dir
    else entry_rom

-- the loop of `addEntries` over the names in the folder
pub folder_entries : Platform → Bytes → List (Bytes × Bool) → List Entry
unfolding entry_new file_kind hide
folder_entries p path [] = []
folder_entries p path ((name, is_dir) ∷ names) =
    let full_path = path ++ b'/' ∷ name in
    let later = folder_entries p path names in
    if hide name then later else entry_new p full_path (file_kind p name full_path is_dir) ∷ later

unfoldable pub add_entries : Platform → Files → Bytes → List Entry
unfolding folder_entries
add_entries p files path = elim (files.list path) [
  | none ↦ []
  | some names ↦ folder_entries p path names
]

unfoldable pub is_console_dir : Platform → Bytes → Bool
unfolding before_last exact_match
is_console_dir p path = exact_match (before_last path b'/') (roms_path p)

-- the path up to its last opening parenthesis, that included
unfoldable pub collated : Bytes → Bytes
unfolding strrchr
collated path = elim (strrchr path b'(') [ none ↦ path | some i ↦ take (i + 1) path ]

-- the loop of `getEntries` over the console folders
pub collated_entries : Platform → Files → Bytes → List (Bytes × Bool) → List Entry
unfolding add_entries hide prefix_match
collated_entries p files collated_path [] = []
collated_entries p files collated_path ((name, is_dir) ∷ names) =
    let full_path = roms_path p ++ b'/' ∷ name in
    let later = collated_entries p files collated_path names in
    if not (hide name) && is_dir && prefix_match collated_path full_path
    then add_entries p files full_path ++ later
    else later

unfoldable pub get_entries : Platform → Files → Bytes → List Entry
unfolding is_console_dir collated collated_entries add_entries sort_entries
get_entries p files path = sort_entries (
    if is_console_dir p path
    then elim (files.list (roms_path p)) [
      | none ↦ []
      | some names ↦ collated_entries p files (collated path) names
    ]
    else add_entries p files path)
