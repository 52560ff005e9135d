-- ===== src/Launcher/Last.antt =====
-- `loadLast` and `Menu_init` of workspace/all/minui/minui.c: the way back to the game that was
-- played last.
pub mod Scroll
mod Tests
use darkui.Base.{
  ℕ, zero, suc, ◌+◌, ◌-◌, Bool, true, false, not, ◌&&◌, ◌||◌, List, [], ◌∷◌, ◌++◌, Option, none,
  some, ltb, leb, ◌==◌, if◌then◌else◌, take, get_or, length,
}
use darkui.CString.{Bytes, bytes, before_last, after_last}
use darkui.Names.{
  Platform, roms_path, collections_path, faux_recent_path, prefix_match, suffix_match, exact_match,
  get_display_name,
}
use darkui.Collections.{Array, array_new, int_array_new}
use darkui.Launcher.Files.{Files, last_component}
use darkui.Launcher.Recents.{Recent}
use darkui.Launcher.Entries.{
  Entry, EntryType, entry_dir, entry_pak, entry_rom, get_recents, get_collection, get_discs,
  get_first_disc, get_entries, is_console_dir, collated,
}
use darkui.Launcher.Index.{directory_index}
use darkui.Launcher.Selection.{View, page}
use darkui.Launcher.Root.{get_root}
use darkui.Launcher.Games.{
  Directory, Menu, get_file, max_path, cue_path, folder_m3u_path, open_rom, open_pak, top_path,
}
use darkui.Launcher.Stack.{first_view, open_directory}

-- the paths from `last_path` up to the SD card's, without that, the topmost first; `fuel` bounds
-- the number of slashes. A path that is not on the SD card, which the source never saves, ends
-- at its first slash.
pub ancestors : ℕ → Bytes → Bytes → List Bytes → List Bytes
unfolding exact_match before_last
ancestors zero sdcard last_path found = found
ancestors (suc fuel) sdcard last_path found =
    let more = ancestors fuel sdcard (before_last last_path b'/') (last_path ∷ found) in
    if exact_match last_path sdcard then found else more

-- `collated_path` for one path of `loadLast`
pub collated_for : Platform → Bytes → Bytes
unfolding suffix_match is_console_dir collated
collated_for p path =
    if suffix_match (bytes ")") path && is_console_dir p path then collated path else []

pub non_empty : Bytes → Bool
non_empty [] = false
non_empty (c ∷ s) = true

-- whether the entry is on the way to the last path, `full_path`
pub matches : Platform → Bytes → Bytes → Bytes → Bool
unfolding exact_match prefix_match suffix_match collated_for last_component non_empty
matches p full_path path entry_path =
    exact_match entry_path path
    || (non_empty (collated_for p path) && prefix_match (collated_for p path) entry_path)
    || (prefix_match (collections_path p) full_path
        && suffix_match (last_component full_path) entry_path)

-- the entry at place `i` of `total` is selected and scrolled to
pub shown_at : ℕ → ℕ → ℕ → View → View
shown_at rows total i v =
    if leb v.end i
    then (if ltb total (i + rows)
        then record { selected = i; start = total - rows; end = total }
        else record { selected = i; start = i; end = i + rows })
    else record v { selected = i }

pub select_at : ℕ → ℕ → List Directory → List Directory
unfolding shown_at
select_at rows i [] = []
select_at rows i (top ∷ stack) =
    record top { view = shown_at rows (length top.entries) i top.view } ∷ stack

-- whether the last entry's contents are shown too
pub shows_contents : Platform → Bytes → Bool
unfolding exact_match prefix_match
shows_contents p path =
    exact_match path (faux_recent_path p)
    || (not (exact_match path (collections_path p)) && prefix_match (collections_path p) path)

is_dir_entry : EntryType → Bool
is_dir_entry entry_dir = true
is_dir_entry entry_pak = false
is_dir_entry entry_rom = false

-- the loop of `loadLast` over the entries from place `i` on; `final` says that no path is left
pub load_entry : Platform → Files → ℕ → Bytes → Bytes → Bool → ℕ → List Entry → Menu → Menu
unfolding matches select_at shows_contents is_dir_entry open_directory
load_entry p files rows full_path path final i [] menu = menu
load_entry p files rows full_path path final i (entry ∷ entries) menu =
    let chosen = record menu { stack = select_at rows i menu.stack } in
    let past = load_entry p files rows full_path path final (suc i) entries menu in
    let on = load_entry p files rows full_path path final (suc i) entries chosen in
    if not (matches p full_path path entry.path)
    then past
    else if final && not (shows_contents p entry.path)
    then chosen
    else if is_dir_entry entry.kind
    then open_directory p files rows false entry.path chosen
    else on

abbrev pub top_entries : Menu → List Entry
top_entries menu = elim menu.stack [ [] ↦ [] | top ∷ stack ↦ top.entries ]

pub no_paths : List Bytes → Bool
no_paths [] = true
no_paths (path ∷ paths) = false

-- the loop of `loadLast` over the paths
pub load_paths : Platform → Files → ℕ → Bytes → List Bytes → Menu → Menu
unfolding load_entry exact_match no_paths
load_paths p files rows full_path [] menu = menu
load_paths p files rows full_path (path ∷ paths) menu = load_paths p files rows full_path paths (
    if exact_match path (roms_path p)
    then menu
    else load_entry p files rows full_path path (no_paths paths) 0 (top_entries menu) menu)

unfoldable pub load_last : Platform → Files → ℕ → Menu → Menu
unfolding get_file ancestors load_paths
load_last p files rows menu =
    let last_path = get_file files (bytes "/tmp/last.txt") max_path in
    if files.exists (bytes "/tmp/last.txt")
    then load_paths p files rows last_path
        (ancestors (suc (length last_path)) p.sdcard_path last_path []) menu
    else menu

-- `Menu_init`, on the variables as they start
unfoldable pub menu_init : Platform → Files → ℕ → Bool → Menu
unfolding open_directory load_last array_new
menu_init p files rows simple_mode =
    let start : Menu = record {
      stack = [];
      recents = array_new;
      recent_alias = none;
      quit = false;
      can_resume = false;
      should_resume = false;
      simple_mode = simple_mode;
      slot_path = [];
      restore_depth = none;
      restore_relative = none;
      restore = first_view;
      last = none;
      queued = none;
      resume_slot = none;
      recent_file = none;
    } in
    load_last p files rows (open_directory p files rows false p.sdcard_path start)
