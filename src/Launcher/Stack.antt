-- ===== src/Launcher/Stack.antt =====
-- The stack of open directories of workspace/all/minui/minui.c: Directory_new, openDirectory,
-- closeDirectory and Entry_open. Indexing the top of an empty stack, which
-- the source never does after Menu_init, leaves the menu alone.
pub mod Restore
mod Tests
use darkui.Base.{
  ℕ, zero, suc, ◌+◌, ◌-◌, Bool, true, false, not, ◌&&◌, ◌||◌, List, [], ◌∷◌, ◌++◌, Option, none,
  some, ltb, leb, ◌==◌, if◌then◌else◌, take, get_or, length,
}
use darkui.CString.{Bytes, bytes, before_last, after_last}
use darkui.Names.{
  Platform, roms_path, collections_path, faux_recent_path, prefix_match, suffix_match, exact_match,
  get_display_name,
}
use darkui.Collections.{Array, array_new, int_array_new}
use darkui.Launcher.Files.{Files, last_component}
use darkui.Launcher.Recents.{Recent}
use darkui.Launcher.Entries.{
  Entry, EntryType, entry_dir, entry_pak, entry_rom, get_recents, get_collection, get_discs,
  get_first_disc, get_entries, is_console_dir, collated,
}
use darkui.Launcher.Index.{directory_index}
use darkui.Launcher.Selection.{View, page}
use darkui.Launcher.Root.{get_root}
use darkui.Launcher.Games.{
  Directory, Menu, get_file, max_path, cue_path, folder_m3u_path, open_rom, open_pak, top_path,
}

-- the games in the slots from `i` on, with `n` slots left
pub listed_from : ℕ → ℕ → List (Option Recent) → List Recent
listed_from zero i items = []
listed_from (suc n) i items = elim (get_or items i none) [
  | none ↦ listed_from n (suc i) items
  | some recent ↦ recent ∷ listed_from n (suc i) items
]

-- the entries of `Directory_new`, and the list of recent games, which `getRoot` reads in
pub directory_entries : Platform → Files → Bool → Array Recent → Bytes → List Entry × Array Recent
unfolding get_root get_recents get_collection get_discs get_entries listed_from exact_match
    prefix_match suffix_match
directory_entries p files simple_mode recents path =
    if exact_match path p.sdcard_path
    then get_root p files simple_mode recents
    else if exact_match path (faux_recent_path p)
    then (get_recents p (listed_from recents.count 0 recents.items), recents)
    else if not (exact_match path (collections_path p))
        && prefix_match (collections_path p) path
        && suffix_match (bytes ".txt") path
    then (get_collection p files path, recents)
    else if suffix_match (bytes ".m3u") path
    then (get_discs p files path, recents)
    else (get_entries p files path, recents)

-- `Directory_new`; `start` and `end` are set by its caller, here with the selection
unfoldable pub directory_new :
    Platform → Files → Bool → Array Recent → Bytes → View → Directory × Array Recent
unfolding directory_entries directory_index get_display_name int_array_new
directory_new p files simple_mode recents path view =
    let (entries, recents') = directory_entries p files simple_mode recents path in
    let (indexed, alphas) = directory_index p files path entries int_array_new in
    (
      record {
        path = path;
        name = get_display_name p.platform path;
        entries = indexed;
        alphas = alphas;
        view = view;
      },
      recents',
    )

pub same_number : Option ℕ → ℕ → Bool
same_number none n = false
same_number (some k) n = k == n

abbrev pub first_view : View
first_view = record { selected = 0; start = 0; end = 0 }

-- `selected`, `start` and `end` of a directory that is opened on this stack
pub restored_view : Menu → List Directory → View
unfolding same_number
restored_view menu [] = first_view
restored_view menu (top ∷ stack) =
    if ltb 0 (length top.entries)
      && same_number menu.restore_depth (length (top ∷ stack))
      && same_number menu.restore_relative top.view.selected
    then menu.restore
    else first_view

-- `top->end = end ? end : ...`
pub ended : ℕ → ℕ → View → View
unfolding page
ended rows total v = if v.end == 0 then record v { end = page rows total } else v

-- the end of `openDirectory`, where nothing is launched
unfoldable pub push_directory : Platform → Files → ℕ → Bytes → Menu → Menu
unfolding directory_new restored_view ended
push_directory p files rows path menu =
    let view = restored_view menu menu.stack in
    let (top, recents) = directory_new p files menu.simple_mode menu.recents path view in
    record menu {
      stack = record top { view = ended rows (length top.entries) view } ∷ menu.stack;
      recents = recents;
    }

unfoldable pub open_directory : Platform → Files → ℕ → Bool → Bytes → Menu → Menu
unfolding push_directory cue_path folder_m3u_path open_rom get_first_disc
open_directory p files rows auto_launch path menu =
    let (found, disc) = get_first_disc files (folder_m3u_path path) [] in
    if files.exists (cue_path path) && auto_launch
    then open_rom p files (cue_path path) (some path) menu
    else if files.exists (folder_m3u_path path) && auto_launch && found
    then open_rom p files disc (some path) menu
    else push_directory p files rows path menu

-- the stack below the top, and what `restore_relative` becomes
unfoldable pub closed : Menu → Directory → List Directory → Menu
closed menu top [] = record menu { restore = top.view; stack = []; restore_depth = some 0 }
closed menu top (below ∷ stack) = record menu {
  restore = top.view;
  stack = below ∷ stack;
  restore_depth = some (length (below ∷ stack));
  restore_relative = some below.view.selected;
}

-- `closeDirectory`, called only where a directory is below the top
unfoldable pub close_directory : Menu → Menu
unfolding closed
close_directory menu = elim menu.stack [ [] ↦ menu | top ∷ stack ↦ closed menu top stack ]

-- the path that `openRom` is to save for an entry, if not the game's
pub last_of : Platform → Bytes → Bytes → Option Bytes
unfolding prefix_match after_last
last_of p top path =
    if prefix_match (collections_path p) top
    then some (top ++ b'/' ∷ after_last path b'/')
    else none

-- the three kinds of `Entry_open`
unfoldable pub open_kind : Platform → Files → ℕ → EntryType → Bytes → Menu → Menu
unfolding open_rom open_pak open_directory last_of
open_kind p files rows entry_rom path menu =
    open_rom p files path (last_of p (top_path menu) path) menu
open_kind p files rows entry_pak path menu = open_pak p files path menu
open_kind p files rows entry_dir path menu = open_directory p files rows true path menu

unfoldable pub entry_open : Platform → Files → ℕ → Entry → Menu → Menu
unfolding open_kind
entry_open p files rows entry menu =
    open_kind p files rows entry.kind entry.path (record menu { recent_alias = some entry.name })
