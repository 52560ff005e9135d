-- ===== src/Launcher/Root.antt =====
-- `getRoot` of workspace/all/minui/minui.c, with hasCollections and hasRoms: the list that the
-- launcher starts with. Arrays of entries are lists here, as in Launcher.Entries.
pub mod Systems
use darkui.Base.{
  ℕ, ◌+◌, Bool, true, false, not, ◌&&◌, ◌||◌, List, [], ◌∷◌, ◌++◌, Option, none, some, ltb, ◌==◌,
  if◌then◌else◌, length,
}
use darkui.CString.{Bytes, bytes}
use darkui.Names.{
  Platform, roms_path, collections_path, faux_recent_path, exact_match, hide, get_emu_name,
}
use darkui.Collections.{Hash, Array}
use darkui.Launcher.Files.{Files, has_emu}
use darkui.Launcher.Recents.{Recent, Found, has_recents}
use darkui.Launcher.Entries.{Entry, entry_dir, entry_new, sort_entries}
use darkui.Launcher.Index.{read_map, rename_all, must_sort}

-- whether a loop over the names of a folder meets one that is not hidden
pub any_shown : List (Bytes × Bool) → Bool
unfolding hide
any_shown [] = false
any_shown ((name, is_dir) ∷ names) = not (hide name) || any_shown names

pub folder_shown : Option (List (Bytes × Bool)) → Bool
unfolding any_shown
folder_shown none = false
folder_shown (some names) = any_shown names

-- `hasCollections`, for a folder that can be opened if it exists
unfoldable pub has_collections : Platform → Files → Bool
unfolding folder_shown
has_collections p files =
    files.exists (collections_path p) && folder_shown (files.list (collections_path p))

unfoldable pub has_roms : Platform → Files → Bytes → Bool
unfolding has_emu get_emu_name folder_shown
has_roms p files dir_name =
    has_emu p files (get_emu_name (roms_path p) dir_name)
    && folder_shown (files.list (roms_path p ++ b'/' ∷ (dir_name ++ bytes "/")))

-- the loop over the console folders
pub console_entries : Platform → Files → List (Bytes × Bool) → List Entry
unfolding has_roms hide entry_new
console_entries p files [] = []
console_entries p files ((name, is_dir) ∷ names) =
    let later = console_entries p files names in
    if not (hide name) && has_roms p files name
    then entry_new p (roms_path p ++ b'/' ∷ name) entry_dir ∷ later
    else later

pub same_name : Option Entry → Entry → Bool
unfolding exact_match
same_name none entry = false
same_name (some prev_entry) entry = exact_match prev_entry.name entry.name

-- the loop that keeps one entry of each name; `prev_entry` is the last that was kept
pub drop_doubles : Option Entry → List Entry → List Entry
unfolding same_name
drop_doubles prev_entry [] = []
drop_doubles prev_entry (entry ∷ entries) =
    let kept = entry ∷ drop_doubles (some entry) entries in
    let dropped = drop_doubles prev_entry entries in
    if same_name prev_entry entry then dropped else kept

pub console_list : Platform → Files → List Entry
unfolding console_entries drop_doubles sort_entries
console_list p files = elim (files.list (roms_path p)) [
  | none ↦ []
  | some names ↦ drop_doubles none (sort_entries (console_entries p files names))
]

-- the aliases of the consoles; none is hidden here
pub map_consoles : Hash → List Entry → List Entry
unfolding rename_all must_sort sort_entries
map_consoles map entries =
    let named = rename_all map entries in
    if must_sort map entries then sort_entries named else named

pub system_list : Platform → Files → List Entry
unfolding console_list map_consoles read_map
system_list p files =
    let entries = console_list p files in
    if ltb 0 (length entries)
    then elim (read_map files (roms_path p ++ bytes "/map.txt")) [
      | none ↦ entries
      | some map ↦ map_consoles map entries
    ]
    else entries

-- the loop over the collections
pub collection_entries : Platform → List (Bytes × Bool) → List Entry
unfolding hide entry_new
collection_entries p [] = []
collection_entries p ((name, is_dir) ∷ names) =
    let later = collection_entries p names in
    if hide name then later else entry_new p (collections_path p ++ b'/' ∷ name) entry_dir ∷ later

-- without visible systems the collections come in their place
pub promoted : Platform → Files → List Entry
unfolding collection_entries sort_entries
promoted p files = elim (files.list (collections_path p)) [
  | none ↦ []
  | some names ↦ sort_entries (collection_entries p names)
]

pub tools_path : Platform → Bytes
tools_path p = p.sdcard_path ++ (bytes "/Tools/" ++ p.platform)

-- what stands between the recently played games and the tools
pub middle_list : Platform → Files → List Entry
unfolding system_list promoted has_collections entry_new
middle_list p files =
    let entries = system_list p files in
    if has_collections p files
    then (if ltb 0 (length entries)
        then entry_new p (collections_path p) entry_dir ∷ entries
        else promoted p files)
    else entries

-- `getRoot`: the entries, and the list of recent games that `hasRecents` leaves
unfoldable pub get_root : Platform → Files → Bool → Array Recent → List Entry × Array Recent
unfolding has_recents middle_list tools_path entry_new
get_root p files simple_mode recents =
    let found = has_recents p files recents in
    let first = if ltb 0 found.has then entry_new p (faux_recent_path p) entry_dir ∷ [] else [] in
    let tools =
      if files.exists (tools_path p) && not simple_mode
      then entry_new p (tools_path p) entry_dir ∷ []
      else [] in
    (first ++ (middle_list p files ++ tools), found.recents)
