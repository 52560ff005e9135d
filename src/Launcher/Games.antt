-- ===== src/Launcher/Games.antt =====
-- The state of the launcher's menu, and the start of a game or a pak: readyResume, autoResume,
-- openRom, openPak and saveLast of workspace/all/minui/minui.c. The files that the launcher
-- writes are fields of the state; the files that it reads are the argument `files`.
pub mod Queued
mod Tests
use darkui.Base.{
  ℕ, ◌+◌, ◌-◌, Bool, true, false, not, ◌&&◌, List, [], ◌∷◌, ◌++◌, Option, none, some, ◌==◌,
  if◌then◌else◌, take, get_or,
}
use darkui.CString.{Bytes, bytes, after_last}
use darkui.Names.{
  Platform, roms_path, collections_path, faux_recent_path, prefix_match, suffix_match, exact_match,
  get_emu_name, get_emu_path,
}
use darkui.Collections.{Array, IntArray}
use darkui.Launcher.Files.{Files, m3u_path, last_component, parent_path}
use darkui.Launcher.Command.{rom_command, pak_command}
use darkui.Launcher.Recents.{Recent, add_recent, save_recents}
use darkui.Launcher.Entries.{Entry, EntryType, entry_dir, get_first_disc}
use darkui.Launcher.Selection.{View}

pub record Directory : Type 0 where
  pub path : Bytes
  pub name : Bytes
  pub entries : List Entry
  pub alphas : IntArray
  pub view : View

-- The static variables. `stack` has the directory on top, `top`, first; `none` is -1 in
-- `restore_depth` and `restore_relative`. The last four are the files that are written: LAST_PATH,
-- /tmp/next, RESUME_SLOT_PATH and RECENT_PATH, `none` as long as they are not.
pub record Menu : Type 0 where
  pub stack : List Directory
  pub recents : Array Recent
  pub recent_alias : Option Bytes
  pub quit : Bool
  pub can_resume : Bool
  pub should_resume : Bool
  pub simple_mode : Bool
  pub slot_path : Bytes
  pub restore_depth : Option ℕ
  pub restore_relative : Option ℕ
  pub restore : View
  pub last : Option Bytes
  pub queued : Option Bytes
  pub resume_slot : Option Bytes
  pub recent_file : Option Bytes

-- `getFile` into a buffer of `size` bytes; where the file cannot be opened the buffer is left as
-- it is, here empty
unfoldable pub get_file : Files → Bytes → ℕ → Bytes
get_file files path size = elim (files.read path) [ none ↦ [] | some text ↦ take (size - 1) text ]

abbrev pub shared_userdata_path : Platform → Bytes
shared_userdata_path p = p.sdcard_path ++ bytes "/.userdata/shared"

abbrev pub max_path : ℕ
max_path = 512

-- `hasCue`, and the name with the other extension
unfoldable pub cue_path : Bytes → Bytes
unfolding last_component
cue_path dir_path = dir_path ++ (last_component dir_path ++ bytes ".cue")

unfoldable pub folder_m3u_path : Bytes → Bytes
unfolding last_component
folder_m3u_path dir_path = dir_path ++ (last_component dir_path ++ bytes ".m3u")

-- the file that a game's entry stands for; `none` for a folder without a game of its name
pub resumed_file : Files → Bytes → EntryType → Option Bytes
unfolding cue_path folder_m3u_path
resumed_file files rom_path entry_dir =
    if files.exists (cue_path rom_path)
    then some (cue_path rom_path)
    else if files.exists (folder_m3u_path rom_path)
    then some (folder_m3u_path rom_path)
    else none
resumed_file files rom_path _ = some rom_path

-- the playlist in place of its disc
pub with_m3u : Files → Bytes → Bytes
unfolding suffix_match m3u_path
with_m3u files path =
    if not (suffix_match (bytes ".m3u") path) && files.exists (m3u_path path)
    then m3u_path path
    else path

pub slot_path_of : Platform → Bytes → Bytes
unfolding get_emu_name after_last
slot_path_of p path =
    shared_userdata_path p
    ++ (bytes "/.minui/"
        ++ (get_emu_name (roms_path p) path ++ b'/' ∷ (after_last path b'/' ++ bytes ".txt")))

-- `readyResumePath`
unfoldable pub ready_resume : Platform → Files → Bytes → EntryType → Menu → Menu
unfolding prefix_match resumed_file with_m3u slot_path_of
ready_resume p files rom_path kind menu =
    let slot : Option Bytes = elim (resumed_file files rom_path kind) [
      | none ↦ none
      | some path ↦ some (slot_path_of p (with_m3u files path))
    ] in
    if not (prefix_match (roms_path p) rom_path)
    then record menu { can_resume = false }
    else elim slot [
      | none ↦ record menu { can_resume = false }
      | some path ↦ record menu { slot_path = path; can_resume = files.exists path }
    ]

pub queue_next : Bytes → Menu → Menu
queue_next cmd menu = record menu { queued = some cmd; quit = true }

abbrev pub top_path : Menu → Bytes
top_path menu = elim menu.stack [ [] ↦ [] | top ∷ stack ↦ top.path ]

pub save_last : Platform → Bytes → Menu → Menu
unfolding exact_match
save_last p path menu = record menu {
  last =
      some (if exact_match (top_path menu) (faux_recent_path p) then faux_recent_path p else path);
}

-- `addRecent`, and what it saves
pub remember : Platform → Files → Bytes → Option Bytes → Menu → Menu
unfolding add_recent save_recents
remember p files path alias menu =
    let recents = add_recent p files menu.recents path alias in
    record menu { recents = recents; recent_file = some (save_recents recents) }

unfoldable pub auto_resume : Platform → Files → Menu → Bool × Menu
unfolding get_file get_emu_name get_emu_path rom_command queue_next
auto_resume p files menu =
    let auto_path = shared_userdata_path p ++ bytes "/.minui/auto_resume.txt" in
    let sd_path = p.sdcard_path ++ get_file files auto_path max_path in
    let emu_path = get_emu_path p files.exists (get_emu_name (roms_path p) sd_path) in
    if files.exists auto_path && files.exists sd_path && files.exists emu_path
    then (
      true,
      queue_next (rom_command emu_path sd_path) (record menu { resume_slot = some (bytes "9") }),
    )
    else (false, menu)

unfoldable pub open_pak : Platform → Files → Bytes → Menu → Menu
unfolding prefix_match remember save_last queue_next pak_command
open_pak p files path menu =
    let known = if prefix_match (roms_path p) path then remember p files path none menu else menu in
    queue_next (pak_command path) (save_last p path known)

-- the disc of a saved state: an absolute path, or one below the playlist's folder
pub disc_of : Bytes → Bytes → Bytes
unfolding parent_path
disc_of m3u disc_path =
    if get_or disc_path 0 0 == b'/' then disc_path else parent_path m3u ++ disc_path

pub disc_path_path : Platform → Bytes → Bytes → Bytes → Bytes
unfolding after_last
disc_path_path p emu_name m3u slot =
    shared_userdata_path p
    ++ (bytes "/.minui/"
        ++ (emu_name ++ b'/' ∷ (after_last m3u b'/' ++ b'.' ∷ (slot ++ bytes ".txt"))))

-- the game that is started, before the saved state is looked at
pub started_path : Files → Bytes → Bytes
unfolding m3u_path suffix_match get_first_disc
started_path files path =
    if files.exists (m3u_path path) && suffix_match (bytes ".m3u") path
    then (get_first_disc files (m3u_path path) path).1
    else path

-- `if (should_resume) ... else putInt(RESUME_SLOT_PATH, 8)`: the game's path, and the state
pub resume_state : Platform → Files → Bytes → Bytes → Menu → Bytes × Menu
unfolding m3u_path get_file disc_of disc_path_path
resume_state p files path emu_name menu =
    let slot = get_file files menu.slot_path 16 in
    let disc = disc_path_path p emu_name (m3u_path path) slot in
    let sd_path = started_path files path in
    if menu.should_resume
    then (
      (if files.exists (m3u_path path) && files.exists disc
          then disc_of (m3u_path path) (get_file files disc max_path)
          else sd_path),
      record menu { resume_slot = some slot; should_resume = false },
    )
    else (sd_path, record menu { resume_slot = some (bytes "8") })

-- the rest of `openRom`, for the emulator at `emu_path`
pub start_rom : Platform → Files → Bytes → Bytes → Bytes → Option Bytes → Menu → Menu
unfolding remember save_last queue_next rom_command
start_rom p files emu_path recent_path sd_path last menu =
    let known = remember p files recent_path menu.recent_alias menu in
    let saved = save_last p (elim last [ none ↦ sd_path | some path ↦ path ]) known in
    if files.exists emu_path then queue_next (rom_command emu_path sd_path) saved else menu

unfoldable pub open_rom : Platform → Files → Bytes → Option Bytes → Menu → Menu
unfolding m3u_path started_path resume_state start_rom get_emu_name get_emu_path
open_rom p files path last menu =
    let recent_path = if files.exists (m3u_path path) then m3u_path path else path in
    let emu_name = get_emu_name (roms_path p) (started_path files path) in
    let (sd_path, menu') = resume_state p files path emu_name menu in
    start_rom p files (get_emu_path p files.exists emu_name) recent_path sd_path last menu'
