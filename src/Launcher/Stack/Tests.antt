-- ===== src/Launcher/Stack/Tests.antt =====
-- A run of closing and opening a directory again.
use darkui.Base.{◌≡◌, true, some, ◌==◌, if◌then◌else◌, false, [], ◌∷◌, none, refl, arith, length}
use darkui.CString.{bytes, equal}
use darkui.Names.{Platform}
use darkui.Collections.{array_new, int_array_new}
use darkui.Launcher.Files.{Files}
use darkui.Launcher.Entries.{Entry, entry_dir}
use darkui.Launcher.Selection.{page}
use darkui.Launcher.Games.{Directory, Menu}
use darkui.Launcher.Stack.{directory_new, push_directory}
use darkui.Launcher.Stack.Restore.{moved, push_directory-close_directory}

abbrev sd_card : Platform
sd_card = record { sdcard_path = bytes "/mnt"; platform = bytes "rg35xx" }

-- one console with two games
abbrev two_games : Files
unfolding equal
two_games = record {
  exists = λ path. false;
  read = λ path. none;
  list = λ path.
      if equal path (bytes "/mnt/Roms")
      then some ((bytes "GB", true) ∷ [])
      else if equal path (bytes "/mnt/Roms/GB")
      then some ((bytes "b.gb", false) ∷ (bytes "a.gb", false) ∷ [])
      else none;
}

abbrev console : Entry
console = record {
  path = bytes "/mnt/Roms/GB";
  name = bytes "GB";
  unique = none;
  kind = entry_dir;
  alpha = 0;
}

abbrev root : Directory
unfolding int_array_new
root = record {
  path = bytes "/mnt";
  name = bytes "mnt";
  entries = console ∷ [];
  alphas = int_array_new;
  view = record { selected = 0; start = 0; end = 1 };
}

-- the second game selected
abbrev games : Directory
unfolding directory_new array_new
games =
    (directory_new sd_card two_games false array_new (bytes "/mnt/Roms/GB")
      (record { selected = 1; start = 0; end = 2 })).0

games_run : length games.entries ≡ 2
unfolding games
games_run = refl

abbrev open_menu : Menu
unfolding array_new
open_menu = record {
  stack = games ∷ root ∷ [];
  recents = array_new;
  recent_alias = none;
  quit = false;
  can_resume = false;
  should_resume = false;
  simple_mode = false;
  slot_path = [];
  restore_depth = none;
  restore_relative = none;
  restore = record { selected = 0; start = 0; end = 0 };
  last = none;
  queued = none;
  resume_slot = none;
  recent_file = none;
}

push_directory-close_directory_example :
    (push_directory sd_card two_games 6 games.path (moved open_menu root [] root.view)).stack
    ≡ record games {
      view =
          if root.view.selected == root.view.selected
          then games.view
          else record { selected = 0; start = 0; end = page 6 (length games.entries) };
    }
      ∷ record root { view = root.view }
      ∷ []
unfolding open_menu root games directory_new
push_directory-close_directory_example =
    push_directory-close_directory sd_card two_games 6 open_menu games root [] root.view refl refl
      (omega arith) (omega arith)
