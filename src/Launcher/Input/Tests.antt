-- ===== src/Launcher/Input/Tests.antt =====
-- A run of leaving a directory.
use darkui.Base.{true, false, [], ◌∷◌, none, arith}
use darkui.CString.{bytes}
use darkui.Names.{Platform}
use darkui.Collections.{array_new, int_array_new}
use darkui.Launcher.Files.{Files}
use darkui.Launcher.Entries.{Entry, entry_dir}
use darkui.Launcher.Games.{Directory, Menu}
use darkui.Launcher.Input.{Buttons, act}
use darkui.Launcher.Input.Depth.{IsOpen, act-IsOpen}

abbrev sd_card : Platform
sd_card = record { sdcard_path = bytes "/mnt"; platform = bytes "rg35xx" }

abbrev no_files : Files
no_files = record { exists = λ path. false; read = λ path. none; list = λ path. none }

abbrev console : Entry
console = record {
  path = bytes "/mnt/Roms/GB";
  name = bytes "GB";
  unique = none;
  kind = entry_dir;
  alpha = 0;
}

abbrev root : Directory
unfolding int_array_new
root = record {
  path = bytes "/mnt";
  name = bytes "mnt";
  entries = console ∷ [];
  alphas = int_array_new;
  view = record { selected = 0; start = 0; end = 1 };
}

abbrev games : Directory
unfolding int_array_new
games = record {
  path = bytes "/mnt/Roms/GB";
  name = bytes "GB";
  entries = [];
  alphas = int_array_new;
  view = record { selected = 7; start = 3; end = 9 };
}

abbrev open_menu : Menu
unfolding array_new
open_menu = record {
  stack = games ∷ root ∷ [];
  recents = array_new;
  recent_alias = none;
  quit = false;
  can_resume = false;
  should_resume = false;
  simple_mode = false;
  slot_path = [];
  restore_depth = none;
  restore_relative = none;
  restore = record { selected = 0; start = 0; end = 0 };
  last = none;
  queued = none;
  resume_slot = none;
  recent_file = none;
}

abbrev back_button : Buttons
back_button = record { resume = false; a = false; b = true; y = false }

act-IsOpen_example : IsOpen (act sd_card no_files no_files 6 true true back_button open_menu)
unfolding open_menu
act-IsOpen_example =
    act-IsOpen sd_card no_files no_files 6 true true back_button open_menu (omega arith)
