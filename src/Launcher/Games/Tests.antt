-- ===== src/Launcher/Games/Tests.antt =====
-- Runs of the start of a game on a card with one emulator.
use darkui.Base.{◌≡◌, refl, arith, true, false, [], none}
use darkui.CString.{bytes, equal}
use darkui.Names.{Platform, roms_path, get_emu_name, system_pak}
use darkui.Collections.{array_new}
use darkui.Collections.Growth.{array_new-IsValid}
use darkui.Launcher.Recents.Bump.{Lists, games}
use darkui.Launcher.Recents.Distinct.{IsRecent}
use darkui.Launcher.Files.{Files, has_emu}
use darkui.Launcher.Games.{Menu, started_path, open_rom}
use darkui.Launcher.Games.Queued.{Opened, open_rom-Started}

abbrev sd_card : Platform
sd_card = record { sdcard_path = bytes "/mnt"; platform = bytes "rg35xx" }

-- The pak for GB is the only file that is there.
abbrev one_pak : Files
unfolding equal
one_pak = record {
  exists = λ path. equal path (system_pak sd_card (bytes "GB"));
  read = λ path. none;
  list = λ path. none;
}

has_emu_run : has_emu sd_card one_pak (bytes "GB") ≡ true
unfolding one_pak has_emu equal
has_emu_run = refl

get_emu_name_run :
    get_emu_name (roms_path sd_card) (started_path one_pak (bytes "/mnt/Roms/GB/a.gb")) ≡ bytes "GB"
unfolding one_pak started_path get_emu_name equal
get_emu_name_run = refl

abbrev start_menu : Menu
unfolding array_new
start_menu = record {
  stack = [];
  recents = array_new;
  recent_alias = none;
  quit = false;
  can_resume = false;
  should_resume = true;
  simple_mode = false;
  slot_path = [];
  restore_depth = none;
  restore_relative = none;
  restore = record { selected = 0; start = 0; end = 0 };
  last = none;
  queued = none;
  resume_slot = none;
  recent_file = none;
}

no_recents-Lists : Lists array_new []
unfolding array_new games
no_recents-Lists = record { valid = array_new-IsValid.0; holds = refl }

no_recents-IsRecent : IsRecent []
no_recents-IsRecent = record { distinct = tt; few = omega arith }

open_rom-Started_example :
    let path = bytes "/mnt/Roms/GB/a.gb" in
    let emu_name = get_emu_name (roms_path sd_card) (started_path one_pak path) in
    Opened
      (has_emu sd_card one_pak emu_name)
      sd_card
      one_pak
      path
      none
      start_menu
      (open_rom sd_card one_pak path none start_menu)
unfolding start_menu
open_rom-Started_example =
    open_rom-Started sd_card one_pak (bytes "/mnt/Roms/GB/a.gb") none start_menu [] no_recents-Lists
      no_recents-IsRecent
