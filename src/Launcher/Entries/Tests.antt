-- ===== src/Launcher/Entries/Tests.antt =====
-- Runs of the lists of entries on two games and a playlist of two discs.
use darkui.Base.{◌≡◌, true, [], ◌++◌, none, some, refl}
use darkui.CString.{Bytes, bytes}
use darkui.Names.{Platform}
use darkui.Launcher.Files.{Files, text_lines, parent_path}
use darkui.Launcher.Entries.{Entry, entry_rom, get_discs, get_first_disc}
use darkui.Launcher.Entries.Discs.{existing, Numbered, get_discs-Numbered}

abbrev game : Bytes → Entry
game name = record {
  path = bytes "/Roms/" ++ name;
  name = name;
  unique = none;
  kind = entry_rom;
  alpha = 0;
}

abbrev sd_card : Platform
sd_card = record { sdcard_path = bytes "/mnt"; platform = bytes "rg35xx" }

-- the playlist names two discs, of which both exist
abbrev disc_files : Files
disc_files = record {
  exists = λ path. true;
  read = λ path. some (bytes "a.cue\nb.cue\n");
  list = λ path. none;
}

get_discs-Numbered_example :
    Numbered 1
      (existing disc_files
        (parent_path (bytes "/Roms/PS/g.m3u"))
        (text_lines (bytes "a.cue\nb.cue\n")))
      (get_discs sd_card disc_files (bytes "/Roms/PS/g.m3u"))
get_discs-Numbered_example =
    get_discs-Numbered sd_card disc_files (bytes "/Roms/PS/g.m3u") (bytes "a.cue\nb.cue\n") refl

first_disc_found : (get_first_disc disc_files (bytes "/Roms/PS/g.m3u") []).0 ≡ true
unfolding get_first_disc text_lines
first_disc_found = refl
