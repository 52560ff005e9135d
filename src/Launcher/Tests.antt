-- ===== src/Launcher/Tests.antt =====
-- Runs of the launcher's commands and of its list of recent games.
use darkui.Base.{
  ◌≡◌, refl, inr, true, false, List, [], ◌∷◌, none, some, length, arith, drop, replicate,
}
use darkui.CString.{Bytes, bytes}
use darkui.Names.{Platform, exact_match}
use darkui.Collections.{Array}
use darkui.Launcher.Files.{Files, text_lines}
use darkui.Launcher.Command.{rom_command}
use darkui.Launcher.Command.Words.{between, shell_words, Kept, rom_command_words}
use darkui.Launcher.Recents.{Recent, recent_new, add_recent, save_recents}
use darkui.Launcher.Recents.Bump.{games, Lists, find_path}
use darkui.Launcher.Recents.Order.{use_recent, add_recent-use_recent}
use darkui.Launcher.Recents.Distinct.{IsRecent, first_path, add_recent-IsRecent}
use darkui.Launcher.Recents.Stored.{IsStorable, split_lines, saved, save_recents_roundtrip}

abbrev quoted_path : Bytes
quoted_path = bytes "/Roms/Zelda - Link's Awakening.gb"

rom_command_words_example :
    (emu : Bytes) × (sd : Bytes) × (shell_words between []
        (rom_command (bytes "/Emus/GB.pak/launch.sh") quoted_path)
      ≡ some (emu ∷ sd ∷ []))
    × Kept (bytes "/Emus/GB.pak/launch.sh") emu
    × Kept quoted_path sd
rom_command_words_example = rom_command_words (bytes "/Emus/GB.pak/launch.sh") quoted_path

abbrev sd_card : Platform
sd_card = record { sdcard_path = bytes "/mnt"; platform = bytes "rg35xx" }

abbrev no_files : Files
no_files = record { exists = λ path. false; read = λ path. none; list = λ path. none }

abbrev game_a : Recent
game_a = record { path = bytes "/Roms/GB/a.gb"; alias = none; available = true }

abbrev game_b : Recent
game_b = record { path = bytes "/Roms/GB/b.gb"; alias = some (bytes "B"); available = true }

abbrev two_games : Array Recent
two_games = record { count = 2; capacity = 8; items = some game_a ∷ some game_b ∷ replicate 6 none }

two_games-Lists : Lists two_games (game_a ∷ game_b ∷ [])
unfolding games
two_games-Lists = record {
  valid = record { block = refl; within = omega arith; room = omega arith };
  holds = refl;
}

add_recent-use_recent_example :
    Lists (add_recent sd_card no_files two_games (bytes "/mnt/Roms/GB/b.gb") none) (
      use_recent
        (recent_new sd_card no_files
          (drop (length (bytes "/mnt")) (bytes "/mnt/Roms/GB/b.gb"))
          none)
        (game_a ∷ game_b ∷ []))
add_recent-use_recent_example =
    add_recent-use_recent sd_card no_files two_games (game_a ∷ game_b ∷ [])
      (bytes "/mnt/Roms/GB/b.gb") none two_games-Lists

two_games-IsRecent : IsRecent (game_a ∷ game_b ∷ [])
unfolding find_path exact_match
two_games-IsRecent = record { distinct = (refl, (refl, tt)); few = omega arith }

add_recent-IsRecent_example :
    (rs' : List Recent) × Lists
      (add_recent sd_card no_files two_games (bytes "/mnt/Roms/GB/c.gb") none)
      rs'
    × IsRecent rs'
    × (first_path rs' ≡ some (drop (length (bytes "/mnt")) (bytes "/mnt/Roms/GB/c.gb")))
add_recent-IsRecent_example =
    add_recent-IsRecent sd_card no_files two_games (game_a ∷ game_b ∷ [])
      (bytes "/mnt/Roms/GB/c.gb") none two_games-Lists two_games-IsRecent

game_a-IsStorable : IsStorable game_a
game_a-IsStorable = record {
  line = record {
    filled = ground arith;
    one = ground arith;
    short = omega arith;
    no_newline = inr (ground arith);
    no_return = inr (ground arith);
  };
  no_tab = ground arith;
}

game_b-IsStorable : IsStorable game_b
game_b-IsStorable = record {
  line = record {
    filled = ground arith;
    one = ground arith;
    short = omega arith;
    no_newline = inr (ground arith);
    no_return = inr (ground arith);
  };
  no_tab = ground arith;
}

save_recents_roundtrip_example :
    split_lines (text_lines (save_recents two_games)) ≡ saved (game_a ∷ game_b ∷ [])
save_recents_roundtrip_example =
    save_recents_roundtrip two_games (game_a ∷ game_b ∷ []) two_games-Lists
      (game_a-IsStorable, (game_b-IsStorable, tt))
