-- ===== src/Launcher/Index/Tests.antt =====
-- Runs of the index of a directory on two games.
use mathlib.Core.List.{Perm}
use darkui.Base.{inl, arith, true, false, List, [], ◌∷◌, ◌++◌, none, refl, All, length}
use darkui.CString.{Bytes, bytes}
use darkui.Names.{Platform, exact_match, prefix_match}
use darkui.Collections.{Hash, hash_new, hash_set, int_array_new}
use darkui.Launcher.Files.{Files}
use darkui.Launcher.Entries.{Entry, entry_rom}
use darkui.Launcher.Entries.Sorting.{Sorted, IsBefore}
use darkui.Launcher.Index.{apply_map, label, directory_index}
use darkui.Launcher.Index.Aliases.{Shown, Keeps, apply_map-Sorted}
use darkui.Launcher.Index.Unique.{Labelled, label-Labelled}
use darkui.Launcher.Index.Alphas.{AllFrom, IsIndexed}
use darkui.Launcher.Index.Complete.{letter_of, directory_index-Indexed}
use darkui.Launcher.Selection.InView.{PointsInto}

abbrev game : Bytes → Bytes → Entry
game file name = record {
  path = bytes "/Roms/GB/" ++ file;
  name = name;
  unique = none;
  kind = entry_rom;
  alpha = 0;
}

abbrev two_games : List Entry
two_games = game (bytes "a.gb") (bytes "A") ∷ game (bytes "b.gb") (bytes "B") ∷ []

two_games-Sorted : Sorted two_games
unfolding IsBefore
two_games-Sorted = (inl (omega arith), (tt, tt))

abbrev one_alias : Hash
one_alias = hash_set true true hash_new (bytes "a.gb") (bytes "Z")

apply_map-Sorted_example :
    Sorted (apply_map one_alias two_games)
    × All (Shown one_alias) (apply_map one_alias two_games)
    × ((kept : List Entry) × Perm (apply_map one_alias two_games) kept
        × Keeps one_alias two_games kept)
apply_map-Sorted_example = apply_map-Sorted one_alias two_games two_games-Sorted

abbrev sd_card : Platform
sd_card = record { sdcard_path = bytes "/mnt"; platform = bytes "rg35xx" }

label-Labelled_example : Labelled false two_games (label sd_card two_games)
label-Labelled_example = label-Labelled sd_card two_games (refl, (refl, tt))

abbrev no_files : Files
no_files = record { exists = λ path. false; read = λ path. none; list = λ path. none }

directory_index-Indexed_example :
    let (out, alphas) =
      directory_index sd_card no_files (bytes "/mnt/Roms/GB") two_games int_array_new in
    PointsInto (length out) alphas × AllFrom (IsIndexed (letter_of out) alphas) 0 out
directory_index-Indexed_example =
    directory_index-Indexed sd_card no_files (bytes "/mnt/Roms/GB") two_games
      (unfold exact_match in refl) (unfold prefix_match in refl)
