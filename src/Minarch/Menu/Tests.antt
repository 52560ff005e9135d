-- ===== src/Minarch/Menu/Tests.antt =====
-- A run of taking a game out of a collection.
use darkui.Base.{◌≡◌, refl, inr, not, true, [], ◌∷◌, ◌++◌, none, some, arith, if◌then◌else◌}
use darkui.CString.{Bytes, bytes, equal}
use darkui.Launcher.Files.{text_lines}
use darkui.Launcher.Files.Lines.{IsLine}
use darkui.Minarch.Config.{Disk}
use darkui.Minarch.Menu.{text_at, in_collection, toggle_collection}
use darkui.Minarch.Menu.Members.{toggled, toggle_collection-text_lines}

abbrev collection : Bytes
collection = bytes "/Collections/Best.txt"

abbrev tetris : Bytes
tetris = bytes "/Roms/GB/Tetris.gb"

abbrev card : Disk
card =
    λ p. if equal p collection then some (tetris ++ b'\n' ∷ (bytes "/Roms/GB/Wario.gb\n")) else none

tetris-IsLine : IsLine tetris
tetris-IsLine = record {
  filled = λ e. absurd cc;
  one = ground arith;
  short = omega arith;
  no_newline = inr (λ e. absurd cc);
  no_return = inr (λ e. absurd cc);
}

wario-IsLine : IsLine (bytes "/Roms/GB/Wario.gb")
wario-IsLine = record {
  filled = λ e. absurd cc;
  one = ground arith;
  short = omega arith;
  no_newline = inr (λ e. absurd cc);
  no_return = inr (λ e. absurd cc);
}

toggle_collection-text_lines_example :
    (text_lines (text_at (toggle_collection true collection tetris card) collection)
      ≡ toggled tetris (tetris ∷ bytes "/Roms/GB/Wario.gb" ∷ []))
    × (in_collection collection tetris (toggle_collection true collection tetris card)
        ≡ not (in_collection collection tetris card))
unfolding equal
toggle_collection-text_lines_example =
    toggle_collection-text_lines collection tetris card (tetris ∷ bytes "/Roms/GB/Wario.gb" ∷ [])
      refl (tetris-IsLine, (wario-IsLine, tt)) tetris-IsLine
