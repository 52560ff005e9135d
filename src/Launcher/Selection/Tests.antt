-- ===== src/Launcher/Selection/Tests.antt =====
-- Runs of the selection on a list of ten entries with six rows.
use darkui.Base.{true, false, ◌∷◌, replicate, arith, if◌then◌else◌, ltb}
use darkui.Collections.{IntArray}
use darkui.Launcher.Selection.{View, Moves, move}
use darkui.Launcher.Selection.InView.{InView, PointsInto, move-InView}

abbrev third : View
third = record { selected = 2; start = 0; end = 6 }

third-InView : InView 6 10 third
third-InView = record {
  above = omega arith;
  below = omega arith;
  inside = omega arith;
  full = ground arith;
}

abbrev two_letters : IntArray
two_letters = record { count = 2; items = 0 ∷ 5 ∷ replicate 25 0 }

abbrev page_and_letter : Moves
page_and_letter = record {
  up = false;
  up_pressed = false;
  down = true;
  down_pressed = true;
  left = false;
  right = true;
  previous = true;
  next = false;
}

two_letters-PointsInto : PointsInto 10 two_letters
two_letters-PointsInto k h = ground arith

move-InView_example :
    InView 6 10 (move 6 10 two_letters (λ k. if ltb k 5 then 0 else 1) page_and_letter third)
move-InView_example =
    move-InView 6 10 two_letters (λ k. if ltb k 5 then 0 else 1) page_and_letter third (omega arith)
      two_letters-PointsInto (λ k h. ground arith) third-InView
