-- ===== src/Launcher/Selection/InView.antt =====
-- The selected entry is always on the screen, and the screen shows as many entries as fit.
use darkui.Base.{ℕ, ◌+◌, ◌-◌, ◌≤◌, ◌<◌, ◌≡◌, min, Bool, get_or, arith}
use darkui.Collections.{IntArray}
use darkui.Launcher.Selection.{
  View, page, move_up, move_down, move_left, move_right, jump, Moves, move_rows, move_pages,
  move_alpha, move,
}

pub record InView (rows total : ℕ) (v : View) : Type 0 where
  pub above : v.start ≤ v.selected
  pub below : v.selected < v.end
  pub inside : v.end ≤ total
  pub full : v.end ≡ v.start + min rows total

module _ (rows total : ℕ) (some_rows : 0 < rows) (v : View) (i : InView rows total v) where
  move_up-InView : (pressed : Bool) → InView rows total (move_up rows total pressed v)
  unfolding move_up
  move_up-InView pressed = ground (arith, i.above, i.below, i.inside, i.full)

  move_down-InView : (pressed : Bool) → InView rows total (move_down rows total pressed v)
  unfolding move_down page
  move_down-InView pressed = ground (arith, i.above, i.below, i.inside, i.full)

  move_left-InView : InView rows total (move_left rows total v)
  unfolding move_left page
  move_left-InView = ground (arith, i.above, i.below, i.inside, i.full)

  move_right-InView : InView rows total (move_right rows total v)
  unfolding move_right
  move_right-InView = ground (arith, i.above, i.below, i.inside, i.full)

  jump-InView : (to : ℕ) → to < total → InView rows total (jump rows total to v)
  unfolding jump
  jump-InView to h = ground (arith, i.above, i.below, i.inside, i.full)

-- The places that an index of letters points to are entries.
abbrev pub PointsInto : ℕ → IntArray → Type 0
PointsInto total alphas = (k : ℕ) → k < alphas.count → get_or alphas.items k 0 < total

module _ (rows total : ℕ) (some_rows : 0 < rows) (m : Moves) where
  move_rows-InView : (v : View) → InView rows total v → InView rows total (move_rows rows total m v)
  unfolding move_rows
  move_rows-InView v i = ground (
    arith,
    i,
    move_up-InView rows total some_rows v i m.up_pressed,
    move_down-InView rows total some_rows v i m.down_pressed,
  )

  move_pages-InView :
      (v : View) → InView rows total v → InView rows total (move_pages rows total m v)
  unfolding move_pages
  move_pages-InView v i = ground (
    arith,
    i,
    move_left-InView rows total some_rows v i,
    move_right-InView rows total some_rows v i,
  )

  move_alpha-InView :
      (alphas : IntArray) (alpha : ℕ) (v : View)
      → PointsInto total alphas
      → alpha ≤ alphas.count
      → InView rows total v
      → InView rows total (move_alpha rows total alphas alpha m v)
  unfolding move_alpha
  move_alpha-InView alphas alpha v p h i = ground (
    arith,
    i,
    jump-InView rows total some_rows v i (get_or alphas.items (alpha - 1) 0),
    jump-InView rows total some_rows v i (get_or alphas.items (alpha + 1) 0),
    p (alpha - 1),
    p (alpha + 1),
  )

-- Whatever buttons are pressed together, the selected entry stays on the screen, and the screen
-- shows a whole page, or all entries if they are fewer. That was so before, the screen has a row,
-- the index of letters points to entries, and no entry's `alpha` is beyond the index.
pub move-InView :
    (rows total : ℕ) (alphas : IntArray) (alpha_of : ℕ → ℕ) (m : Moves) (v : View)
    → 0 < rows
    → PointsInto total alphas
    → ((k : ℕ) → k < total → alpha_of k ≤ alphas.count)
    → InView rows total v
    → InView rows total (move rows total alphas alpha_of m v)
unfolding move
move-InView rows total alphas alpha_of m v some_rows p known i =
    let w = move_pages rows total m (move_rows rows total m v) in
    let j =
      move_pages-InView rows total some_rows m (move_rows rows total m v)
        (move_rows-InView rows total some_rows m v i) in
    move_alpha-InView rows total some_rows m alphas (alpha_of w.selected) w p
      (known w.selected (omega (arith, j.below, j.inside))) j
