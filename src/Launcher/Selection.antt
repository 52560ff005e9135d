-- ===== src/Launcher/Selection.antt =====
-- The movement of the selection in `Menu_handleInput` of workspace/all/minui/minui.c. The rows of
-- the screen, `MAIN_ROW_COUNT`, are a definition of the platform, here the argument `rows`. A
-- number that the source takes below zero is tested before the subtraction.
pub mod InView
pub mod Steps
mod Tests
use darkui.Base.{
  ℕ, zero, suc, ◌+◌, ◌-◌, min, Bool, true, false, not, ◌&&◌, List, Option, ltb, leb, ◌==◌,
  if◌then◌else◌, get_or, length,
}
use darkui.Collections.{IntArray}

-- the fields of `Directory` for rendering
pub record View : Type 0 where
  pub selected : ℕ
  pub start : ℕ
  pub end : ℕ

-- `(total<MAIN_ROW_COUNT) ? total : MAIN_ROW_COUNT`
unfoldable pub page : ℕ → ℕ → ℕ
page rows total = if ltb total rows then total else rows

-- BTN_UP; `pressed` says that it is no repeat
pub move_up : ℕ → ℕ → Bool → View → View
move_up rows total pressed v =
    if v.selected == 0
    then (if pressed then record { selected = total - 1; start = total - rows; end = total } else v)
    else if ltb (v.selected - 1) v.start
    then record { selected = v.selected - 1; start = v.start - 1; end = v.end - 1 }
    else record v { selected = v.selected - 1 }

-- BTN_DOWN
pub move_down : ℕ → ℕ → Bool → View → View
unfolding page
move_down rows total pressed v =
    if v.selected == total - 1 && not pressed
    then v
    else if leb total (v.selected + 1)
    then record { selected = 0; start = 0; end = page rows total }
    else if leb v.end (v.selected + 1)
    then record { selected = v.selected + 1; start = v.start + 1; end = v.end + 1 }
    else record v { selected = v.selected + 1 }

-- BTN_LEFT
pub move_left : ℕ → ℕ → View → View
unfolding page
move_left rows total v =
    if ltb v.selected rows
    then record { selected = 0; start = 0; end = page rows total }
    else if ltb (v.selected - rows) v.start
    then record {
      selected = v.selected - rows;
      start = v.start - rows;
      end = v.start - rows + rows;
    }
    else record v { selected = v.selected - rows }

-- BTN_RIGHT
pub move_right : ℕ → ℕ → View → View
move_right rows total v =
    if leb total (v.selected + rows)
    then record { selected = total - 1; start = total - rows; end = total }
    else if leb v.end (v.selected + rows)
    then record {
      selected = v.selected + rows;
      start = min (v.end + rows) total - rows;
      end = min (v.end + rows) total;
    }
    else record v { selected = v.selected + rows }

-- the entry at `to` becomes the first row, if there is more than a page
pub jump : ℕ → ℕ → ℕ → View → View
jump rows total to v =
    if ltb rows total
    then record { selected = to; start = min (to + rows) total - rows; end = min (to + rows) total }
    else record v { selected = to }

-- What `PAD_justRepeated` and `PAD_justPressed` say, and the whole conditions of BTN_L1 and BTN_R1.
pub record Moves : Type 0 where
  pub up : Bool
  pub up_pressed : Bool
  pub down : Bool
  pub down_pressed : Bool
  pub left : Bool
  pub right : Bool
  pub previous : Bool
  pub next : Bool

pub move_rows : ℕ → ℕ → Moves → View → View
unfolding move_up move_down
move_rows rows total m v =
    if m.up
    then move_up rows total m.up_pressed v
    else if m.down
    then move_down rows total m.down_pressed v
    else v

pub move_pages : ℕ → ℕ → Moves → View → View
unfolding move_left move_right
move_pages rows total m v =
    if m.left then move_left rows total v else if m.right then move_right rows total v else v

-- `alpha` is the one of the entry selected by now
pub move_alpha : ℕ → ℕ → IntArray → ℕ → Moves → View → View
unfolding jump
move_alpha rows total alphas alpha m v =
    if m.previous
    then (if alpha == 0 then v else jump rows total (get_or alphas.items (alpha - 1) 0) v)
    else if m.next && ltb (alpha + 1) alphas.count
    then jump rows total (get_or alphas.items (alpha + 1) 0) v
    else v

-- `Menu_handleInput` on a directory that is not empty, up to where it stores the selection;
-- `alpha_of` gives the `alpha` of each entry
unfoldable pub move : ℕ → ℕ → IntArray → (ℕ → ℕ) → Moves → View → View
unfolding move_rows move_pages move_alpha
move rows total alphas alpha_of m v =
    let w = move_pages rows total m (move_rows rows total m v) in
    move_alpha rows total alphas (alpha_of w.selected) m w
