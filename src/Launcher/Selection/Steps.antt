-- ===== src/Launcher/Selection/Steps.antt =====
-- What pressing and holding the buttons of a list does.
use darkui.Base.{ℕ, zero, suc, ◌+◌, ◌-◌, ◌<◌, ◌≡◌, min, true, false, ◌∙◌, arith}
use darkui.Launcher.Selection.{View, page, move_up, move_down, move_left, move_right}
use darkui.Launcher.Selection.InView.{InView}

-- BTN_DOWN or BTN_UP held for `n` repeats
pub hold_down : ℕ → ℕ → ℕ → View → View
hold_down rows total zero v = v
hold_down rows total (suc n) v = hold_down rows total n (move_down rows total false v)

pub hold_up : ℕ → ℕ → ℕ → View → View
hold_up rows total zero v = v
hold_up rows total (suc n) v = hold_up rows total n (move_up rows total false v)

hold_down-selected :
    (rows total n : ℕ) (v : View)
    → v.selected < total
    → (hold_down rows total n v).selected ≡ min (v.selected + n) (total - 1)
unfolding hold_down move_down page
hold_down-selected rows total zero v h = ground arith
hold_down-selected rows total (suc n) v h =
    let step : (move_down rows total false v).selected ≡ min (v.selected + 1) (total - 1) =
      ground arith in
    hold_down-selected rows total n (move_down rows total false v) (omega arith) ∙ omega arith

hold_up-selected :
    (rows total n : ℕ) (v : View) → (hold_up rows total n v).selected ≡ v.selected - n
unfolding hold_up move_up
hold_up-selected rows total zero v = omega arith
hold_up-selected rows total (suc n) v =
    let step : (move_up rows total false v).selected ≡ v.selected - 1 = ground arith in
    hold_up-selected rows total n (move_up rows total false v) ∙ omega arith

-- From an entry of the list a held button moves by one entry for each repeat, and stops at the
-- list's end.
pub hold-selected :
    (rows total n : ℕ) (v : View)
    → v.selected < total
    → ((hold_down rows total n v).selected ≡ min (v.selected + n) (total - 1))
      × ((hold_up rows total n v).selected ≡ v.selected - n)
hold-selected rows total n v h =
    (hold_down-selected rows total n v h, hold_up-selected rows total n v)

-- From an entry of the list a pressed BTN_UP takes back a pressed BTN_DOWN, and the other way
-- round, also where they go round the list's ends.
pub up-down-selected :
    (rows total : ℕ) (v : View)
    → v.selected < total
    → ((move_up rows total true (move_down rows total true v)).selected ≡ v.selected)
      × ((move_down rows total true (move_up rows total true v)).selected ≡ v.selected)
unfolding move_up move_down page
up-down-selected rows total v h = (ground arith, ground arith)

-- With the selection on the screen BTN_RIGHT moves it by a page and stops at the last entry,
-- BTN_LEFT by a page and stops at the first, and BTN_LEFT takes back a BTN_RIGHT that did not meet
-- the end.
pub right-left-selected :
    (rows total : ℕ) (v : View)
    → 0 < rows
    → InView rows total v
    → ((move_right rows total v).selected ≡ min (v.selected + rows) (total - 1))
      × ((move_left rows total v).selected ≡ v.selected - rows)
      × (v.selected + rows < total
          → (move_left rows total (move_right rows total v)).selected ≡ v.selected)
unfolding move_left move_right page
right-left-selected rows total v h i =
    (ground (arith, i.below, i.inside), ground arith, λ k. ground (arith, i.below, i.inside))
