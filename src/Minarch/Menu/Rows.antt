-- ===== src/Minarch/Menu/Rows.antt =====
-- The selected row of a menu is always one that is drawn.
use darkui.Base.{ℕ, ◌+◌, ◌≤◌, ◌<◌, ◌≡◌, arith, min}
use darkui.Minarch.Menu.{View, first_rows, select_next, select_prev, value_left, value_right}

-- The selected row is in view, and the view is full.
pub record InView (count max_visible_options : ℕ) (rows : View) : Type 0 where
  pub from_start : rows.start ≤ rows.selected
  pub before_end : rows.selected < rows.end_
  pub within : rows.end_ ≤ count
  pub full : rows.end_ ≡ rows.start + min count max_visible_options

first_rows-InView :
    (count max_visible_options : ℕ)
    → 0 < count
    → 0 < max_visible_options
    → InView count max_visible_options (first_rows count max_visible_options)
first_rows-InView count max_visible_options h m = record {
  from_start = omega arith;
  before_end = omega arith;
  within = omega arith;
  full = omega arith;
}

-- UP and DOWN keep the selected row in view, at the ends of the list too, whichever of the two
-- functions is called.
pub select-InView :
    (count max_visible_options : ℕ) (rows : View)
    → 0 < count
    → 0 < max_visible_options
    → InView count max_visible_options rows
    → InView count max_visible_options (select_next count (min count max_visible_options) rows)
      × InView count max_visible_options (select_prev count max_visible_options rows)
unfolding select_next select_prev
select-InView count max_visible_options rows h m v =
    ground (arith, v.from_start, v.before_end, v.within, v.full)

-- LEFT undoes RIGHT and RIGHT undoes LEFT, at the ends of the values too, and both stay among
-- the values.
pub value_left-value_right :
    (count value : ℕ)
    → value < count
    → (value_left count (value_right count value) ≡ value)
      × (value_right count (value_left count value) ≡ value)
      × (value_left count value < count)
      × (value_right count value < count)
unfolding value_left value_right
value_left-value_right count value h = ground arith
