-- ===== src/Launcher/Last/Scroll.antt =====
-- `loadLast` scrolls to the entry that it selects.
use darkui.Base.{ℕ, ◌≤◌, ◌<◌, ◌≡◌, arith}
use darkui.Launcher.Selection.{View}
use darkui.Launcher.Selection.InView.{InView}
use darkui.Launcher.Last.{shown_at}

-- When an entry is restored that is not above the screen, it is then the selected one and on the
-- screen, and the screen still shows a whole page, or all entries if they are fewer.
pub shown_at-InView :
    (rows total i : ℕ) (v : View)
    → 0 < rows
    → i < total
    → InView rows total v
    → v.start ≤ i
    → InView rows total (shown_at rows total i v) × ((shown_at rows total i v).selected ≡ i)
unfolding shown_at
shown_at-InView rows total i v some_rows h w k =
    (ground (arith, w.above, w.below, w.inside, w.full), ground arith)
