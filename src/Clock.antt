-- ===== src/Clock.antt =====
-- workspace/all/clock/clock.c: the date and time that the clock tool sets. The fields are the
-- source's `int32_t`, the year its `uint32_t`.
pub mod Dates
mod Tests
use darkui.Base.{
  ℕ, zero, suc, ◌+◌, ◌-◌, ◌%◌, Bool, true, false, not, ◌&&◌, ◌||◌, ltb, leb, ◌==◌, if◌then◌else◌,
}
use darkui.Pad.{ℤ, pos, negsuc}

-- `z > n`, `z < n` and `z + n`, `z - n`
abbrev pub above : ℕ → ℤ → Bool
above n (pos m) = ltb n m
above n (negsuc m) = false

abbrev pub below : ℕ → ℤ → Bool
below n (pos m) = ltb m n
below n (negsuc m) = true

abbrev pub plus : ℕ → ℤ → ℤ
plus n (pos m) = pos (m + n)
plus n (negsuc m) = if ltb m n then pos (n - (m + 1)) else negsuc (m - n)

abbrev pub minus : ℕ → ℤ → ℤ
minus n (pos m) = if leb n m then pos (m - n) else negsuc (n - (m + 1))
minus n (negsuc m) = negsuc (m + n)

-- `day_selected > february_days`, with `uint32_t` on the right: a negative day is above it.
abbrev pub above_unsigned : ℕ → ℤ → Bool
above_unsigned n (pos m) = ltb n m
above_unsigned n (negsuc m) = true

pub record Date : Type 0 where
  pub year : ℕ
  pub month : ℤ
  pub day : ℤ
  pub hour : ℤ
  pub minute : ℤ
  pub seconds : ℤ

abbrev pub is_leap : ℕ → Bool
is_leap year = (year % 4 == 0 && not (year % 100 == 0)) || year % 400 == 0

abbrev pub february_days : ℕ → ℕ
february_days year = if is_leap year then 29 else 28

-- `if (z > high) z -= size; else if (z < low) z += size;`
pub wrap : ℕ → ℕ → ℕ → ℤ → ℤ
wrap low high size z = if above high z then minus size z else if below low z then plus size z else z

pub wrap_february : ℕ → ℤ → ℤ
wrap_february days z =
    if above_unsigned days z then minus days z else if below 1 z then plus days z else z

abbrev pub clamp_year : ℕ → ℕ
clamp_year year = if ltb 2100 year then 2100 else if ltb year 1970 then 1970 else year

abbrev pub is_month : ℕ → ℤ → Bool
is_month n (pos m) = m == n
is_month n (negsuc m) = false

-- the `switch` over the month
pub wrap_day : ℕ → ℤ → ℤ → ℤ
unfolding wrap wrap_february
wrap_day days month day =
    if is_month 2 month
    then wrap_february days day
    else if is_month 4 month || is_month 6 month || is_month 9 month || is_month 11 month
    then wrap 1 30 30 day
    else wrap 1 31 31 day

-- `validate`; the days of February are those of the year before it is brought into its bounds.
unfoldable pub validate : Date → Date
unfolding wrap wrap_day
validate date =
    let month = wrap 1 12 12 date.month in
    record {
      year = clamp_year date.year;
      month = month;
      day = wrap_day (february_days date.year) month date.day;
      hour = wrap 0 23 24 date.hour;
      minute = wrap 0 59 60 date.minute;
      seconds = wrap 0 59 60 date.seconds;
    }

pub data Cursor : Type 0 where
  cursor_year : Cursor
  cursor_month : Cursor
  cursor_day : Cursor
  cursor_hour : Cursor
  cursor_minute : Cursor
  cursor_second : Cursor
  cursor_ampm : Cursor

-- UP and DOWN in the main loop; the year is a `uint32_t`.
abbrev pub up : Cursor → Date → Date
up cursor_year date = record date { year = (date.year + 1) % 4294967296 }
up cursor_month date = record date { month = plus 1 date.month }
up cursor_day date = record date { day = plus 1 date.day }
up cursor_hour date = record date { hour = plus 1 date.hour }
up cursor_minute date = record date { minute = plus 1 date.minute }
up cursor_second date = record date { seconds = plus 1 date.seconds }
up cursor_ampm date = record date { hour = plus 12 date.hour }

abbrev pub down : Cursor → Date → Date
down cursor_year date = record date { year = (date.year + 4294967295) % 4294967296 }
down cursor_month date = record date { month = minus 1 date.month }
down cursor_day date = record date { day = minus 1 date.day }
down cursor_hour date = record date { hour = minus 1 date.hour }
down cursor_minute date = record date { minute = minus 1 date.minute }
down cursor_second date = record date { seconds = minus 1 date.seconds }
down cursor_ampm date = record date { hour = minus 12 date.hour }

-- LEFT, RIGHT and SELECT on `select_cursor`, of so many options; CURSOR_SECOND is 5 and
-- CURSOR_AMPM is 6.
unfoldable pub cursor_left : ℕ → ℕ → ℕ
cursor_left option_count cursor = if cursor == 0 then option_count - 1 else cursor - 1

unfoldable pub cursor_right : ℕ → ℕ → ℕ
cursor_right option_count cursor =
    if leb option_count (cursor + 1) then cursor + 1 - option_count else cursor + 1

-- the count of the options, the cursor and `show_24hour` after SELECT
unfoldable pub toggle_24hour : ℕ → Bool → ℕ × ℕ × Bool
toggle_24hour cursor show_24hour =
    let shown = not show_24hour in
    let option_count = if shown then 6 else 7 in
    (option_count, if leb option_count cursor then cursor - option_count else cursor, shown)
