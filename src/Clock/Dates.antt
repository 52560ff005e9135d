-- ===== src/Clock/Dates.antt =====
-- A date stays a date of the calendar, whatever is pressed.
use darkui.Base.{
  ℕ, ◌+◌, ◌-◌, ◌≤◌, ◌<◌, ◌≡◌, inl, inr, refl, sym, ap, subst, ◌∙◌, true, false, ◌||◌, arith, ltb,
  ltb→lt, ltb→le, leb, if◌then◌else◌, Bool-cases,
}
use darkui.Pad.{ℤ, pos, negsuc}
use darkui.Clock.{
  Date, Cursor, cursor_year, cursor_month, cursor_day, cursor_hour, cursor_minute, cursor_second,
  cursor_ampm, plus, minus, is_leap, february_days, is_month, clamp_year, wrap, wrap_february,
  wrap_day, validate, up, down,
}

-- A number from one bound to the other.
abbrev pub Between : ℕ → ℕ → ℤ → Type 0
Between low high (pos n) = (low ≤ n) × (n ≤ high)
Between low high (negsuc n) = ⊥

-- A number that is at most `over` steps outside of the bounds from `low`, which is 0 or 1, on.
abbrev pub Near : ℕ → ℕ → ℤ → Type 0
Near under high (pos n) = n ≤ high
Near under high (negsuc n) = n < under

Near-mono :
    (under high under' high' : ℕ) (z : ℤ)
    → under ≤ under'
    → high ≤ high'
    → Near under high z
    → Near under' high' z
Near-mono under high under' high' (pos n) u h near = omega arith
Near-mono under high under' high' (negsuc n) u h near = omega arith

wrap-Between :
    (low high size : ℕ) (z : ℤ)
    → size ≡ high + 1 - low
    → low ≤ 1
    → low ≤ high
    → Near (size - low) (high + size) z
    → Between low high (wrap low high size z)
unfolding wrap
wrap-Between low high size (pos n) e l h near = elim (Bool-cases (ltb high n)) [
  | inl t ↦
      let over : size ≤ n = omega (arith, ltb→lt high n t) in
      let fits : leb size n ≡ true = ground arith in
      rw (t, fits) (omega (arith, ltb→lt high n t), omega arith)
  | inr f ↦ elim (Bool-cases (ltb n low)) [
    | inl u ↦ rw (f, u) (omega (arith, ltb→lt n low u), omega (arith, ltb→lt n low u))
    | inr v ↦ rw (f, v) (omega (arith, ltb→le n low v), omega (arith, ltb→le high n f))
  ]
]
wrap-Between low high size (negsuc n) e l h near =
    let fits : ltb n size ≡ true = ground arith in rw fits (omega arith, omega arith)

wrap_february-Between :
    (days : ℕ) (z : ℤ) → 28 ≤ days → Near 0 (days + 28) z → Between 1 days (wrap_february days z)
unfolding wrap_february
wrap_february-Between days (pos n) h near = elim (Bool-cases (ltb days n)) [
  | inl t ↦
      let fits : leb days n ≡ true = ground (arith, ltb→lt days n t) in
      rw (t, fits) (omega (arith, ltb→lt days n t), omega arith)
  | inr f ↦ elim (Bool-cases (ltb n 1)) [
    | inl u ↦ rw (f, u) (omega arith, omega (arith, ltb→lt n 1 u))
    | inr v ↦ rw (f, v) (omega (arith, ltb→le n 1 v), omega (arith, ltb→le days n f))
  ]
]
wrap_february-Between days (negsuc n) h near = absurd (omega arith)

-- The days of a month of a year.
abbrev pub month_days : ℕ → ℤ → ℕ
month_days year month =
    if is_month 2 month
    then february_days year
    else if is_month 4 month || is_month 6 month || is_month 9 month || is_month 11 month
    then 30
    else 31

wrap_day-Between :
    (year : ℕ) (month day : ℤ)
    → Near 0 32 day
    → Between 1 (month_days year month) (wrap_day (february_days year) month day)
unfolding wrap_day
wrap_day-Between year month day near = elim (Bool-cases (is_month 2 month)) [
  | inl t ↦ rw t (wrap_february-Between (february_days year) day (days year) (near_more day near))
  | inr f ↦
      elim (Bool-cases
        (is_month 4 month || is_month 6 month || is_month 9 month || is_month 11 month)) [
          | inl u ↦
              rw (f, u)
                (wrap-Between 1 30 30 day refl (omega arith) (omega arith)
                  (Near-mono 0 32 29 60 day (omega arith) (omega arith) near))
          | inr v ↦
              rw (f, v)
                (wrap-Between 1 31 31 day refl (omega arith) (omega arith)
                  (Near-mono 0 32 30 62 day (omega arith) (omega arith) near))
        ]
]
  where
    days : (year : ℕ) → 28 ≤ february_days year
    days year = elim (Bool-cases (is_leap year)) [
      | inl t ↦ rw t (omega arith)
      | inr f ↦ rw f (omega arith)
    ]

    near_more : (z : ℤ) → Near 0 32 z → Near 0 (february_days year + 28) z
    near_more (pos n) h = omega (arith, days year)
    near_more (negsuc n) h = absurd (omega arith)

-- A date of the calendar from 1970 to 2100, and a time of the day.
pub record IsDate (date : Date) : Type 0 where
  pub year_within : (1970 ≤ date.year) × (date.year ≤ 2100)
  pub month_within : Between 1 12 date.month
  pub day_within : Between 1 (month_days date.year date.month) date.day
  pub hour_within : Between 0 23 date.hour
  pub minute_within : Between 0 59 date.minute
  pub seconds_within : Between 0 59 date.seconds

-- What one press can make of a date.
record IsNear (date : Date) : Type 0 where
  year_near : (1969 ≤ date.year) × (date.year ≤ 2101)
  month_near : Near 0 13 date.month
  day_near : Near 0 32 date.day
  hour_near : Near 12 35 date.hour
  minute_near : Near 1 60 date.minute
  seconds_near : Near 1 60 date.seconds

february_days-clamp_year :
    (year : ℕ) → 1969 ≤ year → year ≤ 2101 → february_days (clamp_year year) ≡ february_days year
february_days-clamp_year year lo hi = elim (Bool-cases (ltb 2100 year)) [
  | inl t ↦
      let last : year ≡ 2101 = omega (arith, ltb→lt 2100 year t) in
      rw t (ap february_days {y = 2101} refl ∙ ap february_days (sym last))
  | inr f ↦ elim (Bool-cases (ltb year 1970)) [
    | inl u ↦
        let first : year ≡ 1969 = omega (arith, ltb→lt year 1970 u) in
        rw (f, u) (ap february_days (sym first))
    | inr v ↦ rw (f, v) refl
  ]
]

clamp_year-within : (year : ℕ) → (1970 ≤ clamp_year year) × (clamp_year year ≤ 2100)
clamp_year-within year = ground arith

validate-IsNear : (date : Date) → IsNear date → IsDate (validate date)
unfolding validate
validate-IsNear date n =
    let month = wrap 1 12 12 date.month in
    let same = february_days-clamp_year date.year n.year_near.0 n.year_near.1 in
    record {
      year_within = clamp_year-within date.year;
      month_within =
          wrap-Between 1 12 12 date.month refl (omega arith) (omega arith)
            (Near-mono 0 13 11 24 date.month (omega arith) (omega arith) n.month_near);
      day_within =
          subst (λ days. Between 1 days (wrap_day (february_days date.year) month date.day))
            (ap
              (λ days.
                if is_month 2 month
                then days
                else if is_month 4 month
                    || is_month 6 month
                    || is_month 9 month
                    || is_month 11 month
                then 30
                else 31)
              (sym same))
            (wrap_day-Between date.year month date.day n.day_near);
      hour_within =
          wrap-Between 0 23 24 date.hour refl (omega arith) (omega arith)
            (Near-mono 12 35 24 47 date.hour (omega arith) (omega arith) n.hour_near);
      minute_within =
          wrap-Between 0 59 60 date.minute refl (omega arith) (omega arith)
            (Near-mono 1 60 60 119 date.minute (omega arith) (omega arith) n.minute_near);
      seconds_within =
          wrap-Between 0 59 60 date.seconds refl (omega arith) (omega arith)
            (Near-mono 1 60 60 119 date.seconds (omega arith) (omega arith) n.seconds_near);
    }

plus-Near : (k low high : ℕ) (z : ℤ) → Between low high z → Near 0 (high + k) (plus k z)
plus-Near k low high (pos n) b = omega (arith, b.1)
plus-Near k low high (negsuc n) b = absurd b

minus-Near : (k low high : ℕ) (z : ℤ) → Between low high z → Near (k - low) high (minus k z)
minus-Near k low high (pos n) b = elim (Bool-cases (leb k n)) [
  | inl t ↦ rw t (omega (arith, b.1))
  | inr f ↦ rw f (omega (arith, b.0, leb→lt k n f))
]
  where
    leb→lt : (a b : ℕ) → leb a b ≡ false → b < a
    leb→lt a b h = ground arith
minus-Near k low high (negsuc n) b = absurd b

Between-Near : (low high : ℕ) (z : ℤ) → Between low high z → Near 0 high z
Between-Near low high (pos n) b = b.1
Between-Near low high (negsuc n) b = absurd b

month_days-le : (year : ℕ) (month : ℤ) → month_days year month ≤ 31
month_days-le year month = elim (Bool-cases (is_month 2 month)) [
  | inl t ↦
      rw t (elim (Bool-cases (is_leap year)) [
        | inl u ↦ rw u (omega arith)
        | inr v ↦ rw v (omega arith)
      ])
  | inr f ↦
      elim (Bool-cases
        (is_month 4 month || is_month 6 month || is_month 9 month || is_month 11 month)) [
          | inl u ↦ rw (f, u) (omega arith)
          | inr v ↦ rw (f, v) (omega arith)
        ]
]

still : (date : Date) → IsDate date → IsNear date
still date d = record {
  year_near = (omega (arith, d.year_within.0), omega (arith, d.year_within.1));
  month_near = near 12 0 13 date.month 1 d.month_within (omega arith);
  day_near =
      near (month_days date.year date.month) 0 32 date.day 1 d.day_within
        (omega (arith, month_days-le date.year date.month));
  hour_near = near 23 12 35 date.hour 0 d.hour_within (omega arith);
  minute_near = near 59 1 60 date.minute 0 d.minute_within (omega arith);
  seconds_near = near 59 1 60 date.seconds 0 d.seconds_within (omega arith);
}
  where
    near :
        (high under high' : ℕ) (z : ℤ) (low : ℕ)
        → Between low high z
        → high ≤ high'
        → Near under high' z
    near high under high' z low b le =
        Near-mono 0 high under high' z (omega arith) le (Between-Near low high z b)

up-IsNear : (cursor : Cursor) (date : Date) → IsDate date → IsNear (up cursor date)
up-IsNear cursor_year date d =
    let s = still date d in
    record {
      year_near = (omega (arith, d.year_within.0), omega (arith, d.year_within.1));
      month_near = s.month_near;
      day_near = s.day_near;
      hour_near = s.hour_near;
      minute_near = s.minute_near;
      seconds_near = s.seconds_near;
    }
up-IsNear cursor_month date d =
    let s = still date d in
    record {
      year_near = s.year_near;
      month_near = plus-Near 1 1 12 date.month d.month_within;
      day_near = s.day_near;
      hour_near = s.hour_near;
      minute_near = s.minute_near;
      seconds_near = s.seconds_near;
    }
up-IsNear cursor_day date d =
    let s = still date d in
    record {
      year_near = s.year_near;
      month_near = s.month_near;
      day_near =
          Near-mono 0 (month_days date.year date.month + 1) 0 32 (plus 1 date.day) (omega arith)
            (omega (arith, month_days-le date.year date.month))
            (plus-Near 1 1 (month_days date.year date.month) date.day d.day_within);
      hour_near = s.hour_near;
      minute_near = s.minute_near;
      seconds_near = s.seconds_near;
    }
up-IsNear cursor_hour date d =
    let s = still date d in
    record {
      year_near = s.year_near;
      month_near = s.month_near;
      day_near = s.day_near;
      hour_near =
          Near-mono 0 24 12 35 (plus 1 date.hour) (omega arith) (omega arith)
            (plus-Near 1 0 23 date.hour d.hour_within);
      minute_near = s.minute_near;
      seconds_near = s.seconds_near;
    }
up-IsNear cursor_minute date d =
    let s = still date d in
    record {
      year_near = s.year_near;
      month_near = s.month_near;
      day_near = s.day_near;
      hour_near = s.hour_near;
      minute_near =
          Near-mono 0 60 1 60 (plus 1 date.minute) (omega arith) (omega arith)
            (plus-Near 1 0 59 date.minute d.minute_within);
      seconds_near = s.seconds_near;
    }
up-IsNear cursor_second date d =
    let s = still date d in
    record {
      year_near = s.year_near;
      month_near = s.month_near;
      day_near = s.day_near;
      hour_near = s.hour_near;
      minute_near = s.minute_near;
      seconds_near =
          Near-mono 0 60 1 60 (plus 1 date.seconds) (omega arith) (omega arith)
            (plus-Near 1 0 59 date.seconds d.seconds_within);
    }
up-IsNear cursor_ampm date d =
    let s = still date d in
    record {
      year_near = s.year_near;
      month_near = s.month_near;
      day_near = s.day_near;
      hour_near =
          Near-mono 0 35 12 35 (plus 12 date.hour) (omega arith) (omega arith)
            (plus-Near 12 0 23 date.hour d.hour_within);
      minute_near = s.minute_near;
      seconds_near = s.seconds_near;
    }

down-IsNear : (cursor : Cursor) (date : Date) → IsDate date → IsNear (down cursor date)
down-IsNear cursor_year date d =
    let s = still date d in
    record {
      year_near = (omega (arith, d.year_within.0), omega (arith, d.year_within.1));
      month_near = s.month_near;
      day_near = s.day_near;
      hour_near = s.hour_near;
      minute_near = s.minute_near;
      seconds_near = s.seconds_near;
    }
down-IsNear cursor_month date d =
    let s = still date d in
    record {
      year_near = s.year_near;
      month_near =
          Near-mono 0 12 0 13 (minus 1 date.month) (omega arith) (omega arith)
            (minus-Near 1 1 12 date.month d.month_within);
      day_near = s.day_near;
      hour_near = s.hour_near;
      minute_near = s.minute_near;
      seconds_near = s.seconds_near;
    }
down-IsNear cursor_day date d =
    let s = still date d in
    record {
      year_near = s.year_near;
      month_near = s.month_near;
      day_near =
          Near-mono 0 (month_days date.year date.month) 0 32 (minus 1 date.day) (omega arith)
            (omega (arith, month_days-le date.year date.month))
            (minus-Near 1 1 (month_days date.year date.month) date.day d.day_within);
      hour_near = s.hour_near;
      minute_near = s.minute_near;
      seconds_near = s.seconds_near;
    }
down-IsNear cursor_hour date d =
    let s = still date d in
    record {
      year_near = s.year_near;
      month_near = s.month_near;
      day_near = s.day_near;
      hour_near =
          Near-mono 1 23 12 35 (minus 1 date.hour) (omega arith) (omega arith)
            (minus-Near 1 0 23 date.hour d.hour_within);
      minute_near = s.minute_near;
      seconds_near = s.seconds_near;
    }
down-IsNear cursor_minute date d =
    let s = still date d in
    record {
      year_near = s.year_near;
      month_near = s.month_near;
      day_near = s.day_near;
      hour_near = s.hour_near;
      minute_near =
          Near-mono 1 59 1 60 (minus 1 date.minute) (omega arith) (omega arith)
            (minus-Near 1 0 59 date.minute d.minute_within);
      seconds_near = s.seconds_near;
    }
down-IsNear cursor_second date d =
    let s = still date d in
    record {
      year_near = s.year_near;
      month_near = s.month_near;
      day_near = s.day_near;
      hour_near = s.hour_near;
      minute_near = s.minute_near;
      seconds_near =
          Near-mono 1 59 1 60 (minus 1 date.seconds) (omega arith) (omega arith)
            (minus-Near 1 0 59 date.seconds d.seconds_within);
    }
down-IsNear cursor_ampm date d =
    let s = still date d in
    record {
      year_near = s.year_near;
      month_near = s.month_near;
      day_near = s.day_near;
      hour_near =
          Near-mono 12 23 12 35 (minus 12 date.hour) (omega arith) (omega arith)
            (minus-Near 12 0 23 date.hour d.hour_within);
      minute_near = s.minute_near;
      seconds_near = s.seconds_near;
    }

-- Whatever field UP or DOWN changes, at the ends of its range too, the date that `validate` makes
-- of it is a date of the calendar again, leap years included.
pub validate-IsDate :
    (cursor : Cursor) (date : Date)
    → IsDate date
    → IsDate (validate (up cursor date)) × IsDate (validate (down cursor date))
validate-IsDate cursor date d = (
  validate-IsNear (up cursor date) (up-IsNear cursor date d),
  validate-IsNear (down cursor date) (down-IsNear cursor date d),
)
