-- ===== src/Clock/Tests.antt =====
-- A run on the last day of a February.
use darkui.Base.{arith}
use darkui.Pad.{pos}
use darkui.Clock.{Date, cursor_day, up, down, validate}
use darkui.Clock.Dates.{IsDate, validate-IsDate}

abbrev leap_day : Date
leap_day = record {
  year = 2024;
  month = pos 2;
  day = pos 29;
  hour = pos 0;
  minute = pos 59;
  seconds = pos 5;
}

validate-IsDate_example :
    IsDate (validate (up cursor_day leap_day)) × IsDate (validate (down cursor_day leap_day))
validate-IsDate_example = validate-IsDate cursor_day leap_day (record {
  year_within = (omega arith, omega arith);
  month_within = (omega arith, omega arith);
  day_within = (omega arith, omega arith);
  hour_within = (omega arith, omega arith);
  minute_within = (omega arith, omega arith);
  seconds_within = (omega arith, omega arith);
})
