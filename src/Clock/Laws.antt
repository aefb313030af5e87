-- ===== src/Clock/Laws.antt =====
-- The parts of a time add up to it.
use molten_db.Prelude.{◌≡◌, arith, ℕ, suc, ◌+◌, ◌-◌, ◌*◌, ◌/◌, ◌<◌, ◌≤◌}
use molten_db.Clock.{is_leap, year_days, find_year, Civil, civil_date, civil}
use molten_db.Clock.Years.{days_before_year, find_year-days, find_year-from}
use molten_db.Clock.Months.{days_before_month, month_length, IsDay, find_month-month_days}

-- The days from the epoch to a date, and the seconds to a time, by the rules of the calendar.
unfoldable pub days_since_epoch : ℕ → ℕ → ℕ → ℕ
unfolding days_before_year days_before_month is_leap
days_since_epoch year month day =
    days_before_year year + days_before_month (is_leap year) month + day - days_before_year 1970

unfoldable pub unix_seconds : Civil → ℕ
unfolding days_since_epoch
unix_seconds c =
    days_since_epoch c.year c.month c.day * 86400 + c.hour * 3600 + c.minute * 60 + c.second

pub record IsCivil (c : Civil) : Type 0 where
  pub year : 1970 ≤ c.year
  pub month : (1 ≤ c.month) × (c.month ≤ 12)
  pub day : c.day < month_length (is_leap c.year) c.month
  pub hour : c.hour < 24
  pub minute : c.minute < 60
  pub second : c.second < 60

abbrev year_of : ℕ → ℕ × ℕ
year_of days = find_year (suc days) days 1970

date_sum : (days : ℕ) → IsDay (is_leap (year_of days).0) (year_of days).1 (civil_date days).1
unfolding civil_date year_days
date_sum days =
    let (sum, last) = find_year-days (suc days) days 1970 (omega arith) in
    find_month-month_days (is_leap (year_of days).0) (year_of days).1 last

date-days_since_epoch :
    (days : ℕ)
    → days_since_epoch (civil_date days).0 (civil_date days).1.0 (civil_date days).1.1 ≡ days
unfolding civil_date days_since_epoch
date-days_since_epoch days =
    let (sum, last) = find_year-days (suc days) days 1970 (omega arith) in
    let day = date_sum days in omega (arith, sum, day.sum)

-- The parts that `ms_to_iso` formats, the loops of which end within the fuel, are a year from 1970 on, a
-- month from 1 to 12, a day within the length of that month in that year, an hour below 24, and a minute
-- and a second below 60; by the rules of the Gregorian calendar they lie the seconds of the argument after
-- the epoch.
pub civil-unix_seconds : (ms : ℕ) → IsCivil (civil ms) × (unix_seconds (civil ms) ≡ ms / 1000)
unfolding civil unix_seconds
civil-unix_seconds ms =
    let days = ms / 1000 / 86400 in
    let day = date_sum days in
    (
      record {
        year = find_year-from (suc days) days 1970;
        month = (day.first, day.last);
        day = day.inside;
        hour = omega arith;
        minute = omega arith;
        second = omega arith;
      },
      omega (arith, date-days_since_epoch days),
    )
