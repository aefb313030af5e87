-- ===== src/Clock/Years.antt =====
-- The loop over the years against the count of leap years.
use native.Mathlib.Decide.{dec_lt}
use molten_db.Prelude.{◌≡◌, arith, ℕ, zero, suc, ◌+◌, ◌-◌, ◌*◌, ◌/◌, ◌<◌, ◌≤◌}
use molten_db.Clock.{is_leap, year_days, find_year}

-- The days of the Gregorian calendar before a year.
unfoldable pub days_before_year : ℕ → ℕ
days_before_year y = 365 * y + ((y + 3) / 4 + (y + 399) / 400) - (y + 99) / 100

days_before_year-suc : (y : ℕ) → days_before_year (y + 1) ≡ days_before_year y + year_days y
unfolding days_before_year year_days is_leap
days_before_year-suc y = ground arith

long_year : (y : ℕ) → 365 ≤ year_days y
unfolding year_days
long_year y = ground arith

module _ (fuel d y : ℕ) where
  find_year-here : d < year_days y → find_year (suc fuel) d y ≡ (y, d)
  unfolding find_year
  find_year-here h = ground (arith, h)

  find_year-next :
      year_days y ≤ d → find_year (suc fuel) d y ≡ find_year fuel (d - year_days y) (y + 1)
  unfolding find_year
  find_year-next h = ground (arith, h)

-- The loop ends within its fuel, in the year that the days lie in.
pub find_year-days :
    (fuel d y : ℕ)
    → d < fuel
    → (days_before_year (find_year fuel d y).0 + (find_year fuel d y).1 ≡ days_before_year y + d)
      × ((find_year fuel d y).1 < year_days (find_year fuel d y).0)
find_year-days zero d y h = absurd (omega (arith, h))
find_year-days (suc fuel) d y h = elim (dec_lt d (year_days y)) [
  | yes inside ↦ rw (find_year-here fuel d y inside) (omega arith, inside)
  | no beyond ↦
      let (sum, last) =
        find_year-days fuel (d - year_days y) (y + 1) (omega (arith, long_year y)) in
      rw (find_year-next fuel d y (omega (arith, beyond)))
        (omega (arith, sum, days_before_year-suc y), last)
]

pub find_year-from : (fuel d y : ℕ) → y ≤ (find_year fuel d y).0
unfolding find_year
find_year-from zero d y = omega arith
find_year-from (suc fuel) d y = ground (arith, find_year-from fuel (d - year_days y) (y + 1))
