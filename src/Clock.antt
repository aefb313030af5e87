-- ===== src/Clock.antt =====
-- `ms_to_iso` of moltendb-core/src/engine/operations/ttl.rs: a time since the epoch as text.
pub mod Years
pub mod Months
pub mod Laws
use molten_db.Prelude.{
  ℕ, zero, suc, ◌+◌, ◌-◌, ◌/◌, ◌%◌, Bool, not, ◌&&◌, ◌||◌, List, [], ◌∷◌, ◌++◌, Str, codes, length,
  ltb, nat_beq, if◌then◌else◌,
}
use molten_db.Prelude.Decimal

unfoldable pub is_leap : ℕ → Bool
is_leap y = (nat_beq (y % 4) 0 && not (nat_beq (y % 100) 0)) || nat_beq (y % 400) 0

unfoldable pub year_days : ℕ → ℕ
unfolding is_leap
year_days y = if is_leap y then 366 else 365

-- The loop over the years from `y` on, with the days that are left in the last one.
unfoldable pub find_year : ℕ → ℕ → ℕ → ℕ × ℕ
unfolding year_days
find_year zero d y = (y, d)
find_year (suc fuel) d y =
    let rest = find_year fuel (d - year_days y) (y + 1) in
    if ltb d (year_days y) then (y, d) else rest

unfoldable pub month_days : Bool → List ℕ
month_days leap =
    31 ∷ (if leap then 29 else 28) ∷ 31 ∷ 30 ∷ 31 ∷ 30 ∷ 31 ∷ 31 ∷ 30 ∷ 31 ∷ 30 ∷ 31 ∷ []

-- The loop over the months from `mo` on.
unfoldable pub find_month : List ℕ → ℕ → ℕ → ℕ × ℕ
find_month [] d mo = (mo, d)
find_month (x ∷ xs) d mo =
    let rest = find_month xs (d - x) (mo + 1) in if ltb d x then (mo, d) else rest

-- The variables of `ms_to_iso` when it formats them; `day` is from 0 on.
pub record Civil : Type 0 where
  pub year : ℕ
  pub month : ℕ
  pub day : ℕ
  pub hour : ℕ
  pub minute : ℕ
  pub second : ℕ

unfoldable pub civil_date : ℕ → ℕ × (ℕ × ℕ)
unfolding find_year find_month month_days is_leap
civil_date days =
    let (y, d) = find_year (suc days) days 1970 in (y, find_month (month_days (is_leap y)) d 1)

unfoldable pub civil : ℕ → Civil
unfolding civil_date
civil ms =
    let secs = ms / 1000 in
    let (y, (mo, d)) = civil_date (secs / 86400) in
    record {
      year = y;
      month = mo;
      day = d;
      hour = (secs / 3600) % 24;
      minute = (secs / 60) % 60;
      second = secs % 60;
    }

unfoldable zeros : ℕ → Str
zeros zero = []
zeros (suc n) = b'0' ∷ zeros n

-- `{:0width}`
unfoldable pub padded : ℕ → ℕ → Str
unfolding zeros Decimal.to_string
padded width n = zeros (width - length (Decimal.to_string n)) ++ Decimal.to_string n

unfoldable pub ms_to_iso : ℕ → Str
unfolding civil padded
ms_to_iso ms =
    let c = civil ms in
    padded 4 c.year
    ++ (codes "-"
        ++ (padded 2 c.month
            ++ (codes "-"
                ++ (padded 2 (c.day + 1)
                    ++ (codes "T"
                        ++ (padded 2 c.hour
                            ++ (codes ":"
                                ++ (padded 2 c.minute
                                    ++ (codes ":" ++ (padded 2 c.second ++ codes "Z"))))))))))
