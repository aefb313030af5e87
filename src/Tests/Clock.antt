-- ===== src/Tests/Clock.antt =====
-- A time in 2024.
use molten_db.Prelude.{◌≡◌, refl, ◌/◌, codes}
use molten_db.Prelude.Decimal
use molten_db.Clock.{civil, ms_to_iso}
use molten_db.Clock.Laws.{IsCivil, unix_seconds, civil-unix_seconds}

leap_day : ms_to_iso 1709208000123 ≡ codes "2024-02-29T12:00:00Z"
unfolding ms_to_iso Decimal.to_string
leap_day = refl

civil-unix_seconds_example :
    IsCivil (civil 1709208000123) × (unix_seconds (civil 1709208000123) ≡ 1709208000123 / 1000)
civil-unix_seconds_example = civil-unix_seconds 1709208000123
