-- ===== src/Cron/Calendar.antt =====
-- The dates that schedule_cron.py reads of `datetime`: a date is its proleptic Gregorian ordinal
-- (1 is 0001-01-01), and its month, day and weekday are computed from it in 400-year eras that start
-- in March.
use agency_os.Prelude.{ℕ, ◌+◌, ◌-◌, ◌*◌, ◌/◌, ◌%◌, ltb, if◌then◌else◌}

-- days since 0000-03-01, within the 400-year era
abbrev day_of_era : ℕ → ℕ
day_of_era ordinal = (ordinal + 305) % 146097

abbrev year_of_era : ℕ → ℕ
year_of_era doe = (doe + doe / 36524 - doe / 1460 - doe / 146096) / 365

-- days since 1 March
unfoldable pub day_of_year : ℕ → ℕ
day_of_year ordinal =
    let doe = day_of_era ordinal in
    let yoe = year_of_era doe in doe + yoe / 100 - yoe * 365 - yoe / 4

-- months since March
unfoldable pub month_index : ℕ → ℕ
unfolding day_of_year
month_index ordinal = (5 * day_of_year ordinal + 2) / 153

-- `date.month`
unfoldable pub month_of : ℕ → ℕ
unfolding month_index
month_of ordinal = let mp = month_index ordinal in if ltb mp 10 then mp + 3 else mp - 9

-- `date.day`
unfoldable pub day_of : ℕ → ℕ
unfolding month_index
day_of ordinal = day_of_year ordinal - (153 * month_index ordinal + 2) / 5 + 1

-- `date.weekday()`, Monday is 0
unfoldable pub weekday : ℕ → ℕ
weekday ordinal = (ordinal + 6) % 7
