-- ===== src/Cron/Fire.antt =====
-- schedule_cron.py: `_matches_minute`, `_day_matches`, `previous_fire`. A minute is its number since
-- the start of ordinal 0, a point in time its number of microseconds.
pub mod Recent
pub mod Ticks
use agency_os.Prelude.{
  ℕ, zero, suc, ◌+◌, ◌-◌, ◌*◌, ◌/◌, ◌%◌, Bool, true, false, ◌&&◌, ◌||◌, Option, none, some, ◌==◌,
  contains, if◌then◌else◌, Text,
}
use agency_os.Cron.Parse.{Allowed, any, these, Schedule, fields_from}
use agency_os.Cron.Calendar.{month_of, day_of, weekday}

abbrev pub minutes_per_day : ℕ
minutes_per_day = 1440

abbrev pub lookback_days : ℕ
lookback_days = 1462

abbrev pub minute_us : ℕ
minute_us = 60000000

-- `allowed is None or v in allowed`
abbrev pub admits : Allowed → ℕ → Bool
admits any v = true
admits (these values) v = contains values v

unfoldable pub matches_minute : Schedule → ℕ → Bool
matches_minute s minute_of_day =
    admits s.hours (minute_of_day / 60) && admits s.minutes (minute_of_day % 60)

-- When both day fields are restricted either may match; a wildcard leaves it to the other.
abbrev pub either_day : Allowed → Allowed → ℕ → ℕ → Bool
either_day any any day cron_weekday = true
either_day (these days) any day cron_weekday = contains days day
either_day any (these weekdays) day cron_weekday = contains weekdays cron_weekday
either_day (these days) (these weekdays) day cron_weekday =
    contains days day || contains weekdays cron_weekday

unfoldable pub day_matches : Schedule → ℕ → Bool
day_matches s day =
    admits s.months (month_of day)
    && either_day s.days s.weekdays (day_of day) ((weekday day + 1) % 7)

-- the last minute of the day below `count` that passes the test
unfoldable pub scan : (ℕ → Bool) → ℕ → Option ℕ
scan test zero = none
scan test (suc minute) = let rest = scan test minute in if test minute then some minute else rest

-- what `previous_fire` does: it returns a minute or None, or raises ValueError or OverflowError
pub data Fire : Type 0 where
  fires : ℕ → Fire
  never : Fire
  invalid : Fire
  overflow : Fire

abbrev pub on_day : ℕ → Fire → Option ℕ → Fire
on_day day rest none = rest
on_day day rest (some minute) = fires (day * minutes_per_day + minute)

-- `day -= timedelta(days=1)` at most `fuel` times; there is no date before ordinal 1
unfoldable pub walk : Schedule → ℕ → ℕ → Fire
walk s zero day = never
walk s (suc fuel) zero = overflow
walk s (suc fuel) (suc day) =
    let rest = walk s fuel day in
    let found = on_day day rest (scan (matches_minute s) minutes_per_day) in
    if day == 0 then overflow else if day_matches s day then found else rest

-- the current day up to now, then the days before it
unfoldable pub previous_minute : Schedule → ℕ → Fire
unfolding walk scan
previous_minute s now =
    let day = now / minutes_per_day in
    let rest = walk s lookback_days day in
    on_day day rest
      (scan (λ m. matches_minute s m && day_matches s day) (now % minutes_per_day + 1))

abbrev pub or_invalid : Option Schedule → ℕ → Fire
or_invalid none now = invalid
or_invalid (some s) now = previous_minute s now

-- `now` in microseconds; the result in minutes
unfoldable pub previous_fire : Text → ℕ → Fire
previous_fire expression now = or_invalid (fields_from expression) (now / minute_us)
