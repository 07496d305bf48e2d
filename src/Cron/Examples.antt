-- ===== src/Cron/Examples.antt =====
-- Expressions, dates and fire times that can be followed in the source.
use agency_os.Prelude.{ℕ, ◌*◌, ◌+◌, arith, All, ◌+◌, ◌*◌, ◌≡◌, refl, none, some, [], ◌∷◌, codes}
use agency_os.Cron.Fire.Recent.{Says, Silent, previous_is_latest}
use agency_os.Cron.Parse.Bounds.{InField, parse_field-InField}
use agency_os.Cron.Parse.{
  any, Schedule, these, fields_from, parse_field, minute, day_of_week, coerce_item, names_for,
  lookup_name, parse_items, parse_item, parse_base, range, schedule_of,
}
use agency_os.Cron.Calendar.{month_of, day_of, weekday}
use agency_os.Cron.Fire.{
  fires, never, previous_minute, previous_fire, minute_us, matches_minute, day_matches,
}

parse_steps :
    parse_field minute (codes "*/20,5-7,59") ≡ some (these (0 ∷ 20 ∷ 40 ∷ 5 ∷ 6 ∷ 7 ∷ 59 ∷ []))
unfolding parse_field parse_items parse_item parse_base coerce_item lookup_name names_for range
parse_steps = refl

parse_names : parse_field day_of_week (codes "mon-WED") ≡ some (these (1 ∷ 2 ∷ 3 ∷ []))
unfolding parse_field parse_items parse_item parse_base coerce_item lookup_name names_for range
parse_names = refl

parse_errors :
    (parse_field minute (codes "60") ≡ none)
    × (parse_field day_of_week (codes "1-7") ≡ none)
    × (parse_field day_of_week (codes "0-7") ≡ some (these (0 ∷ [])))
unfolding parse_field parse_items parse_item parse_base coerce_item lookup_name names_for range
parse_errors = (refl, refl, refl)

-- 2024-02-29 was a Thursday and has ordinal 738945; 2000-03-01 has ordinal 730180.
leap_day :
    (month_of 738945 ≡ 2)
    × (day_of 738945 ≡ 29)
    × (weekday 738945 ≡ 3)
    × (month_of 730180 ≡ 3)
    × (day_of 730180 ≡ 1)
unfolding month_of day_of weekday
leap_day = (refl, refl, refl, refl, refl)

-- "30 9 * * MON" at 2024-02-29 12:00 last fired on Monday 2024-02-26 09:30.
last_monday :
    previous_fire (codes "30 9 * * MON") ((738945 * 1440 + 720) * minute_us)
    ≡ fires (738942 * 1440 + 570)
unfolding previous_fire previous_minute fields_from schedule_of parse_field parse_items parse_item
    parse_base coerce_item lookup_name names_for range month_of day_of weekday matches_minute
    day_matches
last_monday = refl

-- "0 0 29 2 *" on 2103-03-01: the leap day of 2096 is more than 1462 days away.
leap_day_lost : previous_fire (codes "0 0 29 2 *") (767799 * 1440 * minute_us) ≡ never
unfolding previous_fire previous_minute fields_from schedule_of parse_field parse_items parse_item
    parse_base coerce_item lookup_name names_for range month_of day_of weekday matches_minute
    day_matches
leap_day_lost = refl

abbrev mondays : Schedule
mondays = record {
  minutes = these (30 ∷ []);
  hours = these (9 ∷ []);
  days = any;
  months = any;
  weekdays = these (1 ∷ []);
}

abbrev monday_tick : ℕ
monday_tick = 738942 * 1440 + 570

found_monday : previous_minute mondays (738945 * 1440 + 720) ≡ fires monday_tick
unfolding previous_minute matches_minute day_matches month_of day_of weekday
found_monday = refl

previous_is_latest_example :
    Says mondays (738945 * 1440 + 720) (previous_minute mondays (738945 * 1440 + 720))
previous_is_latest_example = previous_is_latest mondays (738945 * 1440 + 720)

quiet_minute : Silent mondays (738945 * 1440 + 720) (738945 * 1440 + 721)
unfolding matches_minute
quiet_minute u a b = let e : u ≡ 738945 * 1440 + 721 = omega arith in rw e refl

found_next : previous_minute mondays (738950 * 1440) ≡ fires (738949 * 1440 + 570)
unfolding previous_minute matches_minute day_matches month_of day_of weekday
found_next = refl

parse_field-InField_example : All (InField minute) (0 ∷ 20 ∷ 40 ∷ 5 ∷ 6 ∷ 7 ∷ 59 ∷ [])
parse_field-InField_example =
    parse_field-InField minute (codes "*/20,5-7,59") (0 ∷ 20 ∷ 40 ∷ 5 ∷ 6 ∷ 7 ∷ 59 ∷ []) parse_steps
