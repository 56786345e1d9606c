-- ===== src/Scheduler/Tests.antt =====
-- internal/scheduler: tests of the cron expressions.
use go_database.Base.{
  Str, str, str_eq, trim_space, cut, fields, show_nat, show_int, pos, negsuc, ◌≤◌, ◌≡◌, refl, inl,
  false, some, [], ◌∷◌, arith,
}
use go_database.Plugin.Types.{Reply, ok, err}
use go_database.Scheduler.Calendar.{
  Time, is_leap, days_in, days_before, weekday, stamp, midnight, skip_day, skip_month, skip_hour,
  add_minute, add_two_years,
}
use go_database.Scheduler.Calendar.Order.{IsTime, Between}
use go_database.Scheduler.Cron.{
  Sets, has, advance, split_list, atoi, add_nat, steps, parse_parts, parse_field, parse_expr,
  search_from, search_times, next_time,
}
use go_database.Scheduler.Cron.Rounds.{matches}
use go_database.Scheduler.Cron.Next.{next_time-total, next_time-first}

quarter_hours : parse_field (str "*/15") 0 59 ≡ ok (pos 0 ∷ pos 15 ∷ pos 30 ∷ pos 45 ∷ [])
unfolding parse_field parse_parts split_list atoi steps add_nat trim_space cut str_eq
quarter_hours = refl

-- A step ends the field: what stands behind the comma is not read.
list_is_cut : parse_field (str "*/30,7") 0 59 ≡ ok (pos 0 ∷ pos 30 ∷ [])
unfolding parse_field parse_parts split_list atoi steps add_nat trim_space cut str_eq
list_is_cut = refl

-- A step starts below the range.
start_is_free : parse_field (str "0/20") 1 31 ≡ ok (pos 0 ∷ pos 20 ∷ [])
unfolding parse_field parse_parts split_list atoi steps add_nat trim_space cut str_eq
start_is_free = refl

too_late : parse_field (str "24") 0 23 ≡ err (str "value 24 out of range [0,23]")
unfolding parse_field parse_parts split_list atoi steps add_nat trim_space cut str_eq show_int
    show_nat
too_late = refl

abbrev first_of_february : Str
first_of_february = str "0 0 1 2 *"

abbrev mid_january : Time
mid_january = record { year = 2023; month = 1; day = 15; hour = 10; minute = 30; nanos = 0 }

abbrev february_sets : Sets
february_sets = record {
  minutes = pos 0 ∷ [];
  hours = pos 0 ∷ [];
  days = pos 1 ∷ [];
  months = pos 2 ∷ [];
  weekdays = pos 0 ∷ pos 1 ∷ pos 2 ∷ pos 3 ∷ pos 4 ∷ pos 5 ∷ pos 6 ∷ [];
}

february_parsed : parse_expr first_of_february ≡ ok february_sets
unfolding parse_expr parse_field parse_parts split_list atoi steps add_nat trim_space cut str_eq
    fields
february_parsed = refl

february_found : next_time first_of_february mid_january ≡ some (ok (midnight 2023 2 1))
unfolding next_time parse_expr parse_field parse_parts split_list atoi steps add_nat trim_space cut
    str_eq fields search_times search_from advance has weekday days_before days_in is_leap stamp
    skip_day skip_month skip_hour add_minute add_two_years
february_found = refl

-- From the 31st of January, February is passed over.
february_missed :
    next_time first_of_february (record mid_january { day = 31 }) ≡ some (ok (midnight 2024 2 1))
unfolding next_time parse_expr parse_field parse_parts split_list atoi steps add_nat trim_space cut
    str_eq fields search_times search_from advance has weekday days_before days_in is_leap stamp
    skip_day skip_month skip_hour add_minute add_two_years
february_missed = refl

mid_january-IsTime : IsTime mid_january
unfolding days_in
mid_january-IsTime = record {
  month_low = omega arith;
  month_high = omega arith;
  day_low = omega arith;
  day_high = omega arith;
  hour_high = omega arith;
  minute_high = omega arith;
}

later_day : IsTime (midnight 2023 1 20)
unfolding days_in
later_day = record {
  month_low = omega arith;
  month_high = omega arith;
  day_low = omega arith;
  day_high = omega arith;
  hour_high = omega arith;
  minute_high = omega arith;
}

later_day_before_february :
    Between (add_minute mid_january) (midnight 2023 1 20) (midnight 2023 2 1)
unfolding stamp add_minute
later_day_before_february = (omega arith, omega arith)

later_day_in_two_years :
    Between (add_minute mid_january) (midnight 2023 1 20) (add_two_years mid_january)
unfolding stamp add_minute add_two_years days_in
later_day_in_two_years = (omega arith, omega arith)

start_is_early : Time.day (add_minute mid_january) ≤ 28
unfolding add_minute
start_is_early = omega arith

abbrev never_expr : Str
never_expr = str "0 0 31 2 *"

abbrev never_sets : Sets
never_sets = record february_sets { days = pos 31 ∷ [] }

never_parsed : parse_expr never_expr ≡ ok never_sets
unfolding parse_expr parse_field parse_parts split_list atoi steps add_nat trim_space cut str_eq
    fields
never_parsed = refl

never_found :
    next_time never_expr mid_january ≡ some (err (str "cron: no matching time within 2 years"))
unfolding next_time parse_expr parse_field parse_parts split_list atoi steps add_nat trim_space cut
    str_eq fields search_times search_from advance has weekday days_before days_in is_leap stamp
    skip_day skip_month skip_hour add_minute add_two_years
never_found = refl

next_time-total_example :
    (answer : Reply Time) × (next_time (str "*/5 * * * *") mid_january ≡ some answer)
next_time-total_example = next_time-total (str "*/5 * * * *") mid_january mid_january-IsTime

next_time-first_example : matches february_sets (midnight 2023 1 20) ≡ false
next_time-first_example =
    next_time-first first_of_february february_sets mid_january (midnight 2023 2 1) february_parsed
      mid_january-IsTime february_found (inl start_is_early) (midnight 2023 1 20) later_day
      later_day_before_february

-- The step 2 ^ 63 - 1 wraps round twice and then adds one number in the range.
wrapped_step :
    steps (pos 3) 9223372036854775807 59
    ≡ pos 3 ∷ negsuc 9223372036854775805 ∷ pos 1 ∷ negsuc 9223372036854775807 ∷ negsuc 0 ∷ []
unfolding steps add_nat
wrapped_step = refl
