-- ===== src/Scheduler/Runner/Tests.antt =====
-- internal/scheduler/scheduler.go: tests of the runs.
use go_database.Base.{
  ◌==◌, if◌then◌else◌, Str, str, str_eq, trim_space, cut, fields, lookup, insert, pos, ℕ, ◌-◌, ◌≡◌,
  refl, true, false, none, some, [], ◌∷◌, map, arith,
}
use go_database.Plugin.Types.{ok}
use go_database.Scheduler.Calendar.{
  Time, is_leap, days_in, days_before, weekday, stamp, midnight, skip_day, skip_month, skip_hour,
  add_minute, add_two_years,
}
use go_database.Scheduler.Calendar.Order.{IsTime}
use go_database.Scheduler.Cron.{
  Sets, has, advance, split_list, atoi, add_nat, steps, parse_parts, parse_field, parse_expr,
  search_from, search_times, next_time,
}
use go_database.Scheduler.Store.{ScheduledJob, Jobs, get_job, save_job}
use go_database.Scheduler.Store.Keyed.{is_keyed}
use go_database.Scheduler.Runner.{Engine, verdict, await, next_run, record_run, execute_job, check}
use go_database.Scheduler.Runner.Waiting.{copied, Polls, here, poll, execute_job-await}
use go_database.Scheduler.Runner.Lifecycle.{
  Scheduler, new_scheduler, start_call, stop_call, apply_calls, live, apply_calls-live,
}

abbrev noon : Time
noon = record { year = 2024; month = 2; day = 28; hour = 12; minute = 0; nanos = 0 }

noon-IsTime : IsTime noon
unfolding days_in
noon-IsTime = record {
  month_low = omega arith;
  month_high = omega arith;
  day_low = omega arith;
  day_high = omega arith;
  hour_high = omega arith;
  minute_high = omega arith;
}

abbrev nightly : ScheduledJob
nightly = record {
  id = str "n";
  name = str "nightly";
  source_conn = str "a";
  target_conn = str "b";
  tables = [];
  on_conflict = str "skip";
  batch_size = pos 100;
  cron_expr = str "0 3 * * *";
  enabled = true;
  last_run_at = none;
  next_run_at = none;
  last_status = [];
  created_at = noon;
  updated_at = noon;
}

abbrev one_job : Jobs
one_job = (str "n", nightly) ∷ []

abbrev nightly_sets : Sets
nightly_sets = record {
  minutes = pos 0 ∷ [];
  hours = pos 3 ∷ [];
  days = steps (pos 1) 1 31;
  months = steps (pos 1) 1 12;
  weekdays = steps (pos 0) 1 6;
}

nightly_parsed : parse_expr (ScheduledJob.cron_expr nightly) ≡ ok nightly_sets
unfolding parse_expr parse_field parse_parts split_list atoi steps add_nat trim_space cut str_eq
    fields
nightly_parsed = refl

-- The year has a 29th of February.
next_night : next_run noon nightly ≡ some (record (midnight 2024 2 29) { hour = 3 })
unfolding next_run next_time parse_expr parse_field parse_parts split_list atoi steps add_nat
    trim_space cut str_eq fields search_times search_from advance has weekday days_before days_in
    is_leap stamp skip_day skip_month skip_hour add_minute add_two_years
next_night = refl

one_job_keyed : is_keyed one_job ≡ true
unfolding is_keyed str_eq
one_job_keyed = refl

one_job_there : get_job (str "n") one_job ≡ ok nightly
unfolding get_job lookup str_eq
one_job_there = refl

-- An engine whose jobs are done after some polls; the state is their number.
abbrev polls_left : Engine ℕ
polls_left = record {
  start = λ request w. (ok (str "t"), w);
  status = λ id w. (ok (if w == 0 then str "done" else str "running"), w);
  now = λ w. noon;
  wait = λ w. w - 1;
  is_done = λ w. false;
}

one_poll : Polls polls_left (str "t") 1 1 0
unfolding str_eq
one_poll = poll (str "running", (refl, (refl, refl))) refl here

execute_job-await_example : get_job (str "n") (execute_job polls_left 5 nightly one_job 1).0 ≡ (
    if str_eq (ScheduledJob.id nightly) (str "n")
    then ok (record nightly {
      last_run_at = some noon;
      last_status = str "success";
      next_run_at = next_run noon nightly;
      updated_at = noon;
    })
    else get_job (str "n") one_job)
execute_job-await_example =
    execute_job-await polls_left (str "t") nightly nightly one_job 1 5 1 1 0 (str "success")
      (str "n") refl one_poll (omega arith) copied one_job_keyed one_job_there

checked :
    map (λ (e : Str × ScheduledJob). ScheduledJob.last_status e.1) (check polls_left 9 one_job 3).0
    ≡ str "success" ∷ []
unfolding check execute_job await verdict record_run next_run get_job save_job lookup insert str_eq
    next_time parse_expr parse_field parse_parts split_list atoi steps add_nat trim_space cut fields
    search_times search_from advance has weekday days_before days_in is_leap stamp skip_day
    skip_month skip_hour add_minute add_two_years
checked = refl

abbrev cancelled_jobs : Engine ℕ
cancelled_jobs = record polls_left { status = λ id w. (ok (str "cancelled"), w) }

apply_calls-live_example :
    live (
      Scheduler.loops
        (apply_calls (start_call ∷ start_call ∷ stop_call ∷ start_call ∷ []) new_scheduler))
    ≡ (if Scheduler.running
          (apply_calls (start_call ∷ start_call ∷ stop_call ∷ start_call ∷ []) new_scheduler)
        then 1
        else 0)
apply_calls-live_example = apply_calls-live (start_call ∷ start_call ∷ stop_call ∷ start_call ∷ [])
