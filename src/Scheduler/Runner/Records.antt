-- ===== src/Scheduler/Runner/Records.antt =====
-- internal/scheduler/scheduler.go: what `recordRun` leaves in the store.
use go_database.Base.{
  if◌then◌else◌, Bool-cases, Option-cases, Str, str_eq, lookup, lookup-insert, ◌<◌, ◌≡◌, refl, ◌⊎◌,
  inl, inr, true, some, arith,
}
use go_database.Plugin.Types.{ok, err}
use go_database.Scheduler.Calendar.{Time, stamp}
use go_database.Scheduler.Calendar.Order.{IsTime}
use go_database.Scheduler.Cron.{Sets, next_time, parse_expr}
use go_database.Scheduler.Cron.Rounds.{matches}
use go_database.Scheduler.Cron.Next.{next_time-matches, next_time-total, Reply-cases}
use go_database.Scheduler.Store.{ScheduledJob, Jobs, get_job, save_job}
use go_database.Scheduler.Store.Keyed.{is_keyed, lookup-is_keyed}
use go_database.Scheduler.Runner.{record_run, after_run, next_run}

get_job-save_job :
    (now : Time) (j : ScheduledJob) (id k : Str) (jobs : Jobs)
    → ScheduledJob.id j ≡ id
    → get_job k (save_job now j jobs)
      ≡ (if str_eq id k then ok (record j { updated_at = now }) else get_job k jobs)
unfolding get_job save_job
get_job-save_job now j id k jobs same =
    rw (get_job, lookup-insert (ScheduledJob.id j) k (record j { updated_at = now }) jobs, same)
      (elim (Bool-cases (str_eq id k)) [ inl e ↦ rw e refl | inr e ↦ rw e refl ])

record_run_lem :
    (now : Time) (id status : Str) (jobs : Jobs) (j : ScheduledJob)
    → get_job id jobs ≡ ok j
    → record_run now id status jobs ≡ save_job now (after_run now status j) jobs
unfolding record_run
record_run_lem now id status jobs j there = rw (record_run, there) refl

lookup_of :
    (id : Str) (jobs : Jobs) (j : ScheduledJob) → get_job id jobs ≡ ok j → lookup id jobs ≡ some j
unfolding get_job
lookup_of id jobs j there = elim (Option-cases (lookup id jobs)) [
  | inl absent ↦ let gone = rw (get_job, absent) at there in grind arith
  | inr (i, present) ↦
      let same = rw (get_job, present) at there in let eq : i ≡ j = cc in rw (present, eq) refl
]

-- `recordRun` writes the time and the status of the run into the job and keeps the rest of it but the
-- next run; the other jobs are as they were.
pub record_run-get_job :
    (now : Time) (id status k : Str) (jobs : Jobs) (j : ScheduledJob)
    → is_keyed jobs ≡ true
    → get_job id jobs ≡ ok j
    → get_job k (record_run now id status jobs) ≡ (
        if str_eq id k
        then ok (record j {
          last_run_at = some now;
          last_status = status;
          next_run_at = next_run now j;
          updated_at = now;
        })
        else get_job k jobs)
record_run-get_job now id status k jobs j keyed there =
    let same = lookup-is_keyed id j jobs keyed (lookup_of id jobs j there) in
    rw (record_run_lem now id status jobs j there)
      (get_job-save_job now (after_run now status j) id k jobs same)

-- The next run of a job that has just run is later than now and fits the expression, or it is what it was:
-- the job does not fire twice for one time.
next_run-later :
    (now t : Time) (j : ScheduledJob) (sets : Sets)
    → IsTime now
    → parse_expr (ScheduledJob.cron_expr j) ≡ ok sets
    → next_run now j ≡ some t
    → ((stamp now < stamp t) × (matches sets t ≡ true)) ⊎ (ScheduledJob.next_run_at j ≡ some t)
unfolding next_run
next_run-later now t j sets h parsed next =
    let (a, total) = next_time-total (ScheduledJob.cron_expr j) now h in
    elim (Reply-cases a) [
      | inl (u, is_ok) ↦
          let answer : next_time (ScheduledJob.cron_expr j) now ≡ some (ok u) = rw is_ok at total in
          let new = rw (next_run, answer) at next in
          let eq : u ≡ t = cc in
          let (_, good, later, _) =
            next_time-matches (ScheduledJob.cron_expr j) sets now t parsed h (rw eq at answer) in
          inl (later, good)
      | inr (e, is_err) ↦
          let answer : next_time (ScheduledJob.cron_expr j) now ≡ some (err e) =
            rw is_err at total in
          inr (rw (next_run, answer) at next)
    ]
