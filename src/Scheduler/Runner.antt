-- ===== src/Scheduler/Runner.antt =====
-- internal/scheduler/scheduler.go: `check`, `execute`, `recordRun`, `EnsureJob`, `Start` and `Stop`. The
-- engine of transfers and the clock are parameters over a state W; the calls of a check are in order.
pub mod Records
pub mod Waiting
pub mod Lifecycle
mod Tests
use go_database.Base.{
  if◌then◌else◌, is_nil, Str, str, str_eq, ℤ, ℕ, zero, suc, Bool, true, false, ◌&&◌, ◌||◌, Option,
  none, some, List, [], ◌∷◌, ◌++◌,
}
use go_database.Plugin.Types.{Reply, ok, err}
use go_database.Scheduler.Calendar.{Time, before}
use go_database.Scheduler.Cron.{next_time}
use go_database.Scheduler.Store.{ScheduledJob, Jobs, list_jobs, get_job, save_job, save}

-- The fields of the `TransferJob` that `execute` sets.
pub record TransferRequest : Type 0 where
  pub source_conn : Str
  pub target_conn : Str
  pub tables : List Str
  pub dry_run : Bool
  pub batch_size : ℤ
  pub on_conflict : Str

-- `TransferEngine`, as far as it is called, with the clock, the wait of two seconds and the context.
pub record Engine (W : Type 0) : Type 0 where
  -- the identifier of the job, or the error
  pub start : TransferRequest → W → Reply Str × W
  -- the status of the job, or the error
  pub status : Str → W → Reply Str × W
  pub now : W → Time
  pub wait : W → W
  pub is_done : W → Bool

-- How the wait for a job ends.
pub data Ending : Type 0 where
  ended : Str → Ending
  context_done : Ending
  still_waiting : Ending

-- `NextRunAt` behind a run: the next time of the expression, or what it was where that has an error.
unfoldable pub next_run : Time → ScheduledJob → Option Time
unfolding next_time
next_run now j = elim (next_time (ScheduledJob.cron_expr j) now) [
  | none ↦ ScheduledJob.next_run_at j
  | some answer ↦ elim answer [ err e ↦ ScheduledJob.next_run_at j | ok next ↦ some next ]
]

abbrev pub after_run : Time → Str → ScheduledJob → ScheduledJob
after_run now status j = record j {
  last_run_at = some now;
  last_status = status;
  next_run_at = next_run now j;
}

-- `recordRun`
unfoldable pub record_run : Time → Str → Str → Jobs → Jobs
unfolding get_job next_run save_job
record_run now id status jobs = elim (get_job id jobs) [
  | err e ↦ jobs
  | ok j ↦ save_job now (after_run now status j) jobs
]

abbrev pub request_of : ScheduledJob → TransferRequest
request_of job = record {
  source_conn = ScheduledJob.source_conn job;
  target_conn = ScheduledJob.target_conn job;
  tables = ScheduledJob.tables job;
  dry_run = false;
  batch_size = ScheduledJob.batch_size job;
  on_conflict = ScheduledJob.on_conflict job;
}

-- `j.NextRunAt == nil || j.NextRunAt.Before(now)`
abbrev pub is_due : Time → ScheduledJob → Bool
is_due now j = elim (ScheduledJob.next_run_at j) [ none ↦ true | some next ↦ before next now ]

-- `EnsureJob`: the reply, and the jobs of the store. A loop of `next_time` that is out of fuel, which
-- does not happen, is an error here.
unfoldable pub ensure_job :
    (Jobs → Reply (Unit {0})) → Time → ScheduledJob → Jobs → Reply (Unit {0}) × Jobs
unfolding next_time save
ensure_job persist now job jobs =
    if is_nil (ScheduledJob.cron_expr job)
    then save persist now job jobs
    else elim (next_time (ScheduledJob.cron_expr job) now) [
      | none ↦ (err [], jobs)
      | some answer ↦ elim answer [
        | err e ↦ (err (str "invalid cron expression: " ++ e), jobs)
        | ok next ↦ save persist now (record job { next_run_at = some next }) jobs
      ]
    ]

-- What `execute` notes when a poll ends its wait.
unfoldable pub verdict : Reply Str → Option Str
unfolding str_eq
verdict (err e) = some (str "failed")
verdict (ok status) =
    if str_eq status (str "done") || str_eq status (str "failed")
    then some (if str_eq status (str "failed") then str "failed" else str "success")
    else none

module _ {W : Type 0} (engine : Engine W) where
  -- The loop of `execute` over the polls, on fuel.
  unfoldable pub await : ℕ → Str → W → Ending × W
  unfolding verdict
  await zero id w = (still_waiting, w)
  await (suc fuel) id w =
      let (reply, v) = Engine.status engine id w in
      elim (verdict reply) [
        | some status ↦ (ended status, v)
        | none ↦ elim (Engine.is_done engine v) [
          | true ↦ (context_done, v)
          | false ↦ await fuel id (Engine.wait engine v)
        ]
      ]

  abbrev pub record_ending : Str → Ending → Jobs → W → Jobs
  record_ending id (ended status) jobs w = record_run (Engine.now engine w) id status jobs
  record_ending id context_done jobs w = jobs
  record_ending id still_waiting jobs w = jobs

  -- `execute`; the fuel is the number of polls.
  unfoldable pub execute_job : ℕ → ScheduledJob → Jobs → W → Jobs × W
  unfolding await record_run
  execute_job fuel job jobs w =
      let (reply, v) = Engine.start engine (request_of job) w in
      elim reply [
        | err e ↦ (record_run (Engine.now engine v) (ScheduledJob.id job) (str "failed") jobs, v)
        | ok id ↦
            let (ending, u) = await fuel id v in
            (record_ending (ScheduledJob.id job) ending jobs u, u)
      ]

  -- The loop of `check` over the listed jobs.
  unfoldable pub check_jobs : ℕ → Time → List ScheduledJob → Jobs → W → Jobs × W
  unfolding execute_job
  check_jobs fuel now [] jobs w = (jobs, w)
  check_jobs fuel now (j ∷ js) jobs w = elim (ScheduledJob.enabled j && is_due now j) [
    | false ↦ check_jobs fuel now js jobs w
    | true ↦ let (jobs', v) = execute_job fuel j jobs w in check_jobs fuel now js jobs' v
  ]

  -- `check`; the list of a `FileStore` has no error.
  unfoldable pub check : ℕ → Jobs → W → Jobs × W
  unfolding check_jobs
  check fuel jobs w = check_jobs fuel (Engine.now engine w) (list_jobs jobs) jobs w
