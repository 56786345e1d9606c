-- ===== src/Scheduler/Store.antt =====
-- internal/scheduler/model.go and store.go: the scheduled jobs and `FileStore`. The file is a parameter:
-- `persist` says whether the jobs could be written, and `FileContent` what the file holds at the start.
pub mod Keyed
use go_database.Base.{
  Str, str, lookup, insert, remove, ℤ, Bool, not, Option, none, some, List, [], ◌∷◌, ◌++◌, map,
}
use go_database.Plugin.Types.{Reply, ok, err}
use go_database.Scheduler.Calendar.{Time}

pub record ScheduledJob : Type 0 where
  pub id : Str
  pub name : Str
  pub source_conn : Str
  pub target_conn : Str
  pub tables : List Str
  pub on_conflict : Str
  pub batch_size : ℤ
  pub cron_expr : Str
  pub enabled : Bool
  pub last_run_at : Option Time
  pub next_run_at : Option Time
  pub last_status : Str
  pub created_at : Time
  pub updated_at : Time

-- The field `jobs` of `FileStore`.
abbrev pub Jobs : Type 0
Jobs = List (Str × ScheduledJob)

-- What `os.ReadFile` and `json.Unmarshal` make of the file.
pub data FileContent : Type 0 where
  missing : FileContent
  unreadable : Str → FileContent
  malformed : Str → FileContent
  holding : List ScheduledJob → FileContent

unfoldable pub load : Jobs → List ScheduledJob → Jobs
unfolding insert
load jobs [] = jobs
load jobs (j ∷ js) = load (insert (ScheduledJob.id j) j jobs) js

-- `NewFileStore`
unfoldable pub new_file_store : FileContent → Reply Jobs
unfolding load
new_file_store missing = ok []
new_file_store (unreadable e) = err (str "reading scheduler store: " ++ e)
new_file_store (malformed e) = err (str "parsing scheduler store: " ++ e)
new_file_store (holding js) = ok (load [] js)

-- `List`, in one order of the map
abbrev pub list_jobs : Jobs → List ScheduledJob
list_jobs = map (λ (entry : Str × ScheduledJob). entry.1)

-- `Get`
unfoldable pub get_job : Str → Jobs → Reply ScheduledJob
unfolding lookup
get_job id jobs = elim (lookup id jobs) [
  | none ↦ err (str "scheduled job " ++ (id ++ str " not found"))
  | some j ↦ ok j
]

-- What `Save` does to the map; the map keeps the job also when `persist` fails.
unfoldable pub save_job : Time → ScheduledJob → Jobs → Jobs
unfolding insert
save_job now job jobs = insert (ScheduledJob.id job) (record job { updated_at = now }) jobs

module _ (persist : Jobs → Reply (Unit {0})) where
  -- `Save`
  unfoldable pub save : Time → ScheduledJob → Jobs → Reply (Unit {0}) × Jobs
  unfolding save_job
  save now job jobs = (persist (save_job now job jobs), save_job now job jobs)

  -- `Delete`
  unfoldable pub delete_job : Str → Jobs → Reply (Unit {0}) × Jobs
  unfolding remove
  delete_job id jobs = (persist (remove id jobs), remove id jobs)
