-- ===== src/Transfer/Jobs.antt =====
-- internal/transfer/engine.go: the jobs of the engine, and the statuses that their runs write. A run holds
-- the state of its job by a pointer, also when another job takes its place in the map: the states are a
-- heap, and a pointer the place in it. The events are not modelled.
pub mod Held
use go_database.Base.{
  ◌==◌, if◌then◌else◌, length, is_nil, Str, str, show_nat, lookup, insert, ℕ, zero, suc, Bool, true,
  false, not, Option, none, some, List, [], ◌∷◌, ◌++◌,
}
use go_database.Plugin.Types.{Reply, ok, err}
use go_database.Transfer.Engine.{Job}

-- `TransferJob`; the fields that a run reads are those of `job`. A batch size that is negative is zero.
pub record TransferJob : Type 0 where
  pub id : Str
  pub source_type : Str
  pub job : Job
  pub created_at : ℕ
  pub status : Str
  pub log : List Str

-- `jobState`; `cancelled` says that its context was cancelled.
pub record JobState : Type 0 where
  pub job : TransferJob
  pub log : List Str
  pub tables : List Str
  pub cancelled : Bool

-- `engine`: the map of the jobs and the heap of their states.
pub record JobEngine : Type 0 where
  pub jobs : List (Str × ℕ)
  pub states : List JobState

-- `NewEngine`
unfoldable pub new_job_engine : JobEngine
new_job_engine = record { jobs = []; states = [] }

unfoldable pub state_at : ℕ → List JobState → Option JobState
state_at a [] = none
state_at zero (s ∷ states) = some s
state_at (suc a) (s ∷ states) = state_at a states

unfoldable pub change_at : ℕ → (JobState → JobState) → List JobState → List JobState
change_at a change [] = []
change_at zero change (s ∷ states) = change s ∷ states
change_at (suc a) change (s ∷ states) = s ∷ change_at a change states

abbrev pub change_state : ℕ → (JobState → JobState) → JobEngine → JobEngine
change_state a change e = record e { states = change_at a change (JobEngine.states e) }

abbrev pub with_status : Str → JobState → JobState
with_status status s = record s { job = record (JobState.job s) { status = status } }

abbrev or_hundred : ℕ → ℕ
or_hundred n = if n == 0 then 100 else n

-- The job that `Start` keeps; the clock is read once here.
abbrev pub started : ℕ → TransferJob → TransferJob
started now job = record job {
  job = record (TransferJob.job job) {
    batch_size = or_hundred (Job.batch_size (TransferJob.job job));
  };
  id = if is_nil (TransferJob.id job) then str "transfer-" ++ show_nat now else TransferJob.id job;
  created_at = now;
  status = str "pending";
}

abbrev pub new_state : TransferJob → JobState
new_state job = record { job = job; log = []; tables = []; cancelled = false }

-- `Start`, which begins the run with the pointer to the new state.
unfoldable pub start_job : ℕ → TransferJob → JobEngine → JobEngine
unfolding insert
start_job now job e =
    let kept = started now job in
    record {
      jobs = insert (TransferJob.id kept) (length (JobEngine.states e)) (JobEngine.jobs e);
      states = JobEngine.states e ++ new_state kept ∷ [];
    }

-- The first lines of `run`.
unfoldable pub begin_run : ℕ → JobEngine → JobEngine
begin_run a e = change_state a (with_status (str "running")) e

-- `fail`
unfoldable pub fail : ℕ → Str → JobEngine → JobEngine
fail a line e =
    change_state a
      (λ s. with_status (str "failed") (record s { log = JobState.log s ++ line ∷ [] })) e

-- `log`
unfoldable pub log : ℕ → Str → JobEngine → JobEngine
log a line e = change_state a (λ s. record s { log = JobState.log s ++ line ∷ [] }) e

-- The last lines of `run`.
unfoldable pub end_run : ℕ → List Str → JobEngine → JobEngine
end_run a tables e = change_state a (λ s. with_status (str "done") (record s { tables = tables })) e

abbrev find_state : Str → JobEngine → Option JobState
find_state id e = elim (lookup id (JobEngine.jobs e)) [
  | none ↦ none
  | some a ↦ state_at a (JobEngine.states e)
]

abbrev not_found : Str → Str
not_found id = str "transfer: job " ++ (id ++ str " not found")

abbrev shown : JobState → TransferJob
shown s =
    let job = JobState.job s in
    record job {
      job = record (TransferJob.job job) { tables = JobState.tables s };
      log = JobState.log s;
    }

-- `Status`
unfoldable pub status : Str → JobEngine → Reply TransferJob
unfolding lookup state_at
status id e = elim (find_state id e) [ none ↦ err (not_found id) | some s ↦ ok (shown s) ]

abbrev pub cancelled_state : JobState → JobState
cancelled_state s = record (with_status (str "cancelled") s) { cancelled = true }

-- `Cancel`
unfoldable pub cancel : Str → JobEngine → Option Str × JobEngine
unfolding lookup change_at
cancel id e = elim (lookup id (JobEngine.jobs e)) [
  | none ↦ (some (not_found id), e)
  | some a ↦ (none, change_state a cancelled_state e)
]

-- `List`, in one order of the map
unfoldable pub list_jobs : JobEngine → List TransferJob
unfolding state_at
list_jobs e = states_of (JobEngine.jobs e)
  where
    states_of : List (Str × ℕ) → List TransferJob
    states_of [] = []
    states_of ((id, a) ∷ jobs) =
        let rest = states_of jobs in
        elim (state_at a (JobEngine.states e)) [ none ↦ rest | some s ↦ JobState.job s ∷ rest ]
