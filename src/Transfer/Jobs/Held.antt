-- ===== src/Transfer/Jobs/Held.antt =====
-- internal/transfer/engine.go: the map of the jobs and the states that it leads to.
use go_database.Base.{
  ◌==◌, if◌then◌else◌, Bool-cases, Option-cases, length, Str, str, str_eq, lookup, str_eq_refl,
  str_eq_sound, lookup-insert, lookup-insert_ne, ℕ, zero, suc, ◌≡◌, refl, sym, ap, ◌∙◌, inl, inr,
  true, false, some, List, [], ◌∷◌, ◌++◌, arith,
}
use mathlib.Core.Option
use go_database.Transfer.Jobs.{
  TransferJob, JobState, JobEngine, new_job_engine, state_at, change_at, change_state, with_status,
  started, new_state, start_job, begin_run, fail, log, end_run, status, cancelled_state, cancel,
}

-- A call of a client, or a step of a run.
pub data JobCall : Type 0 where
  start_call : ℕ → TransferJob → JobCall
  cancel_call : Str → JobCall
  begin_step : ℕ → JobCall
  log_step : ℕ → Str → JobCall
  fail_step : ℕ → Str → JobCall
  end_step : ℕ → List Str → JobCall

unfoldable pub apply_call : JobCall → JobEngine → JobEngine
unfolding start_job cancel begin_run log fail end_run
apply_call (start_call now job) e = start_job now job e
apply_call (cancel_call id) e = (cancel id e).1
apply_call (begin_step a) e = begin_run a e
apply_call (log_step a line) e = log a line e
apply_call (fail_step a line) e = fail a line e
apply_call (end_step a tables) e = end_run a tables e

-- The engine behind the calls, the last one first.
unfoldable pub after_calls : List JobCall → JobEngine
unfolding apply_call new_job_engine
after_calls [] = new_job_engine
after_calls (c ∷ cs) = apply_call c (after_calls cs)

abbrev id_of : JobState → Str
id_of s = TransferJob.id (JobState.job s)

-- What stands under an identifier in the map leads to a state of the job with that identifier.
abbrev pub IsHeld : JobEngine → Type 0
IsHeld e =
    (id : Str) (a : ℕ)
    → lookup id (JobEngine.jobs e) ≡ some a
    → (s : JobState) × ((state_at a (JobEngine.states e) ≡ some s) × (id_of s ≡ id))

state_at-append :
    (a : ℕ) (states : List JobState) (s new : JobState)
    → state_at a states ≡ some s
    → state_at a (states ++ new ∷ []) ≡ some s
unfolding state_at
state_at-append a [] s new there = grind arith
state_at-append zero (t ∷ states) s new there = there
state_at-append (suc a) (t ∷ states) s new there = state_at-append a states s new there

state_at-last :
    (states : List JobState) (new : JobState)
    → state_at (length states) (states ++ new ∷ []) ≡ some new
unfolding state_at
state_at-last [] new = refl
state_at-last (s ∷ states) new = state_at-last states new

state_at-change_at :
    (a b : ℕ) (change : JobState → JobState) (states : List JobState)
    → state_at b (change_at a change states)
      ≡ (if a == b then Option.map change (state_at b states) else state_at b states)
unfolding state_at change_at
state_at-change_at a b change [] = elim (Bool-cases (a == b)) [
  | inl same ↦ rw same refl
  | inr other ↦ rw other refl
]
state_at-change_at zero zero change (s ∷ states) = refl
state_at-change_at zero (suc b) change (s ∷ states) =
    let apart : (0 == suc b) ≡ false = ground arith in rw apart refl
state_at-change_at (suc a) zero change (s ∷ states) =
    let apart : (suc a == 0) ≡ false = ground arith in rw apart refl
state_at-change_at (suc a) (suc b) change (s ∷ states) =
    let less : (suc a == suc b) ≡ (a == b) = ground arith in
    rw less (state_at-change_at a b change states)

change_state-IsHeld :
    (a : ℕ) (change : JobState → JobState) (e : JobEngine)
    → ((s : JobState) → id_of (change s) ≡ id_of s)
    → IsHeld e
    → IsHeld (change_state a change e)
change_state-IsHeld a change e keeps held id b there =
    let (s, (found, own)) = held id b there in
    elim (Bool-cases (a == b)) [
      | inl same ↦ (
        change s,
        (rw (state_at-change_at a b change (JobEngine.states e), same, found) refl, keeps s ∙ own),
      )
      | inr other ↦ (s, (rw (state_at-change_at a b change (JobEngine.states e), other) found, own))
    ]

start_job-IsHeld :
    (now : ℕ) (job : TransferJob) (e : JobEngine) → IsHeld e → IsHeld (start_job now job e)
unfolding start_job
start_job-IsHeld now job e held id a there =
    let kept = started now job in
    let states = JobEngine.states e in
    let new = new_state kept in
    elim (Bool-cases (str_eq (TransferJob.id kept) id)) [
      | inl same ↦
          let place : some (length states) ≡ some a =
            sym (
              lookup-insert (TransferJob.id kept) id (length states) (JobEngine.jobs e)
              ∙ ap (λ b. if b then some (length states) else lookup id (JobEngine.jobs e)) same)
            ∙ there in
          let eq : length states ≡ a = cc in
          (new, (rw (← eq) (state_at-last states new), str_eq_sound _ _ same))
      | inr other ↦
          let before : lookup id (JobEngine.jobs e) ≡ some a =
            sym (lookup-insert_ne (TransferJob.id kept) id (length states) (JobEngine.jobs e) other)
            ∙ there in
          let (s, (found, own)) = held id a before in
          (s, (state_at-append a states s new found, own))
    ]

cancel-IsHeld : (id : Str) (e : JobEngine) → IsHeld e → IsHeld (cancel id e).1
unfolding cancel
cancel-IsHeld id e held = elim (Option-cases (lookup id (JobEngine.jobs e))) [
  | inl absent ↦ rw (cancel, absent) held
  | inr (a, there) ↦ rw (cancel, there) (change_state-IsHeld a cancelled_state e (λ s. refl) held)
]

apply_call-IsHeld : (c : JobCall) (e : JobEngine) → IsHeld e → IsHeld (apply_call c e)
unfolding apply_call begin_run fail log end_run
apply_call-IsHeld (start_call now job) e held = start_job-IsHeld now job e held
apply_call-IsHeld (cancel_call id) e held = cancel-IsHeld id e held
apply_call-IsHeld (begin_step a) e held =
    change_state-IsHeld a (with_status (str "running")) e (λ s. refl) held
apply_call-IsHeld (log_step a line) e held = change_state-IsHeld a _ e (λ s. refl) held
apply_call-IsHeld (fail_step a line) e held = change_state-IsHeld a _ e (λ s. refl) held
apply_call-IsHeld (end_step a tables) e held = change_state-IsHeld a _ e (λ s. refl) held

nothing-IsHeld : IsHeld new_job_engine
unfolding new_job_engine lookup
nothing-IsHeld id a there = grind arith

after_calls-IsHeld : (cs : List JobCall) → IsHeld (after_calls cs)
unfolding after_calls
after_calls-IsHeld [] = nothing-IsHeld
after_calls-IsHeld (c ∷ cs) = apply_call-IsHeld c (after_calls cs) (after_calls-IsHeld cs)

-- Two identifiers that lead to one place are one.
one_place :
    (e : JobEngine) (i j : Str) (a : ℕ)
    → IsHeld e
    → lookup i (JobEngine.jobs e) ≡ some a
    → lookup j (JobEngine.jobs e) ≡ some a
    → i ≡ j
one_place e i j a held at_i at_j =
    let (s, (found, own)) = held i a at_i in
    let (t, (found', own')) = held j a at_j in
    let same : s ≡ t = cc in sym own ∙ ap id_of same ∙ own'

status-elsewhere :
    (e : JobEngine) (j : Str) (a : ℕ) (change : JobState → JobState)
    → ((b : ℕ) → lookup j (JobEngine.jobs e) ≡ some b → (a == b) ≡ false)
    → status j (change_state a change e) ≡ status j e
unfolding status
status-elsewhere e j a change apart = elim (Option-cases (lookup j (JobEngine.jobs e))) [
  | inl absent ↦ rw (status, absent) refl
  | inr (b, there) ↦
      rw (status, there, state_at-change_at a b change (JobEngine.states e), apart b there) refl
]

-- Behind any calls and steps of runs, also with identifiers that are used again, `Cancel` of one job
-- leaves the status of every other as it was.
pub status-cancel :
    (cs : List JobCall) (i j : Str)
    → str_eq i j ≡ false
    → status j (cancel i (after_calls cs)).1 ≡ status j (after_calls cs)
unfolding cancel
status-cancel cs i j differ =
    let e = after_calls cs in
    elim (Option-cases (lookup i (JobEngine.jobs e))) [
      | inl absent ↦ rw (cancel, absent) refl
      | inr (a, there) ↦
          let apart : (b : ℕ) → lookup j (JobEngine.jobs e) ≡ some b → (a == b) ≡ false =
            λ b there'. elim (Bool-cases (a == b)) [
              | inl same ↦
                  let eq : a ≡ b = ground (arith, same) in
                  let one : i ≡ j =
                    one_place e i j a (after_calls-IsHeld cs) there (rw eq there') in
                  let twice : str_eq i j ≡ true = rw one (str_eq_refl j) in grind arith
              | inr other ↦ other
            ] in
          rw (cancel, there) (status-elsewhere e j a cancelled_state apart)
    ]
