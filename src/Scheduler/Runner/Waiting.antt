-- ===== src/Scheduler/Runner/Waiting.antt =====
-- internal/scheduler/scheduler.go: the loop of `execute` that waits for the transfer, and what it notes.
use go_database.Base.{
  if◌then◌else◌, Str, str, str_eq, ℕ, zero, suc, ◌<◌, ◌≡◌, refl, ap, ◌∙◌, true, false, none, some,
  arith,
}
use go_database.Plugin.Types.{Reply, ok, err}
use go_database.Scheduler.Store.{ScheduledJob, Jobs, get_job}
use go_database.Scheduler.Store.Keyed.{is_keyed}
use go_database.Scheduler.Runner.{
  Engine, Ending, ended, still_waiting, verdict, await, next_run, record_run, request_of,
  record_ending, execute_job,
}
use go_database.Scheduler.Runner.Records.{record_run-get_job}

-- What a poll may find at the end of a transfer, and the status that is noted for it.
pub data Final : Reply Str → Str → Type 0 where
  copied : Final (ok (str "done")) (str "success")
  broken : Final (ok (str "failed")) (str "failed")
  lost : {e : Str} → Final (err e) (str "failed")

-- A poll that finds any other status.
abbrev pub IsPending : Reply Str → Type 0
IsPending reply =
    (s : Str) × ((reply ≡ ok s)
      × ((str_eq s (str "done") ≡ false) × (str_eq s (str "failed") ≡ false)))

verdict_of_Final :
    (reply : Reply Str) (status : Str) → Final reply status → verdict reply ≡ some status
unfolding verdict str_eq
verdict_of_Final _ _ copied = refl
verdict_of_Final _ _ broken = refl
verdict_of_Final _ _ lost = refl

verdict_of_pending : (reply : Reply Str) → IsPending reply → verdict reply ≡ none
unfolding verdict
verdict_of_pending reply (s, (found, (not_done, not_failed))) =
    rw found (rw (verdict, not_done, not_failed) refl)

module _ {W : Type 0} (engine : Engine W) (id : Str) where
  -- `n` polls, each of which finds the transfer pending while the context is not done, lead from the
  -- first state to the second.
  pub data Polls : ℕ → W → W → Type 0 where
    here : {w : W} → Polls 0 w w
    poll :
        {n : ℕ} {w u : W}
        → IsPending (Engine.status engine id w).0
        → Engine.is_done engine (Engine.status engine id w).1 ≡ false
        → Polls n (Engine.wait engine (Engine.status engine id w).1) u
        → Polls (suc n) w u

  await-Final :
      (fuel : ℕ) (w : W) (status : Str)
      → Final (Engine.status engine id w).0 status
      → await engine (suc fuel) id w ≡ (ended status, (Engine.status engine id w).1)
  unfolding await
  await-Final fuel w status final =
      let says = verdict_of_Final (Engine.status engine id w).0 status final in
      rw (await, says) refl

  await-poll :
      (fuel : ℕ) (w : W)
      → IsPending (Engine.status engine id w).0
      → Engine.is_done engine (Engine.status engine id w).1 ≡ false
      → await engine (suc fuel) id w
        ≡ await engine fuel id (Engine.wait engine (Engine.status engine id w).1)
  unfolding await
  await-poll fuel w pending runs =
      let says = verdict_of_pending (Engine.status engine id w).0 pending in
      rw (await, says, runs) refl

  await-ends :
      (n : ℕ) (w u : W)
      → Polls n w u
      → (fuel : ℕ) → n < fuel
      → (status : Str) → Final (Engine.status engine id u).0 status
      → await engine fuel id w ≡ (ended status, (Engine.status engine id u).1)
  await-ends n w u polls zero enough status final = grind arith
  await-ends n w u here (suc fuel) enough status final = await-Final fuel w status final
  await-ends _ w u (poll {n = m} pending runs rest) (suc fuel) enough status final =
      await-poll fuel w pending runs ∙ await-ends m _ u rest fuel (omega arith) status final

  -- A job that was cancelled is waited for until the context is done: while each poll finds it
  -- `cancelled`, no number of polls ends the wait.
  await-cancelled :
      (all_cancelled : (w : W) → (Engine.status engine id w).0 ≡ ok (str "cancelled"))
      → (never_done : (w : W) → Engine.is_done engine w ≡ false) → (fuel : ℕ) (w : W)
      → (await engine fuel id w).0 ≡ still_waiting
  unfolding await verdict str_eq
  await-cancelled all_cancelled never_done zero w = refl
  await-cancelled all_cancelled never_done (suc fuel) w =
      rw (await, all_cancelled w, never_done (Engine.status engine id w).1)
        (await-cancelled all_cancelled never_done fuel
          (Engine.wait engine (Engine.status engine id w).1))

  execute_job_lem :
      (job : ScheduledJob) (jobs : Jobs) (fuel : ℕ) (w v u : W) (status : Str)
      → Engine.start engine (request_of job) w ≡ (ok id, v)
      → await engine fuel id v ≡ (ended status, u)
      → (execute_job engine fuel job jobs w).0
        ≡ record_run (Engine.now engine u) (ScheduledJob.id job) status jobs
  unfolding execute_job
  execute_job_lem job jobs fuel w v u status starts waits =
      let begun = Engine.start engine (request_of job) w in
      let reached : await engine fuel id begun.1 ≡ (ended status, u) =
        ap (λ (r : Reply Str × W). await engine fuel id r.1) starts ∙ waits in
      let says : begun.0 ≡ ok id = ap (λ (r : Reply Str × W). r.0) starts in
      rw (execute_job, says)
        (ap (λ (p : Ending × W). record_ending engine (ScheduledJob.id job) p.0 jobs p.1) reached)

  -- A job whose transfer starts is waited for to its end, for all fuel beyond the polls that find the
  -- transfer pending: then the store has the job with the time of the end and `success`, if the
  -- transfer was found `done`, or `failed`, if it was found `failed` or its status could not be had;
  -- the other jobs are as they were.
  pub execute_job-await :
      (job j : ScheduledJob) (jobs : Jobs) (n fuel : ℕ) (w v u : W) (status k : Str)
      → Engine.start engine (request_of job) w ≡ (ok id, v)
      → Polls n v u
      → n < fuel
      → Final (Engine.status engine id u).0 status
      → is_keyed jobs ≡ true
      → get_job (ScheduledJob.id job) jobs ≡ ok j
      → get_job k (execute_job engine fuel job jobs w).0 ≡ (
          if str_eq (ScheduledJob.id job) k
          then ok (record j {
            last_run_at = some (Engine.now engine (Engine.status engine id u).1);
            last_status = status;
            next_run_at = next_run (Engine.now engine (Engine.status engine id u).1) j;
            updated_at = Engine.now engine (Engine.status engine id u).1;
          })
          else get_job k jobs)
  execute_job-await job j jobs n fuel w v u status k starts polls enough final keyed there =
      let waits = await-ends n v u polls fuel enough status final in
      ap (λ js. get_job k js)
        (execute_job_lem job jobs fuel w v (Engine.status engine id u).1 status starts waits)
      ∙ record_run-get_job (Engine.now engine (Engine.status engine id u).1) (ScheduledJob.id job)
          status k jobs j keyed there
