-- ===== src/Scheduler/Runner/Lifecycle.antt =====
-- internal/scheduler/scheduler.go: `Start` and `Stop`, each under the lock. `loops` are the contexts of the
-- loops that were started, the last one first: `true` for one that is not cancelled. The context that
-- `Start` is given is the one of cmd/server/main.go, which has no end.
use go_database.Base.{
  if◌then◌else◌, Bool-cases, ℕ, suc, ◌≡◌, refl, ◌⊎◌, inl, inr, Bool, true, false, List, [], ◌∷◌,
}

pub record Scheduler : Type 0 where
  pub running : Bool
  pub has_cancel : Bool
  pub loops : List Bool

abbrev pub new_scheduler : Scheduler
new_scheduler = record { running = false; has_cancel = false; loops = [] }

-- `Start`
unfoldable pub start : Scheduler → Scheduler
start s =
    if Scheduler.running s
    then s
    else record { running = true; has_cancel = true; loops = true ∷ Scheduler.loops s }

-- `s.cancel()`, of the loop that was started last
abbrev pub cancel_last : List Bool → List Bool
cancel_last [] = []
cancel_last (_ ∷ loops) = false ∷ loops

-- `Stop`
unfoldable pub stop : Scheduler → Scheduler
stop s = record s {
  running = false;
  loops = if Scheduler.has_cancel s then cancel_last (Scheduler.loops s) else Scheduler.loops s;
}

pub data Call : Type 0 where
  start_call stop_call : Call

unfoldable pub apply_calls : List Call → Scheduler → Scheduler
unfolding start stop
apply_calls [] s = s
apply_calls (start_call ∷ calls) s = apply_calls calls (start s)
apply_calls (stop_call ∷ calls) s = apply_calls calls (stop s)

-- The loops that are not cancelled.
unfoldable pub live : List Bool → ℕ
live [] = 0
live (true ∷ loops) = suc (live loops)
live (false ∷ loops) = live loops

-- All loops behind the last one are cancelled, and the last one runs as the scheduler says.
HasOneLoop : Scheduler → Type 0
HasOneLoop s =
    (live (Scheduler.loops s) ≡ (if Scheduler.running s then 1 else 0))
    × (live (cancel_last (Scheduler.loops s)) ≡ 0)
    × ((Scheduler.has_cancel s ≡ true) ⊎ (Scheduler.loops s ≡ []))

cancel_twice : (loops : List Bool) → cancel_last (cancel_last loops) ≡ cancel_last loops
cancel_twice [] = refl
cancel_twice (_ ∷ loops) = refl

start-HasOneLoop : (s : Scheduler) → HasOneLoop s → HasOneLoop (start s)
unfolding HasOneLoop start live
start-HasOneLoop s (count, old, known) = elim (Bool-cases (Scheduler.running s)) [
  | inl up ↦ rw (start, up) (rw up at count, old, known)
  | inr down ↦ rw (start, down) (rw (rw down at count) refl, rw down at count, inl refl)
]

stop-HasOneLoop : (s : Scheduler) → HasOneLoop s → HasOneLoop (stop s)
unfolding HasOneLoop stop live
stop-HasOneLoop s (count, old, known) = elim known [
  | inl set ↦ rw set (old, rw (cancel_twice (Scheduler.loops s)) old, inl refl)
  | inr empty ↦
      let unchanged : (if Scheduler.has_cancel s
            then cancel_last (Scheduler.loops s)
            else Scheduler.loops s)
          ≡ [] =
        rw empty
          (elim (Bool-cases (Scheduler.has_cancel s)) [ inl e ↦ rw e refl | inr e ↦ rw e refl ]) in
      rw unchanged (refl, refl, inr refl)
]

calls-HasOneLoop :
    (calls : List Call) (s : Scheduler) → HasOneLoop s → HasOneLoop (apply_calls calls s)
unfolding apply_calls
calls-HasOneLoop [] s h = h
calls-HasOneLoop (start_call ∷ calls) s h = calls-HasOneLoop calls (start s) (start-HasOneLoop s h)
calls-HasOneLoop (stop_call ∷ calls) s h = calls-HasOneLoop calls (stop s) (stop-HasOneLoop s h)

-- Whatever calls of `Start` and `Stop` come, one loop is live while the scheduler runs, and none while it
-- does not.
pub apply_calls-live :
    (calls : List Call)
    → live (Scheduler.loops (apply_calls calls new_scheduler))
      ≡ (if Scheduler.running (apply_calls calls new_scheduler) then 1 else 0)
unfolding HasOneLoop live
apply_calls-live calls = (calls-HasOneLoop calls new_scheduler (refl, refl, inr refl)).0
