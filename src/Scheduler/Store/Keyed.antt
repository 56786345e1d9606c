-- ===== src/Scheduler/Store/Keyed.antt =====
-- internal/scheduler/store.go: the keys of the map are the identifiers of the jobs.
use go_database.Base.{
  Bool-cases, Str, str_eq, lookup, insert, remove, str_eq_refl, str_eq_sound, ◌≡◌, refl, sym, ap,
  ◌∙◌, inl, inr, Bool, true, ◌&&◌, some, List, [], ◌∷◌, arith,
}
use go_database.Plugin.Types.{Reply}
use go_database.Scheduler.Calendar.{Time}
use go_database.Scheduler.Store.{ScheduledJob, Jobs, load, save_job, save, delete_job}

-- Each job stands under its identifier.
unfoldable pub is_keyed : Jobs → Bool
is_keyed [] = true
is_keyed ((k, j) ∷ jobs) = str_eq (ScheduledJob.id j) k && is_keyed jobs

insert-is_keyed :
    (k : Str) (j : ScheduledJob) (jobs : Jobs)
    → ScheduledJob.id j ≡ k
    → is_keyed jobs ≡ true
    → is_keyed (insert k j jobs) ≡ true
unfolding is_keyed insert
insert-is_keyed k j [] same h = rw (same, str_eq_refl k) refl
insert-is_keyed k j ((l, i) ∷ jobs) same h =
    let own : str_eq (ScheduledJob.id j) k ≡ true = rw same (str_eq_refl k) in
    ground (arith, own, h, insert-is_keyed k j jobs same)

remove-is_keyed : (k : Str) (jobs : Jobs) → is_keyed jobs ≡ true → is_keyed (remove k jobs) ≡ true
unfolding is_keyed remove
remove-is_keyed k [] h = refl
remove-is_keyed k ((l, i) ∷ jobs) h = ground (arith, h, remove-is_keyed k jobs)

load-is_keyed :
    (js : List ScheduledJob) (jobs : Jobs) → is_keyed jobs ≡ true → is_keyed (load jobs js) ≡ true
unfolding load
load-is_keyed [] jobs h = h
load-is_keyed (j ∷ js) jobs h =
    load-is_keyed js (insert (ScheduledJob.id j) j jobs)
      (insert-is_keyed (ScheduledJob.id j) j jobs refl h)

save_job-is_keyed :
    (now : Time) (j : ScheduledJob) (jobs : Jobs)
    → is_keyed jobs ≡ true
    → is_keyed (save_job now j jobs) ≡ true
unfolding save_job
save_job-is_keyed now j jobs h = insert-is_keyed (ScheduledJob.id j) _ jobs refl h

pub lookup-is_keyed :
    (k : Str) (j : ScheduledJob) (jobs : Jobs)
    → is_keyed jobs ≡ true
    → lookup k jobs ≡ some j
    → ScheduledJob.id j ≡ k
unfolding is_keyed lookup
lookup-is_keyed k j [] h there = grind arith
lookup-is_keyed k j ((l, i) ∷ jobs) h there = elim (Bool-cases (str_eq l k)) [
  | inl same ↦
      let eq : i ≡ j = cc in
      let own : str_eq (ScheduledJob.id i) l ≡ true = ground (arith, h) in
      ap ScheduledJob.id (sym eq) ∙ str_eq_sound _ _ own ∙ str_eq_sound l k same
  | inr other ↦ lookup-is_keyed k j jobs (ground (arith, h)) (rw other at there)
]

-- The jobs that `NewFileStore` loads, and those behind `Save` and `Delete`, stand under their
-- identifiers, if they did before.
stored-is_keyed :
    (persist : Jobs → Reply (Unit {0})) (js : List ScheduledJob) (now : Time) (j : ScheduledJob)
    (id : Str) (jobs : Jobs)
    → is_keyed jobs ≡ true
    → (is_keyed (load [] js) ≡ true)
      × (is_keyed (save persist now j jobs).1 ≡ true)
      × (is_keyed (delete_job persist id jobs).1 ≡ true)
unfolding save delete_job is_keyed
stored-is_keyed persist js now j id jobs h =
    (load-is_keyed js [] refl, save_job-is_keyed now j jobs h, remove-is_keyed id jobs h)
