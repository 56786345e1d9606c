-- ===== src/Middleware/RateLimit/Laws.antt =====
-- internal/api/middleware/ratelimit.go: sequences of requests, and the failures of an address in them.
use go_database.Base.{
  ltb, leb, ◌==◌, if◌then◌else◌, Bool-cases, Str, str_eq, lookup, insert, str_eq_sound,
  lookup-insert, ℕ, ◌+◌, ◌-◌, ◌*◌, ◌≡◌, refl, ◌∙◌, inl, inr, not, ◌&&◌, List, [], ◌∷◌, arith,
}
use go_database.Middleware.RateLimit.{
  Attempts, Limiter, no_attempts, second, entry, admit, failed, settle,
}

-- A request of an address begins, or ends with the status that its handler wrote. Requests may
-- overlap: an end need not follow its beginning at once.
pub data Event : Type 0 where
  begins : Str → ℕ → Event
  ends : Str → ℕ → ℕ → Event

abbrev step : Event → Limiter → Limiter
step (begins ip now) table = (admit now ip table).1
step (ends ip status now) table = settle status now ip table

unfoldable pub replay : List Event → Limiter → Limiter
replay [] table = table
replay (e ∷ es) table = replay es (step e table)

-- The failures of an address, ends with the status 401, since the last end with any other status, and the
-- time of the last of them.
pub record Streak : Type 0 where
  pub failures : ℕ
  pub last : ℕ

abbrev pub no_failures : Streak
no_failures = record { failures = 0; last = 0 }

abbrev observe : Str → Event → Streak → Streak
observe ip (begins _ _) s = s
observe ip (ends j status now) s =
    if str_eq j ip
    then (if status == 401 then record { failures = s.failures + 1; last = now } else no_failures)
    else s

unfoldable pub watch : Str → List Event → Streak → Streak
watch ip [] s = s
watch ip (e ∷ es) s = watch ip es (observe ip e s)

-- The end of the block that a streak brings.
abbrev pub block_end : Streak → ℕ
block_end s = if leb 5 s.failures then s.last + (s.failures - 4) * second else 0

abbrev Agrees : Attempts → Streak → Type 0
Agrees a s = (a.count ≡ s.failures) × (a.blocked ≡ block_end s)

entry-insert :
    (j ip : Str) (a : Attempts) (table : Limiter)
    → entry ip (insert j a table) ≡ (if str_eq j ip then a else entry ip table)
entry-insert j ip a table = elim (Bool-cases (str_eq j ip)) [
  | inl e ↦ rw (lookup-insert j ip a table, e) refl
  | inr e ↦ rw (lookup-insert j ip a table, e) refl
]

entry-insert_same :
    (j ip : Str) (table : Limiter) → entry ip (insert j (entry j table) table) ≡ entry ip table
entry-insert_same j ip table = elim (Bool-cases (str_eq j ip)) [
  | inl e ↦
      let same : j ≡ ip = str_eq_sound j ip e in
      entry-insert j ip (entry j table) table ∙ rw (e, same) refl
  | inr e ↦ entry-insert j ip (entry j table) table ∙ rw e refl
]

failed-Agrees :
    (now : ℕ) (a : Attempts) (s : Streak)
    → Agrees a s
    → Agrees (failed now a) (record { failures = s.failures + 1; last = now })
failed-Agrees now a s (c, b) = ground arith

settled-Agrees :
    (status now : ℕ) (a : Attempts) (s : Streak)
    → Agrees a s
    → Agrees
        (if status == 401 then failed now a else no_attempts)
        (if status == 401 then record { failures = s.failures + 1; last = now } else no_failures)
settled-Agrees status now a s h = elim (Bool-cases (status == 401)) [
  | inl e ↦ rw e (failed-Agrees now a s h)
  | inr e ↦ rw e (refl, refl)
]

step-Agrees :
    (ip : Str) (e : Event) (table : Limiter) (s : Streak)
    → Agrees (entry ip table) s
    → Agrees (entry ip (step e table)) (observe ip e s)
unfolding admit settle
step-Agrees ip (begins j now) table s h = rw (entry-insert_same j ip table) h
step-Agrees ip (ends j status now) table s h =
    let a = if status == 401 then failed now (entry j table) else no_attempts in
    elim (Bool-cases (str_eq j ip)) [
      | inr e ↦ rw (entry-insert j ip a table, e) h
      | inl e ↦
          let same : j ≡ ip = str_eq_sound j ip e in
          rw (entry-insert j ip a table, e)
            (settled-Agrees status now (entry j table) s (rw same h))
    ]

replay-Agrees :
    (ip : Str) (es : List Event) (table : Limiter) (s : Streak)
    → Agrees (entry ip table) s
    → Agrees (entry ip (replay es table)) (watch ip es s)
unfolding replay watch
replay-Agrees ip [] table s h = h
replay-Agrees ip (e ∷ es) table s h =
    replay-Agrees ip es (step e table) (observe ip e s) (step-Agrees ip e table s h)

-- Whatever requests there were, overlapping or not, a login of an address is refused exactly while
-- at least five requests of the address have ended with the status 401 since the last one that ended
-- with any other status, and fewer seconds have gone by since the last of them than they are above four.
-- An end with another status, also one for a malformed request, takes the failures before it away.
pub admit-replay :
    (ip : Str) (es : List Event) (now : ℕ)
    → (admit now ip (replay es [])).0
      ≡ not (
          leb 5 (watch ip es no_failures).failures
          && ltb now
              ((watch ip es no_failures).last + ((watch ip es no_failures).failures - 4) * second))
unfolding admit lookup
admit-replay ip es now =
    let (c, b) = replay-Agrees ip es [] no_failures (refl, refl) in ground arith
