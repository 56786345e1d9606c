-- ===== src/Scheduler/Cron/Next.antt =====
-- internal/scheduler/cron.go: the loop of `nextTime` ends, and where.
use go_database.Base.{
  ltb, Bool-cases, Str, ℕ, zero, suc, ◌+◌, ◌-◌, ◌≤◌, ◌<◌, ◌≡◌, refl, sym, ◌∙◌, ◌⊎◌, inl, inr, true,
  false, some, arith,
}
use go_database.Scheduler.Calendar.{Time, stamp, before, add_minute, add_two_years}
use go_database.Plugin.Types.{Reply, ok, err}
use go_database.Scheduler.Calendar.Order.{IsTime, Between}
use go_database.Scheduler.Calendar.Steps.{add_minute-IsTime, add_minute-later}
use go_database.Scheduler.Cron.{
  Sets, Search, found, exhausted, out_of_fuel, search_from, search_times, parse_expr, next_time,
  search_reply,
}
use go_database.Scheduler.Cron.Rounds.{matches, IsEarly, IsRound, advance-cases}

-- No time from the minute of `t` on and before the minute of `v` matches.
abbrev pub NoneBetween : Sets → Time → Time → Type 0
NoneBetween sets t v = (u : Time) → IsTime u → Between t u v → matches sets u ≡ false

-- What the loop from `t` on promises.
unfoldable pub Outcome : Sets → Time → Time → Search → Type 0
Outcome sets end t (found v) =
    IsTime v
    × (matches sets v ≡ true)
    × (before v end ≡ true)
    × (stamp t ≤ stamp v)
    × (IsEarly sets t → NoneBetween sets t v)
Outcome sets end t exhausted = IsEarly sets t → NoneBetween sets t end
Outcome sets end t out_of_fuel = 1 ≤ 0

none_around :
    (sets : Sets) (t v w : Time)
    → NoneBetween sets t v
    → NoneBetween sets v w
    → NoneBetween sets t w
none_around sets t v w first second u k (low, high) = elim (Bool-cases (ltb (stamp u) (stamp v))) [
  | inl below ↦ first u k (low, ground (arith, below))
  | inr above ↦ second u k (ground (arith, above), high)
]

round-Outcome :
    (sets : Sets) (end t v : Time)
    → IsRound sets t v
    → (r : Search) → Outcome sets end v r
    → Outcome sets end t r
unfolding Outcome
round-Outcome sets end t v round (found w) (time, good, early_enough, behind, first) =
    let later = IsRound.later round in
    (
      time,
      good,
      early_enough,
      omega arith,
      λ early.
          none_around sets t v w (IsRound.none_between round early)
            (first (IsRound.early round early)),
    )
round-Outcome sets end t v round exhausted first = λ early.
    none_around sets t v end (IsRound.none_between round early) (first (IsRound.early round early))
round-Outcome sets end t v round out_of_fuel h = h

before-stamp : (t end : Time) → before t end ≡ true → stamp t ≤ stamp end
before-stamp t end h = ground (arith, h)

not-before-stamp : (t end : Time) → before t end ≡ false → stamp end ≤ stamp t
not-before-stamp t end h = ground (arith, h)

none_at_end : (sets : Sets) (t end : Time) → stamp end ≤ stamp t → NoneBetween sets t end
none_at_end sets t end h u k (low, high) = grind arith

search_from-Outcome :
    (fuel : ℕ) (sets : Sets) (end t : Time)
    → IsTime t
    → 1 ≤ fuel
    → stamp end + 2 ≤ stamp t + fuel
    → Outcome sets end t (search_from fuel sets end t)
unfolding search_from Outcome
search_from-Outcome zero sets end t h some_left enough = some_left
search_from-Outcome (suc fuel) sets end t h some_left enough = elim (Bool-cases (before t end)) [
  | inr late ↦ rw (search_from, late) (λ _. none_at_end sets t end (not-before-stamp t end late))
  | inl early ↦ elim (advance-cases sets t h) [
    | inl (stops, good) ↦
        rw (search_from, early, stops)
          (h, good, early, omega arith, λ _ u k (low, high). grind arith)
    | inr (v, goes, round) ↦
        let later = IsRound.later round in
        let not_past = before-stamp t end early in
        let rest =
          search_from-Outcome fuel sets end v (IsRound.time round) (omega arith) (omega arith) in
        rw (search_from, early, goes)
          (round-Outcome sets end t v round (search_from fuel sets end v) rest)
  ]
]

search_times-Outcome :
    (sets : Sets) (after : Time)
    → IsTime after
    → Outcome sets (add_two_years after) (add_minute after) (search_times sets after)
unfolding search_times
search_times-Outcome sets after h =
    search_from-Outcome (suc (suc (stamp (add_two_years after)) - stamp (add_minute after))) sets
      (add_two_years after) (add_minute after) (add_minute-IsTime after h) (omega arith)
      (omega arith)

search_reply-ok : (r : Search) (t : Time) → search_reply r ≡ some (ok t) → r ≡ found t
search_reply-ok (found v) t h = cc
search_reply-ok exhausted t h = grind arith
search_reply-ok out_of_fuel t h = grind arith

search_reply-err : (r : Search) (e : Str) → search_reply r ≡ some (err e) → r ≡ exhausted
search_reply-err (found v) e h = grind arith
search_reply-err exhausted e h = refl
search_reply-err out_of_fuel e h = grind arith

search_reply-total :
    (sets : Sets) (end t : Time) (r : Search)
    → Outcome sets end t r
    → (answer : Reply Time) × (search_reply r ≡ some answer)
unfolding Outcome
search_reply-total sets end t (found v) h = (ok v, refl)
search_reply-total sets end t exhausted h = (err _, refl)
search_reply-total sets end t out_of_fuel h = grind arith

next_time-search :
    (expr : Str) (sets : Sets) (after : Time)
    → parse_expr expr ≡ ok sets
    → next_time expr after ≡ search_reply (search_times sets after)
unfolding next_time
next_time-search expr sets after parsed = rw (next_time, parsed) refl

pub Reply-cases {ℓ} :
    {A : Type ℓ} (r : Reply A) → ((a : A) × (r ≡ ok a)) ⊎ ((e : Str) × (r ≡ err e))
Reply-cases (ok a) = inl (a, refl)
Reply-cases (err e) = inr (e, refl)

-- `nextTime` ends, with a time or with an error, after any time of the calendar.
pub next_time-total :
    (expr : Str) (after : Time)
    → IsTime after
    → (answer : Reply Time) × (next_time expr after ≡ some answer)
unfolding next_time
next_time-total expr after h = elim (Reply-cases (parse_expr expr)) [
  | inl (sets, parsed) ↦
      let (answer, eq) =
        search_reply-total sets (add_two_years after) (add_minute after) (search_times sets after)
          (search_times-Outcome sets after h) in
      (answer, next_time-search expr sets after parsed ∙ eq)
  | inr (e, failed) ↦ (err e, rw (next_time, failed) refl)
]

module _ (expr : Str) (sets : Sets) (after t : Time) (parsed : parse_expr expr ≡ ok sets)
    (h : IsTime after) where
  found_time :
      next_time expr after ≡ some (ok t)
      → Outcome sets (add_two_years after) (add_minute after) (found t)
  found_time answer =
      let search = sym (next_time-search expr sets after parsed) ∙ answer in
      let eq = search_reply-ok (search_times sets after) t search in
      rw (← eq) (search_times-Outcome sets after h)

  pub next_time-matches :
      next_time expr after ≡ some (ok t)
      → IsTime t
        × (matches sets t ≡ true)
        × (stamp after < stamp t)
        × (before t (add_two_years after) ≡ true)
  unfolding Outcome
  next_time-matches answer =
      let (time, good, early, behind, _) = found_time answer in
      let minute = add_minute-later after h in (time, good, omega arith, early)

  -- The time is the first one: no minute before it, from the one after the given time on, has its fields
  -- in the sets, as long as that minute is on one of the first 28 days or in a month of the set.
  pub next_time-first :
      next_time expr after ≡ some (ok t)
      → IsEarly sets (add_minute after)
      → (u : Time) → IsTime u
      → Between (add_minute after) u t
      → matches sets u ≡ false
  unfolding Outcome
  next_time-first answer early u k within =
      let (_, _, _, _, first) = found_time answer in first early u k within

exhausted_time :
    (expr : Str) (sets : Sets) (after : Time) (e : Str)
    → parse_expr expr ≡ ok sets
    → IsTime after
    → next_time expr after ≡ some (err e)
    → Outcome sets (add_two_years after) (add_minute after) exhausted
exhausted_time expr sets after e parsed h answer =
    let search = sym (next_time-search expr sets after parsed) ∙ answer in
    let eq = search_reply-err (search_times sets after) e search in
    rw (← eq) (search_times-Outcome sets after h)

-- The error says the truth, under the same condition: no minute of the two years has its fields in the
-- sets.
next_time-exhausted :
    (expr : Str) (sets : Sets) (after : Time) (e : Str)
    → parse_expr expr ≡ ok sets
    → IsTime after
    → next_time expr after ≡ some (err e)
    → IsEarly sets (add_minute after)
    → (u : Time) → IsTime u
    → Between (add_minute after) u (add_two_years after)
    → matches sets u ≡ false
unfolding Outcome
next_time-exhausted expr sets after e parsed h answer early u k within =
    exhausted_time expr sets after e parsed h answer early u k within
