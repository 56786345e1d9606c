-- ===== src/Scheduler/Cron/Rounds.antt =====
-- internal/scheduler/cron.go: a round of the loop of `nextTime`.
use go_database.Base.{
  ltb, Bool-cases, ◌≤◌, ◌<◌, ◌≡◌, refl, ◌⊎◌, inl, inr, Bool, true, false, ◌&&◌, none, some, arith,
}
use go_database.Scheduler.Calendar.{
  Time, stamp, weekday, days_in, skip_day, skip_month, skip_hour, add_minute,
}
use go_database.Scheduler.Calendar.Order.{
  IsTime, Between, skip_day-IsTime, skip_day-later, skip_day-Between,
}
use go_database.Scheduler.Calendar.Steps.{
  skip_month-IsTime, skip_month-later, skip_month-Between, skip_hour-IsTime, skip_hour-later,
  skip_hour-Between, add_minute-IsTime, add_minute-later, add_minute-Between,
}
use go_database.Scheduler.Cron.{Sets, has, advance}

-- The fields of a time are in the five sets.
unfoldable pub matches : Sets → Time → Bool
matches sets t =
    has (Sets.months sets) (Time.month t)
    && (has (Sets.days sets) (Time.day t)
        && (has (Sets.weekdays sets) (weekday (Time.year t) (Time.month t) (Time.day t))
            && (has (Sets.hours sets) (Time.hour t) && has (Sets.minutes sets) (Time.minute t))))

-- A step by a month from this time does not pass over a month that is wanted.
abbrev pub IsEarly : Sets → Time → Type 0
IsEarly sets t = (Time.day t ≤ 28) ⊎ (has (Sets.months sets) (Time.month t) ≡ true)

skip_day-date : (t : Time) → (Time.month (skip_day t) ≡ Time.month t) ⊎ (Time.day (skip_day t) ≤ 28)
unfolding skip_day
skip_day-date t = elim (Bool-cases (ltb (Time.day t) (days_in (Time.year t) (Time.month t)))) [
  | inl more ↦ inl (rw more refl)
  | inr last ↦ inr (rw last (omega arith))
]

skip_hour-date :
    (t : Time) → (Time.month (skip_hour t) ≡ Time.month t) ⊎ (Time.day (skip_hour t) ≤ 28)
unfolding skip_hour
skip_hour-date t = elim (Bool-cases (ltb (Time.hour t) 23)) [
  | inl more ↦ inl (rw more refl)
  | inr last ↦ rw (skip_hour, last) (skip_day-date t)
]

add_minute-date :
    (t : Time) → (Time.month (add_minute t) ≡ Time.month t) ⊎ (Time.day (add_minute t) ≤ 28)
unfolding add_minute
add_minute-date t = elim (Bool-cases (ltb (Time.minute t) 59)) [
  | inl more ↦ inl (rw more refl)
  | inr last ↦ rw (add_minute, last) (skip_hour-date t)
]

skip_month-date : (t : Time) → Time.day (skip_month t) ≤ 28
unfolding skip_month
skip_month-date t = ground arith

-- What a round that goes on at `v` has done.
pub record IsRound (sets : Sets) (t v : Time) : Type 0 where
  pub time : IsTime v
  pub later : stamp t < stamp v
  pub early : IsEarly sets t → IsEarly sets v
  pub none_between : IsEarly sets t → (u : Time) → IsTime u → Between t u v → matches sets u ≡ false

stays-IsEarly :
    (sets : Sets) (t v : Time)
    → has (Sets.months sets) (Time.month t) ≡ true
    → ((Time.month v ≡ Time.month t) ⊎ (Time.day v ≤ 28))
    → IsEarly sets v
stays-IsEarly sets t v wanted (inl same) = inr (rw same wanted)
stays-IsEarly sets t v wanted (inr early) = inl early

month-IsRound :
    (sets : Sets) (t : Time)
    → IsTime t
    → has (Sets.months sets) (Time.month t) ≡ false
    → IsRound sets t (skip_month t)
unfolding matches
month-IsRound sets t h missing = record {
  time = skip_month-IsTime t h;
  later = skip_month-later t h;
  early = λ _. inl (skip_month-date t);
  none_between = λ early u k within. elim early [
    | inl low ↦ let (y, m) = skip_month-Between t u h k low within in rw (matches, m, missing) refl
    | inr wanted ↦ grind arith
  ];
}

day-IsRound :
    (sets : Sets) (t : Time)
    → IsTime t
    → has (Sets.months sets) (Time.month t) ≡ true
    → (has (Sets.days sets) (Time.day t)
        && has (Sets.weekdays sets) (weekday (Time.year t) (Time.month t) (Time.day t)))
      ≡ false
    → IsRound sets t (skip_day t)
unfolding matches
day-IsRound sets t h wanted missing = record {
  time = skip_day-IsTime t h;
  later = skip_day-later t h;
  early = λ _. stays-IsEarly sets t (skip_day t) wanted (skip_day-date t);
  none_between = λ _ u k within.
      let (y, m, d) = skip_day-Between t u h k within in
      rw (matches, y, m, d) (ground (arith, missing));
}

hour-IsRound :
    (sets : Sets) (t : Time)
    → IsTime t
    → has (Sets.months sets) (Time.month t) ≡ true
    → has (Sets.hours sets) (Time.hour t) ≡ false
    → IsRound sets t (skip_hour t)
unfolding matches
hour-IsRound sets t h wanted missing = record {
  time = skip_hour-IsTime t h;
  later = skip_hour-later t h;
  early = λ _. stays-IsEarly sets t (skip_hour t) wanted (skip_hour-date t);
  none_between = λ _ u k within.
      let (_, hour) = skip_hour-Between t u h k within in
      rw (matches, hour) (ground (arith, missing));
}

minute-IsRound :
    (sets : Sets) (t : Time)
    → IsTime t
    → has (Sets.months sets) (Time.month t) ≡ true
    → has (Sets.minutes sets) (Time.minute t) ≡ false
    → IsRound sets t (add_minute t)
unfolding matches
minute-IsRound sets t h wanted missing = record {
  time = add_minute-IsTime t h;
  later = add_minute-later t h;
  early = λ _. stays-IsEarly sets t (add_minute t) wanted (add_minute-date t);
  none_between = λ _ u k within.
      let (_, minute) = add_minute-Between t u h k within in
      rw (matches, minute) (ground (arith, missing));
}

-- A round returns at a time that matches, or it goes on behind it.
pub advance-cases :
    (sets : Sets) (t : Time)
    → IsTime t
    → ((advance sets t ≡ none) × (matches sets t ≡ true))
      ⊎ ((v : Time) × (advance sets t ≡ some v) × IsRound sets t v)
unfolding advance matches
advance-cases sets t h = elim (Bool-cases (has (Sets.months sets) (Time.month t))) [
  | inr no_month ↦ inr (skip_month t, rw no_month refl, month-IsRound sets t h no_month)
  | inl month ↦ elim (Bool-cases (has (Sets.days sets) (Time.day t))) [
    | inr no_day ↦
        inr (skip_day t, rw (month, no_day) refl, day-IsRound sets t h month (rw no_day refl))
    | inl day ↦
        elim (Bool-cases
          (has (Sets.weekdays sets) (weekday (Time.year t) (Time.month t) (Time.day t)))) [
            | inr no_weekday ↦ inr (
              skip_day t,
              rw (month, day, no_weekday) refl,
              day-IsRound sets t h month (rw (day, no_weekday) refl),
            )
            | inl wd ↦ elim (Bool-cases (has (Sets.hours sets) (Time.hour t))) [
              | inr no_hour ↦ inr (
                skip_hour t,
                rw (month, day, wd, no_hour) refl,
                hour-IsRound sets t h month no_hour,
              )
              | inl hour ↦ elim (Bool-cases (has (Sets.minutes sets) (Time.minute t))) [
                | inr no_minute ↦ inr (
                  add_minute t,
                  rw (month, day, wd, hour, no_minute) refl,
                  minute-IsRound sets t h month no_minute,
                )
                | inl minute ↦
                    inl (
                      rw (month, day, wd, hour, minute) refl,
                      rw (month, day, wd, hour, minute) refl,
                    )
              ]
            ]
          ]
  ]
]
