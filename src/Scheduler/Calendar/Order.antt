-- ===== src/Scheduler/Calendar/Order.antt =====
-- internal/scheduler/cron.go: times of the calendar and what lies between a time and the one a step of `nextTime` goes to.
use go_database.Base.{ltb, Bool-cases, ℕ, ◌+◌, ◌*◌, ◌≤◌, ◌<◌, ◌≡◌, refl, ◌⊎◌, inl, inr, arith}
use go_database.Scheduler.Calendar.{
  Time, days_in, stamp, year_after, month_after, first_of_next, skip_day,
}

-- A time of the calendar.
pub record IsTime (t : Time) : Type 0 where
  pub month_low : 1 ≤ Time.month t
  pub month_high : Time.month t ≤ 12
  pub day_low : 1 ≤ Time.day t
  pub day_high : Time.day t ≤ days_in (Time.year t) (Time.month t)
  pub hour_high : Time.hour t < 24
  pub minute_high : Time.minute t < 60

pub days_in_low : (y m : ℕ) → 28 ≤ days_in y m
unfolding days_in
days_in_low y m = ground arith

pub days_in_high : (y m : ℕ) → days_in y m ≤ 31
unfolding days_in
days_in_high y m = ground arith

-- The month of a time among all months.
abbrev pub month_no : Time → ℕ
month_no t = Time.year t * 12 + Time.month t

abbrev pub day_no : Time → ℕ
day_no t = month_no t * 32 + Time.day t

abbrev pub hour_no : Time → ℕ
hour_no t = day_no t * 24 + Time.hour t

pub stamp_lem : (t : Time) → stamp t ≡ hour_no t * 60 + Time.minute t
unfolding stamp
stamp_lem t = refl

pub month_no-after :
    (y m : ℕ) → 1 ≤ m → m ≤ 12 → year_after y m * 12 + month_after m ≡ y * 12 + m + 1
month_no-after y m low high = ground arith

pub month_after-low : (m : ℕ) → 1 ≤ month_after m
month_after-low m = ground arith

pub month_after-high : (m : ℕ) → m ≤ 12 → month_after m ≤ 12
month_after-high m h = ground arith

pub first_of_next-IsTime : (y m : ℕ) → 1 ≤ m → m ≤ 12 → IsTime (first_of_next y m)
first_of_next-IsTime y m low high = record {
  month_low = month_after-low m;
  month_high = month_after-high m high;
  day_low = omega arith;
  day_high = omega (arith, days_in_low (year_after y m) (month_after m));
  hour_high = omega arith;
  minute_high = omega arith;
}

pub skip_day-IsTime : (t : Time) → IsTime t → IsTime (skip_day t)
unfolding skip_day
skip_day-IsTime t h = elim (Bool-cases (ltb (Time.day t) (days_in (Time.year t) (Time.month t)))) [
  | inl more ↦
      rw (skip_day, more)
        record {
          month_low = IsTime.month_low h;
          month_high = IsTime.month_high h;
          day_low = omega arith;
          day_high = ground (arith, more);
          hour_high = omega arith;
          minute_high = omega arith;
        }
  | inr last ↦
      rw (skip_day, last)
        (first_of_next-IsTime (Time.year t) (Time.month t) (IsTime.month_low h)
          (IsTime.month_high h))
]

abbrev pub SameMonth : Time → Time → Type 0
SameMonth t u = (Time.year u ≡ Time.year t) × (Time.month u ≡ Time.month t)

abbrev pub SameDay : Time → Time → Type 0
SameDay t u =
    (Time.year u ≡ Time.year t) × (Time.month u ≡ Time.month t) × (Time.day u ≡ Time.day t)

-- Time `u` stands at `t` or behind it and before `v`.
abbrev pub Between : Time → Time → Time → Type 0
Between t u v = (stamp t ≤ stamp u) × (stamp u < stamp v)

pub same_month : (t u : Time) → IsTime t → IsTime u → month_no t ≡ month_no u → SameMonth t u
same_month t u h k eq =
    let a = IsTime.month_low h in
    let b = IsTime.month_high h in
    let c = IsTime.month_low k in let d = IsTime.month_high k in (omega arith, omega arith)

-- The day of a time is at most 31, as in every month.
pub day_le : (t : Time) → IsTime t → Time.day t ≤ 31
day_le t h = omega (arith, IsTime.day_high h, days_in_high (Time.year t) (Time.month t))

stamp-skip_day :
    (t : Time)
    → IsTime t
    → ((Time.day t < days_in (Time.year t) (Time.month t))
        × (stamp (skip_day t) ≡ (day_no t + 1) * 1440))
      ⊎ ((Time.day t ≡ days_in (Time.year t) (Time.month t))
          × (stamp (skip_day t) ≡ ((month_no t + 1) * 32 + 1) * 1440))
unfolding skip_day stamp
stamp-skip_day t h = elim (Bool-cases (ltb (Time.day t) (days_in (Time.year t) (Time.month t)))) [
  | inl more ↦ inl (ground (arith, more), rw more (omega arith))
  | inr last ↦
      let high = IsTime.day_high h in
      let after =
        month_no-after (Time.year t) (Time.month t) (IsTime.month_low h) (IsTime.month_high h) in
      inr (ground (arith, last, high), rw last (omega (arith, after)))
]

pub skip_day-later : (t : Time) → IsTime t → stamp t < stamp (skip_day t)
skip_day-later t h =
    let a = stamp_lem t in
    let b = IsTime.hour_high h in
    let c = IsTime.minute_high h in
    let d = day_le t h in
    elim (stamp-skip_day t h) [ inl (_, e) ↦ omega arith | inr (_, e) ↦ omega arith ]

pub skip_day-Between : (t u : Time) → IsTime t → IsTime u → Between t u (skip_day t) → SameDay t u
skip_day-Between t u h k (low, high) =
    let a = stamp_lem t in
    let b = stamp_lem u in
    let hh = IsTime.hour_high h in
    let hm = IsTime.minute_high h in
    let kh = IsTime.hour_high k in
    let km = IsTime.minute_high k in
    let hd = day_le t h in
    let kd = day_le u k in
    let kl = IsTime.day_low k in
    elim (stamp-skip_day t h) [
      | inl (_, e) ↦
          let month : month_no t ≡ month_no u = omega arith in
          let (y, m) = same_month t u h k month in (y, m, omega arith)
      | inr (last, e) ↦
          let month : month_no t ≡ month_no u = omega arith in
          let (y, m) = same_month t u h k month in
          let most : Time.day u ≤ days_in (Time.year t) (Time.month t) =
            rw (← y, ← m) (IsTime.day_high k) in
          (y, m, omega arith)
    ]
