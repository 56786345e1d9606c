-- ===== src/Scheduler/Calendar/Steps.antt =====
-- internal/scheduler/cron.go: the steps by a month, by an hour and by a minute.
use go_database.Base.{ltb, leb, Bool-cases, ℕ, ◌+◌, ◌*◌, ◌≤◌, ◌<◌, ◌≡◌, refl, ◌⊎◌, inl, inr, arith}
use go_database.Scheduler.Calendar.{
  Time, days_in, stamp, year_after, month_after, skip_day, skip_month, skip_hour, add_minute,
}
use go_database.Scheduler.Calendar.Order.{
  IsTime, days_in_low, month_no, hour_no, stamp_lem, month_no-after, month_after-low,
  month_after-high, first_of_next-IsTime, skip_day-IsTime, SameMonth, SameDay, Between, same_month,
  day_le, skip_day-later, skip_day-Between,
}

next_of : Time → ℕ
next_of t = days_in (year_after (Time.year t) (Time.month t)) (month_after (Time.month t))

pub skip_month-IsTime : (t : Time) → IsTime t → IsTime (skip_month t)
unfolding skip_month
skip_month-IsTime t h =
    let y = year_after (Time.year t) (Time.month t) in
    let m = month_after (Time.month t) in
    let low = month_after-low (Time.month t) in
    let high = month_after-high (Time.month t) (IsTime.month_high h) in
    let days = days_in_low y m in
    elim (Bool-cases (leb (Time.day t) (days_in y m))) [
      | inl fits ↦
          rw (skip_month, fits)
            record {
              month_low = low;
              month_high = high;
              day_low = omega arith;
              day_high = omega arith;
              hour_high = omega arith;
              minute_high = omega arith;
            }
      | inr over ↦ rw (skip_month, over) (first_of_next-IsTime y m low high)
    ]

stamp-skip_month :
    (t : Time)
    → IsTime t
    → (stamp (skip_month t) ≡ ((month_no t + 1) * 32 + 1) * 1440)
      ⊎ ((28 < Time.day t) × (stamp (skip_month t) ≡ ((month_no t + 2) * 32 + 1) * 1440))
unfolding skip_month stamp
stamp-skip_month t h =
    let y = year_after (Time.year t) (Time.month t) in
    let m = month_after (Time.month t) in
    let low = month_after-low (Time.month t) in
    let high = month_after-high (Time.month t) (IsTime.month_high h) in
    let days = days_in_low y m in
    let one =
      month_no-after (Time.year t) (Time.month t) (IsTime.month_low h) (IsTime.month_high h) in
    let two = month_no-after y m low high in
    elim (Bool-cases (leb (Time.day t) (days_in y m))) [
      | inl fits ↦ inl (rw fits (omega arith))
      | inr over ↦ inr (ground (arith, over), rw over (omega arith))
    ]

pub skip_month-later : (t : Time) → IsTime t → stamp t < stamp (skip_month t)
skip_month-later t h =
    let a = stamp_lem t in
    let b = IsTime.hour_high h in
    let c = IsTime.minute_high h in
    let d = day_le t h in
    elim (stamp-skip_month t h) [ inl e ↦ omega arith | inr (_, e) ↦ omega arith ]

pub skip_month-Between :
    (t u : Time)
    → IsTime t
    → IsTime u
    → Time.day t ≤ 28
    → Between t u (skip_month t)
    → SameMonth t u
skip_month-Between t u h k early (low, high) =
    let a = stamp_lem t in
    let b = stamp_lem u in
    let hh = IsTime.hour_high h in
    let hm = IsTime.minute_high h in
    let kh = IsTime.hour_high k in
    let km = IsTime.minute_high k in
    let kd = day_le u k in
    let kl = IsTime.day_low k in
    elim (stamp-skip_month t h) [
      | inl e ↦ let month : month_no t ≡ month_no u = omega arith in same_month t u h k month
      | inr (late, _) ↦ grind arith
    ]

pub skip_hour-IsTime : (t : Time) → IsTime t → IsTime (skip_hour t)
unfolding skip_hour
skip_hour-IsTime t h = elim (Bool-cases (ltb (Time.hour t) 23)) [
  | inl more ↦
      rw (skip_hour, more)
        record {
          month_low = IsTime.month_low h;
          month_high = IsTime.month_high h;
          day_low = IsTime.day_low h;
          day_high = IsTime.day_high h;
          hour_high = ground (arith, more);
          minute_high = omega arith;
        }
  | inr last ↦ rw (skip_hour, last) (skip_day-IsTime t h)
]

-- The hour has a successor on its day, or it is the last one and the step is that to the next day.
skip_hour-cases :
    (t : Time)
    → IsTime t
    → ((Time.hour t < 23) × (stamp (skip_hour t) ≡ (hour_no t + 1) * 60))
      ⊎ ((Time.hour t ≡ 23) × (skip_hour t ≡ skip_day t))
unfolding skip_hour stamp
skip_hour-cases t h = elim (Bool-cases (ltb (Time.hour t) 23)) [
  | inl more ↦ inl (ground (arith, more), rw more (omega arith))
  | inr last ↦
      let high = IsTime.hour_high h in inr (ground (arith, last, high), rw (skip_hour, last) refl)
]

pub skip_hour-later : (t : Time) → IsTime t → stamp t < stamp (skip_hour t)
skip_hour-later t h =
    let a = stamp_lem t in
    let c = IsTime.minute_high h in
    elim (skip_hour-cases t h) [ inl (_, e) ↦ omega arith | inr (_, e) ↦ rw e (skip_day-later t h) ]

abbrev pub SameHour : Time → Time → Type 0
SameHour t u = SameDay t u × (Time.hour u ≡ Time.hour t)

pub skip_hour-Between :
    (t u : Time) → IsTime t → IsTime u → Between t u (skip_hour t) → SameHour t u
skip_hour-Between t u h k (low, high) =
    let a = stamp_lem t in
    let b = stamp_lem u in
    let hh = IsTime.hour_high h in
    let hm = IsTime.minute_high h in
    let kh = IsTime.hour_high k in
    let km = IsTime.minute_high k in
    let hd = day_le t h in
    let kd = day_le u k in
    elim (skip_hour-cases t h) [
      | inl (_, e) ↦
          let month : month_no t ≡ month_no u = omega arith in
          let (y, m) = same_month t u h k month in ((y, m, omega arith), omega arith)
      | inr (last, e) ↦
          let (y, m, d) = skip_day-Between t u h k (low, rw e at high) in ((y, m, d), omega arith)
    ]

pub add_minute-IsTime : (t : Time) → IsTime t → IsTime (add_minute t)
unfolding add_minute
add_minute-IsTime t h = elim (Bool-cases (ltb (Time.minute t) 59)) [
  | inl more ↦
      rw (add_minute, more)
        record {
          month_low = IsTime.month_low h;
          month_high = IsTime.month_high h;
          day_low = IsTime.day_low h;
          day_high = IsTime.day_high h;
          hour_high = IsTime.hour_high h;
          minute_high = ground (arith, more);
        }
  | inr last ↦
      let k = skip_hour-IsTime t h in
      rw (add_minute, last)
        record {
          month_low = IsTime.month_low k;
          month_high = IsTime.month_high k;
          day_low = IsTime.day_low k;
          day_high = IsTime.day_high k;
          hour_high = IsTime.hour_high k;
          minute_high = IsTime.minute_high k;
        }
]

add_minute-cases :
    (t : Time)
    → IsTime t
    → ((Time.minute t < 59) × (stamp (add_minute t) ≡ stamp t + 1))
      ⊎ ((Time.minute t ≡ 59) × (stamp (add_minute t) ≡ stamp (skip_hour t)))
unfolding add_minute stamp
add_minute-cases t h = elim (Bool-cases (ltb (Time.minute t) 59)) [
  | inl more ↦ inl (ground (arith, more), rw more (omega arith))
  | inr last ↦ let high = IsTime.minute_high h in inr (ground (arith, last, high), rw last refl)
]

pub add_minute-later : (t : Time) → IsTime t → stamp t < stamp (add_minute t)
add_minute-later t h = elim (add_minute-cases t h) [
  | inl (_, e) ↦ omega arith
  | inr (_, e) ↦ rw e (skip_hour-later t h)
]

pub add_minute-Between :
    (t u : Time)
    → IsTime t
    → IsTime u
    → Between t u (add_minute t)
    → SameHour t u × (Time.minute u ≡ Time.minute t)
add_minute-Between t u h k (low, high) =
    let a = stamp_lem t in
    let b = stamp_lem u in
    let hh = IsTime.hour_high h in
    let hm = IsTime.minute_high h in
    let kh = IsTime.hour_high k in
    let km = IsTime.minute_high k in
    let hd = day_le t h in
    let kd = day_le u k in
    elim (add_minute-cases t h) [
      | inl (_, e) ↦
          let month : month_no t ≡ month_no u = omega arith in
          let (y, m) = same_month t u h k month in (((y, m, omega arith), omega arith), omega arith)
      | inr (last, e) ↦
          let ((y, m, d), hour) = skip_hour-Between t u h k (low, rw e at high) in
          (((y, m, d), hour), omega arith)
    ]
