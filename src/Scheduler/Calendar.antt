-- ===== src/Scheduler/Calendar.antt =====
-- internal/scheduler/cron.go: the package `time` as far as `nextTime` uses it. A time is a civil one of a
-- zone whose offset never changes, so that adding an hour moves the clock by an hour.
pub mod Order
pub mod Steps
use go_database.Base.{
  ltb, leb, ◌==◌, if◌then◌else◌, ℕ, zero, suc, ◌+◌, ◌-◌, ◌*◌, Bool, not, ◌&&◌, ◌||◌, [],
}
use Prim.Native.Nat.{◌/◌, ◌%◌}

-- `nanos` counts the nanoseconds of the minute.
pub record Time : Type 0 where
  pub year : ℕ
  pub month : ℕ
  pub day : ℕ
  pub hour : ℕ
  pub minute : ℕ
  pub nanos : ℕ

unfoldable pub is_leap : ℕ → Bool
is_leap y = y % 4 == 0 && (not (y % 100 == 0) || y % 400 == 0)

unfoldable pub days_in : ℕ → ℕ → ℕ
unfolding is_leap
days_in y m =
    if m == 2
    then (if is_leap y then 29 else 28)
    else if m == 4 || (m == 6 || (m == 9 || m == 11))
    then 30
    else 31

-- The minutes in their order: months of 32 days are long enough.
unfoldable pub stamp : Time → ℕ
stamp t =
    (((Time.year t * 12 + Time.month t) * 32 + Time.day t) * 24 + Time.hour t) * 60 + Time.minute t

-- `Before`
abbrev pub before : Time → Time → Bool
before a b = ltb (stamp a) (stamp b) || (stamp a == stamp b && ltb (Time.nanos a) (Time.nanos b))

abbrev pub year_after : ℕ → ℕ → ℕ
year_after y m = if m == 12 then y + 1 else y

abbrev pub month_after : ℕ → ℕ
month_after m = if m == 12 then 1 else m + 1

-- The days before the month `m` of a year.
unfoldable pub days_before : ℕ → ℕ → ℕ
unfolding days_in
days_before y zero = 0
days_before y (suc zero) = 0
days_before y (suc (suc m)) = days_before y (suc m) + days_in y (suc m)

-- `Weekday`: day 1 of year 1 was a Monday, and Sunday is 0.
unfoldable pub weekday : ℕ → ℕ → ℕ → ℕ
unfolding days_before
weekday y m d = let p = y - 1 in (365 * p + p / 4 - p / 100 + p / 400 + days_before y m + d) % 7

abbrev pub midnight : ℕ → ℕ → ℕ → Time
midnight y m d = record { year = y; month = m; day = d; hour = 0; minute = 0; nanos = 0 }

abbrev pub first_of_next : ℕ → ℕ → Time
first_of_next y m = midnight (year_after y m) (month_after m) 1

-- `AddDate(0, 0, 1)` and midnight of that day
unfoldable pub skip_day : Time → Time
skip_day t =
    if ltb (Time.day t) (days_in (Time.year t) (Time.month t))
    then midnight (Time.year t) (Time.month t) (Time.day t + 1)
    else first_of_next (Time.year t) (Time.month t)

-- `AddDate(0, 1, 0)`, which carries a day that the month does not have into the month behind it, and the
-- first of the month that results
unfoldable pub skip_month : Time → Time
skip_month t =
    let y = year_after (Time.year t) (Time.month t) in
    let m = month_after (Time.month t) in
    if leb (Time.day t) (days_in y m) then midnight y m 1 else first_of_next y m

-- `Add(time.Hour)` and the full hour
unfoldable pub skip_hour : Time → Time
unfolding skip_day
skip_hour t =
    if ltb (Time.hour t) 23
    then record (midnight (Time.year t) (Time.month t) (Time.day t)) { hour = Time.hour t + 1 }
    else skip_day t

-- `Add(time.Minute)`
unfoldable pub add_minute : Time → Time
unfolding skip_hour
add_minute t =
    if ltb (Time.minute t) 59
    then record t { minute = Time.minute t + 1 }
    else record (skip_hour t) { nanos = Time.nanos t }

-- `AddDate(2, 0, 0)`
unfoldable pub add_two_years : Time → Time
add_two_years t =
    let y = Time.year t + 2 in
    if leb (Time.day t) (days_in y (Time.month t)) then record t { year = y } else record t {
      year = year_after y (Time.month t);
      month = month_after (Time.month t);
      day = Time.day t - days_in y (Time.month t);
    }
