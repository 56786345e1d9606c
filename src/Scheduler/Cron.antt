-- ===== src/Scheduler/Cron.antt =====
-- internal/scheduler/cron.go: `parseField` and `nextTime`. The sum `i += step` is not taken modulo 2^64.
pub mod Rounds
pub mod Next
use go_database.Base.{
  ltb, leb, ◌==◌, if◌then◌else◌, ==_iff, ==_refl, Bool-cases, Option-cases, is_some, Bool-ext,
  ◌>>=◌, length, take, drop, is_nil, any, all, select, length-append, length-drop, any-append, Str,
  str, str_eq, has_prefix, has_suffix, index, contains, to_upper, to_lower, is_space, trim_left,
  trim_space, cut, fields, join, show_nat, show_int, lookup, insert, remove, str_eq_refl,
  str_eq_sound, str_eq_iff, str_eq_sym, has_prefix-append, has_prefix_sound, elem, lookup-insert,
  lookup-remove, has_suffix_sound, take-suffix, has_suffix-append, has_prefix-take,
  length-has_prefix, lookup-insert_self, lookup-insert_ne, index_sound, drop-to_upper,
  length-trim_space, trim_space-cons, pos_part, neg_part, ltb_ℤ, ℤ, pos, negsuc, ℕ, zero, suc, ◌+◌,
  ◌-◌, ◌*◌, ◌≤◌, ◌<◌, min, ◌≡◌, refl, sym, ap, ◌∙◌, ◌≢◌, ◌↔◌, ◌⊎◌, inl, inr, Bool, true, false, not,
  ◌&&◌, ◌||◌, Option, none, some, List, [], ◌∷◌, ◌++◌, map, reverse, append_assoc, append-nil,
  arith,
}
use Prim.Native.Nat.{◌^◌}
use go_database.Plugin.Types.{Reply, ok, err}
use go_database.Scheduler.Calendar.{
  Time, stamp, before, weekday, skip_day, skip_month, skip_hour, add_minute, add_two_years,
}

-- `strings.Split(field, ",")`
unfoldable pub split_list : Str → List Str
split_list [] = [] ∷ []
split_list (c ∷ s) = elim (split_list s) [
  | [] ↦ []
  | part ∷ parts ↦ if c == b',' then [] ∷ part ∷ parts else (c ∷ part) ∷ parts
]

digits_from : ℕ → Str → Option ℕ
digits_from n [] = some n
digits_from n (c ∷ s) =
    let rest = digits_from (10 * n + (c - 48)) s in if leb 48 c && leb c 57 then rest else none

abbrev signed : Bool → ℕ → ℤ
signed false n = pos n
signed true zero = pos 0
signed true (suc n) = negsuc n

-- A magnitude that an `int` has.
abbrev in_range : Bool → ℕ → Option ℤ
in_range negative n =
    if leb n (if negative then 2 ^ 63 else 2 ^ 63 - 1) then some (signed negative n) else none

digits : Bool → Str → Option ℤ
unfolding digits_from
digits negative s = if is_nil s then none else digits_from 0 s >>= in_range negative

-- `strconv.Atoi`, with `none` for an error
unfoldable pub atoi : Str → Option ℤ
unfolding digits
atoi [] = none
atoi (c ∷ s) =
    if c == b'-' then digits true s else if c == b'+' then digits false s else digits false (c ∷ s)

abbrev leb_ℤ : ℤ → ℤ → Bool
leb_ℤ a b = not (ltb_ℤ b a)

-- The sum of an `int` and a positive one, which wraps round at 2 ^ 63.
unfoldable pub add_nat : ℤ → ℕ → ℤ
add_nat (pos a) n =
    if ltb (a + n) 9223372036854775808 then pos (a + n) else negsuc (18446744073709551615 - (a + n))
add_nat (negsuc a) n = if leb (suc a) n then pos (n - suc a) else negsuc (a - n)

-- `for i := start; i <= max; i += step`, on fuel
steps_from : ℕ → ℤ → ℕ → ℕ → List ℤ
unfolding add_nat
steps_from zero i step high = []
steps_from (suc fuel) i step high =
    let rest = steps_from fuel (add_nat i step) step high in
    if leb_ℤ i (pos high) then i ∷ rest else []

-- Enough fuel are the numbers from `start` to `max`, and two rounds for each number up to `max`, since a
-- sum that wraps leaves two rounds later a lower number than before.
unfoldable pub steps : ℤ → ℕ → ℕ → List ℤ
unfolding steps_from
steps (pos a) step high = steps_from (suc high - a + 2 * high + 2) (pos a) step high
steps (negsuc a) step high = steps_from (suc high + suc a + 2 * high + 2) (negsuc a) step high

invalid_value : Str → Reply (List ℤ)
invalid_value s = err (str "invalid value: " ++ s)

out_of_range : ℤ → ℕ → ℕ → Reply (List ℤ)
unfolding show_nat show_int
out_of_range v low high = err (
    str "value "
    ++ (show_int v
        ++ (str " out of range [" ++ (show_nat low ++ (str "," ++ (show_nat high ++ str "]"))))))

step_field : Str → Str → ℕ → ℕ → Reply (List ℤ)
unfolding atoi steps str_eq invalid_value
step_field base count low high = elim (atoi count) [
  | none ↦ err (str "invalid step: " ++ count)
  | some n ↦ elim n [
    | negsuc _ ↦ err (str "invalid step: " ++ count)
    | pos step ↦
        if step == 0
        then err (str "invalid step: " ++ count)
        else if str_eq base (str "*")
        then ok (steps (pos low) step high)
        else elim (atoi base) [
          | none ↦ invalid_value base
          | some start ↦ ok (steps start step high)
        ]
  ]
]

-- The loop of `parseField` over the parts; `set` holds what was added before.
unfoldable pub parse_parts : List ℤ → List Str → ℕ → ℕ → Reply (List ℤ)
unfolding atoi steps str_eq trim_space cut step_field invalid_value out_of_range
parse_parts set [] low high = ok set
parse_parts set (text ∷ parts) low high =
    let part = trim_space text in
    if str_eq part (str "*") then ok (set ++ steps (pos low) 1 high) else elim (cut b'/' part) [
      | some halves ↦ elim (step_field halves.0 halves.1 low high) [
        | ok more ↦ ok (set ++ more)
        | err e ↦ err e
      ]
      | none ↦ elim (atoi part) [
        | none ↦ invalid_value part
        | some v ↦ elim (ltb_ℤ v (pos low) || ltb_ℤ (pos high) v) [
          | true ↦ out_of_range v low high
          | false ↦ parse_parts (set ++ v ∷ []) parts low high
        ]
      ]
    ]

-- `parseField`
unfoldable pub parse_field : Str → ℕ → ℕ → Reply (List ℤ)
unfolding split_list parse_parts
parse_field field low high = parse_parts [] (split_list field) low high

-- The five sets of an expression.
pub record Sets : Type 0 where
  pub minutes : List ℤ
  pub hours : List ℤ
  pub days : List ℤ
  pub months : List ℤ
  pub weekdays : List ℤ

abbrev is_pos : ℕ → ℤ → Bool
is_pos n (pos m) = n == m
is_pos n (negsuc _) = false

unfoldable pub has : List ℤ → ℕ → Bool
has set n = any (is_pos n) set

-- A round of the loop of `nextTime`: the time with which it goes on, or `none` where it returns.
unfoldable pub advance : Sets → Time → Option Time
unfolding has weekday skip_month skip_day skip_hour add_minute
advance sets t =
    if not (has (Sets.months sets) (Time.month t))
    then some (skip_month t)
    else if not (has (Sets.days sets) (Time.day t))
    then some (skip_day t)
    else if not (has (Sets.weekdays sets) (weekday (Time.year t) (Time.month t) (Time.day t)))
    then some (skip_day t)
    else if not (has (Sets.hours sets) (Time.hour t))
    then some (skip_hour t)
    else if not (has (Sets.minutes sets) (Time.minute t))
    then some (add_minute t)
    else none

-- How the loop ends.
pub data Search : Type 0 where
  found : Time → Search
  exhausted : Search
  out_of_fuel : Search

unfoldable pub search_from : ℕ → Sets → Time → Time → Search
unfolding advance
search_from zero sets end t = out_of_fuel
search_from (suc fuel) sets end t = elim (before t end) [
  | false ↦ exhausted
  | true ↦ elim (advance sets t) [ none ↦ found t | some u ↦ search_from fuel sets end u ]
]

-- The fuel is the distance of the minutes.
unfoldable pub search_times : Sets → Time → Search
unfolding search_from stamp add_minute add_two_years
search_times sets after =
    let start = add_minute after in
    let end = add_two_years after in
    search_from (suc (suc (stamp end) - stamp start)) sets end start

abbrev with_field {ℓ} : {A : Type ℓ} → Str → Reply (List ℤ) → (List ℤ → Reply A) → Reply A
with_field name (ok set) rest = rest set
with_field name (err e) rest = err (str "cron " ++ (name ++ (str ": " ++ e)))

-- The fields of `nextTime`, read in its order.
unfoldable pub parse_expr : Str → Reply Sets
unfolding parse_field fields show_nat
parse_expr expr = elim (fields expr) [
  | minute ∷ hour ∷ day ∷ month ∷ dow ∷ [] ↦
      with_field (str "minute") (parse_field minute 0 59) (λ minutes.
        with_field (str "hour") (parse_field hour 0 23) (λ hours.
          with_field (str "day") (parse_field day 1 31) (λ days.
            with_field (str "month") (parse_field month 1 12) (λ months.
              with_field (str "dow") (parse_field dow 0 6) (λ weekdays. ok (record {
                minutes = minutes;
                hours = hours;
                days = days;
                months = months;
                weekdays = weekdays;
              }))))))
  | _ ↦ err (str "cron: expected 5 fields, got " ++ show_nat (length (fields expr)))
]

abbrev search_reply : Search → Option (Reply Time)
search_reply (found t) = some (ok t)
search_reply exhausted = some (err (str "cron: no matching time within 2 years"))
search_reply out_of_fuel = none

-- `nextTime`; `none` stands for a loop that ran out of fuel.
unfoldable pub next_time : Str → Time → Option (Reply Time)
unfolding parse_expr search_times
next_time expr after = elim (parse_expr expr) [
  | err e ↦ some (err e)
  | ok sets ↦ search_reply (search_times sets after)
]
