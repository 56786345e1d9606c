-- ===== src/Guard/Trim.antt =====
-- internal/guard/rbac.go: the loop of `trimSQL`.
use go_database.Base.{
  Bool-cases, Option-cases, length, drop, length-drop, Str, str, has_prefix, index, to_upper,
  trim_space, length-has_prefix, length-trim_space, ℕ, zero, suc, ◌+◌, ◌<◌, ◌≡◌, inl, inr, false,
  some, [], arith,
}
use go_database.Guard.{trim_loop, trim_sql}

-- The text strictly falls in each round, so fuel above its length is enough.
trim_loop_returns : (fuel : ℕ) (s : Str) → length s < fuel → (t : Str) × (trim_loop fuel s ≡ some t)
unfolding trim_loop
trim_loop_returns zero s h = absurd (omega arith)
trim_loop_returns (suc fuel) s h = elim (Bool-cases (has_prefix s (str "--"))) [
  | inl line ↦ elim (Option-cases (index s (str "\n"))) [
    | inl e ↦ ([], ground arith)
    | inr (i, e) ↦
        let (t, ends) = trim_loop_returns fuel (trim_space (drop (i + 1) s)) (
          omega (
            arith,
            length-trim_space (drop (i + 1) s),
            length-drop {0} (i + 1) s,
            length-has_prefix s (str "--") line,
          )) in
        (t, ground arith)
  ]
  | inr other ↦ elim (Bool-cases (has_prefix s (str "/*"))) [
    | inl block ↦ elim (Option-cases (index s (str "*/"))) [
      | inl e ↦ ([], ground arith)
      | inr (i, e) ↦
          let (t, ends) = trim_loop_returns fuel (trim_space (drop (i + 2) s)) (
            omega (
              arith,
              length-trim_space (drop (i + 2) s),
              length-drop {0} (i + 2) s,
              length-has_prefix s (str "/*") block,
            )) in
          (t, ground arith)
    ]
    | inr plain ↦ (to_upper s, ground arith)
  ]
]

-- A result that begins with no comment mark, or nothing at all; every letter is in upper case.
abbrev IsBare : Str → Type 0
IsBare t =
    (s : Str) × (t ≡ to_upper s)
    × (has_prefix s (str "--") ≡ false)
    × (has_prefix s (str "/*") ≡ false)

trim_loop-IsBare : (fuel : ℕ) (s t : Str) → trim_loop fuel s ≡ some t → IsBare t
unfolding trim_loop has_prefix to_upper
trim_loop-IsBare zero s t h = cc
trim_loop-IsBare (suc fuel) s t h = elim (Bool-cases (has_prefix s (str "--"))) [
  | inl line ↦ elim (Option-cases (index s (str "\n"))) [
    | inl e ↦ ([], ground arith, ground arith, ground arith)
    | inr (i, e) ↦ trim_loop-IsBare fuel (trim_space (drop (i + 1) s)) t (ground arith)
  ]
  | inr other ↦ elim (Bool-cases (has_prefix s (str "/*"))) [
    | inl block ↦ elim (Option-cases (index s (str "*/"))) [
      | inl e ↦ ([], ground arith, ground arith, ground arith)
      | inr (i, e) ↦ trim_loop-IsBare fuel (trim_space (drop (i + 2) s)) t (ground arith)
    ]
    | inr plain ↦ (s, ground arith, other, plain)
  ]
]

-- Comments in front of a statement are removed to the last: the loop ends by its tests, and what it
-- returns is the upper case of a text that begins neither with "--" nor with "/*".
pub trim_sql-IsBare :
    (sql : Str)
    → (t : Str) × (trim_loop (suc (length sql)) (trim_space sql) ≡ some t)
      × (trim_sql sql ≡ t)
      × ((s : Str) × (t ≡ to_upper s)
          × (has_prefix s (str "--") ≡ false)
          × (has_prefix s (str "/*") ≡ false))
unfolding trim_sql
trim_sql-IsBare sql =
    let (t, e) =
      trim_loop_returns (suc (length sql)) (trim_space sql)
        (omega (arith, length-trim_space sql)) in
    (t, e, ground arith, trim_loop-IsBare (suc (length sql)) (trim_space sql) t e)
