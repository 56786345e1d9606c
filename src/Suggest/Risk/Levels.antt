-- ===== src/Suggest/Risk/Levels.antt =====
-- internal/suggest/risk.go: the evaluator against the guard's reading of a statement.
use go_database.Base.{
  Str, str, has_prefix, to_upper, trim_space, has_prefix_sound, ◌≤◌, ◌≡◌, refl, ◌⊎◌, inl, inr, true,
  arith,
}
use go_database.Suggest.Types.{risk_low, risk_medium, risk_high}
use go_database.Suggest.Risk.{
  evaluate_select, evaluate_update, evaluate_delete, classify_upper, classify,
}
use go_database.Suggest.Types.{cmd_unknown}
use go_database.Guard.{prefix_command, risk_level}
use go_database.Guard.Detect.{prefix_command-select}

-- The text that both read: in upper case, without white space around it.
abbrev pub normalised : Str → Str
normalised sql = trim_space (to_upper sql)

-- What a text with a known first word is for the guard.
show_unknown : (t : Str) → has_prefix t (str "SHOW") ≡ true → prefix_command t ≡ cmd_unknown
unfolding prefix_command has_prefix
show_unknown t h = let (rest, e) = has_prefix_sound t (str "SHOW") h in rw e refl

describe_unknown : (t : Str) → has_prefix t (str "DESCRIBE") ≡ true → prefix_command t ≡ cmd_unknown
unfolding prefix_command has_prefix
describe_unknown t h = let (rest, e) = has_prefix_sound t (str "DESCRIBE") h in rw e refl

explain_unknown : (t : Str) → has_prefix t (str "EXPLAIN") ≡ true → prefix_command t ≡ cmd_unknown
unfolding prefix_command has_prefix
explain_unknown t h = let (rest, e) = has_prefix_sound t (str "EXPLAIN") h in rw e refl

-- A statement that the evaluator calls low is a SELECT or no command that the guard knows.
classify-low :
    (sql : Str) → (classify sql).0 ≡ risk_low → risk_level (prefix_command (normalised sql)) ≤ 1
unfolding classify classify_upper evaluate_select evaluate_update evaluate_delete
classify-low sql h =
    let t = normalised sql in
    ground (arith, show_unknown t, describe_unknown t, explain_unknown t, prefix_command-select t)

-- A comment in front hides the danger: a text that begins with a comment is of medium risk, whatever
-- follows.
pub classify-comment :
    (sql : Str)
    → (has_prefix (normalised sql) (str "--") ≡ true)
      ⊎ (has_prefix (normalised sql) (str "/*") ≡ true)
    → classify sql ≡ (risk_medium, str "Unknown operation")
unfolding classify classify_upper has_prefix
classify-comment sql (inl h) =
    let (rest, e) = has_prefix_sound (normalised sql) (str "--") h in rw e refl
classify-comment sql (inr h) =
    let (rest, e) = has_prefix_sound (normalised sql) (str "/*") h in rw e refl

-- What the guard ranks highest, DROP and TRUNCATE, the evaluator calls high.
classify-high :
    (sql : Str) → 5 ≤ risk_level (prefix_command (normalised sql)) → (classify sql).0 ≡ risk_high
unfolding classify classify_upper prefix_command
classify-high sql h =
    let t = normalised sql in ground (arith, show_unknown t, describe_unknown t, explain_unknown t)
