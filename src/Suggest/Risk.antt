-- ===== src/Suggest/Risk.antt =====
-- internal/suggest/risk.go: the level of risk of a statement, by its first word.
pub mod Levels
use go_database.Base.{
  if◌then◌else◌, drop, all, Str, str, has_prefix, index, contains, to_upper, trim_space, ◌+◌, ◌-◌,
  Bool, not, ◌||◌, none, some, [],
}
use go_database.Suggest.Types.{RiskLevel, risk_low, risk_medium, risk_high}

abbrev pub Verdict : Type 0
Verdict = RiskLevel × Str

unfoldable pub evaluate_select : Str → Verdict
evaluate_select sql =
    if contains sql (str "INTO")
    then (risk_medium, str "SELECT INTO creates a new table")
    else (risk_low, str "Read-only query")

unfoldable pub evaluate_update : Str → Verdict
evaluate_update sql =
    if contains sql (str "WHERE")
    then (risk_medium, str "Updates data with WHERE clause")
    else (risk_high, str "UPDATE without WHERE clause - affects ALL rows")

-- What follows the first "WHERE", in the case of the argument.
pub extract_where_clause : Str → Str
extract_where_clause sql = elim (index (to_upper sql) (str "WHERE")) [
  | none ↦ []
  | some i ↦ drop (i + 5) sql
]

unfoldable pub has_specific_condition : Str → Bool
unfolding extract_where_clause
has_specific_condition sql =
    contains (extract_where_clause sql) (str "=")
    || contains (extract_where_clause sql) (str "IN (")

unfoldable pub evaluate_delete : Str → Verdict
evaluate_delete sql =
    if contains sql (str "WHERE")
    then (if has_specific_condition sql
        then (risk_medium, str "Deletes specific rows")
        else (risk_high, str "DELETE with potentially broad WHERE clause"))
    else (risk_high, str "DELETE without WHERE clause - removes ALL rows!")

-- The `switch` of `Classify`, on the text in upper case and trimmed.
unfoldable pub classify_upper : Str → Verdict
classify_upper sql =
    if has_prefix sql (str "SELECT")
    then evaluate_select sql
    else if has_prefix sql (str "SHOW")
        || has_prefix sql (str "DESCRIBE")
        || has_prefix sql (str "EXPLAIN")
    then (risk_low, str "Read-only query")
    else if has_prefix sql (str "INSERT")
    then (risk_medium, str "Inserts data into a table")
    else if has_prefix sql (str "UPDATE")
    then evaluate_update sql
    else if has_prefix sql (str "DELETE")
    then evaluate_delete sql
    else if has_prefix sql (str "TRUNCATE")
    then (risk_high, str "Destructive: removes all rows from a table")
    else if has_prefix sql (str "DROP")
    then (risk_high, str "Destructive: drops database object permanently")
    else if has_prefix sql (str "CREATE")
    then (if contains sql (str "TABLE")
          || contains sql (str "DATABASE")
          || contains sql (str "INDEX")
        then (risk_medium, str "Creates a new database object")
        else (risk_medium, str "CREATE operation"))
    else if has_prefix sql (str "ALTER")
    then (risk_high, str "Modifies database schema structure")
    else if has_prefix sql (str "GRANT") || has_prefix sql (str "REVOKE")
    then (risk_high, str "Modifies permissions")
    else (risk_medium, str "Unknown operation")

unfoldable pub classify : Str → Verdict
classify sql = classify_upper (trim_space (to_upper sql))

-- `Sanitize` returns its argument on every path; its error is always nil.
pub sanitize : Str → Str
sanitize sql =
    let upper = trim_space (to_upper sql) in
    if has_prefix upper (str "DROP") || has_prefix upper (str "TRUNCATE")
    then sql
    else if has_prefix upper (str "DELETE")
    then (if not (contains upper (str "WHERE")) then sql else sql)
    else sql
