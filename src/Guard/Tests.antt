-- ===== src/Guard/Tests.antt =====
-- internal/guard/rbac.go: tests of the guard, on two statements of which the second stands behind a
-- comment.
use go_database.Base.{
  length, Str, str, str_eq, has_prefix, index, to_upper, trim_space, join, elem, suc, ◌≤◌, ◌≡◌,
  refl, ◌⊎◌, true, false, some, [], ◌∷◌, ◌++◌, arith,
}
use go_database.Auth.Permission.{perm_connections_exec}
use go_database.Guard.{
  trim_loop, trim_sql, split_statements, detect_command, detect_step, check_command, prefix_command,
  risk_level,
}
use go_database.Guard.Trim.{trim_sql-IsBare}
use go_database.Guard.Split.{join-split_statements}
use go_database.Suggest.Types.{cmd_unknown}
use go_database.Guard.Detect.{statements, statement_risk, statement_risk-le, check_command-write}

abbrev hidden : Str
hidden = str "SELECT 1;/**/DROP TABLE T"

abbrev plain : Str
plain = str "select 1;drop table t"

trim_sql-IsBare_example :
    (t : Str) × (trim_loop (suc (length (str "-- a\nselect 1"))) (trim_space (str "-- a\nselect 1"))
      ≡ some t)
    × (trim_sql (str "-- a\nselect 1") ≡ t)
    × ((s : Str) × (t ≡ to_upper s)
        × (has_prefix s (str "--") ≡ false)
        × (has_prefix s (str "/*") ≡ false))
trim_sql-IsBare_example = trim_sql-IsBare (str "-- a\nselect 1")

join-split_statements_example :
    (join (str ";") (split_statements (str "a;'b;c';")) ≡ str "a;'b;c';")
    ⊎ (join (str ";") (split_statements (str "a;'b;c';")) ++ str ";" ≡ str "a;'b;c';")
join-split_statements_example = join-split_statements (str "a;'b;c';")

plain_second : elem (str "DROP TABLE T") (statements plain) ≡ true
unfolding split_statements trim_sql trim_space to_upper has_prefix index str_eq
plain_second = refl

statement_risk-le_example :
    ((s : Str)
      → elem s (statements plain) ≡ true
      → statement_risk s ≤ risk_level (detect_command plain))
    × ((detect_command plain ≡ cmd_unknown)
        ⊎ ((s : Str) × (elem s (statements plain) ≡ true)
            × (prefix_command (trim_space s) ≡ detect_command plain)))
statement_risk-le_example = statement_risk-le plain

drop_writes : 2 ≤ statement_risk (str "DROP TABLE T")
unfolding prefix_command has_prefix trim_space
drop_writes = omega arith

plain_allowed : (check_command plain (perm_connections_exec ∷ [])).1 ≡ true
unfolding check_command detect_command detect_step prefix_command split_statements trim_sql
    trim_space to_upper has_prefix index str_eq
plain_allowed = refl

check_command-write_example : elem perm_connections_exec (perm_connections_exec ∷ []) ≡ true
check_command-write_example =
    check_command-write plain (perm_connections_exec ∷ []) (str "DROP TABLE T") plain_second
      drop_writes plain_allowed

hidden-statements : statements hidden ≡ str "SELECT 1" ∷ str "/**/DROP TABLE T" ∷ []
unfolding split_statements trim_sql trim_space to_upper has_prefix index
hidden-statements = refl

starts_select : has_prefix (trim_space (str "SELECT 1")) (str "SELECT") ≡ true
unfolding trim_space has_prefix
starts_select = refl

starts_comment : has_prefix (trim_space (str "/**/DROP TABLE T")) (str "/*") ≡ true
unfolding trim_space has_prefix
starts_comment = refl
