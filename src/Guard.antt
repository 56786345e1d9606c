-- ===== src/Guard.antt =====
-- internal/guard/rbac.go: the command of a text of SQL, and the permission that it needs.
pub mod Trim
pub mod Split
pub mod Detect
mod Tests
use go_database.Base.{
  ltb, ◌==◌, if◌then◌else◌, length, drop, is_nil, Str, str, has_prefix, index, to_upper, trim_space,
  elem, ℕ, zero, suc, ◌+◌, Bool, true, false, ◌||◌, Option, none, some, List, [], ◌∷◌, ◌++◌,
}
use go_database.Auth.Permission.{perm_connections_query, perm_connections_exec}
use go_database.Suggest.Types.{
  CommandType, cmd_select, cmd_insert, cmd_update, cmd_delete, cmd_create, cmd_drop, cmd_alter,
  cmd_truncate, cmd_unknown,
}

-- The map `commandPermissions`.
abbrev pub command_permission : CommandType → Option Str
command_permission cmd_select = some perm_connections_query
command_permission cmd_insert = some perm_connections_exec
command_permission cmd_update = some perm_connections_exec
command_permission cmd_delete = some perm_connections_exec
command_permission cmd_create = some perm_connections_exec
command_permission cmd_drop = some perm_connections_exec
command_permission cmd_alter = some perm_connections_exec
command_permission cmd_truncate = some perm_connections_exec
command_permission cmd_unknown = none

abbrev pub risk_level : CommandType → ℕ
risk_level cmd_drop = 5
risk_level cmd_truncate = 5
risk_level cmd_delete = 4
risk_level cmd_alter = 4
risk_level cmd_create = 3
risk_level cmd_update = 3
risk_level cmd_insert = 2
risk_level cmd_select = 1
risk_level cmd_unknown = 0

unfoldable pub prefix_command : Str → CommandType
prefix_command sql =
    if has_prefix sql (str "SELECT")
    then cmd_select
    else if has_prefix sql (str "INSERT")
    then cmd_insert
    else if has_prefix sql (str "UPDATE")
    then cmd_update
    else if has_prefix sql (str "DELETE")
    then cmd_delete
    else if has_prefix sql (str "CREATE")
    then cmd_create
    else if has_prefix sql (str "DROP")
    then cmd_drop
    else if has_prefix sql (str "ALTER")
    then cmd_alter
    else if has_prefix sql (str "TRUNCATE")
    then cmd_truncate
    else cmd_unknown

-- The loop of `trimSQL`, one unit of fuel a round. A round that goes on drops at least two bytes.
pub trim_loop : ℕ → Str → Option Str
trim_loop zero s = none
trim_loop (suc fuel) s =
    let after_line : Option Str = elim (index s (str "\n")) [
      | some i ↦ trim_loop fuel (trim_space (drop (i + 1) s))
      | none ↦ some []
    ] in
    let after_block : Option Str = elim (index s (str "*/")) [
      | some i ↦ trim_loop fuel (trim_space (drop (i + 2) s))
      | none ↦ some []
    ] in
    if has_prefix s (str "--")
    then after_line
    else if has_prefix s (str "/*")
    then after_block
    else some (to_upper s)

abbrev or_nil : Option Str → Str
or_nil none = []
or_nil (some s) = s

-- The fuel is one more than the length.
unfoldable pub trim_sql : Str → Str
unfolding trim_loop
trim_sql sql = or_nil (trim_loop (suc (length sql)) (trim_space sql))

-- The variables of `splitStatements`; `quote` is `none` outside a string literal.
pub record Splitter : Type 0 where
  pub out : List Str
  pub cur : Str
  pub quote : Option ℕ

abbrev is_quote : ℕ → Bool
is_quote c = c == b'\'' || c == b'"' || c == b'`'

pub split_step : Splitter → ℕ → Splitter
split_step s c = elim s.quote [
  | some q ↦ record s { cur = s.cur ++ c ∷ []; quote = if c == q then none else some q }
  | none ↦
      if is_quote c
      then record s { cur = s.cur ++ c ∷ []; quote = some c }
      else if c == b';'
      then record { out = s.out ++ s.cur ∷ []; cur = []; quote = none }
      else record s { cur = s.cur ++ c ∷ [] }
]

pub split_run : Splitter → Str → Splitter
unfolding split_step
split_run s [] = s
split_run s (c ∷ sql) = split_run (split_step s c) sql

pub split_end : Splitter → List Str
split_end s = if is_nil s.cur then s.out else s.out ++ s.cur ∷ []

abbrev pub split_start : Splitter
split_start = record { out = []; cur = []; quote = none }

unfoldable pub split_statements : Str → List Str
unfolding split_run split_end
split_statements sql = split_end (split_run split_start sql)

-- The variables of `detectCommand`.
pub record Highest : Type 0 where
  pub command : CommandType
  pub risk : ℕ

abbrev is_unknown : CommandType → Bool
is_unknown cmd_unknown = true
is_unknown _ = false

pub detect_step : Highest → Str → Highest
detect_step h stmt =
    let trimmed = trim_space stmt in
    if is_nil trimmed
    then h
    else let c = prefix_command trimmed in
      if is_unknown c
      then h
      else if ltb h.risk (risk_level c)
      then record { command = c; risk = risk_level c }
      else h

pub detect_loop : Highest → List Str → Highest
detect_loop h [] = h
detect_loop h (stmt ∷ stmts) = detect_loop (detect_step h stmt) stmts

abbrev pub no_command : Highest
no_command = record { command = cmd_unknown; risk = 0 }

unfoldable pub detect_command : Str → CommandType
unfolding detect_loop
detect_command sql = (detect_loop no_command (split_statements (trim_sql sql))).command

check_permission : Option Str → List Str → Bool
check_permission none permissions = false
check_permission (some perm) permissions = elem perm permissions

unfoldable pub check_command : Str → List Str → CommandType × Bool
unfolding check_permission
check_command sql permissions =
    let cmd = detect_command sql in (cmd, check_permission (command_permission cmd) permissions)

abbrev keeps_suggestion : List Str → Option Str → Bool
keeps_suggestion permissions none = true
keeps_suggestion permissions (some perm) = elem perm permissions

-- `FilterSuggestions`, of the texts of the suggestions.
pub filter_suggestions : List Str → List Str → List Str
filter_suggestions [] permissions = []
filter_suggestions (s ∷ sugg) permissions =
    let filtered = filter_suggestions sugg permissions in
    if keeps_suggestion permissions (command_permission (detect_command s))
    then s ∷ filtered
    else filtered
