-- ===== src/Executor/Execute.antt =====
-- internal/executor/executor.go: `Execute`, which asks for confirmation before dangerous statements.
pub mod Keeps
pub mod Estimate
pub mod Confirm
pub mod Comment
use go_database.Base.{
  if◌then◌else◌, drop, is_nil, Str, str, has_prefix, index, contains, to_upper, trim_space,
  show_int, ltb_ℤ, ℤ, pos, negsuc, ℕ, ◌*◌, Bool, true, false, not, ◌&&◌, ◌||◌, Option, none, some,
  List, [], ◌∷◌, ◌++◌,
}
use go_database.Connection.Types.{Summary, Connection}
use go_database.Plugin.Types.{Schema, Value, int64, Result, Reply, ok, err}
use go_database.Suggest.Types.{RiskLevel, risk_low, is_high, is_medium}
use go_database.Suggest.Risk.{classify}
use go_database.Guard

-- `trimSQL` of this package is the guard's, word for word.
abbrev pub trim_sql : Str → Str
trim_sql = Guard.trim_sql

-- The connection manager, as this package calls it (`Manager` in guard.go): each call of a database
-- moves the state `W`, which the map of connections is part of.
pub record Manager (W : Type 0) : Type 0 where
  pub list : W → List Summary
  pub list_visible : Str → List Str → Bool → W → List Summary
  pub get_connection : Str → W → Reply Connection
  pub query : Str → Str → W → Reply Result × W
  pub execute : Str → Str → W → Reply Result × W
  pub tables : Str → W → Reply (List Str) × W
  pub schema : Str → W → Reply Schema × W
  pub databases : Str → W → Reply (List Str) × W

pub record ExecutionRequest : Type 0 where
  pub connection_id : Str
  pub sql : Str
  pub confirm_high : Bool

-- A `RiskLevel` that was not set is `none`.
pub record ExecutionResult : Type 0 where
  pub success : Bool
  pub result : Option Result
  pub risk_level : Option RiskLevel
  pub risk_info : Str
  pub needs_confirm : Bool
  pub error : Str

-- The literal `&plugin.Result{RowsAffected: count}`.
abbrev pub affected_rows : ℤ → Result
affected_rows n = record { columns = []; rows = []; rows_affected = n; duration = pos 0 }

-- `result.Rows[0][0].(int64)`, where there is such a cell.
abbrev first_cell : List (List Value) → Option ℤ
first_cell ((int64 n ∷ cells) ∷ rows) = some n
first_cell _ = none

-- Both branches on " WHERE" build the same text.
abbrev pub estimate_sql : Str → ℕ → Str
estimate_sql sql from_idx = str "SELECT COUNT(*) AS estimate FROM " ++ drop from_idx sql

abbrev pub estimate_drop : Str → Option Result
estimate_drop upper =
    if has_prefix upper (str "DROP") || has_prefix upper (str "TRUNCATE")
    then (if contains upper (str "TABLE") then some (affected_rows (negsuc 0)) else none)
    else none

abbrev counted : Reply Result → Option ℤ
counted (ok r) = first_cell r.rows
counted (err e) = none

abbrev estimate_end : Option ℤ → Str → Option Result
estimate_end (some n) upper = some (affected_rows n)
estimate_end none upper = estimate_drop upper

module _ {W : Type 0} (mgr : Manager W) where
  abbrev pub after_count : Str → Reply Result × W → Option Result × W
  after_count upper (reply, w) = (estimate_end (counted reply) upper, w)

  unfoldable pub estimate_affected : Str → Str → W → Option Result × W
  estimate_affected id sql w =
      let upper = to_upper (trim_space sql) in
      if has_prefix upper (str "DELETE") || has_prefix upper (str "UPDATE")
      then (elim (index upper (str "FROM")) [
        | some i ↦ after_count upper (mgr.query id (estimate_sql sql i) w)
        | none ↦ (estimate_drop upper, w)
      ])
      else (estimate_drop upper, w)

  -- `isQuery`
  unfoldable pub is_query : Str → Bool
  is_query sql =
      let trimmed = trim_sql sql in
      has_prefix trimmed (str "SELECT")
      || has_prefix trimmed (str "SHOW")
      || has_prefix trimmed (str "DESCRIBE")
      || has_prefix trimmed (str "EXPLAIN")

  abbrev pub run_end : ℤ → RiskLevel → Str → Reply Result × W → ExecutionResult × W
  run_end elapsed risk info (ok r, w) = (
    record {
      success = true;
      result = some (record r { duration = elapsed });
      risk_level = some risk;
      risk_info = info;
      needs_confirm = false;
      error = [];
    },
    w,
  )
  run_end elapsed risk info (err e, w) = (
    record {
      success = false;
      result = none;
      risk_level = some risk;
      risk_info = info;
      needs_confirm = false;
      error = e;
    },
    w,
  )

  -- The part of `Execute` behind the checks; `elapsed` is the time that the call took.
  unfoldable pub run_statement : ℤ → Str → Str → RiskLevel → Str → W → ExecutionResult × W
  run_statement elapsed id sql risk info w =
      run_end elapsed risk info (if is_query sql then mgr.query id sql w else mgr.execute id sql w)

  abbrev pub ask : RiskLevel → Str → Option Result → ExecutionResult
  ask risk info affected = record {
    success = false;
    result = affected;
    risk_level = some risk;
    risk_info = info;
    needs_confirm = true;
    error = [];
  }

  abbrev is_large : Option Result → Bool
  is_large none = false
  is_large (some r) = ltb_ℤ (pos 100) r.rows_affected

  unfoldable pub check_medium :
      ℤ → Str → Str → RiskLevel → Str → Option Result × W → ExecutionResult × W
  check_medium elapsed id sql risk info (none, w) = run_statement elapsed id sql risk info w
  check_medium elapsed id sql risk info (some r, w) =
      if is_large (some r)
      then (
        ask risk (info ++ (str " (affects ~" ++ show_int r.rows_affected ++ str " rows)")) (some r),
        w,
      )
      else run_statement elapsed id sql risk info w

  abbrev pub ask_high : RiskLevel → Str → Option Result × W → ExecutionResult × W
  ask_high risk info (affected, w) = (ask risk info affected, w)

  unfoldable pub execute_classified :
      ℤ → ExecutionRequest → Str → RiskLevel × Str → W → ExecutionResult × W
  execute_classified elapsed req sql (risk, info) w =
      if is_high risk && not req.confirm_high
      then ask_high risk info (estimate_affected req.connection_id sql w)
      else if is_medium risk && not req.confirm_high
      then check_medium elapsed req.connection_id sql risk info
          (estimate_affected req.connection_id sql w)
      else run_statement elapsed req.connection_id sql risk info w

  abbrev empty_query : ExecutionResult
  empty_query = record {
    success = false;
    result = none;
    risk_level = none;
    risk_info = [];
    needs_confirm = false;
    error = str "empty query";
  }

  unfoldable pub execute : ℤ → ExecutionRequest → W → ExecutionResult × W
  execute elapsed req w =
      let sql = trim_space req.sql in
      if is_nil sql then (empty_query, w) else execute_classified elapsed req sql (classify sql) w
