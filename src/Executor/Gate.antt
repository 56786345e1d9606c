-- ===== src/Executor/Gate.antt =====
-- internal/executor/guard.go: the gate through which the agent and the MCP tools reach databases.
pub mod Scope
pub mod Keeps
use go_database.Base.{
  if◌then◌else◌, Str, str, elem, ℤ, pos, Bool, true, false, not, Option, none, some, List, [], ◌++◌,
}
use go_database.Connection.Types.{Summary, Connection}
use go_database.Plugin.Types.{Result, Schema, Reply, ok, err}
use go_database.Executor.Execute.{Manager, ExecutionResult, execute as run}

-- The scope of a caller; `mgr` and `ex` of the source are the section's manager.
pub record Gate : Type 0 where
  pub db_access : List Str
  pub is_admin : Bool

-- `NewGuardGate`
abbrev pub new_guard_gate : Gate
new_guard_gate = record { db_access = []; is_admin = false }

-- `WithScope`
abbrev pub with_scope : Gate → List Str → Bool → Gate
with_scope g db_access is_admin = record { db_access = db_access; is_admin = is_admin }

-- `allowed` and `IsAllowed`
unfoldable pub allowed : Gate → Str → Bool
allowed g id = if g.is_admin then true else elem id g.db_access

abbrev pub access_denied : Str → Str
access_denied id = str "access denied to connection " ++ id

module _ {W : Type 0} (mgr : Manager W) where
  unfoldable pub list : Gate → W → List Summary
  list g w = if g.is_admin then mgr.list w else mgr.list_visible [] g.db_access false w

  unfoldable pub list_visible : Gate → Str → W → List Summary
  list_visible g user_id w =
      if g.is_admin then mgr.list w else mgr.list_visible user_id g.db_access false w

  unfoldable pub get_connection : Gate → Str → W → Reply Connection
  get_connection g id w =
      if not (allowed g id) then err (access_denied id) else mgr.get_connection id w

  -- The check in front of each call of a database.
  abbrev pub guarded : {A : Type 0} → Gate → Str → (W → Reply A × W) → W → Reply A × W
  guarded g id call w = if not (allowed g id) then (err (access_denied id), w) else call w

  unfoldable pub query : Gate → Str → Str → W → Reply Result × W
  query g id sql = guarded g id (mgr.query id sql)

  abbrev or_empty : Option Result → Result
  or_empty (some r) = r
  or_empty none = record { columns = []; rows = []; rows_affected = pos 0; duration = pos 0 }

  -- The answer of the executor as the gate passes it on. A success always has a result.
  abbrev pub gate_reply : ExecutionResult × W → Reply Result × W
  gate_reply (res, w) = (
    if not res.success
        then (if res.needs_confirm
            then err
                (str "blocked by guard: " ++ res.risk_info ++ str " (needs human confirmation)")
            else err res.error)
        else ok (or_empty res.result),
    w,
  )

  unfoldable pub execute : ℤ → Gate → Str → Str → W → Reply Result × W
  execute elapsed g id sql = guarded g id (λ w.
      gate_reply
        (run mgr elapsed (record { connection_id = id; sql = sql; confirm_high = false }) w))

  unfoldable pub tables : Gate → Str → W → Reply (List Str) × W
  tables g id = guarded g id (mgr.tables id)

  unfoldable pub schema : Gate → Str → W → Reply Schema × W
  schema g id = guarded g id (mgr.schema id)

  unfoldable pub databases : Gate → Str → W → Reply (List Str) × W
  databases g id = guarded g id (mgr.databases id)
