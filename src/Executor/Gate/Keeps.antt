-- ===== src/Executor/Gate/Keeps.antt =====
-- internal/executor/guard.go: the calls of the gate, one after the other, and what they leave alone.
use go_database.Base.{Bool-cases, Str, ℤ, ◌≡◌, refl, inl, inr, Bool, true, false, List, [], ◌∷◌}
use go_database.Plugin.Types.{Reply}
use go_database.Executor.Execute.{Manager, ExecutionRequest, ExecutionResult, execute as run}
use go_database.Executor.Execute.Keeps.{execute-keeps}
use go_database.Executor.Gate
use go_database.Executor.Gate.{Gate, allowed, guarded, gate_reply}

-- What the calls of the manager keep, for the connections that can be reached.
pub record IsKept {W : Type 0} (mgr : Manager W) (P : W → Type 0) (reach : Str → Bool)
    : Type 0 where
  pub query_kept : (id sql : Str) (v : W) → reach id ≡ true → P v → P (Manager.query mgr id sql v).1
  pub execute_kept :
      (id sql : Str) (v : W) → reach id ≡ true → P v → P (Manager.execute mgr id sql v).1
  pub tables_kept : (id : Str) (v : W) → reach id ≡ true → P v → P (Manager.tables mgr id v).1
  pub schema_kept : (id : Str) (v : W) → reach id ≡ true → P v → P (Manager.schema mgr id v).1
  pub databases_kept : (id : Str) (v : W) → reach id ≡ true → P v → P (Manager.databases mgr id v).1

module _ {W : Type 0} (mgr : Manager W) (elapsed : ℤ) (g : Gate) (P : W → Type 0)
    (kept : IsKept mgr P (allowed g)) where
  guarded-keeps :
      {A : Type 0} (id : Str) (call : W → Reply A × W) (w : W)
      → P w
      → (allowed g id ≡ true → P (call w).1)
      → P (guarded mgr g id call w).1
  guarded-keeps id call w p keeps = elim (Bool-cases (allowed g id)) [
    | inl scoped ↦ rw scoped (keeps scoped)
    | inr outside ↦ rw outside p
  ]

  pub query-keeps : (id sql : Str) (w : W) → P w → P (Gate.query mgr g id sql w).1
  unfolding Gate.query
  query-keeps id sql w p =
      guarded-keeps id (Manager.query mgr id sql) w p
        (λ scoped. IsKept.query_kept kept id sql w scoped p)

  gate_reply-keeps : (answer : ExecutionResult × W) → P answer.1 → P (gate_reply mgr answer).1
  gate_reply-keeps (res, w) p = p

  pub gate_execute-keeps : (id sql : Str) (w : W) → P w → P (Gate.execute mgr elapsed g id sql w).1
  unfolding Gate.execute
  gate_execute-keeps id sql w p =
      let req : ExecutionRequest = record { connection_id = id; sql = sql; confirm_high = false } in
      guarded-keeps id (λ v. gate_reply mgr (run mgr elapsed req v)) w p
        (λ scoped. gate_reply-keeps (run mgr elapsed req w) (
          execute-keeps mgr P id (λ q v. IsKept.query_kept kept id q v scoped)
            (λ q v. IsKept.execute_kept kept id q v scoped) elapsed req w refl p))

  pub schema-keeps : (id : Str) (w : W) → P w → P (Gate.schema mgr g id w).1
  unfolding Gate.schema
  schema-keeps id w p =
      guarded-keeps id (Manager.schema mgr id) w p (λ scoped. IsKept.schema_kept kept id w scoped p)

  pub tables-keeps : (id : Str) (w : W) → P w → P (Gate.tables mgr g id w).1
  unfolding Gate.tables
  tables-keeps id w p =
      guarded-keeps id (Manager.tables mgr id) w p (λ scoped. IsKept.tables_kept kept id w scoped p)

  pub databases-keeps : (id : Str) (w : W) → P w → P (Gate.databases mgr g id w).1
  unfolding Gate.databases
  databases-keeps id w p =
      guarded-keeps id (Manager.databases mgr id) w p
        (λ scoped. IsKept.databases_kept kept id w scoped p)

-- A call of the gate on a connection.
pub data GateCall : Type 0 where
  query_call : Str → Str → GateCall
  execute_call : Str → Str → GateCall
  tables_call : Str → GateCall
  schema_call : Str → GateCall
  databases_call : Str → GateCall

module _ {W : Type 0} (mgr : Manager W) (elapsed : ℤ) (g : Gate) where
  unfoldable pub gate_call : GateCall → W → W
  unfolding Gate.query Gate.execute Gate.tables Gate.schema Gate.databases
  gate_call (query_call id sql) w = (Gate.query mgr g id sql w).1
  gate_call (execute_call id sql) w = (Gate.execute mgr elapsed g id sql w).1
  gate_call (tables_call id) w = (Gate.tables mgr g id w).1
  gate_call (schema_call id) w = (Gate.schema mgr g id w).1
  gate_call (databases_call id) w = (Gate.databases mgr g id w).1

  -- The databases behind some calls, the first one first.
  unfoldable pub gate_calls : List GateCall → W → W
  unfolding gate_call
  gate_calls [] w = w
  gate_calls (c ∷ cs) w = gate_calls cs (gate_call c w)

module _ {W : Type 0} (mgr : Manager W) (elapsed : ℤ) (g : Gate) (P : W → Type 0)
    (kept : IsKept mgr P (allowed g)) where
  pub gate_call-keeps : (c : GateCall) (w : W) → P w → P (gate_call mgr elapsed g c w)
  unfolding gate_call
  gate_call-keeps (query_call id sql) w p = query-keeps mgr elapsed g P kept id sql w p
  gate_call-keeps (execute_call id sql) w p = gate_execute-keeps mgr elapsed g P kept id sql w p
  gate_call-keeps (tables_call id) w p = tables-keeps mgr elapsed g P kept id w p
  gate_call-keeps (schema_call id) w p = schema-keeps mgr elapsed g P kept id w p
  gate_call-keeps (databases_call id) w p = databases-keeps mgr elapsed g P kept id w p

  -- Whatever calls go through the gate, with whatever statements: what the calls of the manager keep for
  -- the connections that the gate allows holds of the databases behind them. So nothing but these
  -- connections is reached, neither by the statements nor by the queries that `Execute` makes to count
  -- rows.
  pub gate_calls-keeps : (cs : List GateCall) (w : W) → P w → P (gate_calls mgr elapsed g cs w)
  unfolding gate_calls
  gate_calls-keeps [] w p = p
  gate_calls-keeps (c ∷ cs) w p =
      gate_calls-keeps cs (gate_call mgr elapsed g c w) (gate_call-keeps c w p)
