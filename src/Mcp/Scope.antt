-- ===== src/Mcp/Scope.antt =====
-- internal/mcp/server.go and httphandler.go: the global gates, which a request swaps while it runs,
-- and the tools. The global gate is a GuardGate, as cmd/server sets it.
pub mod Overlap
use go_database.Base.{
  if◌then◌else◌, Str, lookup, insert, remove, ℤ, Bool, not, Option, none, some, List, [],
}
use go_database.Connection.Types.{Summary}
use go_database.Plugin.Types.{Result, Schema, Reply, ok, err}
use go_database.Executor.Execute.{Manager}
use go_database.Executor.Gate
use go_database.Executor.Gate.{Gate, with_scope, allowed, access_denied}

-- The variables `connectionManager` and `requestGate`, with the gate that each running request holds
-- in its variable `prev`.
pub record Gates : Type 0 where
  pub connection_manager : Gate
  pub request_gate : Option Gate
  pub held : List (Str × Option Gate)

-- `getGate`
abbrev or_global : Option Gate → Gate → Gate
or_global none global = global
or_global (some g) global = g

unfoldable pub get_gate : Gates → Gate
get_gate s = or_global s.request_gate s.connection_manager

-- `setRequestGate`: the former gate, and the state after the swap.
abbrev pub set_request_gate : Option Gate → Gates → Option Gate × Gates
set_request_gate g s = (s.request_gate, record s { request_gate = g })

-- `ScopedGate`
abbrev pub scoped_gate : List Str → Bool → Gates → Gate
scoped_gate db_access is_admin s = with_scope s.connection_manager db_access is_admin

-- The front of `HTTPHandlerWithScope`, for a request with a name.
unfoldable pub begin_request : Str → List Str → Bool → Gates → Gates
begin_request r db_access is_admin s =
    let (prev, s') = set_request_gate (some (scoped_gate db_access is_admin s)) s in
    record s' { held = insert r prev s.held }

abbrev restored : Option (Option Gate) → Gates → Gates
restored none s = s
restored (some prev) s = (set_request_gate prev s).1

-- The deferred call at its end.
unfoldable pub end_request : Str → Gates → Gates
end_request r s = let s' = restored (lookup r s.held) s in record s' { held = remove r s.held }

module _ {W : Type 0} (mgr : Manager W) where
  -- The test in front of each tool, and the call, each through the gate of its moment.
  abbrev pub tool : {A : Type 0} → Str → (Gate → W → Reply A × W) → Gates → W → Reply A × W
  tool id call s w =
      if not (allowed (get_gate s) id) then (err (access_denied id), w) else call (get_gate s) w

  unfoldable pub list_connections : Gates → W → List Summary
  list_connections s w = Gate.list mgr (get_gate s) w

  unfoldable pub query : Str → Str → Gates → W → Reply Result × W
  query id sql = tool id (λ g. Gate.query mgr g id sql)

  unfoldable pub execute : ℤ → Str → Str → Gates → W → Reply Result × W
  execute elapsed id sql = tool id (λ g. Gate.execute mgr elapsed g id sql)

  unfoldable pub list_tables : Str → Gates → W → Reply (List Str) × W
  list_tables id = tool id (λ g. Gate.tables mgr g id)

  unfoldable pub schema : Str → Gates → W → Reply Schema × W
  schema id = tool id (λ g. Gate.schema mgr g id)

  unfoldable pub list_databases : Str → Gates → W → Reply (List Str) × W
  list_databases id = tool id (λ g. Gate.databases mgr g id)
