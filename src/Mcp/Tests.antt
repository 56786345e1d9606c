-- ===== src/Mcp/Tests.antt =====
-- internal/mcp: tests of the gates of requests, over the manager of internal/connection.
use go_database.Base.{str, str_eq, elem, pos, ℕ, ◌≡◌, refl, Bool, true, false, none, [], ◌∷◌}
use go_database.Plugin.Types.{err}
use go_database.Connection.Manager.{Conns}
use go_database.Connection.Tests.{counting, up_conns}
use go_database.Executor.Execute.{Manager}
use go_database.Executor.Managed.{conn_manager}
use go_database.Executor.Gate.{new_guard_gate, with_scope, access_denied}
use go_database.Mcp.Scope
use go_database.Mcp.Scope.{Gates, get_gate, begin_request, end_request}
use go_database.Mcp.Scope.Overlap.{begin_request-refuses, begin_request-overlap}

abbrev World : Type 0
World = Conns Bool × ℕ

abbrev mgr : Manager World
mgr = conn_manager counting

abbrev world : World
world = (up_conns, 0)

abbrev idle : Gates
idle = record { connection_manager = new_guard_gate; request_gate = none; held = [] }

abbrev running : Gates
running = begin_request (str "r1") (str "c2" ∷ []) false idle

other_only : elem (str "c1") (str "c2" ∷ []) ≡ false
unfolding str_eq
other_only = refl

begin_request-refuses_example :
    (Scope.query mgr (str "c1") (str "select 1") running world
      ≡ (err (access_denied (str "c1")), world))
    × (Scope.execute mgr (pos 1) (str "c1") (str "select 1") running world
        ≡ (err (access_denied (str "c1")), world))
    × (Scope.list_tables mgr (str "c1") running world ≡ (err (access_denied (str "c1")), world))
    × (Scope.schema mgr (str "c1") running world ≡ (err (access_denied (str "c1")), world))
    × (Scope.list_databases mgr (str "c1") running world ≡ (err (access_denied (str "c1")), world))
    × ((end_request (str "r1") running).request_gate ≡ none)
begin_request-refuses_example =
    begin_request-refuses mgr (str "r1") (str "c2" ∷ []) idle (pos 1) (str "c1") (str "select 1")
      world other_only

two_names : str_eq (str "r2") (str "r1") ≡ false
unfolding str_eq
two_names = refl

abbrev both : Gates
both = begin_request (str "r2") [] true running

begin_request-overlap_example :
    (get_gate both ≡ with_scope new_guard_gate [] true)
    × (get_gate (end_request (str "r1") both) ≡ get_gate idle)
    × (get_gate (end_request (str "r2") (end_request (str "r1") both))
        ≡ with_scope new_guard_gate (str "c2" ∷ []) false)
begin_request-overlap_example =
    begin_request-overlap (str "r1") (str "r2") (str "c2" ∷ []) [] false true idle two_names
