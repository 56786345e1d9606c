-- ===== src/Executor/Gate/Scope.antt =====
-- internal/executor/guard.go: what a caller can do through the gate.
use go_database.Base.{
  Str, str, trim_space, lookup, elem, ℤ, ◌≡◌, Bool, true, false, some, List, [], ◌++◌,
}
use go_database.Connection.Manager.{ManagedConn, Conns, list_visible as visible}
use go_database.Connection.Manager.Visible.{shows, list_visible-system}
use go_database.Executor.Execute.{Manager, is_query, execute as run}
use go_database.Executor.Execute.Comment.{execute-comment}
use go_database.Executor.Gate
use go_database.Executor.Gate.{Gate, allowed, gate_reply}

module _ {W : Type 0} (mgr : Manager W) where
  -- The statement behind a comment is run unchecked: for a text that begins with a line comment, and
  -- that is not a query behind its comments, the gate calls the database with the text, trimmed.
  gate_execute-comment :
      (elapsed : ℤ) (g : Gate) (id sql rest : Str) (w : W)
      → allowed g id ≡ true
      → trim_space sql ≡ str "--" ++ rest
      → is_query mgr (trim_space sql) ≡ false
      → (Gate.execute mgr elapsed g id sql w).1 ≡ (mgr.execute id (trim_space sql) w).1
  unfolding Gate.execute
  gate_execute-comment elapsed g id sql rest w a e q = rw a (
      execute-comment mgr elapsed (record { connection_id = id; sql = sql; confirm_high = false })
        rest w e q)

  -- Over a manager that lists as the connection manager does, the list of a caller who is no
  -- administrator shows a connection that no user owns, though its id is outside the scope and not
  -- allowed.
  gate_list-system :
      {P : Type 0} (conns : W → Conns P) (g : Gate) (id : Str) (mc : ManagedConn P) (w : W)
      → ((u : Str) (d : List Str) (a : Bool) (v : W)
          → mgr.list_visible u d a v ≡ visible u d a (conns v))
      → g.is_admin ≡ false
      → lookup id (conns w) ≡ some mc
      → mc.connection.owner_id ≡ []
      → elem mc.connection.id g.db_access ≡ false
      → (shows mc.connection.id (Gate.list mgr g w) ≡ true) × (allowed g mc.connection.id ≡ false)
  unfolding Gate.list allowed
  gate_list-system conns g id mc w lists n e o out = (
    rw (n, lists [] g.db_access false w) (list_visible-system g.db_access id mc (conns w) e o),
    rw (n, out),
  )
