-- ===== src/Executor/Managed.antt =====
-- internal/connection/manager.go, as internal/executor is given it: the state is the map of
-- connections with the world of databases behind it.
use go_database.Connection.Types.{DbPlugin}
use go_database.Connection.Manager as Conn
use go_database.Connection.Manager.{Conns}
use go_database.Executor.Execute.{Manager}

abbrev pub with_conns : {A P W : Type 0} → Conns P → A × W → A × (Conns P × W)
with_conns conns (reply, w) = (reply, (conns, w))

module _ {P W : Type 0} (ops : DbPlugin P W) where
  abbrev pub conn_manager : Manager (Conns P × W)
  conn_manager = record {
    list = λ (conns, w). Conn.list conns;
    list_visible =
        λ user_id db_access is_admin (conns, w). Conn.list_visible user_id db_access is_admin conns;
    get_connection = λ id (conns, w). Conn.get_connection id conns;
    query = λ id q (conns, w). with_conns conns (Conn.query ops id q conns w);
    execute = λ id q (conns, w). with_conns conns (Conn.execute ops id q conns w);
    tables = λ id (conns, w). with_conns conns (Conn.tables ops id conns w);
    schema = λ id (conns, w). with_conns conns (Conn.schema ops id conns w);
    databases = λ id (conns, w). with_conns conns (Conn.databases ops id conns w);
  }
