-- ===== src/Connection/Health.antt =====
-- internal/connection/manager.go: `Ping`, and the health check of all connections.
pub mod Final
pub mod Sound
use go_database.Base.{
  if◌then◌else◌, Str, str, lookup, insert, ℕ, not, none, some, List, [], ◌∷◌, ◌++◌,
}
use go_database.Plugin.Types.{Reply, ok, err}
use go_database.Connection.Types.{State, connected, error, Connection, DbPlugin}
use go_database.Connection.Manager
use go_database.Connection.Manager.{ManagedConn, Conns, is_error, quoted, not_found}

pub keys : {P : Type 0} → Conns P → List Str
keys [] = []
keys ((id, _) ∷ conns) = id ∷ keys conns

module _ {P W : Type 0} (ops : DbPlugin P W) where
  abbrev pub set_connection : ManagedConn P → Connection → ManagedConn P
  set_connection mc c = record mc { connection = c }

  abbrev pub ping_failed : ManagedConn P → Str → ℕ → ManagedConn P
  ping_failed mc e now =
      set_connection mc (record mc.connection { state = error; error_text = e; updated_at = now })

  abbrev pub ping_passed : ManagedConn P → ℕ → ℕ → ManagedConn P
  ping_passed mc latency now = set_connection mc (record mc.connection {
    state = connected;
    latency = latency;
    error_text = [];
    updated_at = now;
  })

  -- The end of `Ping`, after the plugin answered.
  pub ping_end :
      Str → ManagedConn P → ℕ → ℕ → Conns P → Reply (Unit {0}) × W → Reply ℕ × Conns P × W
  ping_end id mc latency now conns (err e, w) = (
    err (str "connection: ping \"" ++ id ++ str "\": " ++ e),
    insert id (ping_failed mc e now) conns,
    w,
  )
  ping_end id mc latency now conns (ok _, w) =
      (ok latency, insert id (ping_passed mc latency now) conns, w)

  pub not_connected : Str → Connection → Str
  not_connected id c = quoted id ++ str " is not connected (" ++ c.error_text ++ str ")"

  -- `Ping` of a connection that was found.
  pub ping_found : Str → ManagedConn P → ℕ → ℕ → Conns P → W → Reply ℕ × Conns P × W
  unfolding ping_end not_connected
  ping_found id mc latency now conns w =
      if is_error mc.connection.state
      then (err (not_connected id mc.connection), conns, w)
      else elim mc.plugin [
        | none ↦ (err (not_connected id mc.connection), conns, w)
        | some p ↦ ping_end id mc latency now conns (ops.ping p w)
      ]

  -- `Ping`; a connection lives in the map behind a pointer, so a change of it is a write there.
  pub ping : Str → ℕ → ℕ → Conns P → W → Reply ℕ × Conns P × W
  unfolding ping_found
  ping id latency now conns w = elim (lookup id conns) [
    | none ↦ (err (not_found id), conns, w)
    | some mc ↦ ping_found id mc latency now conns w
  ]

  -- What `checkAll` does to the entry after its ping.
  pub mark : Reply ℕ → ManagedConn P → ManagedConn P
  mark (err _) mc = set_connection mc (record mc.connection { state = error; latency = 0 })
  mark (ok _) mc = set_connection mc (record mc.connection { state = connected })

  pub mark_entry : Str → Reply ℕ × Conns P × W → Conns P × W
  unfolding mark
  mark_entry id (reply, conns, w) = elim (lookup id conns) [
    | none ↦ (conns, w)
    | some mc ↦ (insert id (mark reply mc) conns, w)
  ]

  -- One round of the loop of `checkAll`.
  pub check_one : Str → ℕ → ℕ → Conns P → W → Conns P × W
  unfolding mark_entry
  check_one id latency now conns w = mark_entry id (ping id latency now conns w)

  pub check_ids : List Str → ℕ → ℕ → Conns P → W → Conns P × W
  check_ids [] latency now conns w = (conns, w)
  check_ids (id ∷ ids) latency now conns w =
      let (conns', w') = check_one id latency now conns w in check_ids ids latency now conns' w'

  -- `checkAll`
  pub check_all : ℕ → ℕ → Conns P → W → Conns P × W
  check_all latency now conns w = check_ids (keys conns) latency now conns w
