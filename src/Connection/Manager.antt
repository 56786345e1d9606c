-- ===== src/Connection/Manager.antt =====
-- internal/connection/manager.go. The lock is held over each operation, or over each of its parts
-- where the source releases it; a call of a plugin moves the world `W`.
pub mod Laws
pub mod Visible
use go_database.Base.{
  if◌then◌else◌, Str, str, str_eq, lookup, insert, remove, elem, ℕ, Bool, true, false, not, ◌||◌,
  Option, none, some, List, [], ◌∷◌, ◌++◌,
}
use go_database.Plugin.Types.{DbType, Config, Schema, Result, Reply, ok, err, type_text}
use go_database.Connection.Types.{
  State, connected, disconnected, error, connecting, Connection, Summary, DbPlugin,
}

pub record ManagedConn (P : Type 0) : Type 0 where
  pub connection : Connection
  pub plugin : Option P

abbrev pub is_error : State → Bool
is_error error = true
is_error connected = false
is_error disconnected = false
is_error connecting = false

-- `%q` of a text without quotes, backslashes and control characters.
abbrev pub quoted : Str → Str
quoted id = str "connection: \"" ++ id ++ str "\""

abbrev pub not_found : Str → Str
not_found id = quoted id ++ str " not found"

abbrev pub summary : Connection → Summary
summary c = record {
  id = c.id;
  name = c.name;
  typ = c.typ;
  source = c.source;
  state = c.state;
  latency = c.latency;
  tags = c.tags;
}

-- The map `conns`.
abbrev pub Conns : Type 0 → Type 0
Conns P = List (Str × ManagedConn P)

module _ {P : Type 0} where
  -- `Get`
  pub get : Str → Conns P → Reply (ManagedConn P)
  get id conns = elim (lookup id conns) [ some mc ↦ ok mc | none ↦ err (not_found id) ]

  abbrev pub as_connection : Reply (ManagedConn P) → Reply Connection
  as_connection (ok mc) = ok mc.connection
  as_connection (err e) = err e

  pub get_connection : Str → Conns P → Reply Connection
  get_connection id conns = as_connection (get id conns)

  pub list : Conns P → List Summary
  list [] = []
  list ((_, mc) ∷ conns) = summary mc.connection ∷ list conns

  -- The loop of `ListVisible`; `allowed` is membership in `dbAccess`.
  pub list_allowed : Str → List Str → Conns P → List Summary
  list_allowed user_id db_access [] = []
  list_allowed user_id db_access ((_, mc) ∷ conns) =
      let rest = list_allowed user_id db_access conns in
      if str_eq mc.connection.owner_id user_id || elem mc.connection.id db_access
      then summary mc.connection ∷ rest
      else rest

  pub list_visible : Str → List Str → Bool → Conns P → List Summary
  list_visible user_id db_access is_admin conns =
      if is_admin then list conns else list_allowed user_id db_access conns

  -- `getActive`
  active : Str → ManagedConn P → Reply (ManagedConn P × P)
  active id mc =
      if is_error mc.connection.state
      then err (quoted id ++ str " is in error state: " ++ mc.connection.error_text)
      else elim mc.plugin [ some p ↦ ok (mc, p) | none ↦ err (quoted id ++ str " has no plugin") ]

  unfoldable pub get_active : Str → Conns P → Reply (ManagedConn P × P)
  unfolding active
  get_active id conns = elim (lookup id conns) [
    | some mc ↦ active id mc
    | none ↦ err (not_found id)
  ]

module _ {P W : Type 0} (ops : DbPlugin P W) where
  -- What `Add` is told: the connection in the state `connecting`, with its fresh id.
  abbrev pub failed : Connection → Str → ℕ → Connection
  failed c e now = record c { state = error; error_text = e; updated_at = now }

  abbrev pub add_error : Connection → Str → Str
  add_error c e = quoted c.name ++ str " (" ++ type_text c.typ ++ str "): " ++ e

  abbrev pub established : Connection → ℕ → ℕ → Connection
  established c latency now = record c { state = connected; latency = latency; updated_at = now }

  abbrev pub managed : P → Connection → ManagedConn P
  managed p c = record { connection = c; plugin = some p }

  -- The end of `Add`, after the plugin was asked to connect. The pair is the connection that `Add`
  -- returns with the text of its error, if there is one.
  abbrev pub add_end :
      P
      → Connection
      → ℕ
      → ℕ
      → Conns P
      → Reply (Unit {0}) × W
      → (Connection × Option Str) × Conns P × W
  add_end p c latency now conns (err e, w) =
      ((failed c e now, some (add_error c e)), insert c.id (managed p (failed c e now)) conns, w)
  add_end p c latency now conns (ok _, w) = (
    (established c latency now, none),
    insert c.id (managed p (established c latency now)) conns,
    w,
  )

  -- `Add`: `new` is the registry of plugins, `c` the new connection in the state `connecting`.
  -- `none` is the error for a type without a plugin.
  pub add :
      (DbType → Option P)
      → Connection
      → ℕ
      → ℕ
      → Conns P
      → W
      → Option (Connection × Option Str) × Conns P × W
  add new c latency now conns w = elim (new c.typ) [
    | none ↦ (none, conns, w)
    | some p ↦
        let (result, conns', w') = add_end p c latency now conns (ops.connect p c.config w) in
        (some result, conns', w')
  ]

  abbrev closed_world : Option P → W → W
  closed_world none w = w
  closed_world (some p) w = (ops.close p w).1

  -- `Remove`; an error of `Close` is only logged.
  pub remove_conn : Str → Conns P → W → Reply (Unit {0}) × Conns P × W
  remove_conn id conns w = elim (lookup id conns) [
    | none ↦ (err (not_found id), conns, w)
    | some mc ↦ (ok tt, remove id conns, closed_world mc.plugin w)
  ]

  -- A call on an active connection: `Query`, `Execute`, `Tables` and the others.
  unfoldable pub on_active : {A : Type 0} → Str → (P → W → Reply A × W) → Conns P → W → Reply A × W
  on_active id call conns w = elim (get_active id conns) [
    | ok (mc, p) ↦ call p w
    | err e ↦ (err e, w)
  ]

  unfoldable pub query : Str → Str → Conns P → W → Reply Result × W
  query id q = on_active id (λ p. ops.query p q)

  unfoldable pub execute : Str → Str → Conns P → W → Reply Result × W
  execute id q = on_active id (λ p. ops.execute p q)

  pub tables : Str → Conns P → W → Reply (List Str) × W
  tables id = on_active id ops.tables

  pub schema : Str → Conns P → W → Reply Schema × W
  schema id = on_active id ops.schema

  pub databases : Str → Conns P → W → Reply (List Str) × W
  databases id = on_active id ops.databases

  pub create_database : Str → Str → Conns P → W → Reply (Unit {0}) × W
  create_database id name = on_active id (λ p. ops.create_database p name)

  pub drop_database : Str → Str → Conns P → W → Reply (Unit {0}) × W
  drop_database id name = on_active id (λ p. ops.drop_database p name)
