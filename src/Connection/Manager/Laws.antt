-- ===== src/Connection/Manager/Laws.antt =====
-- internal/connection/manager.go: laws of `Add`, `Remove`, `Get` and the calls on a connection.
use go_database.Base.{
  if◌then◌else◌, Bool-cases, Option-cases, is_some, Str, str, str_eq, lookup, insert, remove,
  str_eq_sound, lookup-insert, lookup-remove, lookup-insert_self, ℕ, ◌≡◌, refl, sym, ◌∙◌, ◌⊎◌, inl,
  inr, true, Option, some, ◌++◌, arith,
}
use go_database.Plugin.Types.{DbType, Reply, ok, err}
use go_database.Connection.Types.{connected, error, Connection, DbPlugin}
use go_database.Connection.Manager.{
  ManagedConn, Conns, is_error, not_found, quoted, get, get_connection, get_active, add,
  remove_conn, on_active, active, add_end, managed, failed, established,
}

-- An entry stands under its own id, has a plugin, and its connection was tried.
pub record IsSettled {P : Type 0} (id : Str) (mc : ManagedConn P) : Type 0 where
  pub named : mc.connection.id ≡ id
  pub has_plugin : is_some mc.plugin ≡ true
  pub tried : (mc.connection.state ≡ connected) ⊎ (mc.connection.state ≡ error)

-- Every entry of the map is settled.
abbrev pub IsSound : {P : Type 0} → Conns P → Type 0
IsSound {P} conns = (id : Str) (mc : ManagedConn P) → lookup id conns ≡ some mc → IsSettled id mc

pub IsSound-insert :
    {P : Type 0} (id : Str) (mc : ManagedConn P) (conns : Conns P)
    → IsSettled id mc
    → IsSound conns
    → IsSound (insert id mc conns)
IsSound-insert id mc conns s h j m e = elim (Bool-cases (str_eq id j)) [
  | inl same ↦
      let i : id ≡ j = str_eq_sound id j same in
      let found : lookup j (insert id mc conns) ≡ some mc =
        rw (lookup-insert id j mc conns, same) in
      let k : mc ≡ m = cc in rw (← i, ← k) s
  | inr other ↦
      let found : lookup j (insert id mc conns) ≡ lookup j conns =
        rw (lookup-insert id j mc conns, other) in
      h j m (sym found ∙ e)
]

pub IsSound-remove :
    {P : Type 0} (id : Str) (conns : Conns P) → IsSound conns → IsSound (remove id conns)
IsSound-remove id conns h j m e = h j m (ground (arith, lookup-remove id j conns))

module _ {P W : Type 0} (ops : DbPlugin P W) where
  add_end-IsSound :
      (p : P) (c : Connection) (latency now : ℕ) (conns : Conns P) (out : Reply (Unit {0}) × W)
      → IsSound conns
      → IsSound (add_end ops p c latency now conns out).1
  add_end-IsSound p c latency now conns (err e, w) h =
      IsSound-insert c.id (managed ops p (failed ops c e now)) conns
        (record { named = refl; has_plugin = refl; tried = inr refl }) h
  add_end-IsSound p c latency now conns (ok _, w) h =
      IsSound-insert c.id (managed ops p (established ops c latency now)) conns
        (record { named = refl; has_plugin = refl; tried = inl refl }) h

  -- Adding a connection, whether it can be reached or not, keeps every entry settled.
  pub add-IsSound :
      (new : DbType → Option P) (c : Connection) (latency now : ℕ) (conns : Conns P) (w : W)
      → IsSound conns
      → IsSound (add ops new c latency now conns w).1
  unfolding add
  add-IsSound new c latency now conns w h = elim (Option-cases (new c.typ)) [
    | inl e ↦ rw (e, add) h
    | inr (p, e) ↦ rw (e, add) (add_end-IsSound p c latency now conns (ops.connect p c.config w) h)
  ]

  add_end-found :
      (p : P) (c : Connection) (latency now : ℕ) (conns : Conns P) (out : Reply (Unit {0}) × W)
      → (lookup c.id (add_end ops p c latency now conns out).1
          ≡ some (managed ops p (add_end ops p c latency now conns out).0.0))
        × (is_error (add_end ops p c latency now conns out).0.0.state
            ≡ is_some (add_end ops p c latency now conns out).0.1)
  add_end-found p c latency now conns (err e, w) =
      (lookup-insert_self c.id (managed ops p (failed ops c e now)) conns, refl)
  add_end-found p c latency now conns (ok _, w) =
      (lookup-insert_self c.id (managed ops p (established ops c latency now)) conns, refl)

  -- For a type with a plugin, the connection that `Add` returns is the one that the manager has under
  -- its id from then on, and it is in error exactly where `Add` returns an error.
  get_connection-add :
      (new : DbType → Option P) (p : P) (c : Connection) (latency now : ℕ) (conns : Conns P) (w : W)
      → new c.typ ≡ some p
      → (r : Connection × Option Str) × ((add ops new c latency now conns w).0 ≡ some r)
        × (get_connection c.id (add ops new c latency now conns w).1 ≡ ok r.0)
        × (is_error r.0.state ≡ is_some r.1)
  unfolding add get_connection get
  get_connection-add new p c latency now conns w e =
      let out = add_end ops p c latency now conns (ops.connect p c.config w) in
      let (found, marked) = add_end-found p c latency now conns (ops.connect p c.config w) in
      (out.0, rw (e, add), rw (e, add) (rw (found, get)), marked)

  -- After a removal the connection is not found, and every other is as it was.
  get-remove_conn :
      (id other : Str) (conns : Conns P) (w : W)
      → get other (remove_conn ops id conns w).1
        ≡ (if str_eq id other then err (not_found other) else get other conns)
  unfolding remove_conn get
  get-remove_conn id other conns w = elim (Option-cases (lookup id conns)) [
    | inl e ↦ elim (Bool-cases (str_eq id other)) [
      | inl same ↦
          let i : id ≡ other = str_eq_sound id other same in
          rw (same, e, remove_conn) (rw (← i) (rw (e, get)))
      | inr differ ↦ rw (differ, e, remove_conn)
    ]
    | inr (mc, e) ↦ elim (Bool-cases (str_eq id other)) [
      | inl same ↦ rw (same, e, remove_conn) (rw (lookup-remove id other conns, get, same))
      | inr differ ↦ rw (differ, e, remove_conn) (rw (lookup-remove id other conns, get, differ))
    ]
  ]

  -- A call on a connection that is missing or in error is refused, and no plugin is reached.
  pub on_active-refused :
      {A : Type 0} (id : Str) (call : P → W → Reply A × W) (conns : Conns P) (w : W)
      → ((mc : ManagedConn P) → lookup id conns ≡ some mc → is_error mc.connection.state ≡ true)
      → (why : Str) × (on_active ops id call conns w ≡ (err why, w))
  unfolding on_active get_active active
  on_active-refused id call conns w h = elim (Option-cases (lookup id conns)) [
    | inl e ↦ (not_found id, rw (e, on_active, get_active))
    | inr (mc, e) ↦ (
      quoted id ++ str " is in error state: " ++ mc.connection.error_text,
      rw (e, on_active, get_active, active, h mc e),
    )
  ]

  pub remove_conn-IsSound :
      (id : Str) (conns : Conns P) (w : W) → IsSound conns → IsSound (remove_conn ops id conns w).1
  unfolding remove_conn
  remove_conn-IsSound id conns w h = elim (Option-cases (lookup id conns)) [
    | inl e ↦ rw (e, remove_conn) h
    | inr (mc, e) ↦ rw (e, remove_conn) (IsSound-remove id conns h)
  ]
