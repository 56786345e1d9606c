-- ===== src/Connection/Health/Sound.antt =====
-- internal/connection/manager.go: the steps of the manager, and an invariant of its map.
use go_database.Base.{
  Bool-cases, Option-cases, Str, lookup, ℕ, refl, inl, inr, Option, List, [], ◌∷◌,
}
use go_database.Plugin.Types.{DbType, Reply, ok, err}
use go_database.Connection.Types.{Connection, DbPlugin}
use go_database.Connection.Manager.{ManagedConn, Conns, is_error, add, remove_conn}
use go_database.Connection.Manager.Laws.{
  IsSettled, IsSound, IsSound-insert, remove_conn-IsSound, add-IsSound,
}
use go_database.Connection.Health.{
  keys, ping_failed, ping_passed, ping_end, ping_found, ping, mark, mark_entry, check_one,
  check_ids, check_all,
}

module _ {P W : Type 0} (ops : DbPlugin P W) where
  ping_end-IsSound :
      (id : Str) (mc : ManagedConn P) (latency now : ℕ) (conns : Conns P)
      (out : Reply (Unit {0}) × W)
      → IsSettled id mc
      → IsSound conns
      → IsSound (ping_end ops id mc latency now conns out).1
  unfolding ping_end
  ping_end-IsSound id mc latency now conns (err e, w) s h =
      IsSound-insert id (ping_failed ops mc e now) conns
        (record { named = s.named; has_plugin = s.has_plugin; tried = inr refl }) h
  ping_end-IsSound id mc latency now conns (ok _, w) s h =
      IsSound-insert id (ping_passed ops mc latency now) conns
        (record { named = s.named; has_plugin = s.has_plugin; tried = inl refl }) h

  ping_found-IsSound :
      (id : Str) (mc : ManagedConn P) (latency now : ℕ) (conns : Conns P) (w : W)
      → IsSettled id mc
      → IsSound conns
      → IsSound (ping_found ops id mc latency now conns w).1
  unfolding ping_found
  ping_found-IsSound id mc latency now conns w s h =
      elim (Bool-cases (is_error mc.connection.state)) [
        | inl down ↦ rw (down, ping_found) h
        | inr up ↦ elim (Option-cases mc.plugin) [
          | inl e ↦ rw (up, ping_found, e) h
          | inr (p, e) ↦
              rw (up, ping_found, e) (ping_end-IsSound id mc latency now conns (ops.ping p w) s h)
        ]
      ]

  -- A ping keeps every entry settled.
  ping-IsSound :
      (id : Str) (latency now : ℕ) (conns : Conns P) (w : W)
      → IsSound conns
      → IsSound (ping ops id latency now conns w).1
  unfolding ping
  ping-IsSound id latency now conns w h = elim (Option-cases (lookup id conns)) [
    | inl e ↦ rw (e, ping) h
    | inr (mc, e) ↦ rw (e, ping) (ping_found-IsSound id mc latency now conns w (h id mc e) h)
  ]

  mark-IsSettled :
      (id : Str) (reply : Reply ℕ) (mc : ManagedConn P)
      → IsSettled id mc
      → IsSettled id (mark ops reply mc)
  unfolding mark
  mark-IsSettled id (err e) mc s = record {
    named = s.named;
    has_plugin = s.has_plugin;
    tried = inr refl;
  }
  mark-IsSettled id (ok n) mc s = record {
    named = s.named;
    has_plugin = s.has_plugin;
    tried = inl refl;
  }

  mark_entry-IsSound :
      (id : Str) (reply : Reply ℕ) (conns : Conns P) (w : W)
      → IsSound conns
      → IsSound (mark_entry ops id (reply, conns, w)).0
  unfolding mark_entry
  mark_entry-IsSound id reply conns w h = elim (Option-cases (lookup id conns)) [
    | inl e ↦ rw (e, mark_entry) h
    | inr (mc, e) ↦
        rw (e, mark_entry)
          (IsSound-insert id (mark ops reply mc) conns (mark-IsSettled id reply mc (h id mc e)) h)
  ]

  check_ids-IsSound :
      (ids : List Str) (latency now : ℕ) (conns : Conns P) (w : W)
      → IsSound conns
      → IsSound (check_ids ops ids latency now conns w).0
  unfolding check_ids check_one
  check_ids-IsSound [] latency now conns w h = h
  check_ids-IsSound (id ∷ ids) latency now conns w h =
      let out = ping ops id latency now conns w in
      check_ids-IsSound ids latency now _ _
        (mark_entry-IsSound id out.0 out.1 out.2 (ping-IsSound id latency now conns w h))

  -- One operation of the manager, with whatever the plugins and the clock do.
  pub data Step (conns : Conns P) (w : W) : Conns P → Type 0 where
    adds :
        (new : DbType → Option P) (c : Connection) (latency now : ℕ)
        → Step conns w (add ops new c latency now conns w).1
    removes : (id : Str) → Step conns w (remove_conn ops id conns w).1
    pings : (id : Str) (latency now : ℕ) → Step conns w (ping ops id latency now conns w).1
    checks : (latency now : ℕ) → Step conns w (check_all ops latency now conns w).0

  -- The maps that some sequence of operations builds from the empty manager; the world may change
  -- between them.
  pub data Reach : Conns P → Type 0 where
    starts : Reach []
    steps : {conns conns' : Conns P} (w : W) → Reach conns → Step conns w conns' → Reach conns'

  Step-IsSound :
      {conns : Conns P} {w : W} {conns' : Conns P}
      → Step conns w conns'
      → IsSound conns
      → IsSound conns'
  unfolding check_all
  Step-IsSound {conns} {w} (adds new c latency now) h = add-IsSound ops new c latency now conns w h
  Step-IsSound {conns} {w} (removes id) h = remove_conn-IsSound ops id conns w h
  Step-IsSound {conns} {w} (pings id latency now) h = ping-IsSound id latency now conns w h
  Step-IsSound {conns} {w} (checks latency now) h =
      check_ids-IsSound (keys conns) latency now conns w h

  -- However the manager is used, each of its connections stands under its own id, has a plugin, and
  -- is connected or in error.
  pub Reach-IsSound : {conns : Conns P} → Reach conns → IsSound conns
  unfolding lookup
  Reach-IsSound starts id mc e = cc
  Reach-IsSound (steps w r s) id mc e = Step-IsSound s (Reach-IsSound r) id mc e
