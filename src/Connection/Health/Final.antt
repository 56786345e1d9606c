-- ===== src/Connection/Health/Final.antt =====
-- internal/connection/manager.go: the health checks of a connection in error.
use go_database.Base.{
  Bool-cases, Option-cases, Str, str_eq, lookup, insert, str_eq_sound, lookup-insert,
  lookup-insert_ne, ℕ, ◌≡◌, refl, ap, ◌∙◌, ◌⊎◌, inl, inr, true, false, some, List, [], ◌∷◌,
}
use go_database.Plugin.Types.{Reply, ok, err}
use go_database.Connection.Types.{DbPlugin}
use go_database.Connection.Manager.{ManagedConn, Conns, is_error, on_active}
use go_database.Connection.Manager.Laws.{on_active-refused}
use go_database.Connection.Health.{
  keys, not_connected, ping_failed, ping_passed, ping_end, ping_found, ping, mark, mark_entry,
  check_one, check_ids, check_all,
}

-- The entry is there, and in error.
abbrev pub IsDown : {P : Type 0} → Str → Conns P → Type 0
IsDown {P} id conns =
    (mc : ManagedConn P) × (lookup id conns ≡ some mc) × (is_error mc.connection.state ≡ true)

IsDown-insert_ne :
    {P : Type 0} (id j : Str) (mc : ManagedConn P) (conns : Conns P)
    → str_eq j id ≡ false
    → IsDown id conns
    → IsDown id (insert j mc conns)
IsDown-insert_ne id j mc conns n (m, e, d) = (m, lookup-insert_ne j id mc conns n ∙ e, d)

module _ {P W : Type 0} (ops : DbPlugin P W) where
  ping_end-IsDown :
      (id j : Str) (mc : ManagedConn P) (latency now : ℕ) (conns : Conns P)
      (out : Reply (Unit {0}) × W)
      → str_eq j id ≡ false
      → IsDown id conns
      → IsDown id (ping_end ops j mc latency now conns out).1
  unfolding ping_end
  ping_end-IsDown id j mc latency now conns (err e, w) n d =
      IsDown-insert_ne id j (ping_failed ops mc e now) conns n d
  ping_end-IsDown id j mc latency now conns (ok _, w) n d =
      IsDown-insert_ne id j (ping_passed ops mc latency now) conns n d

  -- A ping of a connection in error fails at once, and changes nothing.
  ping_down :
      (id : Str) (latency now : ℕ) (conns : Conns P) (w : W)
      → IsDown id conns
      → (why : Str) × (ping ops id latency now conns w ≡ (err why, conns, w))
  unfolding ping ping_found
  ping_down id latency now conns w (mc, e, d) =
      (not_connected ops id mc.connection, rw (e, ping, ping_found, d))

  ping-IsDown_ne :
      (id j : Str) (latency now : ℕ) (conns : Conns P) (w : W)
      → str_eq j id ≡ false
      → IsDown id conns
      → IsDown id (ping ops j latency now conns w).1
  unfolding ping ping_found
  ping-IsDown_ne id j latency now conns w n d = elim (Option-cases (lookup j conns)) [
    | inl e ↦ rw (e, ping) d
    | inr (mc, e) ↦ elim (Bool-cases (is_error mc.connection.state)) [
      | inl down ↦ rw (e, ping, ping_found, down) d
      | inr up ↦ elim (Option-cases mc.plugin) [
        | inl none_there ↦ rw (e, ping, ping_found, up, none_there) d
        | inr (p, there) ↦
            rw (e, ping, ping_found, up, there)
              (ping_end-IsDown id j mc latency now conns (ops.ping p w) n d)
      ]
    ]
  ]

  -- After its own ping failed an entry is marked as in error, and any other entry keeps its state.
  mark_entry-IsDown_ne :
      (id j : Str) (reply : Reply ℕ) (conns : Conns P) (w : W)
      → str_eq j id ≡ false
      → IsDown id conns
      → IsDown id (mark_entry ops j (reply, conns, w)).0
  unfolding mark_entry
  mark_entry-IsDown_ne id j reply conns w n d = elim (Option-cases (lookup j conns)) [
    | inl e ↦ rw (e, mark_entry) d
    | inr (mc, e) ↦ rw (e, mark_entry) (IsDown-insert_ne id j (mark ops reply mc) conns n d)
  ]

  mark_entry-IsDown :
      (id j : Str) (reply : Reply ℕ) (conns : Conns P) (w : W)
      → (str_eq j id ≡ false) ⊎ ((why : Str) × (reply ≡ err why))
      → IsDown id conns
      → IsDown id (mark_entry ops j (reply, conns, w)).0
  unfolding mark_entry mark
  mark_entry-IsDown id j reply conns w (inl n) d = mark_entry-IsDown_ne id j reply conns w n d
  mark_entry-IsDown id j reply conns w (inr (why, failed)) d = elim (Bool-cases (str_eq j id)) [
    | inr n ↦ mark_entry-IsDown_ne id j reply conns w n d
    | inl same ↦
        let (mc, e, down) = d in
        let k : lookup j conns ≡ some mc = ap (λ x. lookup x conns) (str_eq_sound j id same) ∙ e in
        rw (k, mark_entry)
          (
            mark ops reply mc,
            lookup-insert j id (mark ops reply mc) conns ∙ rw same refl,
            rw (failed, mark) refl,
          )
  ]

  check_one-IsDown :
      (id j : Str) (latency now : ℕ) (conns : Conns P) (w : W)
      → IsDown id conns
      → IsDown id (check_one ops j latency now conns w).0
  unfolding check_one
  check_one-IsDown id j latency now conns w d =
      let out = ping ops j latency now conns w in
      elim (Bool-cases (str_eq j id)) [
        | inr n ↦
            mark_entry-IsDown id j out.0 out.1 out.2 (inl n)
              (ping-IsDown_ne id j latency now conns w n d)
        | inl same ↦
            let j_down : IsDown j conns = rw (str_eq_sound j id same) d in
            let (why, e) = ping_down j latency now conns w j_down in
            rw e (mark_entry-IsDown id j (err why) conns w (inr (why, refl)) d)
      ]

  check_ids-IsDown :
      (id : Str) (ids : List Str) (latency now : ℕ) (conns : Conns P) (w : W)
      → IsDown id conns
      → IsDown id (check_ids ops ids latency now conns w).0
  unfolding check_ids
  check_ids-IsDown id [] latency now conns w d = d
  check_ids-IsDown id (j ∷ ids) latency now conns w d =
      check_ids-IsDown id ids latency now _ _ (check_one-IsDown id j latency now conns w d)

  -- Once a connection is in error it stays so through every health check, and every call on it is
  -- refused without reaching its plugin.
  pub check_all-IsDown :
      {A : Type 0} (id : Str) (call : P → W → Reply A × W) (latency now : ℕ) (conns : Conns P)
      (w : W)
      → IsDown id conns
      → IsDown id (check_all ops latency now conns w).0
        × ((why : Str) × (on_active ops id call
                (check_all ops latency now conns w).0
                (check_all ops latency now conns w).1
              ≡ (err why, (check_all ops latency now conns w).1)))
  unfolding check_all
  check_all-IsDown id call latency now conns w d =
      let (mc, e, down) = check_ids-IsDown id (keys conns) latency now conns w d in
      (
        (mc, e, down),
        on_active-refused ops id call _ _ (λ m k. let same : m ≡ mc = cc in rw same down),
      )
