-- ===== src/Transfer/Run.antt =====
-- internal/transfer/engine.go: `run`, over the tables of a job. `none` means that the fuel for the pages
-- of a table ran out; the log and the events are not modelled.
pub mod Dry
use go_database.Base.{
  if◌then◌else◌, Str, str, str_eq, ltb_ℤ, ℤ, pos, ℕ, ◌*◌, Option, none, some, List, [], ◌∷◌, ◌++◌,
}
use go_database.Plugin.Types.{DbType, Value, int64, Schema, Result, Reply, ok, err, TableInfo}
use go_database.Transfer.Sql.{quote_ident, generate_create_sql, truncate_sql, filter_tables}
use go_database.Transfer.Engine.{Databases, Job, Copied, transfer_table}

-- The status that `run` leaves, with the message of `fail`.
pub data Status : Type 0 where
  done : Status
  failed : Str → Status

abbrev count_query : Str → Str
count_query table = str "SELECT COUNT(*) as cnt FROM " ++ quote_ident table

abbrev counted : Reply Result → ℤ
counted (ok r) = elim r.rows [
  | [] ↦ pos 0
  | row ∷ _ ↦ elim row [ [] ↦ pos 0 | v ∷ _ ↦ elim v [ int64 n ↦ n | _ ↦ pos 0 ] ]
]
counted (err _) = pos 0

module _ {W : Type 0} (dbs : Databases W) (print : Value → Str) (job : Job) where
  abbrev run_on : Str → W → W
  run_on sql w = (dbs.execute job.target_conn sql w).1

  abbrev after_copy : Str → (W → Option (Status × W)) → Option (Copied × W) → Option (Status × W)
  after_copy name rest none = none
  after_copy name rest (some (c, w)) = elim c.failure [
    | none ↦ rest w
    | some e ↦ some (failed (str "[" ++ name ++ str "] transfer failed: " ++ e), w)
  ]

  -- The end of the round of a table, after the table was created.
  fill_table : ℕ → TableInfo → (W → Option (Status × W)) → W → Option (Status × W)
  fill_table fuel t rest w =
      let copy : W → Option (Status × W) =
        λ v. after_copy t.name rest (transfer_table dbs print job t fuel v) in
      let (count, w') = dbs.query job.target_conn (count_query t.name) w in
      if str_eq job.on_conflict (str "overwrite")
      then copy (run_on (truncate_sql t.name job.target_type) w)
      else if str_eq job.on_conflict (str "skip")
      then (if ltb_ℤ (pos 0) (counted count) then rest w' else copy w')
      else copy w

  -- The loop over the tables.
  pub run_tables : ℕ → List TableInfo → W → Option (Status × W)
  unfolding fill_table
  run_tables fuel [] w = some (done, w)
  run_tables fuel (t ∷ tables) w =
      let rest : W → Option (Status × W) = λ v. run_tables fuel tables v in
      if dbs.is_done w
      then some (failed (str "cancelled"), w)
      else fill_table fuel t rest (run_on (generate_create_sql t job.target_type) w)

  after_schema : ℕ → Reply Schema × W → Option (Status × W)
  after_schema fuel (err e, w) = some (failed (str "source schema: " ++ e), w)
  after_schema fuel (ok s, w) =
      if job.dry_run then some (done, w) else run_tables fuel (filter_tables s.tables job.tables) w

  -- `run`
  pub run : ℕ → W → Option (Status × W)
  unfolding after_schema
  run fuel w = after_schema fuel (dbs.schema job.source_conn w)
