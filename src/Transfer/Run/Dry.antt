-- ===== src/Transfer/Run/Dry.antt =====
-- internal/transfer/engine.go: `run` of a dry job.
use go_database.Base.{Str, str, ℕ, ◌≡◌, refl, true, some, ◌++◌}
use go_database.Plugin.Types.{Value, Schema, Reply, ok, err}
use go_database.Transfer.Engine.{Databases, Job}
use go_database.Transfer.Run.{Status, done, failed, after_schema, run}

after_schema-dry :
    {W : Type 0} (dbs : Databases W) (print : Value → Str) (job : Job) (fuel : ℕ)
    (out : Reply Schema × W)
    → job.dry_run ≡ true
    → (status : Status) × (after_schema dbs print job fuel out ≡ some (status, out.1))
unfolding after_schema
after_schema-dry dbs print job fuel (err e, w) h = (failed (str "source schema: " ++ e), refl)
after_schema-dry dbs print job fuel (ok s, w) h = (done, rw h refl)

-- A dry run ends, whatever the fuel, and leaves the databases as the reading of the schema left them.
run-dry :
    {W : Type 0} (dbs : Databases W) (print : Value → Str) (job : Job) (fuel : ℕ) (w : W)
    → job.dry_run ≡ true
    → (status : Status) × (run dbs print job fuel w
        ≡ some (status, (dbs.schema job.source_conn w).1))
unfolding run
run-dry dbs print job fuel w h =
    after_schema-dry dbs print job fuel (dbs.schema job.source_conn w) h
