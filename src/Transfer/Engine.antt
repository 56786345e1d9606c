-- ===== src/Transfer/Engine.antt =====
-- internal/transfer/engine.go: `transferTable` with its pages, and `run` over the tables of a job. The
-- state W is what the databases hold. The log and the events of progress are not modelled.
pub mod Pages
use go_database.Base.{
  if◌then◌else◌, length, is_nil, Str, str, show_nat, insert, ℕ, zero, suc, ◌+◌, ◌*◌, Bool, Option,
  none, some, List, [], ◌∷◌, ◌++◌,
}
use go_database.Plugin.Types.{DbType, Value, int64, Schema, Result, Reply, ok, err, TableInfo}
use go_database.Transfer.Sql.{
  Row, quote_ident, generate_create_sql, generate_insert_sql, truncate_sql, filter_tables,
}
use go_database.Transfer.Targets.{value_mapper}

-- `connManager`, and the test whether the job's context is done.
pub record Databases (W : Type 0) : Type 0 where
  pub schema : Str → W → Reply Schema × W
  pub query : Str → Str → W → Reply Result × W
  pub execute : Str → Str → W → Reply Result × W
  pub is_done : W → Bool

-- `TransferJob`, as far as the loops read it.
pub record Job : Type 0 where
  pub source_conn : Str
  pub target_conn : Str
  pub target_type : DbType
  pub tables : List Str
  pub batch_size : ℕ
  pub on_conflict : Str
  pub dry_run : Bool

abbrev pub page_query : Str → ℕ → ℕ → Str
page_query table offset limit =
    str "SELECT * FROM "
    ++ quote_ident table
    ++ str " LIMIT "
    ++ show_nat limit
    ++ str " OFFSET "
    ++ show_nat offset

-- A row with its columns; values without a column are dropped.
pub name_row : Row → List Str → List Value → Row
name_row row [] vals = row
name_row row (c ∷ cols) [] = row
name_row row (c ∷ cols) (v ∷ vals) = name_row (insert c v row) cols vals

pub name_rows : List Str → List (List Value) → List Row
unfolding name_row
name_rows cols [] = []
name_rows cols (vals ∷ rows) = name_row [] cols vals ∷ name_rows cols rows

map_row : (Value → Str) → DbType → Row → Row
map_row print target [] = []
map_row print target ((k, v) ∷ row) = (k, value_mapper print v target) ∷ map_row print target row

pub map_rows : (Value → Str) → DbType → List Row → List Row
unfolding map_row
map_rows print target [] = []
map_rows print target (row ∷ rows) = map_row print target row ∷ map_rows print target rows

-- What `transferTable` returns: the rows that were written, and an error, if there was one.
pub record Copied : Type 0 where
  pub total : ℕ
  pub failure : Option Str

module _ {W : Type 0} (dbs : Databases W) (print : Value → Str) (job : Job) (t : TableInfo) where
  abbrev pub insert_sql : List Str → List (List Value) → Str
  insert_sql cols rows =
      generate_insert_sql t (map_rows print job.target_type (name_rows cols rows)) job.target_type

  abbrev stopped : ℕ → Str → W → Option (Copied × W)
  stopped total e w = some (record { total = total; failure = some e }, w)

  abbrev after_insert : ℕ → (W → Option (Copied × W)) → Reply Result × W → Option (Copied × W)
  after_insert total rest (err e, w) = stopped total (str "insert batch: " ++ e) w
  after_insert total rest (ok _, w) = rest w

  abbrev after_page : ℕ → (ℕ → W → Option (Copied × W)) → Reply Result × W → Option (Copied × W)
  after_page total rest (err e, w) = stopped total (str "read: " ++ e) w
  after_page total rest (ok page, w) =
      let sql = insert_sql page.columns page.rows in
      if is_nil page.rows
      then some (record { total = total; failure = none }, w)
      else if is_nil sql
      then rest (length page.rows) w
      else after_insert total (rest (length page.rows)) (dbs.execute job.target_conn sql w)

  -- The loop of `transferTable`, one unit of fuel a page. The offset and the total are one number in
  -- every round.
  pub copy_pages : ℕ → ℕ → W → Option (Copied × W)
  copy_pages zero total w = none
  copy_pages (suc fuel) total w =
      let page = dbs.query job.source_conn (page_query t.name total job.batch_size) w in
      let rest : ℕ → W → Option (Copied × W) = λ n v. copy_pages fuel (total + n) v in
      if dbs.is_done w then stopped total (str "context canceled") w else after_page total rest page

  -- `transferTable`
  pub transfer_table : ℕ → W → Option (Copied × W)
  transfer_table fuel w = copy_pages fuel 0 w
