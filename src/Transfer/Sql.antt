-- ===== src/Transfer/Sql.antt =====
-- internal/transfer/engine.go: the SQL that the engine writes.
pub mod Literal
use go_database.Base.{
  ltb, ◌==◌, if◌then◌else◌, is_nil, Str, str, join, show_int, lookup, elem, Bool, true, false, not,
  ◌&&◌, ◌||◌, Option, none, some, List, [], ◌∷◌, ◌++◌,
}
use go_database.Plugin.Types.{
  DbType, postgres, sqlite, Value, nil_value, boolean, int64, integer, float, text, other,
  ColumnInfo, TableInfo,
}
use go_database.Transfer.Targets.{map_type_to_target}

-- `Row`: a map from columns to values.
abbrev pub Row : Type 0
Row = List (Str × Value)

abbrev pub is_postgres : DbType → Bool
is_postgres postgres = true
is_postgres _ = false

abbrev pub is_sqlite : DbType → Bool
is_sqlite sqlite = true
is_sqlite _ = false

-- `quoteIdent`
abbrev pub quote_ident : Str → Str
quote_ident name = str "\"" ++ name ++ str "\""

-- `strings.ReplaceAll(val, "'", "''")`
pub double_quotes : Str → Str
double_quotes [] = []
double_quotes (c ∷ s) =
    let rest = double_quotes s in if c == b'\'' then b'\'' ∷ b'\'' ∷ rest else c ∷ rest

abbrev pub literal : Str → Str
literal s = str "'" ++ double_quotes s ++ str "'"

-- `escapeValue`
unfoldable pub escape_value : Value → Str
escape_value nil_value = str "NULL"
escape_value (boolean b) = if b then str "TRUE" else str "FALSE"
escape_value (int64 n) = show_int n
escape_value (integer n) = show_int n
escape_value (float printed) = printed
escape_value (text s) = literal s
escape_value (other printed) = literal printed

abbrev column_def : DbType → ColumnInfo → Str
column_def target c =
    str "  "
    ++ quote_ident c.name
    ++ str " "
    ++ map_type_to_target c.type_name target
    ++ (if not c.nullable then str " NOT NULL" else [])
    ++ (if not (is_nil c.default_value) && not (is_sqlite target)
        then str " DEFAULT " ++ c.default_value
        else [])

column_defs : DbType → List ColumnInfo → List Str
column_defs target [] = []
column_defs target (c ∷ cs) = column_def target c ∷ column_defs target cs

-- The variable `pk` after the loop: the last column that is a key.
primary_key : Str → List ColumnInfo → Str
primary_key pk [] = pk
primary_key pk (c ∷ cs) = primary_key (if c.primary then c.name else pk) cs

abbrev key_def : Str → List Str
key_def pk =
    if not (is_nil pk) then (str "  PRIMARY KEY (" ++ quote_ident pk ++ str ")") ∷ [] else []

-- `generateCreateSQL`
pub generate_create_sql : TableInfo → DbType → Str
unfolding column_defs primary_key
generate_create_sql t target =
    str "CREATE TABLE IF NOT EXISTS "
    ++ quote_ident t.name
    ++ str " (\n"
    ++ join (str ",\n") (column_defs target t.columns ++ key_def (primary_key [] t.columns))
    ++ str "\n);"

-- Texts in the order of their bytes.
pub str_leb : Str → Str → Bool
str_leb [] t = true
str_leb (c ∷ s) [] = false
str_leb (c ∷ s) (d ∷ t) = ltb c d || (c == d && str_leb s t)

pub insert_name : Str → List Str → List Str
insert_name x [] = x ∷ []
insert_name x (y ∷ ys) = if str_leb x y then x ∷ y ∷ ys else y ∷ insert_name x ys

-- `sort.Strings`
pub sort_names : List Str → List Str
sort_names [] = []
sort_names (x ∷ xs) = insert_name x (sort_names xs)

column_names : Row → List Str
column_names [] = []
column_names ((k, _) ∷ row) = k ∷ column_names row

abbrev cell_text : Option Value → Str
cell_text none = str "NULL"
cell_text (some v) = escape_value v

row_cells : List Str → Row → List Str
row_cells [] row = []
row_cells (c ∷ cols) row = cell_text (lookup c row) ∷ row_cells cols row

row_texts : List Str → List Row → List Str
unfolding row_cells
row_texts cols [] = []
row_texts cols (row ∷ rows) =
    (str "(" ++ join (str ",") (row_cells cols row) ++ str ")") ∷ row_texts cols rows

quoted_names : List Str → List Str
quoted_names [] = []
quoted_names (c ∷ cols) = quote_ident c ∷ quoted_names cols

-- `generateInsertSQL`
unfoldable pub generate_insert_sql : TableInfo → List Row → DbType → Str
unfolding sort_names column_names row_texts quoted_names
generate_insert_sql t [] target = []
generate_insert_sql t (row ∷ rows) target =
    let cols = sort_names (column_names row) in
    str "INSERT INTO "
    ++ quote_ident t.name
    ++ str " ("
    ++ join (str ",") (quoted_names cols)
    ++ str ") VALUES\n"
    ++ join (str ",\n") (row_texts cols (row ∷ rows))
    ++ (if is_postgres target then str "\nON CONFLICT DO NOTHING;" else str ";")

-- `truncateSQL`
pub truncate_sql : Str → DbType → Str
truncate_sql table target =
    if is_sqlite target
    then str "DELETE FROM " ++ quote_ident table
    else str "TRUNCATE TABLE " ++ quote_ident table

-- `filterTables`
pub filter_named : List Str → List TableInfo → List TableInfo
filter_named names [] = []
filter_named names (t ∷ tables) =
    let rest = filter_named names tables in if elem t.name names then t ∷ rest else rest

pub filter_tables : List TableInfo → List Str → List TableInfo
filter_tables tables names = if is_nil names then tables else filter_named names tables
