-- ===== src/Plugin/Types.antt =====
-- internal/plugin/interface.go: database types, schemas and results.
use go_database.Base.{Str, str, ℤ, Bool, List}

pub data DbType : Type 0 where
  postgres mysql mariadb sqlite mongodb redis mssql oracle click_house elastic graph auto : DbType

-- The text of a type, as it is declared.
abbrev pub type_text : DbType → Str
type_text postgres = str "postgres"
type_text mysql = str "mysql"
type_text mariadb = str "mariadb"
type_text sqlite = str "sqlite"
type_text mongodb = str "mongodb"
type_text redis = str "redis"
type_text mssql = str "mssql"
type_text oracle = str "oracle"
type_text click_house = str "clickhouse"
type_text elastic = str "elasticsearch"
type_text graph = str "graph"
type_text auto = str "auto"

-- A cell of a result, a Go `any`. `float` and `other` carry what `%v` prints.
pub data Value : Type 0 where
  nil_value : Value
  boolean : Bool → Value
  int64 : ℤ → Value
  integer : ℤ → Value
  float : Str → Value
  text : Str → Value
  other : Str → Value

pub record Config : Type 0 where
  pub typ : DbType
  pub host : Str
  pub port : ℤ
  pub database : Str
  pub user : Str
  pub password : Str
  pub file_path : Str
  pub ssl : Bool
  pub params : List (Str × Str)

pub record ColumnInfo : Type 0 where
  pub name : Str
  pub type_name : Str
  pub nullable : Bool
  pub primary : Bool
  pub default_value : Str

pub record TableInfo : Type 0 where
  pub name : Str
  pub row_count : ℤ
  pub columns : List ColumnInfo

pub record Schema : Type 0 where
  pub tables : List TableInfo

pub record Result : Type 0 where
  pub columns : List Str
  pub rows : List (List Value)
  pub rows_affected : ℤ
  pub duration : ℤ

-- What a call that may fail returns: a value, or the text of an error.
pub data Reply {ℓ} (A : Type ℓ) : Type ℓ where
  ok : A → Reply A
  err : Str → Reply A
