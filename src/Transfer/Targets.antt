-- ===== src/Transfer/Targets.antt =====
-- internal/transfer/typemap.go: the type that a column gets in each target, and `ValueMapper`.
pub mod Kept
use go_database.Base.{
  ltb, if◌then◌else◌, take, drop, is_nil, Str, str, index, contains, to_upper, trim_space, ℕ, ◌+◌,
  not, ◌&&◌, Option, some, [], ◌++◌,
}
use go_database.Plugin.Types.{
  DbType, postgres, mysql, mariadb, sqlite, mongodb, redis, Value, nil_value, text,
}
use go_database.Transfer.Types.{
  StandardType, cut_at, classify_type, serial, big_serial, int_type, big_int, small_int, tiny_int,
  var_char, char_type, text_type, bool_type, timestamp, timestamptz, date_type, time_type,
  float_type, double, decimal, json, binary, uuid, interval, blob, other_type,
}

abbrev sized : Str → Str → Str → Str
sized name size default = if not (is_nil size) then name ++ size else name ++ default

-- `mapToPostgres`
unfoldable pub map_to_postgres : StandardType → Str → Str
map_to_postgres serial size = str "SERIAL"
map_to_postgres big_serial size = str "BIGSERIAL"
map_to_postgres int_type size = str "INTEGER"
map_to_postgres big_int size = str "BIGINT"
map_to_postgres small_int size = str "SMALLINT"
map_to_postgres tiny_int size = str "SMALLINT"
map_to_postgres var_char size = sized (str "VARCHAR") size (str "(255)")
map_to_postgres char_type size = sized (str "CHAR") size (str "(1)")
map_to_postgres text_type size = str "TEXT"
map_to_postgres bool_type size = str "BOOLEAN"
map_to_postgres timestamp size = str "TIMESTAMP"
map_to_postgres timestamptz size = str "TIMESTAMPTZ"
map_to_postgres date_type size = str "DATE"
map_to_postgres time_type size = str "TIME"
map_to_postgres float_type size = str "REAL"
map_to_postgres double size = str "DOUBLE PRECISION"
map_to_postgres decimal size = str "NUMERIC"
map_to_postgres json size = str "JSONB"
map_to_postgres binary size = str "BYTEA"
map_to_postgres uuid size = str "UUID"
map_to_postgres interval size = str "INTERVAL"
map_to_postgres blob size = str "BYTEA"
map_to_postgres other_type size = str "TEXT"

-- `mapToMySQL`
pub map_to_mysql : StandardType → Str → Str
map_to_mysql serial size = str "BIGINT " ++ str "AUTO_INCREMENT"
map_to_mysql big_serial size = str "BIGINT " ++ str "AUTO_INCREMENT"
map_to_mysql int_type size = str "INT"
map_to_mysql big_int size = str "BIGINT"
map_to_mysql small_int size = str "SMALLINT"
map_to_mysql tiny_int size = str "TINYINT"
map_to_mysql var_char size = sized (str "VARCHAR") size (str "(255)")
map_to_mysql char_type size = sized (str "CHAR") size (str "(1)")
map_to_mysql text_type size = str "TEXT"
map_to_mysql bool_type size = str "TINYINT(1)"
map_to_mysql timestamp size = str "DATETIME(6)"
map_to_mysql timestamptz size = str "DATETIME(6)"
map_to_mysql date_type size = str "DATE"
map_to_mysql time_type size = str "TIME"
map_to_mysql float_type size = str "FLOAT"
map_to_mysql double size = str "DOUBLE"
map_to_mysql decimal size = str "DECIMAL(38,6)"
map_to_mysql json size = str "JSON"
map_to_mysql binary size = str "BLOB"
map_to_mysql uuid size = str "VARCHAR(36)"
map_to_mysql interval size = str "TEXT"
map_to_mysql blob size = str "LONGBLOB"
map_to_mysql other_type size = str "TEXT"

-- `mapToSQLite`
pub map_to_sqlite : StandardType → Str
map_to_sqlite serial = str "INTEGER"
map_to_sqlite big_serial = str "INTEGER"
map_to_sqlite int_type = str "INTEGER"
map_to_sqlite big_int = str "INTEGER"
map_to_sqlite small_int = str "INTEGER"
map_to_sqlite tiny_int = str "INTEGER"
map_to_sqlite var_char = str "TEXT"
map_to_sqlite char_type = str "TEXT"
map_to_sqlite text_type = str "TEXT"
map_to_sqlite bool_type = str "INTEGER"
map_to_sqlite timestamp = str "TEXT"
map_to_sqlite timestamptz = str "TEXT"
map_to_sqlite date_type = str "TEXT"
map_to_sqlite time_type = str "TEXT"
map_to_sqlite float_type = str "REAL"
map_to_sqlite double = str "REAL"
map_to_sqlite decimal = str "REAL"
map_to_sqlite json = str "TEXT"
map_to_sqlite binary = str "TEXT"
map_to_sqlite uuid = str "TEXT"
map_to_sqlite interval = str "TEXT"
map_to_sqlite blob = str "TEXT"
map_to_sqlite other_type = str "TEXT"

-- `mapToMongo`
pub map_to_mongo : StandardType → Str
map_to_mongo serial = str "NumberLong"
map_to_mongo big_serial = str "NumberLong"
map_to_mongo int_type = str "NumberLong"
map_to_mongo big_int = str "NumberLong"
map_to_mongo small_int = str "NumberLong"
map_to_mongo tiny_int = str "NumberLong"
map_to_mongo var_char = str "String"
map_to_mongo char_type = str "String"
map_to_mongo text_type = str "String"
map_to_mongo bool_type = str "Boolean"
map_to_mongo timestamp = str "Date"
map_to_mongo timestamptz = str "Date"
map_to_mongo date_type = str "Date"
map_to_mongo time_type = str "Date"
map_to_mongo float_type = str "NumberDouble"
map_to_mongo double = str "NumberDouble"
map_to_mongo decimal = str "NumberDouble"
map_to_mongo json = str "Object"
map_to_mongo binary = str "String"
map_to_mongo uuid = str "String"
map_to_mongo interval = str "String"
map_to_mongo blob = str "String"
map_to_mongo other_type = str "String"

abbrev slice_of : Str → Option ℕ → Option ℕ → Str
slice_of raw (some from) (some to) =
    if ltb 0 from && ltb from to then drop from (take (to + 1) raw) else []
slice_of raw _ _ = []

-- The size in brackets, where there is one behind a name.
abbrev pub size_part : Str → Str
size_part raw =
    if contains (to_upper (trim_space raw)) (str "(")
    then slice_of raw (index raw (str "(")) (index raw (str ")"))
    else []

abbrev class_raw : Str → Str
class_raw raw =
    if contains (to_upper (trim_space raw)) (str "(") then cut_at (index raw (str "(")) raw else raw

abbrev target_type : StandardType → Str → DbType → Str
target_type std size postgres = map_to_postgres std size
target_type std size mysql = map_to_mysql std size
target_type std size mariadb = map_to_mysql std size
target_type std size sqlite = map_to_sqlite std
target_type std size mongodb = map_to_mongo std
target_type std size redis = str "STRING"
target_type std size _ = str "TEXT"

-- `mapTypeToTarget`
unfoldable pub map_type_to_target : Str → DbType → Str
map_type_to_target raw target = target_type (classify_type (class_raw raw)) (size_part raw) target

-- `ValueMapper`; `print` is `%v`.
pub value_mapper : (Value → Str) → Value → DbType → Value
value_mapper print nil_value target = nil_value
value_mapper print v redis = text (print v)
value_mapper print v _ = v
