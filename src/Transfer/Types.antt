-- ===== src/Transfer/Types.antt =====
-- internal/transfer/typemap.go: the standard types, and the classification of type names.
use go_database.Base.{
  ltb, if◌then◌else◌, take, Str, str, str_eq, index, to_upper, trim_space, ℕ, ◌||◌, Option, none,
  some,
}

pub data StandardType : Type 0 where
  serial big_serial int_type big_int small_int tiny_int var_char char_type : StandardType
  text_type bool_type timestamp timestamptz date_type time_type float_type : StandardType
  double decimal json binary uuid interval blob other_type : StandardType

-- The `switch` of `classifyType`.
pub classify_base : Str → StandardType
classify_base base =
    if str_eq base (str "SERIAL") || str_eq base (str "SERIAL4")
    then serial
    else if str_eq base (str "BIGSERIAL") || str_eq base (str "SERIAL8")
    then big_serial
    else if str_eq base (str "SMALLSERIAL") || str_eq base (str "SERIAL2")
    then small_int
    else if str_eq base (str "INT")
        || str_eq base (str "INT4")
        || str_eq base (str "INTEGER")
        || str_eq base (str "INT32")
    then int_type
    else if str_eq base (str "BIGINT")
        || str_eq base (str "INT8")
        || str_eq base (str "INT64")
        || str_eq base (str "LONG")
    then big_int
    else if str_eq base (str "SMALLINT")
        || str_eq base (str "INT2")
        || str_eq base (str "SHORT")
        || str_eq base (str "TINY")
        || str_eq base (str "YEAR")
    then small_int
    else if str_eq base (str "TINYINT")
    then tiny_int
    else if str_eq base (str "VARCHAR")
        || str_eq base (str "VARCHAR2")
        || str_eq base (str "NVARCHAR")
        || str_eq base (str "CHARACTER VARYING")
    then var_char
    else if str_eq base (str "CHAR") || str_eq base (str "BPCHAR") || str_eq base (str "NCHAR")
    then char_type
    else if str_eq base (str "TEXT")
        || str_eq base (str "LONGTEXT")
        || str_eq base (str "MEDIUMTEXT")
        || str_eq base (str "CLOB")
        || str_eq base (str "STRING")
    then text_type
    else if str_eq base (str "BOOLEAN") || str_eq base (str "BOOL") || str_eq base (str "BIT")
    then bool_type
    else if str_eq base (str "TIMESTAMP")
        || str_eq base (str "DATETIME")
        || str_eq base (str "TIMESTAMP WITHOUT TIME ZONE")
    then timestamp
    else if str_eq base (str "TIMESTAMPTZ") || str_eq base (str "TIMESTAMP WITH TIME ZONE")
    then timestamptz
    else if str_eq base (str "DATE")
    then date_type
    else if str_eq base (str "TIME") || str_eq base (str "TIME WITHOUT TIME ZONE")
    then time_type
    else if str_eq base (str "FLOAT")
        || str_eq base (str "FLOAT4")
        || str_eq base (str "FLOAT8")
        || str_eq base (str "REAL")
        || str_eq base (str "SINGLE")
    then float_type
    else if str_eq base (str "DOUBLE") || str_eq base (str "DOUBLE PRECISION")
    then double
    else if str_eq base (str "DECIMAL")
        || str_eq base (str "NUMERIC")
        || str_eq base (str "NUMBER")
        || str_eq base (str "MONEY")
    then decimal
    else if str_eq base (str "JSON") || str_eq base (str "JSONB")
    then json
    else if str_eq base (str "BYTEA")
        || str_eq base (str "BINARY")
        || str_eq base (str "VARBINARY")
        || str_eq base (str "IMAGE")
    then binary
    else if str_eq base (str "UUID")
    then uuid
    else if str_eq base (str "INTERVAL")
    then interval
    else if str_eq base (str "BLOB")
        || str_eq base (str "LONGBLOB")
        || str_eq base (str "MEDIUMBLOB")
        || str_eq base (str "TINYBLOB")
        || str_eq base (str "RAW")
    then blob
    else other_type

-- A text up to the byte at an index that is above 0.
abbrev pub cut_at : Option ℕ → Str → Str
cut_at none s = s
cut_at (some i) s = if ltb 0 i then take i s else s

-- `classifyType`
unfoldable pub classify_type : Str → StandardType
unfolding classify_base
classify_type raw =
    let base = to_upper (trim_space raw) in classify_base (cut_at (index base (str "(")) base)
