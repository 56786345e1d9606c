-- ===== src/Transfer/Targets/Kept.antt =====
-- internal/transfer/typemap.go: the types of a target, classified again.
use go_database.Base.{str_eq, has_prefix, index, to_upper, trim_space, ◌≡◌, refl, []}
use go_database.Transfer.Types.{
  StandardType, serial, big_serial, int_type, big_int, small_int, tiny_int, var_char, char_type,
  text_type, bool_type, timestamp, timestamptz, date_type, time_type, float_type, double, decimal,
  json, binary, uuid, interval, blob, other_type, classify_type,
}
use go_database.Transfer.Targets.{map_to_postgres}

-- The standard type that PostgreSQL keeps of one: it has no one-byte integer and one type of bytes.
abbrev pub postgres_class : StandardType → StandardType
postgres_class serial = serial
postgres_class big_serial = big_serial
postgres_class int_type = int_type
postgres_class big_int = big_int
postgres_class small_int = small_int
postgres_class tiny_int = small_int
postgres_class var_char = var_char
postgres_class char_type = char_type
postgres_class text_type = text_type
postgres_class bool_type = bool_type
postgres_class timestamp = timestamp
postgres_class timestamptz = timestamptz
postgres_class date_type = date_type
postgres_class time_type = time_type
postgres_class float_type = float_type
postgres_class double = double
postgres_class decimal = decimal
postgres_class json = json
postgres_class binary = binary
postgres_class uuid = uuid
postgres_class interval = interval
postgres_class blob = binary
postgres_class other_type = text_type

-- The type that a column gets in PostgreSQL is classified as the column was, but for one-byte
-- integers, which become two-byte ones, for blobs, which become bytes, and for unknown types, which
-- become texts. The columns have no size.
classify_type-postgres :
    (std : StandardType) → classify_type (map_to_postgres std []) ≡ postgres_class std
unfolding classify_type map_to_postgres str_eq to_upper trim_space index has_prefix
classify_type-postgres serial = refl
classify_type-postgres big_serial = refl
classify_type-postgres int_type = refl
classify_type-postgres big_int = refl
classify_type-postgres small_int = refl
classify_type-postgres tiny_int = refl
classify_type-postgres var_char = refl
classify_type-postgres char_type = refl
classify_type-postgres text_type = refl
classify_type-postgres bool_type = refl
classify_type-postgres timestamp = refl
classify_type-postgres timestamptz = refl
classify_type-postgres date_type = refl
classify_type-postgres time_type = refl
classify_type-postgres float_type = refl
classify_type-postgres double = refl
classify_type-postgres decimal = refl
classify_type-postgres json = refl
classify_type-postgres binary = refl
classify_type-postgres uuid = refl
classify_type-postgres interval = refl
classify_type-postgres blob = refl
classify_type-postgres other_type = refl
