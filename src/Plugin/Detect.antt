-- ===== src/Plugin/Detect.antt =====
-- internal/plugin/detect.go: the database type behind a configuration, and the tables of ports and
-- prefixes of interface.go.
use go_database.Base.{
  ◌==◌, if◌then◌else◌, is_nil, Str, str, has_prefix, has_suffix, to_lower, lookup, ℤ, pos, negsuc,
  Bool, true, false, not, Option, none, some, List, [], ◌∷◌,
}
use go_database.Plugin.Types.{
  DbType, postgres, mysql, mariadb, sqlite, mongodb, redis, mssql, oracle, click_house, elastic,
  graph, auto, Config,
}

-- `wellKnownPorts`
pub well_known_port : ℤ → Option DbType
well_known_port (negsuc _) = none
well_known_port (pos p) =
    if p == 5432
    then some postgres
    else if p == 3306
    then some mysql
    else if p == 3307
    then some mariadb
    else if p == 1433
    then some mssql
    else if p == 27017
    then some mongodb
    else if p == 6379
    then some redis
    else if p == 9200
    then some elastic
    else if p == 8123
    then some click_house
    else none

abbrev dsn_prefixes : List (Str × DbType)
dsn_prefixes =
    (str "postgres://", postgres)
    ∷ (str "postgresql://", postgres)
    ∷ (str "mysql://", mysql)
    ∷ (str "mariadb://", mariadb)
    ∷ (str "sqlserver://", mssql)
    ∷ (str "mssql://", mssql)
    ∷ (str "oracle://", oracle)
    ∷ (str "mongodb://", mongodb)
    ∷ (str "mongodb+srv://", mongodb)
    ∷ (str "redis://", redis)
    ∷ (str "clickhouse://", click_house)
    ∷ (str "elasticsearch://", elastic)
    ∷ (str "http://localhost:9200", elastic)
    ∷ []

pub match_prefix : Str → List (Str × DbType) → Option DbType
match_prefix lower [] = none
match_prefix lower ((prefix, typ) ∷ ps) =
    if has_prefix lower prefix then some typ else match_prefix lower ps

-- One candidate of the loop over the DSN and the host.
pub match_candidate : Str → Option DbType
match_candidate c = if is_nil c then none else match_prefix (to_lower c) dsn_prefixes

abbrev or_else : Option DbType → Option DbType → Option DbType
or_else none later = later
or_else (some t) later = some t

abbrev is_zero : ℤ → Bool
is_zero (pos n) = n == 0
is_zero (negsuc _) = false

abbrev match_port : ℤ → Option DbType
match_port port = if not (is_zero port) then well_known_port port else none

-- `Params["dsn"]`
abbrev or_empty : Option Str → Str
or_empty none = []
or_empty (some s) = s

abbrev dsn : Config → Str
dsn cfg = or_empty (lookup (str "dsn") cfg.params)

abbrev match_file : Str → Option DbType
match_file path =
    if not (is_nil path)
    then (if has_suffix (to_lower path) (str ".graph.json") then some graph else some sqlite)
    else none

abbrev found_or_auto : Option DbType → DbType × Bool
found_or_auto none = (auto, false)
found_or_auto (some t) = (t, true)

-- `DetectType`. `has_scheme` says of a host whether `net/url` parses it to a URL with a scheme.
unfoldable pub detect_type : (Str → Bool) → Config → DbType × Bool
detect_type has_scheme cfg =
    let from_url =
      if has_scheme cfg.host then match_prefix (to_lower cfg.host) dsn_prefixes else none in
    found_or_auto (
      or_else (match_candidate (dsn cfg)) (
        or_else (match_candidate cfg.host)
          (or_else (match_port cfg.port) (or_else (match_file cfg.file_path) from_url))))
