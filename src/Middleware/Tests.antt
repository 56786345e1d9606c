-- ===== src/Middleware/Tests.antt =====
-- internal/api/middleware: tests of the checks, and of the limit after five failed logins.
use go_database.Base.{
  ltb, leb, take, is_nil, any, Str, str, str_eq, has_prefix, lookup, insert, remove, ◌+◌, ◌-◌, ◌*◌,
  ◌≡◌, refl, ◌⊎◌, true, false, not, ◌&&◌, Option, none, some, List, [], ◌∷◌, map,
}
use go_database.Auth.Permission.{
  Loader, resolve, default_roles, has_permission, has_admin, get_effective_perms, walk, add_perms,
  add_perm,
}
use go_database.Auth.Permission.Chain.{Grants}
use go_database.Auth.DbAccess.{is_global}
use go_database.Auth.Resource.{flat_resource}
use go_database.Auth.ApiKey.{StoredKey, hex, new_key}
use go_database.InternalDb.Keys.{KeyRow, KeyTable, internal_keys}
use go_database.Plugin.Types.{Reply, ok, err}
use go_database.Middleware.Context.{
  Context, no_context, next, AuthConfig, ApiKey, Request, token_of,
}
use go_database.Middleware.Access.{require_permission}
use go_database.Middleware.Access.Laws.{require_permission-Grants}
use go_database.Middleware.RateLimit.{second, admit, settle}
use go_database.Middleware.RateLimit.Laws.{
  Event, begins, ends, replay, watch, no_failures, admit-replay,
}

abbrev no_roles : Loader
no_roles id = none

abbrev reader : Context
reader = record no_context { role = some (str "readonly") }

abbrev reader_perms : List Str
reader_perms = str "connections:list" ∷ str "connections:query" ∷ []

reader-passes :
    require_permission 1 no_roles (str "connections:list") reader
    ≡ some (next (record reader { effective_perm = some reader_perms }))
unfolding require_permission get_effective_perms walk add_perms add_perm resolve default_roles
    str_eq has_permission
reader-passes = refl

require_permission-Grants_example :
    (role : Str) × (some (str "readonly") ≡ some role)
    × (Grants no_roles (str "connections:list") role
        ⊎ (has_permission [] (str "connections:list") ≡ true))
require_permission-Grants_example =
    require_permission-Grants 1 no_roles (str "connections:list") reader
      (record reader { effective_perm = some reader_perms }) reader-passes

abbrev bot_key : ApiKey
bot_key = record { permissions = str "jobs:list" ∷ []; db_access = str "c1" ∷ [] }

abbrev check_key : Str → Option ApiKey
check_key token = some bot_key

abbrev keys_only : AuthConfig
keys_only = record { jwt = λ token. none; api_key = some check_key }

abbrev bot : Request
bot = record { authorization = []; api_key = str "gdb_1"; token = [] }

bot-token : is_nil (token_of bot) ≡ false
unfolding token_of has_prefix
bot-token = refl

no_apikey_role : resolve no_roles (str "apikey") ≡ none
unfolding resolve default_roles str_eq
no_apikey_role = refl

bot-has_admin : has_admin bot_key.permissions ≡ false
unfolding str_eq
bot-has_admin = refl

bot-is_global : any is_global bot_key.permissions ≡ false
unfolding is_global flat_resource lookup str_eq has_prefix
bot-is_global = refl

-- Six failures, of which two overlap with the login before.
abbrev failures : List Event
failures =
    begins (str "1.2.3.4") 10
    ∷ begins (str "1.2.3.4") 20
    ∷ ends (str "1.2.3.4") 401 30
    ∷ ends (str "1.2.3.4") 401 40
    ∷ ends (str "1.2.3.4") 401 50
    ∷ ends (str "1.2.3.4") 401 60
    ∷ ends (str "1.2.3.4") 401 70
    ∷ ends (str "1.2.3.4") 401 80
    ∷ []

admit-replay_example :
    (admit 90 (str "1.2.3.4") (replay failures [])).0
    ≡ not (
        leb 5 (watch (str "1.2.3.4") failures no_failures).failures
        && ltb 90 (
            (watch (str "1.2.3.4") failures no_failures).last
            + ((watch (str "1.2.3.4") failures no_failures).failures - 4) * second))
admit-replay_example = admit-replay (str "1.2.3.4") failures 90

refused_after_six : (admit 90 (str "1.2.3.4") (replay failures [])).0 ≡ false
unfolding admit replay settle str_eq lookup insert
refused_after_six = refl

abbrev found_row : Option KeyRow → Reply KeyRow
found_row none = err (str "no row")
found_row (some r) = ok r

-- The table is an association list.
abbrev listed_rows : KeyTable (List (Str × KeyRow))
listed_rows = record {
  put_row = λ row w. (none, insert (KeyRow.prefix row) row w);
  find_row = λ prefix w. (found_row (lookup prefix w), w);
  all_rows = λ w. (ok (map (λ (entry : Str × KeyRow). entry.1) w), w);
  delete_row = λ prefix w. (none, remove prefix w);
}

abbrev noise : Str
noise =
    1 ∷ 2 ∷ 3 ∷ 4 ∷ 5 ∷ 6 ∷ 7 ∷ 8 ∷ 9 ∷ 10 ∷ 11 ∷ 12 ∷ 13 ∷ 14 ∷ 15 ∷ 16 ∷ 17 ∷ 18 ∷ 19 ∷ 20 ∷ 21
    ∷ 22 ∷ 23 ∷ 24 ∷ 25 ∷ 26 ∷ 27 ∷ 28 ∷ 29 ∷ 30 ∷ 31 ∷ 255 ∷ []

abbrev plain_hash : Str → Str
plain_hash s = take 3 s

abbrev key_request : Request
key_request = record { authorization = []; api_key = hex noise; token = [] }

abbrev bot_generated : StoredKey
bot_generated =
    new_key (internal_keys listed_rows) plain_hash (hex noise) (str "bot") (str "query" ∷ [])
      (str "ada") (str "prod" ∷ [])
