-- ===== src/Auth/Tests.antt =====
-- internal/auth/resourceperm.go: tests of the resource permissions and of the access to databases.
use go_database.Base.{
  any, Str, str, str_eq, has_prefix, has_suffix, cut, lookup, ◌≡◌, refl, true, false, not, ◌&&◌,
  List, [], ◌∷◌, ◌++◌,
}
use go_database.Auth.Resource.{
  flat_resource, match_pattern, matches_resource, has_resource_permission,
}
use go_database.Auth.Resource.Deny.{grants, denies, has_resource_permission-deny_wins}
use go_database.Auth.DbAccess.{deny_key, check_db_access, merge_access}
use go_database.Auth.DbAccess.Laws.{check_db_access-denied}

-- A list that grants all connections and denies one.
abbrev all_but_prod : List Str
all_but_prod = str "query:connection.*" ∷ str "-query:connection.prod" ∷ []

has_resource_permission-deny_wins_example :
    has_resource_permission all_but_prod (str "query") (str "connection.prod") ≡ (
      any (grants (str "query") (str "connection.prod")) all_but_prod
      && not (any (denies (str "query") (str "connection.prod")) all_but_prod))
unfolding str_eq
has_resource_permission-deny_wins_example =
    has_resource_permission-deny_wins (str "query") (str "connection.prod") all_but_prod refl

denied : denies (str "query") (str "connection.prod") (str "-query:connection.prod") ≡ true
unfolding matches_resource match_pattern flat_resource str_eq has_prefix has_suffix cut lookup
denied = refl

check_db_access-denied_example :
    check_db_access []
      (merge_access (str "*" ∷ []) ([] ++ deny_key (str "prod") ∷ str "test" ∷ []))
      (str "prod")
    ≡ false
unfolding str_eq
check_db_access-denied_example =
    check_db_access-denied (str "prod") [] (str "*" ∷ []) [] (str "test" ∷ []) refl refl refl refl
      refl refl
