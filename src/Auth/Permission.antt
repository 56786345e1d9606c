-- ===== src/Auth/Permission.antt =====
-- internal/auth/permission.go: the permission constants, roles, and the effective permissions of a
-- user, gathered from the role's chain of parents.
pub mod Merge
pub mod Chain
mod Tests
use go_database.Base.{
  if◌then◌else◌, is_nil, any, Str, str, str_eq, elem, ℕ, zero, suc, Bool, false, ◌||◌, Option, none,
  some, List, [], ◌∷◌, ◌++◌,
}

abbrev pub perm_connections_list : Str
perm_connections_list = str "connections:list"

abbrev pub perm_connections_create : Str
perm_connections_create = str "connections:create"

abbrev pub perm_connections_delete : Str
perm_connections_delete = str "connections:delete"

abbrev pub perm_connections_query : Str
perm_connections_query = str "connections:query"

abbrev pub perm_connections_exec : Str
perm_connections_exec = str "connections:execute"

abbrev pub perm_users_list : Str
perm_users_list = str "users:list"

abbrev pub perm_users_create : Str
perm_users_create = str "users:create"

abbrev pub perm_users_edit : Str
perm_users_edit = str "users:edit"

abbrev pub perm_users_delete : Str
perm_users_delete = str "users:delete"

abbrev pub perm_settings_read : Str
perm_settings_read = str "settings:read"

abbrev pub perm_settings_write : Str
perm_settings_write = str "settings:write"

abbrev pub perm_jobs_list : Str
perm_jobs_list = str "jobs:list"

abbrev pub perm_jobs_create : Str
perm_jobs_create = str "jobs:create"

abbrev pub perm_jobs_cancel : Str
perm_jobs_cancel = str "jobs:cancel"

abbrev pub perm_backup_create : Str
perm_backup_create = str "backup:create"

abbrev pub perm_backup_restore : Str
perm_backup_restore = str "backup:restore"

abbrev pub perm_traffic_view : Str
perm_traffic_view = str "traffic:view"

abbrev pub perm_api_keys_manage : Str
perm_api_keys_manage = str "apikeys:manage"

abbrev pub perm_roles_manage : Str
perm_roles_manage = str "roles:manage"

abbrev pub perm_admin : Str
perm_admin = str "*"

-- `parent` is empty for a role that inherits from none.
pub record Role : Type 0 where
  pub id : Str
  pub name : Str
  pub parent : Str
  pub permissions : List Str
  pub db_access : List Str

unfoldable pub default_roles : List Role
default_roles =
    record {
      id = str "admin";
      name = str "Administrator";
      parent = [];
      permissions = perm_admin ∷ [];
      db_access = [];
    }
    ∷ record {
      id = str "developer";
      name = str "Developer";
      parent = [];
      permissions =
          perm_connections_list ∷ perm_connections_query ∷ perm_connections_exec ∷ perm_users_list
          ∷ perm_jobs_list ∷ perm_jobs_create ∷ perm_traffic_view ∷ [];
      db_access = [];
    }
    ∷ record {
      id = str "readonly";
      name = str "Read Only";
      parent = [];
      permissions = perm_connections_list ∷ perm_connections_query ∷ [];
      db_access = [];
    }
    ∷ []

unfoldable pub has_permission : List Str → Str → Bool
has_permission [] required = false
has_permission (p ∷ perms) required =
    str_eq p perm_admin || str_eq p required || has_permission perms required

-- `loadRole`; a nil loader is `λ _. none`.
abbrev pub Loader : Type 0
Loader = Str → Option Role

find_role : Str → List Role → Option Role
find_role id [] = none
find_role id (r ∷ rs) = if str_eq r.id id then some r else find_role id rs

-- The loaded role, else the built-in one.
unfoldable pub resolve : Loader → Str → Option Role
unfolding find_role
resolve load id = elim (load id) [ some r ↦ some r | none ↦ find_role id default_roles ]

-- What the closure `walk` shares with its caller.
pub record Acc : Type 0 where
  pub seen : List Str
  pub result : List Str

unfoldable pub add_perm : Str → Acc → Acc
add_perm p s =
    if elem p s.seen then s else record { seen = p ∷ s.seen; result = s.result ++ p ∷ [] }

unfoldable pub add_perms : List Str → Acc → Acc
add_perms [] s = s
add_perms (p ∷ ps) s = add_perms ps (add_perm p s)

-- `for _, p := range r.Permissions { if p == PermAdmin`
abbrev pub has_admin : List Str → Bool
has_admin = any (λ p. str_eq p perm_admin)

-- One call of `walk` takes one unit of fuel; `none` means that the chain of parents is longer.
unfoldable pub walk : ℕ → Loader → Str → Acc → Option Acc
walk zero load id s = none
walk (suc fuel) load id s = elim (resolve load id) [
  | none ↦ some s
  | some r ↦
      let next = walk fuel load r.parent (add_perms r.permissions s) in
      if has_admin r.permissions
      then some (record s { result = perm_admin ∷ [] })
      else if is_nil r.parent
      then some (add_perms r.permissions s)
      else next
]

abbrev pub start : Acc
start = record { seen = []; result = [] }

abbrev finish : List Str → Option Acc → Option (List Str)
finish extra none = none
finish extra (some s) = some (add_perms extra s).result

unfoldable pub get_effective_perms : ℕ → Str → Loader → List Str → Option (List Str)
get_effective_perms fuel role load extra = finish extra (walk fuel load role start)
