-- ===== src/Middleware/Access.antt =====
-- internal/api/middleware: `PermissionMiddleware` of auth.go and `DBAccessMiddleware` of dbaccess.go.
-- The fuel is that of the walk up the parents of the role; `none` means that the walk does not return.
pub mod Laws
use go_database.Base.{
  if◌then◌else◌, is_nil, Str, str, str_eq, join, ℕ, Bool, not, Option, none, some, List, [],
}
use go_database.Auth.Permission.{Loader, get_effective_perms, has_permission}
use go_database.Auth.DbAccess.{check_db_access, get_effective_db_access}
use go_database.Middleware.Context.{Context, Outcome, next, forbidden}

-- `extraPerm.([]string)`: an absent list is a nil one.
abbrev pub or_no_list : Option (List Str) → List Str
or_no_list none = []
or_no_list (some l) = l

permission_end : Context → Str → Option (List Str) → Option Outcome
permission_end ctx required none = none
permission_end ctx required (some effective) = some (
    if not (has_permission effective required)
    then forbidden (str "insufficient permissions")
    else next (record ctx { effective_perm = some effective }))

-- `PermissionMiddleware`
unfoldable pub require_permission : ℕ → Loader → Str → Context → Option Outcome
unfolding permission_end
require_permission fuel load required ctx = elim ctx.role [
  | none ↦ some (forbidden (str "missing role in context"))
  | some role ↦
      permission_end ctx required (get_effective_perms fuel role load (or_no_list ctx.extra_perm))
]

abbrev pub bool_text : Bool → Str
bool_text b = if b then str "true" else str "false"

-- The context behind the check, with the headers for the handler of MCP.
abbrev pub scoped : Context → Str → List Str → Context
scoped ctx role access = record ctx {
  effective_db_access = some access;
  scope_db_access = some (join (str ",") access);
  scope_is_admin = some (bool_text (str_eq role (str "admin")));
}

access_end : Context → Str → Str → Option (List Str) → Option (List Str) → Option Outcome
access_end ctx role conn (some perms) (some access) = some (
    if not (check_db_access perms access conn)
    then forbidden (str "no access to this connection")
    else next (scoped ctx role access))
access_end ctx role conn _ _ = none

-- `DBAccessMiddleware`, for the parameter `id` of the route.
unfoldable pub require_db_access : ℕ → Loader → Str → Context → Option Outcome
unfolding access_end
require_db_access fuel load conn ctx = if is_nil conn then some (next ctx) else elim ctx.role [
  | none ↦ some (forbidden (str "missing role"))
  | some role ↦
      access_end ctx role conn (get_effective_perms fuel role load (or_no_list ctx.extra_perm))
        (get_effective_db_access fuel role load (or_no_list ctx.extra_db_access))
]
