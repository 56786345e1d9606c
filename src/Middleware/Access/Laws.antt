-- ===== src/Middleware/Access/Laws.antt =====
-- internal/api/middleware: laws of the checks of permissions and of databases.
use go_database.Base.{
  Option-cases, is_nil, any, Str, str, str_eq, ℕ, suc, ◌≡◌, refl, ◌⊎◌, inl, inr, true, false,
  Option, none, some, [], arith,
}
use go_database.Auth.Permission.{
  Loader, resolve, has_permission, has_admin, add_perms, start, perm_admin, get_effective_perms,
}
use go_database.Auth.Permission.Merge.{any-add_perms}
use go_database.Auth.Permission.Chain.{
  Grants, has_permission-effective, get_effective_perms-unknown,
}
use go_database.Auth.DbAccess.{is_global, check_db_access, get_effective_db_access}
use go_database.Auth.DbAccess.Laws.{check_db_access-nothing, get_effective_db_access-unknown}
use go_database.Middleware.Context.{
  Context, Outcome, next, abort, forbidden, AuthConfig, ApiKey, Request, token_of, authenticate,
}
use go_database.Middleware.Access.{or_no_list, require_permission, require_db_access}

-- A request that passes the check of a permission has a role, and that role, one that it inherits
-- from, or the extra permissions of the caller allow the permission.
pub require_permission-Grants :
    (fuel : ℕ) (load : Loader) (required : Str) (ctx passed : Context)
    → require_permission fuel load required ctx ≡ some (next passed)
    → (role : Str) × (ctx.role ≡ some role)
      × (Grants load required role ⊎ (has_permission (or_no_list ctx.extra_perm) required ≡ true))
unfolding require_permission
require_permission-Grants fuel load required ctx passed h = elim (Option-cases ctx.role) [
  | inl e ↦ ground arith
  | inr (role, e) ↦
      elim (Option-cases (get_effective_perms fuel role load (or_no_list ctx.extra_perm))) [
        | inl d ↦ ground arith
        | inr (perms, p) ↦ (
          role,
          e,
          (has_permission-effective load role (or_no_list ctx.extra_perm) fuel perms required p).0
              (ground arith),
        )
      ]
]

-- `gin` calls the next handler of a chain where the first did not abort.
abbrev pub and_then : Outcome → (Context → Option Outcome) → Option Outcome
and_then (next ctx) handler = handler ctx
and_then (abort status message) handler = some (abort status message)

-- A request whose token is no JWT but a valid API key, one without "*" and without a permission for
-- all connections, is refused at every connection that a route names, whichever connections the key
-- lists, if no role is called "apikey".
authenticate-key_refused :
    (fuel : ℕ) (load : Loader) (cfg : AuthConfig) (validate : Str → Option ApiKey) (r : Request)
    (k : ApiKey) (conn : Str)
    → is_nil (token_of r) ≡ false
    → cfg.jwt (token_of r) ≡ none
    → cfg.api_key ≡ some validate
    → validate (token_of r) ≡ some k
    → resolve load (str "apikey") ≡ none
    → has_admin k.permissions ≡ false
    → any is_global k.permissions ≡ false
    → is_nil conn ≡ false
    → and_then (authenticate cfg r) (require_db_access (suc fuel) load conn)
      ≡ some (forbidden (str "no access to this connection"))
unfolding authenticate require_db_access
authenticate-key_refused fuel load cfg validate r k conn t j c v u a g n =
    let perms = (add_perms k.permissions start).result in
    let p : get_effective_perms (suc fuel) (str "apikey") load k.permissions ≡ some perms =
      get_effective_perms-unknown load (str "apikey") k.permissions fuel u in
    let d : get_effective_db_access (suc fuel) (str "apikey") load [] ≡ some [] =
      get_effective_db_access-unknown load (str "apikey") fuel u in
    let no_admin : has_admin perms ≡ false =
      any-add_perms (λ q. str_eq q perm_admin) k.permissions start refl a in
    let no_global : any is_global perms ≡ false =
      any-add_perms is_global k.permissions start refl g in
    let refused : check_db_access perms [] conn ≡ false =
      check_db_access-nothing perms conn no_admin no_global in
    rw (t, j, c, v, authenticate) (rw (n, p, d, refused, require_db_access) refl)
