-- ===== src/Auth/Resource.antt =====
-- internal/auth/resourceperm.go: permissions of the form "action:resource" with wildcards, and
-- denials that begin with "-".
pub mod Deny
pub mod Pattern
use go_database.Base.{
  if◌then◌else◌, length, take, drop, Str, str, str_eq, has_prefix, has_suffix, cut, lookup, ◌-◌,
  Bool, true, false, not, ◌&&◌, Option, none, some, List, [], ◌∷◌,
}
use go_database.Auth.Permission.{
  perm_admin, perm_connections_list, perm_connections_create, perm_connections_delete,
  perm_connections_query, perm_connections_exec, perm_users_list, perm_users_create,
  perm_users_edit, perm_users_delete, perm_settings_read, perm_settings_write, perm_jobs_list,
  perm_jobs_create, perm_jobs_cancel, perm_backup_create, perm_backup_restore, perm_traffic_view,
  perm_api_keys_manage, perm_roles_manage,
}

abbrev flat_perm_to_resource : List (Str × Str)
flat_perm_to_resource =
    (perm_connections_list, str "list:connection.*")
    ∷ (perm_connections_create, str "create:connection.*")
    ∷ (perm_connections_delete, str "delete:connection.*")
    ∷ (perm_connections_query, str "query:connection.*")
    ∷ (perm_connections_exec, str "execute:connection.*")
    ∷ (perm_users_list, str "list:users.*")
    ∷ (perm_users_create, str "create:users.*")
    ∷ (perm_users_edit, str "edit:users.*")
    ∷ (perm_users_delete, str "delete:users.*")
    ∷ (perm_settings_read, str "read:settings.*")
    ∷ (perm_settings_write, str "write:settings.*")
    ∷ (perm_jobs_list, str "list:jobs.*")
    ∷ (perm_jobs_create, str "create:jobs.*")
    ∷ (perm_jobs_cancel, str "cancel:jobs.*")
    ∷ (perm_backup_create, str "create:backup.*")
    ∷ (perm_backup_restore, str "restore:backup.*")
    ∷ (perm_traffic_view, str "read:traffic.*")
    ∷ (perm_api_keys_manage, str "manage:apikeys.*")
    ∷ (perm_roles_manage, str "manage:roles.*")
    ∷ []

-- The lookup `flatPermToResource[perm]`.
unfoldable pub flat_resource : Str → Option Str
unfolding lookup
flat_resource perm = lookup perm flat_perm_to_resource

-- `matchPattern`: "*" matches all, "prefix.*" what begins with the prefix.
unfoldable pub match_pattern : Str → Str → Bool
match_pattern pattern resource =
    if str_eq pattern (str "*")
    then true
    else if has_suffix pattern (str ".*")
    then has_prefix resource (take (length pattern - 2) pattern)
    else str_eq pattern resource

match_parts : Str → Option (Str × Str) → Str → Str → Bool
match_parts perm none action resource = str_eq perm perm_admin
match_parts perm (some (perm_action, perm_resource)) action resource =
    if not (str_eq perm_action (str "*")) && not (str_eq perm_action action)
    then false
    else match_pattern perm_resource resource

abbrev mapped_perm : Str → Str
mapped_perm perm = elim (flat_resource perm) [ some m ↦ m | none ↦ perm ]

-- `matchesResource`; `SplitN(perm, ":", 2)` is `cut`.
unfoldable pub matches_resource : Str → Str → Str → Bool
unfolding match_parts
matches_resource perm action resource =
    let mapped = mapped_perm perm in match_parts mapped (cut b':' mapped) action resource

-- Whether a permission denies, and the permission behind the sign.
abbrev pub is_deny : Str → Bool
is_deny p = has_prefix p (str "-")

abbrev pub strip_deny : Str → Str
strip_deny p = if is_deny p then drop 1 p else p

abbrev pub matches : Str → Str → Str → Bool
matches action resource p = matches_resource (strip_deny p) action resource

-- The loop of `HasResourcePermission`, with `granted` as it stands before the next permission.
pub scan_perms : Bool → List Str → Str → Str → Bool
scan_perms granted [] action resource = granted
scan_perms granted (p ∷ perms) action resource =
    let next =
      scan_perms (if matches action resource p then true else granted) perms action resource in
    if str_eq p perm_admin
    then true
    else if matches action resource p
    then (if is_deny p then false else next)
    else next

unfoldable pub has_resource_permission : List Str → Str → Str → Bool
has_resource_permission perms action resource = scan_perms false perms action resource
