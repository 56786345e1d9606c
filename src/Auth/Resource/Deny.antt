-- ===== src/Auth/Resource/Deny.antt =====
-- internal/auth/resourceperm.go: grants, denials and "*" in `HasResourcePermission`.
use go_database.Base.{
  if◌then◌else◌, any, Str, str_eq, has_prefix, str_eq_sound, ◌≡◌, refl, Bool, true, false, not,
  ◌&&◌, ◌||◌, List, [], ◌∷◌, ◌++◌, arith,
}
use go_database.Auth.Permission.{perm_admin, has_admin}
use go_database.Auth.Resource.{is_deny, matches, scan_perms, has_resource_permission}

module _ (action resource : Str) where
  abbrev pub grants : Str → Bool
  grants p = matches action resource p && not (is_deny p)

  abbrev pub denies : Str → Bool
  denies p = matches action resource p && is_deny p

  scan_perms_lem :
      (granted : Bool) (perms : List Str)
      → has_admin perms ≡ false
      → scan_perms granted perms action resource
        ≡ ((granted || any grants perms) && not (any denies perms))
  unfolding scan_perms
  scan_perms_lem granted [] h = ground arith
  scan_perms_lem granted (p ∷ perms) h =
      ground (arith, scan_perms_lem (if matches action resource p then true else granted) perms)

  -- Among permissions without "*" an action is allowed exactly when some permission grants it and
  -- none denies it, in whatever order they stand.
  pub has_resource_permission-deny_wins :
      (perms : List Str)
      → has_admin perms ≡ false
      → has_resource_permission perms action resource ≡ (any grants perms && not (any denies perms))
  unfolding has_resource_permission
  has_resource_permission-deny_wins perms = scan_perms_lem false perms

  scan_perms-admin :
      (granted : Bool) (before after : List Str)
      → any denies before ≡ false
      → scan_perms granted (before ++ perm_admin ∷ after) action resource ≡ true
  unfolding scan_perms str_eq
  scan_perms-admin granted [] after h = refl
  scan_perms-admin granted (p ∷ before) after h =
      ground
        (arith, scan_perms-admin (if matches action resource p then true else granted) before after)

  scan_perms-denied :
      (granted : Bool) (before after : List Str) (d : Str)
      → has_admin before ≡ false
      → denies d ≡ true
      → str_eq d perm_admin ≡ false
      → scan_perms granted (before ++ d ∷ after) action resource ≡ false
  unfolding scan_perms
  scan_perms-denied granted [] after d h k n = ground arith
  scan_perms-denied granted (p ∷ before) after d h k n = ground (
    arith,
    scan_perms-denied (if matches action resource p then true else granted) before after d,
  )

  -- Where "*" stands before every denial of the action, the action is allowed, whatever is denied
  -- behind it.
  has_resource_permission-admin_first :
      (before after : List Str)
      → any denies before ≡ false
      → has_resource_permission (before ++ perm_admin ∷ after) action resource ≡ true
  unfolding has_resource_permission
  has_resource_permission-admin_first before after = scan_perms-admin false before after

  -- Where a denial of the action stands before every "*", the action is refused.
  has_resource_permission-deny_first :
      (before after : List Str) (d : Str)
      → has_admin before ≡ false
      → denies d ≡ true
      → has_resource_permission (before ++ d ∷ after) action resource ≡ false
  unfolding has_resource_permission has_prefix
  has_resource_permission-deny_first before after d h k =
      scan_perms-denied false before after d h k (ground (arith, str_eq_sound d perm_admin))
