-- ===== src/Auth/DbAccess.antt =====
-- internal/auth/resourceperm.go: which connections a user may reach.
pub mod Laws
use go_database.Base.{
  if◌then◌else◌, drop, is_nil, any, Str, str, str_eq, has_prefix, elem, ℕ, zero, suc, Bool, true,
  false, ◌||◌, Option, none, some, List, [], ◌∷◌, ◌++◌,
}
use go_database.Auth.Permission.{
  Role, Loader, resolve, perm_admin, perm_connections_list, perm_connections_query,
  perm_connections_exec, has_admin,
}
use go_database.Auth.Resource.{flat_resource}

-- A permission for all connections.
mapped_global : Option Str → Bool
mapped_global none = false
mapped_global (some m) =
    has_prefix m (str "list:connection.")
    || has_prefix m (str "query:connection.")
    || has_prefix m (str "execute:connection.")

unfoldable pub is_global : Str → Bool
unfolding mapped_global
is_global p =
    str_eq p perm_connections_list
    || str_eq p perm_connections_query
    || str_eq p perm_connections_exec
    || mapped_global (flat_resource p)

abbrev pub deny_key : Str → Str
deny_key conn = str "-" ++ conn

unfoldable pub check_db_access : List Str → List Str → Str → Bool
check_db_access perms db_access conn =
    if has_admin perms
    then true
    else if any is_global perms
    then true
    else if any (λ d. str_eq d (deny_key conn)) db_access
    then false
    else if any (λ d. str_eq d conn || str_eq d (str "*")) db_access
    then true
    else false

-- The walk of `GetEffectiveDBAccess` up the parents; `none` when the fuel runs out.
pub gather : ℕ → Loader → Str → List Str → Option (List Str)
gather zero load id found = none
gather (suc fuel) load id found = elim (resolve load id) [
  | none ↦ some found
  | some r ↦
      let next = gather fuel load r.parent (found ++ r.db_access) in
      if is_nil r.parent then some (found ++ r.db_access) else next
]

-- The variables `seen` and `result`.
pub record Access : Type 0 where
  pub seen : List Str
  pub result : List Str

pub add : Str → Access → Access
add d s = if elem d s.seen then s else record { seen = d ∷ s.seen; result = s.result ++ d ∷ [] }

pub add_all : List Str → Access → Access
add_all [] s = s
add_all (d ∷ ds) s = add_all ds (add d s)

-- `result = append(result[:i], result[i+1:]...)` at the first entry that is `x`.
pub remove_first : Str → List Str → List Str
remove_first x [] = []
remove_first x (d ∷ ds) = if str_eq d x then ds else d ∷ remove_first x ds

-- One round of the loop over the extra entries.
pub apply_extra : Str → Access → Access
apply_extra d s =
    if is_nil d
    then s
    else if has_prefix d (str "-")
    then add d (record s { result = remove_first (drop 1 d) s.result })
    else add d (record s { result = remove_first (deny_key d) s.result })

pub apply_extras : List Str → Access → Access
apply_extras [] s = s
apply_extras (d ∷ ds) s = apply_extras ds (apply_extra d s)

abbrev pub no_access : Access
no_access = record { seen = []; result = [] }

-- What is left after the walk has gathered the entries of the roles.
pub merge_access : List Str → List Str → List Str
merge_access role_access extra = (apply_extras extra (add_all role_access no_access)).result

abbrev finish : List Str → Option (List Str) → Option (List Str)
finish extra none = none
finish extra (some role_access) = some (merge_access role_access extra)

unfoldable pub get_effective_db_access : ℕ → Str → Loader → List Str → Option (List Str)
get_effective_db_access fuel role load extra = finish extra (gather fuel load role [])
