-- ===== src/Auth/Permission/Tests.antt =====
-- internal/auth/permission.go: tests of the effective permissions, on a role with a parent and on two
-- roles that are each other's parents.
use go_database.Base.{
  if◌then◌else◌, Bool-cases, is_nil, any, Str, str, str_eq, ℕ, ◌<◌, ◌≡◌, refl, ◌≢◌, ◌↔◌, ◌⊎◌, inl,
  inr, true, false, not, none, some, List, [], ◌∷◌, arith,
}
use go_database.Auth.Permission.{
  Role, Loader, has_admin, default_roles, resolve, find_role, has_permission, get_effective_perms,
  walk, add_perm, add_perms,
}
use go_database.Auth.Permission.Chain.{
  Grants, has_permission-effective, get_effective_perms_returns, get_effective_perms_cycle,
}

abbrev lead : Role
lead = record {
  id = str "lead";
  name = str "Lead";
  parent = str "readonly";
  permissions = str "jobs:list" ∷ [];
  db_access = [];
}

abbrev load_lead : Loader
load_lead id = if str_eq id (str "lead") then some lead else none

abbrev lead_perms : List Str
lead_perms =
    str "jobs:list" ∷ str "connections:list" ∷ str "connections:query" ∷ str "backup:create" ∷ []

lead-perms :
    get_effective_perms 2 (str "lead") load_lead (str "backup:create" ∷ []) ≡ some lead_perms
unfolding get_effective_perms walk add_perms add_perm resolve default_roles find_role str_eq
lead-perms = refl

has_permission-effective_example : (has_permission lead_perms (str "connections:query") ≡ true) ↔ (
    Grants load_lead (str "connections:query") (str "lead")
    ⊎ (has_permission (str "backup:create" ∷ []) (str "connections:query") ≡ true))
has_permission-effective_example =
    has_permission-effective load_lead (str "lead") (str "backup:create" ∷ []) 2 lead_perms
      (str "connections:query") lead-perms

abbrev lead_rank : Str → ℕ
lead_rank id = if str_eq id (str "lead") then 1 else 0

find_role-parent :
    (id : Str) (rs : List Role) (r : Role)
    → any (λ x. not (is_nil x.parent)) rs ≡ false
    → find_role id rs ≡ some r
    → is_nil r.parent ≡ true
unfolding find_role
find_role-parent id [] r n h = cc
find_role-parent id (x ∷ rs) r n h = elim (Bool-cases (str_eq x.id id)) [
  | inl e ↦ let same : x ≡ r = ground arith in rw (← same) (ground arith)
  | inr e ↦ find_role-parent id rs r (ground arith) (ground arith)
]

resolve-lead :
    (id : Str) (r : Role)
    → resolve load_lead id ≡ some r
    → ((str_eq id (str "lead") ≡ true) × (lead ≡ r)) ⊎ (is_nil r.parent ≡ true)
unfolding resolve default_roles
resolve-lead id r h = elim (Bool-cases (str_eq id (str "lead"))) [
  | inl e ↦ inl (e, ground arith)
  | inr e ↦ inr (find_role-parent id default_roles r refl (ground arith))
]

lead_rank-parent : lead_rank (str "readonly") ≡ 0
unfolding str_eq
lead_rank-parent = refl

lead_rank-falls :
    (id : Str) (r : Role)
    → resolve load_lead id ≡ some r
    → r.parent ≢ []
    → lead_rank r.parent < lead_rank id
lead_rank-falls id r h n = elim (resolve-lead id r h) [
  | inl (e, same) ↦ rw (← same) (rw (e, lead_rank-parent) (omega arith))
  | inr e ↦ ground arith
]

lead_rank-low : lead_rank (str "lead") < 2
unfolding str_eq
lead_rank-low = omega arith

get_effective_perms_returns_example :
    (perms : List Str) × (get_effective_perms 2 (str "lead") load_lead [] ≡ some perms)
get_effective_perms_returns_example =
    get_effective_perms_returns load_lead (str "lead") [] lead_rank 2 lead_rank-falls lead_rank-low

abbrev twin : Str → Str → Role
twin id parent = record { id = id; name = id; parent = parent; permissions = []; db_access = [] }

abbrev load_twins : Loader
load_twins id =
    if str_eq id (str "a")
    then some (twin (str "a") (str "b"))
    else if str_eq id (str "b")
    then some (twin (str "b") (str "a"))
    else none

abbrev IsTwin : Str → Type 0
IsTwin id = (id ≡ str "a") ⊎ (id ≡ str "b")

twins-stay :
    (id : Str)
    → IsTwin id
    → (r : Role) × (resolve load_twins id ≡ some r)
      × (has_admin r.permissions ≡ false)
      × (r.parent ≢ [])
      × IsTwin r.parent
unfolding resolve str_eq
twins-stay id (inl e) = (twin (str "a") (str "b"), rw e refl, refl, (λ h. cc), inr refl)
twins-stay id (inr e) = (twin (str "b") (str "a"), rw e refl, refl, (λ h. cc), inl refl)

get_effective_perms_cycle_example :
    get_effective_perms 1000 (str "a") load_twins (str "jobs:list" ∷ []) ≡ none
get_effective_perms_cycle_example =
    get_effective_perms_cycle load_twins (str "a") (str "jobs:list" ∷ []) IsTwin 1000 twins-stay
      (inl refl)
