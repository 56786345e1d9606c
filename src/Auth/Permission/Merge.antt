-- ===== src/Auth/Permission/Merge.antt =====
-- internal/auth/permission.go: laws of adding permissions to the result.
use go_database.Base.{
  any, any-append, Str, str_eq, str_eq_refl, str_eq_sound, elem, ◌≡◌, refl, Bool, true, false, ◌||◌,
  List, [], ◌∷◌, ◌++◌, arith,
}
use go_database.Auth.Permission.{
  has_permission, perm_admin, Acc, add_perm, add_perms, start, has_admin,
}

-- Everything that was seen is granted.
abbrev pub IsCovered : Acc → Type 0
IsCovered s = (p : Str) → elem p s.seen ≡ true → has_permission s.result p ≡ true

has_permission-append :
    (xs ys : List Str) (q : Str)
    → has_permission (xs ++ ys) q ≡ (has_permission xs q || has_permission ys q)
unfolding has_permission
has_permission-append [] ys q = refl
has_permission-append (x ∷ xs) ys q = ground (arith, has_permission-append xs ys q)

-- Whoever may use `*` may use everything.
pub has_permission_of_admin :
    (ps : List Str) (q : Str) → has_permission ps perm_admin ≡ true → has_permission ps q ≡ true
unfolding has_permission
has_permission_of_admin [] q h = cc
has_permission_of_admin (p ∷ ps) q h = ground (arith, has_permission_of_admin ps q)

pub has_permission_of_has_admin :
    (ps : List Str) (q : Str) → has_admin ps ≡ true → has_permission ps q ≡ true
unfolding has_permission
has_permission_of_has_admin [] q h = cc
has_permission_of_has_admin (p ∷ ps) q h = ground (arith, has_permission_of_has_admin ps q)

IsCovered-add_perm : (p : Str) (s : Acc) → IsCovered s → IsCovered (add_perm p s)
unfolding add_perm has_permission
IsCovered-add_perm p s h q m =
    ground (arith, h q, has_permission-append s.result (p ∷ []) q, str_eq_sound p q, str_eq_refl q)

has_permission-add_perm :
    (p : Str) (s : Acc) (q : Str)
    → IsCovered s
    → has_permission (add_perm p s).result q
      ≡ (has_permission s.result q || (str_eq p perm_admin || str_eq p q))
unfolding add_perm has_permission
has_permission-add_perm p s q h = ground (
  arith,
  h p,
  has_permission-append s.result (p ∷ []) q,
  str_eq_sound p perm_admin,
  str_eq_sound p q,
  has_permission_of_admin s.result q,
)

pub IsCovered-add_perms : (ps : List Str) (s : Acc) → IsCovered s → IsCovered (add_perms ps s)
unfolding add_perms
IsCovered-add_perms [] s h = h
IsCovered-add_perms (p ∷ ps) s h = IsCovered-add_perms ps (add_perm p s) (IsCovered-add_perm p s h)

pub has_permission-add_perms :
    (ps : List Str) (s : Acc) (q : Str)
    → IsCovered s
    → has_permission (add_perms ps s).result q ≡ (has_permission s.result q || has_permission ps q)
unfolding add_perms has_permission
has_permission-add_perms [] s q h = ground arith
has_permission-add_perms (p ∷ ps) s q h = ground (
  arith,
  has_permission-add_perms ps (add_perm p s) q (IsCovered-add_perm p s h),
  has_permission-add_perm p s q h,
)

pub IsCovered-start : IsCovered start
IsCovered-start p h = cc

pub has_permission-admin : (q : Str) → has_permission (perm_admin ∷ []) q ≡ true
unfolding has_permission str_eq
has_permission-admin q = refl

pub any-add_perms :
    (test : Str → Bool) (ps : List Str) (s : Acc)
    → any test s.result ≡ false
    → any test ps ≡ false
    → any test (add_perms ps s).result ≡ false
unfolding add_perms add_perm
any-add_perms test [] s h k = h
any-add_perms test (p ∷ ps) s h k =
    any-add_perms test ps (add_perm p s) (ground (arith, any-append test s.result (p ∷ [])))
      (ground arith)
