-- ===== src/Auth/DbAccess/Laws.antt =====
-- internal/auth/resourceperm.go: denials and allowances among the extra entries.
use go_database.Base.{
  Bool-cases, drop, is_nil, any, any-append, Str, str, str_eq, has_prefix, str_eq_refl,
  str_eq_sound, str_eq_sym, has_prefix-append, elem, ℕ, suc, ◌≡◌, refl, ap, ◌∙◌, inl, inr, true,
  false, ◌||◌, none, some, List, [], ◌∷◌, ◌++◌, arith,
}
use go_database.Auth.Permission.{has_admin, Loader, resolve}
use go_database.Auth.DbAccess.{
  is_global, deny_key, check_db_access, Access, add, add_all, remove_first, apply_extra,
  apply_extras, no_access, merge_access, gather, get_effective_db_access,
}

elem-append : (d : Str) (xs ys : List Str) → elem d (xs ++ ys) ≡ (elem d xs || elem d ys)
elem-append d xs ys = any-append (λ x. str_eq x d) xs ys

elem-remove_first_ne :
    (d x : Str) (xs : List Str) → str_eq x d ≡ false → elem d (remove_first x xs) ≡ elem d xs
unfolding remove_first
elem-remove_first_ne d x [] h = refl
elem-remove_first_ne d x (y ∷ ys) h =
    ground (arith, elem-remove_first_ne d x ys h, str_eq_sound y x, str_eq_sound y d)

add-seen : (d e : Str) (s : Access) → elem d (add e s).seen ≡ (str_eq e d || elem d s.seen)
unfolding add
add-seen d e s = ground (arith, str_eq_sound e d)

-- An entry that the roles do not hold has not been seen after them.
add_all-unseen :
    (d : Str) (ds : List Str) (s : Access)
    → elem d s.seen ≡ false
    → elem d ds ≡ false
    → elem d (add_all ds s).seen ≡ false
unfolding add_all
add_all-unseen d [] s h k = h
add_all-unseen d (e ∷ ds) s h k =
    add_all-unseen d ds (add e s) (ground (arith, add-seen d e s)) (ground arith)

apply_extra-seen :
    (d e : Str) (s : Access) → str_eq e d ≡ false → elem d (apply_extra e s).seen ≡ elem d s.seen
unfolding apply_extra
apply_extra-seen d e s h = ground (
  arith,
  add-seen d e (record s { result = remove_first (drop 1 e) s.result }),
  add-seen d e (record s { result = remove_first (deny_key e) s.result }),
)

apply_extras-unseen :
    (d : Str) (ds : List Str) (s : Access)
    → elem d s.seen ≡ false
    → elem d ds ≡ false
    → elem d (apply_extras ds s).seen ≡ false
unfolding apply_extras
apply_extras-unseen d [] s h k = h
apply_extras-unseen d (e ∷ ds) s h k =
    apply_extras-unseen d ds (apply_extra e s) (ground (arith, apply_extra-seen d e s))
      (ground arith)

apply_extras-append :
    (xs ys : List Str) (s : Access)
    → apply_extras (xs ++ ys) s ≡ apply_extras ys (apply_extras xs s)
unfolding apply_extras
apply_extras-append [] ys s = refl
apply_extras-append (x ∷ xs) ys s = apply_extras-append xs ys (apply_extra x s)

add-keeps : (d e : Str) (s : Access) → elem d s.result ≡ true → elem d (add e s).result ≡ true
unfolding add
add-keeps d e s h = ground (arith, elem-append d s.result (e ∷ []))

module _ (conn : Str) where
  -- A denial that was not seen before ends up in the result.
  apply_extra-deny :
      (s : Access)
      → elem (deny_key conn) s.seen ≡ false
      → elem (deny_key conn) (apply_extra (deny_key conn) s).result ≡ true
  unfolding apply_extra add has_prefix
  apply_extra-deny s h = ground (
    arith,
    elem-append (deny_key conn) (remove_first conn s.result) (deny_key conn ∷ []),
    str_eq_refl (deny_key conn),
  )

  -- It stays there, unless the connection is allowed again or the denial is itself denied.
  apply_extra-keeps_deny :
      (e : Str) (s : Access)
      → str_eq e conn ≡ false
      → str_eq e (deny_key (deny_key conn)) ≡ false
      → elem (deny_key conn) s.result ≡ true
      → elem (deny_key conn) (apply_extra e s).result ≡ true
  unfolding apply_extra add has_prefix str_eq
  apply_extra-keeps_deny [] s h k m = m
  apply_extra-keeps_deny (c ∷ e) s h k m = ground (
    arith,
    elem-remove_first_ne (deny_key conn) e s.result,
    elem-remove_first_ne (deny_key conn) (deny_key (c ∷ e)) s.result,
    add-keeps (deny_key conn) (c ∷ e) (record s { result = remove_first e s.result }),
    add-keeps (deny_key conn) (c ∷ e)
        (record s { result = remove_first (deny_key (c ∷ e)) s.result }),
  )

  apply_extras-keeps_deny :
      (ds : List Str) (s : Access)
      → elem conn ds ≡ false
      → elem (deny_key (deny_key conn)) ds ≡ false
      → elem (deny_key conn) s.result ≡ true
      → elem (deny_key conn) (apply_extras ds s).result ≡ true
  unfolding apply_extras
  apply_extras-keeps_deny [] s h k m = m
  apply_extras-keeps_deny (d ∷ ds) s h k m =
      apply_extras-keeps_deny ds (apply_extra d s) (ground arith) (ground arith)
        (apply_extra-keeps_deny d s (ground arith) (ground arith) m)

  merge_access-denied :
      (role_access before after : List Str)
      → elem (deny_key conn) role_access ≡ false
      → elem (deny_key conn) before ≡ false
      → elem conn after ≡ false
      → elem (deny_key (deny_key conn)) after ≡ false
      → elem (deny_key conn) (merge_access role_access (before ++ deny_key conn ∷ after)) ≡ true
  unfolding merge_access apply_extras
  merge_access-denied role_access before after r b h k =
      let s = apply_extras before (add_all role_access no_access) in
      let fresh : elem (deny_key conn) s.seen ≡ false =
        apply_extras-unseen (deny_key conn) before (add_all role_access no_access)
          (add_all-unseen (deny_key conn) role_access no_access refl r) b in
      let denied =
        apply_extras-keeps_deny after (apply_extra (deny_key conn) s) h k
          (apply_extra-deny s fresh) in
      ap (λ t. elem (deny_key conn) t.result)
        (apply_extras-append before (deny_key conn ∷ after) (add_all role_access no_access))
      ∙ denied

  -- A denial "-conn" among the extra entries, the first of its kind, refuses the connection to
  -- everybody without a permission for all connections, provided that the roles do not hold "-conn"
  -- themselves and that no later extra entry is "conn" or "--conn".
  pub check_db_access-denied :
      (perms role_access before after : List Str)
      → has_admin perms ≡ false
      → any is_global perms ≡ false
      → elem (deny_key conn) role_access ≡ false
      → elem (deny_key conn) before ≡ false
      → elem conn after ≡ false
      → elem (deny_key (deny_key conn)) after ≡ false
      → check_db_access perms (merge_access role_access (before ++ deny_key conn ∷ after)) conn
        ≡ false
  unfolding check_db_access
  check_db_access-denied perms role_access before after a g r b h k =
      rw (a, g, merge_access-denied role_access before after r b h k)

  add_all-result :
      (d : Str) (ds : List Str) (s : Access)
      → elem d s.result ≡ false
      → elem d ds ≡ false
      → elem d (add_all ds s).result ≡ false
  unfolding add_all add
  add_all-result d [] s h k = h
  add_all-result d (e ∷ ds) s h k =
      add_all-result d ds (add e s) (ground (arith, elem-append d s.result (e ∷ []))) (ground arith)

  remove_first-last :
      (d : Str) (xs : List Str) → elem d xs ≡ false → remove_first d (xs ++ d ∷ []) ≡ xs
  unfolding remove_first
  remove_first-last d [] h = ground (arith, str_eq_refl d)
  remove_first-last d (x ∷ xs) h = ground (arith, remove_first-last d xs)

  apply_extra-fresh_deny :
      (s : Access)
      → elem (deny_key conn) s.seen ≡ false
      → apply_extra (deny_key conn) s ≡ record {
        seen = deny_key conn ∷ s.seen;
        result = remove_first conn s.result ++ deny_key conn ∷ [];
      }
  unfolding apply_extra add has_prefix
  apply_extra-fresh_deny s h = ground arith

  deny_key_ne : has_prefix conn (str "-") ≡ false → str_eq (deny_key conn) conn ≡ false
  deny_key_ne h = elim (Bool-cases (str_eq (deny_key conn) conn)) [
    | inl same ↦
        let e : deny_key conn ≡ conn = str_eq_sound (deny_key conn) conn same in
        let starts : has_prefix conn (str "-") ≡ true =
          rw (← e) (has_prefix-append (str "-") conn) in
        cc
    | inr differ ↦ differ
  ]

  deny_then_allow :
      (s : Access)
      → is_nil conn ≡ false
      → has_prefix conn (str "-") ≡ false
      → elem conn s.seen ≡ false
      → elem (deny_key conn) s.seen ≡ false
      → elem (deny_key conn) (remove_first conn s.result) ≡ false
      → (apply_extra conn (apply_extra (deny_key conn) s)).result
        ≡ remove_first conn s.result ++ conn ∷ []
  unfolding apply_extra add
  deny_then_allow s n p c d r =
      let differ : str_eq (deny_key conn) conn ≡ false = deny_key_ne p in
      rw (apply_extra-fresh_deny s d)
        (ground (arith, remove_first-last (deny_key conn) (remove_first conn s.result) r))

  -- A later "conn" takes the denial back: after the extra entries "-conn" and "conn" the connection
  -- can be reached, if the roles name neither. Here the id of the connection is not empty and does
  -- not begin with "-".
  check_db_access-reallowed :
      (perms role_access : List Str)
      → elem conn role_access ≡ false
      → elem (deny_key conn) role_access ≡ false
      → is_nil conn ≡ false
      → has_prefix conn (str "-") ≡ false
      → check_db_access perms (merge_access role_access (deny_key conn ∷ conn ∷ [])) conn ≡ true
  unfolding check_db_access merge_access apply_extras
  check_db_access-reallowed perms role_access r d n p =
      let s = add_all role_access no_access in
      let no_deny : elem (deny_key conn) s.result ≡ false =
        add_all-result (deny_key conn) role_access no_access refl d in
      let differ : str_eq conn (deny_key conn) ≡ false =
        str_eq_sym conn (deny_key conn) ∙ deny_key_ne p in
      let kept : elem (deny_key conn) (remove_first conn s.result) ≡ false =
        elem-remove_first_ne (deny_key conn) conn s.result differ ∙ no_deny in
      let fresh = add_all-unseen conn role_access no_access refl r in
      let fresh_deny = add_all-unseen (deny_key conn) role_access no_access refl d in
      rw (deny_then_allow s n p fresh fresh_deny kept) (
        ground (
          arith,
          elem-append (deny_key conn) (remove_first conn s.result) (conn ∷ []),
          any-append (λ d. str_eq d conn || str_eq d (str "*")) (remove_first conn s.result)
              (conn ∷ []),
          str_eq_refl conn,
        ))

-- Nor does it bring a database.
pub get_effective_db_access-unknown :
    (load : Loader) (role : Str) (fuel : ℕ)
    → resolve load role ≡ none
    → get_effective_db_access (suc fuel) role load [] ≡ some []
unfolding get_effective_db_access gather merge_access apply_extras add_all
get_effective_db_access-unknown load role fuel h = rw (h, get_effective_db_access, gather) refl

-- Without a permission for all connections and without an entry, every connection is refused.
pub check_db_access-nothing :
    (perms : List Str) (conn : Str)
    → has_admin perms ≡ false
    → any is_global perms ≡ false
    → check_db_access perms [] conn ≡ false
unfolding check_db_access
check_db_access-nothing perms conn a g = rw (a, g) refl
