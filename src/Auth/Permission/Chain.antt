-- ===== src/Auth/Permission/Chain.antt =====
-- internal/auth/permission.go: laws of the walk up the parents of a role.
use go_database.Base.{
  Bool-cases, Option-cases, is_nil, Str, ℕ, zero, suc, ◌<◌, ◌≡◌, refl, ◌≢◌, ◌↔◌, ◌⊎◌, inl, inr,
  true, false, none, some, List, [], ◌∷◌, arith,
}
use go_database.Auth.Permission.{
  Loader, Role, resolve, has_permission, has_admin, Acc, add_perms, walk, start,
  get_effective_perms, perm_admin,
}
use go_database.Auth.Permission.Merge.{
  IsCovered, has_permission-add_perms, IsCovered-add_perms, IsCovered-start,
  has_permission_of_has_admin, has_permission-admin,
}

-- The role `id`, or one that it inherits from, grants `q`.
pub data Grants (load : Loader) (q : Str) : Str → Type 0 where
  own :
      {id : Str} (r : Role)
      → resolve load id ≡ some r
      → has_permission r.permissions q ≡ true
      → Grants load q id
  inherited :
      {id : Str} (r : Role)
      → resolve load id ≡ some r
      → r.parent ≢ []
      → Grants load q r.parent
      → Grants load q id

-- The cases of one round of the walk.
data Round (load : Loader) (id : Str) : Type 0 where
  missing : resolve load id ≡ none → Round load id
  admin : (r : Role) → resolve load id ≡ some r → has_admin r.permissions ≡ true → Round load id
  root :
      (r : Role)
      → resolve load id ≡ some r
      → has_admin r.permissions ≡ false
      → r.parent ≡ []
      → Round load id
  child :
      (r : Role)
      → resolve load id ≡ some r
      → has_admin r.permissions ≡ false
      → r.parent ≢ []
      → Round load id

round : (load : Loader) (id : Str) → Round load id
round load id = elim (Option-cases (resolve load id)) [
  | inl e ↦ missing e
  | inr (r, e) ↦ elim (Bool-cases (has_admin r.permissions)) [
    | inl a ↦ admin r e a
    | inr n ↦ elim (Bool-cases (is_nil r.parent)) [
      | inl p ↦ root r e n (ground arith)
      | inr p ↦ child r e n (ground arith)
    ]
  ]
]

-- With a measure that falls from a role to its parent, the walk returns.
walk_returns :
    (load : Loader) (rank : Str → ℕ)
    → ((id : Str) (r : Role) → resolve load id ≡ some r → r.parent ≢ [] → rank r.parent < rank id)
    → (fuel : ℕ) (id : Str) (s : Acc) → rank id < fuel
    → (t : Acc) × (walk fuel load id s ≡ some t)
unfolding walk
walk_returns load rank falls zero id s h = absurd (omega arith)
walk_returns load rank falls (suc fuel) id s h = elim (round load id) [
  | missing e ↦ (s, ground arith)
  | admin r e a ↦ (record s { result = perm_admin ∷ [] }, ground arith)
  | root r e n p ↦ (add_perms r.permissions s, ground arith)
  | child r e n p ↦
      let below = falls id r e p in
      let (t, ends) =
        walk_returns load rank falls fuel r.parent (add_perms r.permissions s) (omega arith) in
      (t, ground arith)
]

-- Where every role has its parent in the set and none has `*`, the walk runs out of fuel.
walk_cycle :
    (load : Loader) (InCycle : Str → Type 0)
    → ((id : Str)
        → InCycle id
        → (r : Role) × (resolve load id ≡ some r)
          × (has_admin r.permissions ≡ false)
          × (r.parent ≢ [])
          × InCycle r.parent)
    → (fuel : ℕ) (id : Str) (s : Acc) → InCycle id
    → walk fuel load id s ≡ none
unfolding walk
walk_cycle load InCycle stays zero id s h = refl
walk_cycle load InCycle stays (suc fuel) id s h =
    let (r, e, n, p, up) = stays id h in
    let ih = walk_cycle load InCycle stays fuel r.parent (add_perms r.permissions s) up in
    ground arith

module _ (load : Loader) (q : Str) where
  -- What grants `q` at a role that resolves to `r`.
  Grants-inv :
      {id : Str} (r : Role)
      → resolve load id ≡ some r
      → Grants load q id
      → (has_permission r.permissions q ≡ true) ⊎ ((r.parent ≢ []) × Grants load q r.parent)
  Grants-inv r e (own r' e' h) = let same : r' ≡ r = cc in inl (rw (← same) h)
  Grants-inv r e (inherited r' e' p g) =
      let same : r' ≡ r = cc in inr (rw (← same) p, rw (← same) g)

  Grants-not_missing : {id : Str} → resolve load id ≡ none → ¬ Grants load q id
  Grants-not_missing e (own r e' h) = cc
  Grants-not_missing e (inherited r e' p g) = cc

  -- The walk adds to the result what the chain grants.
  record Adds (id : Str) (s t : Acc) : Type 0 where
    covered : IsCovered t
    sound : has_permission t.result q ≡ true → (has_permission s.result q ≡ true) ⊎ Grants load q id
    keeps : has_permission s.result q ≡ true → has_permission t.result q ≡ true
    complete : Grants load q id → has_permission t.result q ≡ true

  walk-Adds :
      (fuel : ℕ) (id : Str) (s t : Acc) → IsCovered s → walk fuel load id s ≡ some t → Adds id s t
  unfolding walk
  walk-Adds zero id s t c h = cc
  walk-Adds (suc fuel) id s t c h = elim (round load id) [
    | missing e ↦
        let same : s ≡ t = ground arith in
        record {
          covered = rw (← same) c;
          sound = λ k. inl (rw same k);
          keeps = λ k. rw (← same) k;
          complete = λ g. absurd (Grants-not_missing e g);
        }
    | admin r e a ↦
        let same : record s { result = perm_admin ∷ [] } ≡ t = ground arith in
        rw (← same) (record {
          covered = λ p _. has_permission-admin p;
          sound = λ _. inr (own r e (has_permission_of_has_admin r.permissions q a));
          keeps = λ _. has_permission-admin q;
          complete = λ _. has_permission-admin q;
        })
    | root r e n p ↦
        let same : add_perms r.permissions s ≡ t = ground arith in
        let adds = has_permission-add_perms r.permissions s q c in
        rw (← same) (record {
          covered = IsCovered-add_perms r.permissions s c;
          sound = λ k. elim (Bool-cases (has_permission s.result q)) [
            | inl y ↦ inl y
            | inr y ↦ inr (own r e (ground arith))
          ];
          keeps = λ k. ground arith;
          complete =
              λ g. elim (Grants-inv r e g) [ inl y ↦ ground arith | inr (y, _) ↦ absurd (y p) ];
        })
    | child r e n p ↦
        let adds = has_permission-add_perms r.permissions s q c in
        let up =
          walk-Adds fuel r.parent (add_perms r.permissions s) t
            (IsCovered-add_perms r.permissions s c) (ground arith) in
        record {
          covered = up.covered;
          sound = λ k. elim (up.sound k) [
            | inl y ↦ elim (Bool-cases (has_permission s.result q)) [
              | inl z ↦ inl z
              | inr z ↦ inr (own r e (ground arith))
            ]
            | inr g ↦ inr (inherited r e p g)
          ];
          keeps = λ k. up.keeps (ground arith);
          complete = λ g. elim (Grants-inv r e g) [
            | inl y ↦ up.keeps (ground arith)
            | inr (_, y) ↦ up.complete y
          ];
        }
  ]

module _ (load : Loader) (role : Str) (extra : List Str) where
  -- The effective permissions of a user allow exactly what some role on the chain of parents allows
  -- and what the user's extra permissions allow, where the walk up the chain returns.
  pub has_permission-effective :
      (fuel : ℕ) (perms : List Str) (q : Str)
      → get_effective_perms fuel role load extra ≡ some perms
      → (has_permission perms q ≡ true) ↔ (Grants load q role ⊎ (has_permission extra q ≡ true))
  unfolding get_effective_perms has_permission
  has_permission-effective fuel perms q h = elim (Option-cases (walk fuel load role start)) [
    | inl e ↦ cc
    | inr (t, e) ↦
        let a = walk-Adds load q fuel role start t IsCovered-start e in
        let adds = has_permission-add_perms extra t q a.covered in
        let same : (add_perms extra t).result ≡ perms = ground arith in
        rw (← same) (
          λ k. elim (Bool-cases (has_permission extra q)) [
            | inl y ↦ inr y
            | inr n ↦ elim (a.sound (ground arith)) [ inl none_yet ↦ cc | inr g ↦ inl g ]
          ],
          λ k. elim k [ inl g ↦ let up = a.complete g in ground arith | inr y ↦ ground arith ],
        )
  ]

  -- Where a rank falls from each role to its parent, the effective permissions are computed: fuel
  -- above the rank of the user's role is enough.
  pub get_effective_perms_returns :
      (rank : Str → ℕ) (fuel : ℕ)
      → ((id : Str) (r : Role) → resolve load id ≡ some r → r.parent ≢ [] → rank r.parent < rank id)
      → rank role < fuel
      → (perms : List Str) × (get_effective_perms fuel role load extra ≡ some perms)
  unfolding get_effective_perms
  get_effective_perms_returns rank fuel falls h =
      let (t, e) = walk_returns load rank falls fuel role start h in
      ((add_perms extra t).result, ground arith)

  -- On a set of roles without `*` each of which has its parent in the set, such as a cycle, the walk
  -- never returns, however much fuel it has.
  pub get_effective_perms_cycle :
      (InCycle : Str → Type 0) (fuel : ℕ)
      → ((id : Str)
          → InCycle id
          → (r : Role) × (resolve load id ≡ some r)
            × (has_admin r.permissions ≡ false)
            × (r.parent ≢ [])
            × InCycle r.parent)
      → InCycle role
      → get_effective_perms fuel role load extra ≡ none
  unfolding get_effective_perms
  get_effective_perms_cycle InCycle fuel stays h =
      rw (walk_cycle load InCycle stays fuel role start h) refl

-- A role that nobody has defined brings no permission to the extra ones.
pub get_effective_perms-unknown :
    (load : Loader) (role : Str) (extra : List Str) (fuel : ℕ)
    → resolve load role ≡ none
    → get_effective_perms (suc fuel) role load extra ≡ some (add_perms extra start).result
unfolding get_effective_perms walk
get_effective_perms-unknown load role extra fuel h = rw (h, get_effective_perms, walk) refl
