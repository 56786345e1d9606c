-- ===== src/Guard/Detect.antt =====
-- internal/guard/rbac.go: laws of `detectCommand` and `CheckCommand`.
use go_database.Base.{
  Bool-cases, is_nil, Str, str, str_eq, has_prefix, trim_space, str_eq_refl, str_eq_sound, elem, ℕ,
  ◌≤◌, ◌≡◌, refl, sym, ap, ◌∙◌, ◌⊎◌, inl, inr, true, false, List, [], ◌∷◌, arith,
}
use go_database.Auth.Permission.{perm_connections_query, perm_connections_exec, perm_admin}
use go_database.Suggest.Types.{CommandType, cmd_unknown, cmd_select}
use go_database.Guard.{
  command_permission, risk_level, prefix_command, Highest, is_unknown, detect_step, detect_loop,
  no_command, split_statements, trim_sql, detect_command, check_command, check_permission,
}

-- The risk of one statement.
abbrev pub statement_risk : Str → ℕ
statement_risk stmt = risk_level (prefix_command (trim_space stmt))

-- The recorded risk is that of the recorded command.
abbrev IsRanked : Highest → Type 0
IsRanked h = h.risk ≡ risk_level h.command

unknown_risk : (c : CommandType) → is_unknown c ≡ true → risk_level c ≡ 0
unknown_risk c h = ground arith

detect_step-IsRanked : (h : Highest) (stmt : Str) → IsRanked h → IsRanked (detect_step h stmt)
unfolding detect_step
detect_step-IsRanked h stmt r = ground arith

prefix_command-nil : prefix_command [] ≡ cmd_unknown
unfolding prefix_command has_prefix
prefix_command-nil = refl

blank_risk : (t : Str) → is_nil t ≡ true → risk_level (prefix_command t) ≡ 0
blank_risk [] h = rw prefix_command-nil refl
blank_risk (c ∷ t) h = cc

-- A step keeps the risk or raises it to that of the statement.
detect_step-risk :
    (h : Highest) (stmt : Str)
    → (h.risk ≤ (detect_step h stmt).risk) × (statement_risk stmt ≤ (detect_step h stmt).risk)
unfolding detect_step
detect_step-risk h stmt =
    ground (arith, blank_risk (trim_space stmt), unknown_risk (prefix_command (trim_space stmt)))

abbrev Bounds : ℕ → List Str → Type 0
Bounds r [] = Unit
Bounds r (s ∷ ss) = (statement_risk s ≤ r) × Bounds r ss

detect_loop-Bounds :
    (h : Highest) (stmts : List Str)
    → IsRanked h
    → IsRanked (detect_loop h stmts)
      × (h.risk ≤ (detect_loop h stmts).risk)
      × Bounds (detect_loop h stmts).risk stmts
unfolding detect_loop
detect_loop-Bounds h [] r = (r, omega arith, tt)
detect_loop-Bounds h (s ∷ ss) r =
    let (ranked, above, all_below) =
      detect_loop-Bounds (detect_step h s) ss (detect_step-IsRanked h s r) in
    let (kept, raised) = detect_step-risk h s in (ranked, omega arith, (omega arith, all_below))

Bounds-elem :
    (r : ℕ) (s : Str) (stmts : List Str)
    → Bounds r stmts
    → elem s stmts ≡ true
    → statement_risk s ≤ r
Bounds-elem r s [] b h = cc
Bounds-elem r s (t ∷ ts) (b, bs) h = elim (Bool-cases (str_eq t s)) [
  | inl same ↦ rw (← str_eq_sound t s same) b
  | inr other ↦ Bounds-elem r s ts bs (ground arith)
]

-- The recorded command is that of a statement that was seen, or none was.
abbrev IsSeen : Highest → List Str → Type 0
IsSeen h seen =
    (h.command ≡ cmd_unknown)
    ⊎ ((s : Str) × (elem s seen ≡ true) × (prefix_command (trim_space s) ≡ h.command))

detect_step-IsSeen :
    (h : Highest) (s : Str)
    → (detect_step h s ≡ h) ⊎ (prefix_command (trim_space s) ≡ (detect_step h s).command)
unfolding detect_step
detect_step-IsSeen h s = ground arith

detect_loop-IsSeen :
    (h : Highest) (stmts : List Str)
    → (detect_loop h stmts ≡ h)
      ⊎ ((s : Str) × (elem s stmts ≡ true)
          × (prefix_command (trim_space s) ≡ (detect_loop h stmts).command))
unfolding detect_loop
detect_loop-IsSeen h [] = inl refl
detect_loop-IsSeen h (s ∷ ss) = elim (detect_loop-IsSeen (detect_step h s) ss) [
  | inr (t, m, e) ↦ inr (t, ground arith, e)
  | inl same ↦ elim (detect_step-IsSeen h s) [
    | inl kept ↦ inl (same ∙ kept)
    | inr new ↦ inr (s, ground (arith, str_eq_refl s), new ∙ ap (λ k. k.command) (sym same))
  ]
]

pub prefix_command-select :
    (t : Str) → has_prefix t (str "SELECT") ≡ true → prefix_command t ≡ cmd_select
unfolding prefix_command
prefix_command-select t h = ground arith

prefix_command-comment : (t : Str) → has_prefix t (str "/*") ≡ true → prefix_command t ≡ cmd_unknown
unfolding prefix_command has_prefix
prefix_command-comment [] h = refl
prefix_command-comment (c ∷ t) h = let slash : c ≡ b'/' = ground arith in rw slash refl

is_nil_of_prefix : (t : Str) (c : ℕ) (p : Str) → has_prefix t (c ∷ p) ≡ true → is_nil t ≡ false
unfolding has_prefix
is_nil_of_prefix [] c p h = cc
is_nil_of_prefix (_ ∷ _) c p h = refl

abbrev select_found : Highest
select_found = record { command = cmd_select; risk = 1 }

detect_step-select :
    (s : Str)
    → has_prefix (trim_space s) (str "SELECT") ≡ true
    → detect_step no_command s ≡ select_found
unfolding detect_step
detect_step-select s h =
    rw (is_nil_of_prefix (trim_space s) b'S' (str "ELECT") h, prefix_command-select _ h)

detect_step-comment :
    (h : Highest) (s : Str) → has_prefix (trim_space s) (str "/*") ≡ true → detect_step h s ≡ h
unfolding detect_step
detect_step-comment h s k =
    rw (is_nil_of_prefix (trim_space s) b'/' (str "*") k, prefix_command-comment _ k)

module _ (sql : Str) where
  abbrev pub statements : List Str
  statements = split_statements (trim_sql sql)

  statement_risk_below :
      (s : Str) → elem s statements ≡ true → statement_risk s ≤ risk_level (detect_command sql)
  unfolding detect_command
  statement_risk_below s h =
      let (ranked, _, bounds) = detect_loop-Bounds no_command statements refl in
      omega (arith, Bounds-elem _ s statements bounds h)

  detect_command-mem :
      (detect_command sql ≡ cmd_unknown)
      ⊎ ((s : Str) × (elem s statements ≡ true)
          × (prefix_command (trim_space s) ≡ detect_command sql))
  unfolding detect_command
  detect_command-mem = elim (detect_loop-IsSeen no_command statements) [
    | inl e ↦ inl (ap (λ h. h.command) e)
    | inr seen ↦ inr seen
  ]

  -- The detected command is one of the greatest risk among the commands that the statements of the text
  -- begin with, blanks in front aside: it is the command of one of the statements, or unknown, and none
  -- begins with a command of more risk. A statement that begins with anything else, a comment too,
  -- counts as unknown, of risk 0, so that what stands behind a comment inside the text is not seen.
  pub statement_risk-le :
      ((s : Str) → elem s statements ≡ true → statement_risk s ≤ risk_level (detect_command sql))
      × ((detect_command sql ≡ cmd_unknown)
          ⊎ ((s : Str) × (elem s statements ≡ true)
              × (prefix_command (trim_space s) ≡ detect_command sql)))
  statement_risk-le = (statement_risk_below, detect_command-mem)

  -- A text with a statement whose risk is 2 or more, any known command but SELECT, is allowed only
  -- to a caller with the permission to execute.
  pub check_command-write :
      (permissions : List Str) (s : Str)
      → elem s statements ≡ true
      → 2 ≤ statement_risk s
      → (check_command sql permissions).1 ≡ true
      → elem perm_connections_exec permissions ≡ true
  unfolding check_command check_permission
  check_command-write permissions s m w h = ground (arith, statement_risk_below s m)

  -- The permission "*" alone allows no command.
  check_command-admin : (check_command sql (perm_admin ∷ [])).1 ≡ false
  unfolding check_command check_permission str_eq
  check_command-admin = ground arith

  detect_command-comment :
      (first second : Str)
      → statements ≡ first ∷ second ∷ []
      → has_prefix (trim_space first) (str "SELECT") ≡ true
      → has_prefix (trim_space second) (str "/*") ≡ true
      → detect_command sql ≡ cmd_select
  unfolding detect_command detect_loop
  detect_command-comment first second e p q =
      ap (λ l. (detect_loop no_command l).command) e
      ∙ rw (detect_step-select first p, detect_step-comment select_found second q)

  -- A text of two statements, of which the first begins with SELECT and the second with a block
  -- comment, is a SELECT to the guard, and the permission to query is enough for it.
  check_command-comment_hides :
      (first second : Str)
      → statements ≡ first ∷ second ∷ []
      → has_prefix (trim_space first) (str "SELECT") ≡ true
      → has_prefix (trim_space second) (str "/*") ≡ true
      → check_command sql (perm_connections_query ∷ []) ≡ (cmd_select, true)
  unfolding check_command check_permission str_eq
  check_command-comment_hides first second e p q =
      ap (λ c. (c, check_permission (command_permission c) (perm_connections_query ∷ [])))
        (detect_command-comment first second e p q)
