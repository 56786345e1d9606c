-- ===== src/Guard/Split.antt =====
-- internal/guard/rbac.go: laws of `splitStatements`.
use go_database.Base.{
  Bool-cases, is_nil, Str, str, join, ℕ, ◌≡◌, refl, sym, ap, ◌∙◌, ◌⊎◌, inl, inr, List, [], ◌∷◌,
  ◌++◌, append_assoc, append-nil, arith,
}
use go_database.Guard.{Splitter, split_step, split_run, split_end, split_start, split_statements}

-- The statements that are closed, each with its semicolon.
abbrev closed : List Str → Str
closed [] = []
closed (s ∷ ss) = s ++ (b';' ∷ closed ss)

closed-append : (ss : List Str) (s : Str) → closed (ss ++ s ∷ []) ≡ closed ss ++ (s ++ b';' ∷ [])
closed-append [] s = refl
closed-append (t ∷ ss) s = rw (closed-append ss s) (simp append_assoc)

-- What was read so far.
abbrev read : Splitter → Str
read s = closed s.out ++ s.cur

-- A byte goes to the end of what was read: of the open statement, or as the mark that closes it.
read-split_step : (s : Splitter) (c : ℕ) → read (split_step s c) ≡ read s ++ c ∷ []
unfolding split_step
read-split_step s c =
    let grown : closed s.out ++ (s.cur ++ c ∷ []) ≡ read s ++ c ∷ [] =
      sym (append_assoc (closed s.out) s.cur (c ∷ [])) in
    let ended : closed (s.out ++ s.cur ∷ []) ++ [] ≡ read s ++ b';' ∷ [] =
      append-nil _
      ∙ closed-append s.out s.cur
      ∙ sym (append_assoc (closed s.out) s.cur (b';' ∷ [])) in
    ground arith

read-split_run : (s : Splitter) (sql : Str) → read (split_run s sql) ≡ read s ++ sql
unfolding split_run
read-split_run s [] = sym (append-nil (read s))
read-split_run s (c ∷ sql) =
    read-split_run (split_step s c) sql
    ∙ ap (λ t. t ++ sql) (read-split_step s c)
    ∙ append_assoc (read s) (c ∷ []) sql

-- The statements joined again.
abbrev pub joined : List Str → Str
joined = join (str ";")

joined-end : (ss : List Str) (s : Str) → joined (ss ++ s ∷ []) ≡ closed ss ++ s
unfolding join
joined-end [] s = refl
joined-end (t ∷ []) s = simp append_assoc
joined-end (t ∷ u ∷ ss) s = rw (joined-end (u ∷ ss) s) (simp append_assoc)

joined-closed : (ss : List Str) → (ss ≡ []) ⊎ (joined ss ++ b';' ∷ [] ≡ closed ss)
unfolding join
joined-closed [] = inl refl
joined-closed (t ∷ []) = inr refl
joined-closed (t ∷ u ∷ ss) = elim (joined-closed (u ∷ ss)) [
  | inl e ↦ cc
  | inr e ↦ inr (append_assoc t (b';' ∷ joined (u ∷ ss)) (b';' ∷ []) ∙ ap (λ x. t ++ b';' ∷ x) e)
]

-- No byte is lost: the statements joined by semicolons give the text back, or the text without the
-- semicolon at its end.
pub join-split_statements :
    (sql : Str)
    → (join (str ";") (split_statements sql) ≡ sql)
      ⊎ (join (str ";") (split_statements sql) ++ str ";" ≡ sql)
unfolding split_statements split_end join
join-split_statements sql =
    let f = split_run split_start sql in
    let whole : closed f.out ++ f.cur ≡ sql = read-split_run split_start sql in
    elim (Bool-cases (is_nil f.cur)) [
      | inr open_end ↦ inl (rw open_end (joined-end f.out f.cur ∙ whole))
      | inl done ↦
          let last : f.cur ≡ [] = ground arith in
          let all_closed : closed f.out ≡ sql =
            sym (append-nil (closed f.out)) ∙ ap (λ x. closed f.out ++ x) (sym last) ∙ whole in
          elim (joined-closed f.out) [
            | inl e ↦ inl (rw done (rw e (ap closed (sym e) ∙ all_closed)))
            | inr e ↦ inr (rw done (e ∙ all_closed))
          ]
    ]
