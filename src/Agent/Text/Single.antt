-- ===== src/Agent/Text/Single.antt =====
-- internal/agent/handler.go: `extractSQL` and `quoteIdent`.
use go_database.Base.{
  ◌==◌, if◌then◌else◌, ==_iff, Bool-cases, Option-cases, take, Str, str, has_prefix, index,
  is_space, trim_left, trim_space, ℕ, suc, ◌+◌, ◌≡◌, refl, sym, ap, ◌∙◌, inl, inr, Bool, true,
  false, not, ◌&&◌, Option, none, some, [], ◌∷◌, ◌++◌, reverse, arith,
}
use mathlib.Core.Path.{subst}
use mathlib.Core.Option
use mathlib.Core.List.{reverse-reverse, reverse-append}
use go_database.Agent.Text.{first_statement, extract_sql, strip_fence, double_marks, quote_ident}

-- A semicolon stands at the end of the text, if anywhere.
unfoldable pub is_single : Str → Bool
is_single [] = true
is_single (c ∷ []) = true
is_single (c ∷ d ∷ s) = not (c == b';') && is_single (d ∷ s)

is_single-tail : (c : ℕ) (s : Str) → is_single (c ∷ s) ≡ true → is_single s ≡ true
unfolding is_single
is_single-tail c [] h = refl
is_single-tail c (d ∷ s) h = ground (arith, h)

-- The front of a text with a semicolon at the end only.
is_single-front : (s t : Str) → is_single (s ++ t) ≡ true → is_single s ≡ true
unfolding is_single
is_single-front [] t h = refl
is_single-front (c ∷ []) t h = refl
is_single-front (c ∷ d ∷ s) t h =
    let rest = is_single-front (d ∷ s) t (ground (arith, h)) in ground (arith, rest, h)

is_single-back : (s t : Str) → is_single (s ++ t) ≡ true → is_single t ≡ true
is_single-back [] t h = h
is_single-back (c ∷ s) t h = is_single-back s t (is_single-tail c (s ++ t) h)

trim_left-back : (s : Str) → (front : Str) × (s ≡ front ++ trim_left s)
unfolding trim_left
trim_left-back [] = ([], refl)
trim_left-back (c ∷ s) = elim (Bool-cases (is_space c)) [
  | inl space ↦ let (front, e) = trim_left-back s in (c ∷ front, rw space (ap (λ r. c ∷ r) e))
  | inr mark ↦ ([], rw mark refl)
]

trim_left-is_single : (s : Str) → is_single s ≡ true → is_single (trim_left s) ≡ true
trim_left-is_single s h =
    let (front, e) = trim_left-back s in
    is_single-back front (trim_left s) (subst (λ t. is_single t ≡ true) e h)

-- Trimming at the end takes a front.
trim_right-front : (s : Str) → (back : Str) × (s ≡ reverse (trim_left (reverse s)) ++ back)
trim_right-front s =
    let (front, e) = trim_left-back (reverse s) in
    (
      reverse front,
      sym (reverse-reverse s) ∙ ap reverse e ∙ reverse-append front (trim_left (reverse s)),
    )

trim_right-is_single :
    (s : Str) → is_single s ≡ true → is_single (reverse (trim_left (reverse s))) ≡ true
trim_right-is_single s h =
    let (back, e) = trim_right-front s in
    is_single-front (reverse (trim_left (reverse s))) back (subst (λ t. is_single t ≡ true) e h)

trim_space-is_single : (s : Str) → is_single s ≡ true → is_single (trim_space s) ≡ true
unfolding trim_space
trim_space-is_single s h = trim_right-is_single (trim_left s) (trim_left-is_single s h)

is_single-cons :
    (c : ℕ) (s : Str) → (c == b';') ≡ false → is_single s ≡ true → is_single (c ∷ s) ≡ true
unfolding is_single
is_single-cons c [] other h = refl
is_single-cons c (d ∷ s) other h = rw (other, h) refl

index-cons :
    (c : ℕ) (s : Str)
    → index (c ∷ s) (str ";") ≡ (if c == b';' then some 0 else Option.map suc (index s (str ";")))
unfolding index has_prefix
index-cons c s = ground arith

take_suc : (i : ℕ) (c : ℕ) (s : Str) → take (i + 1) (c ∷ s) ≡ c ∷ take i s
take_suc i c s = let next : i + 1 ≡ suc i = omega arith in rw next refl

-- A text up to its first semicolon.
take-is_single : (s : Str) (i : ℕ) → index s (str ";") ≡ some i → is_single (take (i + 1) s) ≡ true
unfolding index has_prefix is_single
take-is_single [] i h = grind arith
take-is_single (c ∷ s) i h = rw (take_suc i c s) (elim (Bool-cases (c == b';')) [
  | inl mark ↦
      let first = rw (index-cons c s, mark) at h in
      let zero_here : 0 ≡ i = cc in rw (← zero_here) refl
  | inr other ↦ elim (Option-cases (index s (str ";"))) [
    | inl absent ↦ let gone = rw (index-cons c s, other, absent) at h in grind arith
    | inr (j, present) ↦
        let there = rw (index-cons c s, other, present) at h in
        let next : suc j ≡ i = cc in
        let more : i ≡ j + 1 = omega arith in
        is_single-cons c (take i s) other (rw more (take-is_single s j present))
  ]
])

no_semicolon-is_single : (s : Str) → index s (str ";") ≡ none → is_single s ≡ true
unfolding index has_prefix is_single
no_semicolon-is_single [] h = refl
no_semicolon-is_single (c ∷ s) h = elim (Bool-cases (c == b';')) [
  | inl mark ↦ let found = rw (index-cons c s, mark) at h in grind arith
  | inr other ↦ elim (Option-cases (index s (str ";"))) [
    | inl absent ↦ is_single-cons c s other (no_semicolon-is_single s absent)
    | inr (j, present) ↦ let found = rw (index-cons c s, other, present) at h in grind arith
  ]
]

first_statement-is_single : (s : Str) → is_single (first_statement s) ≡ true
unfolding first_statement
first_statement-is_single s = elim (Option-cases (index s (str ";"))) [
  | inl absent ↦ rw (first_statement, absent) (no_semicolon-is_single s absent)
  | inr (i, present) ↦ rw (first_statement, present) (take-is_single s i present)
]

-- `extractSQL` returns a single statement: a semicolon stands at the end of it, if anywhere.
pub extract_sql-is_single : (s : Str) → is_single (extract_sql s) ≡ true
unfolding extract_sql
extract_sql-is_single s =
    trim_space-is_single (first_statement (strip_fence (trim_space s)))
      (first_statement-is_single (strip_fence (trim_space s)))

-- What a parser of SQL reads behind the first quotation mark of an identifier: two marks are one, and one
-- mark is the end.
unfoldable pub read_ident : Str → Option Str
read_ident [] = none
read_ident (c ∷ []) = if c == b'"' then some [] else none
read_ident (c ∷ d ∷ s) =
    let pair = Option.map (λ (r : Str). c ∷ r) (read_ident s) in
    let one = Option.map (λ (r : Str). c ∷ r) (read_ident (d ∷ s)) in
    if c == b'"' then (if d == b'"' then pair else none) else one

read_ident-other :
    (c : ℕ) (s : Str)
    → (c == b'"') ≡ false
    → read_ident (c ∷ s) ≡ Option.map (λ (r : Str). c ∷ r) (read_ident s)
unfolding read_ident
read_ident-other c [] other = rw other refl
read_ident-other c (d ∷ s) other = rw other refl

read_ident-marks : (s : Str) → read_ident (double_marks s ++ str "\"") ≡ some s
unfolding read_ident double_marks
read_ident-marks [] = refl
read_ident-marks (c ∷ s) = elim (Bool-cases (c == b'"')) [
  | inl mark ↦
      let eq : c ≡ b'"' = (==_iff c b'"').0 mark in
      let rest = read_ident-marks s in rw (mark, rest, eq) refl
  | inr other ↦
      let rest = read_ident-marks s in
      rw (other, read_ident-other c (double_marks s ++ str "\"") other, rest) refl
]

-- `quoteIdent` is read back: whatever the name, a parser of SQL that reads two marks as one finds it
-- between the quotation marks, and the identifier ends with the text.
quote_ident-read :
    (name : Str) → (body : Str) × (quote_ident name ≡ b'"' ∷ body) × (read_ident body ≡ some name)
unfolding quote_ident
quote_ident-read name = (double_marks name ++ str "\"", refl, read_ident-marks name)
