-- ===== src/Agent/Text.antt =====
-- internal/agent/handler.go and memory.go: the functions on texts.
pub mod Single
use go_database.Base.{
  ltb, leb, ◌==◌, if◌then◌else◌, length, take, drop, any, Str, str, has_prefix, has_suffix, index,
  contains, to_lower, trim_space, ℕ, suc, ◌+◌, ◌-◌, Bool, Option, none, some, List, [], ◌∷◌, ◌++◌,
}

-- `strings.TrimPrefix`
unfoldable pub trim_prefix : Str → Str → Str
unfolding has_prefix
trim_prefix s p = if has_prefix s p then drop (length p) s else s

-- `strings.TrimSuffix`
unfoldable pub trim_suffix : Str → Str → Str
unfolding has_suffix
trim_suffix s p = if has_suffix s p then take (length s - length p) s else s

-- `strings.LastIndex(s, t)`, with `none` for -1
unfoldable pub last_index : Str → Str → Option ℕ
unfolding has_prefix
last_index [] t = if has_prefix [] t then some 0 else none
last_index (c ∷ s) t = elim (last_index s t) [
  | some i ↦ some (suc i)
  | none ↦ if has_prefix (c ∷ s) t then some 0 else none
]

abbrev pub fence : Str
fence = str "```"

abbrev before_fence : Str → Str
before_fence rest = elim (index rest fence) [ none ↦ rest | some j ↦ take j rest ]

-- The part of `extractSQL` that strips the fences.
unfoldable pub strip_fence : Str → Str
unfolding index trim_prefix trim_space
strip_fence s = elim (index s fence) [
  | none ↦ s
  | some i ↦ trim_space (before_fence (trim_space (trim_prefix (drop (i + 3) s) (str "sql"))))
]

-- `s[:i+1]` up to the first semicolon
unfoldable pub first_statement : Str → Str
unfolding index
first_statement s = elim (index s (str ";")) [ none ↦ s | some i ↦ take (i + 1) s ]

-- `extractSQL`
unfoldable pub extract_sql : Str → Str
unfolding trim_space strip_fence first_statement
extract_sql s = trim_space (first_statement (strip_fence (trim_space s)))

abbrev after_think : Str → Str
after_think s = elim (last_index s (str "</think>")) [ none ↦ s | some i ↦ drop (i + 8) s ]

abbrev braces : Str → Str
braces s = elim (index s (str "{")) [
  | none ↦ s
  | some start ↦ elim (last_index s (str "}")) [
    | none ↦ s
    | some end ↦ if ltb start end then drop start (take (end + 1) s) else s
  ]
]

-- `cleanJSON`
unfoldable pub clean_json : Str → Str
unfolding trim_space trim_prefix trim_suffix last_index index
clean_json s =
    let thought = trim_space (after_think (trim_space s)) in
    let opened = trim_prefix (trim_prefix thought (str "```json")) fence in
    trim_space (braces (trim_space (trim_suffix opened fence)))

-- `truncate`
unfoldable pub truncate : Str → ℕ → Str
truncate s n = if leb (length s) n then s else take n s ++ str "..."

unfoldable pub double_marks : Str → Str
double_marks [] = []
double_marks (c ∷ s) =
    let rest = double_marks s in if c == b'"' then b'"' ∷ b'"' ∷ rest else c ∷ rest

-- `quoteIdent`
unfoldable pub quote_ident : Str → Str
unfolding double_marks
quote_ident s = str "\"" ++ (double_marks s ++ str "\"")

abbrev pub correction_words : List Str
correction_words =
    str "falsch"
    ∷ str "wrong"
    ∷ str "nein,"
    ∷ str "stattdessen"
    ∷ str "korrigier"
    ∷ str "correct"
    ∷ str "actually"
    ∷ str "instead"
    ∷ str "that's not"
    ∷ str "das stimmt nicht"
    ∷ str "nicht so"
    ∷ []

-- `isCorrection`
unfoldable pub is_correction : Str → Bool
unfolding to_lower contains
is_correction msg = any (contains (to_lower msg)) correction_words
