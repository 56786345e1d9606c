-- ===== src/Suggest/Engine/Intents.antt =====
-- internal/suggest/engine.go: which suggestions come from the templates.
use go_database.Base.{
  ltb, Bool-cases, length, take, is_nil, all, select, Str, to_upper, trim_space, elem, ℕ, zero, suc,
  ◌≡◌, refl, ◌∙◌, inl, inr, Bool, true, false, not, ◌&&◌, Option, none, some, List, [], ◌∷◌, ◌++◌,
  map, arith,
}
use go_database.Plugin.Types.{Schema, TableInfo}
use go_database.Suggest.Types.{Suggestion, SuggestContext, is_high, is_intent}
use go_database.Suggest.Fuzzy.{fuzzy_match, fuzzy_suggestion, near_matches, sort_matches}
use go_database.Suggest.Trie.{search_trie, new_keyword_trie}
use go_database.Suggest.Templates.{
  get_statement_templates, can_write, when, looks_like_natural_language, contains_any,
  sanitize_ident, select_template, count_template, schema_template, delete_template, delete_words,
  show_words, count_words, schema_terms, or_users,
}
use go_database.Suggest.Engine.{
  build_dictionary, Collected, add_unseen, add_all, add_schema, schema_suggestions, add_fuzzy,
  place_ranked, sort_ranked, collect_suggestions, get_suggestions, keyword_suggestion,
  table_suggestion, column_suggestion, starts_with,
}
use go_database.Suggest.Engine.Ranked.{get_suggestions-cases, keywords_of}

-- A suggestion that is no template of high risk.
abbrev pub is_harmless : Suggestion → Bool
is_harmless s = not (is_intent (Suggestion.typ s) && is_high (Suggestion.risk_level s))

module _ {ℓ} {A : Type ℓ} (p : A → Bool) where
  all-append : (xs ys : List A) → all p (xs ++ ys) ≡ (all p xs && all p ys)
  all-append [] ys = refl
  all-append (x ∷ xs) ys = ground (arith, all-append xs ys)

  all-take : (n : ℕ) (xs : List A) → all p xs ≡ true → all p (take n xs) ≡ true
  all-take zero xs h = refl
  all-take (suc n) [] h = refl
  all-take (suc n) (x ∷ xs) h = ground (arith, all-take n xs, h)

  all-select : (q : A → Bool) (xs : List A) → all p xs ≡ true → all p (select q xs) ≡ true
  all-select q [] h = refl
  all-select q (x ∷ xs) h = ground (arith, all-select q xs, h)

  all-map {κ} :
      {B : Type κ} (f : B → A)
      → ((b : B) → p (f b) ≡ true)
      → (bs : List B) → all p (map f bs) ≡ true
  all-map f h [] = refl
  all-map f h (b ∷ bs) = rw (h b, all-map f h bs) refl

  both : (xs ys : List A) → all p xs ≡ true → all p ys ≡ true → all p (xs ++ ys) ≡ true
  both xs ys h k = rw (all-append xs ys, h, k) refl

abbrev harmless : List Suggestion → Bool
harmless = all is_harmless

add_unseen-harmless :
    (c : Collected) (s : Suggestion)
    → is_harmless s ≡ true
    → harmless (Collected.results c) ≡ true
    → harmless (Collected.results (add_unseen c s)) ≡ true
unfolding add_unseen
add_unseen-harmless c s new h = elim (Bool-cases (elem (Suggestion.text s) (Collected.seen c))) [
  | inl old ↦ rw (add_unseen, old) h
  | inr unseen ↦
      rw (add_unseen, unseen) (both is_harmless (Collected.results c) (s ∷ []) h (rw new refl))
]

add_all-harmless :
    (ss : List Suggestion) (c : Collected)
    → harmless ss ≡ true
    → harmless (Collected.results c) ≡ true
    → harmless (Collected.results (add_all c ss)) ≡ true
unfolding add_all
add_all-harmless [] c new h = h
add_all-harmless (s ∷ ss) c new h =
    add_all-harmless ss (add_unseen c s) (ground (arith, new))
      (add_unseen-harmless c s (ground (arith, new)) h)

place_ranked-harmless :
    (s : Suggestion) (ss : List Suggestion)
    → harmless (place_ranked s ss) ≡ (is_harmless s && harmless ss)
unfolding place_ranked
place_ranked-harmless s [] = refl
place_ranked-harmless s (t ∷ ss) = ground (arith, place_ranked-harmless s ss)

sort_ranked-harmless : (ss : List Suggestion) → harmless (sort_ranked ss) ≡ harmless ss
unfolding sort_ranked
sort_ranked-harmless [] = refl
sort_ranked-harmless (s ∷ ss) =
    rw (place_ranked-harmless s (sort_ranked ss), sort_ranked-harmless ss) refl

schema_suggestions-harmless :
    (word : Str) (tables : List TableInfo) → harmless (schema_suggestions word tables) ≡ true
unfolding schema_suggestions
schema_suggestions-harmless word [] = refl
schema_suggestions-harmless word (table ∷ tables) =
    both is_harmless
      (select (starts_with word) (
        table_suggestion table
        ∷ map (column_suggestion (TableInfo.name table)) (TableInfo.columns table)))
      (schema_suggestions word tables)
      (all-select is_harmless (starts_with word)
        (table_suggestion table
          ∷ map (column_suggestion (TableInfo.name table)) (TableInfo.columns table))
        (all-map is_harmless (column_suggestion (TableInfo.name table)) (λ _. refl)
          (TableInfo.columns table)))
      (schema_suggestions-harmless word tables)

fuzzy_match-harmless :
    (dict : List Str) (text : Str) (limit : ℕ) → harmless (fuzzy_match dict text limit) ≡ true
unfolding fuzzy_match
fuzzy_match-harmless dict text limit = elim (Bool-cases (is_nil (trim_space text))) [
  | inl empty ↦ rw (fuzzy_match, empty) refl
  | inr some_text ↦
      rw (fuzzy_match, some_text)
        (all-map is_harmless (fuzzy_suggestion (trim_space text)) (λ _. refl)
          (take limit (sort_matches (near_matches (trim_space text) dict))))
]

when-harmless : (b : Bool) (s : Suggestion) → is_harmless s ≡ true → harmless (when b s) ≡ true
when-harmless false s h = refl
when-harmless true s h = rw h refl

schema_template-harmless : (table : Str) → is_harmless (schema_template table) ≡ true
schema_template-harmless [] = refl
schema_template-harmless (_ ∷ _) = refl

all_templates : (ctx : SuggestContext) → Str → List Suggestion
all_templates ctx input =
    let table = SuggestContext.current_table ctx in
    when (contains_any input show_words) (select_template (or_users table))
    ++ (when (contains_any input count_words) (count_template (or_users table))
        ++ (when (contains_any input schema_terms) (schema_template (sanitize_ident table))
            ++ when (can_write (SuggestContext.role ctx) && contains_any input delete_words)
                (delete_template (or_users (sanitize_ident table)))))

all_templates-harmless :
    (ctx : SuggestContext) (input : Str)
    → can_write (SuggestContext.role ctx) ≡ false
    → harmless (all_templates ctx input) ≡ true
unfolding all_templates
all_templates-harmless ctx input denied =
    let table = SuggestContext.current_table ctx in
    let shown = when (contains_any input show_words) (select_template (or_users table)) in
    let counted = when (contains_any input count_words) (count_template (or_users table)) in
    let described =
      when (contains_any input schema_terms) (schema_template (sanitize_ident table)) in
    let deleted =
      when (can_write (SuggestContext.role ctx) && contains_any input delete_words)
        (delete_template (or_users (sanitize_ident table))) in
    let last : harmless deleted ≡ true = rw denied refl in
    both is_harmless shown (counted ++ (described ++ deleted)) (when-harmless _ _ refl) (
      both is_harmless counted (described ++ deleted) (when-harmless _ _ refl) (
        both is_harmless described deleted
          (when-harmless _ _ (schema_template-harmless (sanitize_ident table))) last))

get_statement_templates-harmless :
    (ctx : SuggestContext)
    → can_write (SuggestContext.role ctx) ≡ false
    → harmless (get_statement_templates ctx) ≡ true
unfolding get_statement_templates all_templates
get_statement_templates-harmless ctx denied =
    elim (Bool-cases
      (looks_like_natural_language (trim_space (to_upper (SuggestContext.input ctx))))) [
        | inl natural ↦ rw (get_statement_templates, natural) (all_templates-harmless ctx _ denied)
        | inr sql ↦ rw (get_statement_templates, sql) refl
      ]

add_schema-harmless :
    (word : Str) (schema : Option Schema) (c : Collected)
    → harmless (Collected.results c) ≡ true
    → harmless (Collected.results (add_schema word schema c)) ≡ true
unfolding add_schema
add_schema-harmless word none c h = h
add_schema-harmless word (some schema) c h =
    add_all-harmless (schema_suggestions word (Schema.tables schema)) c
      (schema_suggestions-harmless word (Schema.tables schema)) h

add_fuzzy-harmless :
    (ctx : SuggestContext) (word : Str) (limit : ℕ) (c : Collected)
    → harmless (Collected.results c) ≡ true
    → harmless (Collected.results (add_fuzzy ctx word limit c)) ≡ true
unfolding add_fuzzy
add_fuzzy-harmless ctx word limit c h = elim (Bool-cases (ltb (length (Collected.results c)) 3)) [
  | inl few ↦
      let dict = build_dictionary (SuggestContext.schema ctx) in
      rw (add_fuzzy, few)
        (add_all-harmless (fuzzy_match dict word limit) c (fuzzy_match-harmless dict word limit) h)
  | inr more ↦ rw (add_fuzzy, more) h
]

collect_suggestions-harmless :
    (ctx : SuggestContext) (word : Str) (limit : ℕ)
    → can_write (SuggestContext.role ctx) ≡ false
    → harmless (Collected.results (collect_suggestions ctx word limit)) ≡ true
unfolding collect_suggestions
collect_suggestions-harmless ctx word limit denied =
    let start : Collected = record { results = []; seen = [] } in
    let keywords : harmless (Collected.results (add_all start (keywords_of word limit))) ≡ true =
      add_all-harmless (keywords_of word limit) start
        (all-map is_harmless keyword_suggestion (λ _. refl)
          (search_trie word limit new_keyword_trie))
        refl in
    let first = add_all start (keywords_of word limit) in
    let named = add_schema word (SuggestContext.schema ctx) first in
    let names = add_schema-harmless word (SuggestContext.schema ctx) first keywords in
    add_all-harmless (get_statement_templates ctx) (add_fuzzy ctx word limit named)
      (get_statement_templates-harmless ctx denied) (add_fuzzy-harmless ctx word limit named names)

-- A role that is neither admin nor developer is never given a template of high risk, such as a `DELETE`.
pub get_suggestions-harmless :
    (ctx : SuggestContext) (limit : ℕ)
    → can_write (SuggestContext.role ctx) ≡ false
    → all is_harmless (get_suggestions ctx limit) ≡ true
get_suggestions-harmless ctx limit denied = elim (get_suggestions-cases ctx limit) [
  | inl none_found ↦ rw none_found refl
  | inr (word, found) ↦
      let c = collect_suggestions ctx word limit in
      let sorted : harmless (sort_ranked (Collected.results c)) ≡ true =
        sort_ranked-harmless (Collected.results c)
        ∙ collect_suggestions-harmless ctx word limit denied in
      rw found (all-take is_harmless limit (sort_ranked (Collected.results c)) sorted)
]
