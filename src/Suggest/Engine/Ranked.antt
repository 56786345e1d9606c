-- ===== src/Suggest/Engine/Ranked.antt =====
-- internal/suggest/engine.go: the order of the suggestions and their texts.
use go_database.Base.{
  ltb, Bool-cases, length, take, is_nil, any-append, Str, trim_space, str_eq_sym, elem, ℕ, zero,
  suc, ◌≤◌, ◌≡◌, refl, ap, ◌∙◌, ◌⊎◌, inl, inr, true, false, ◌||◌, Option, none, some, List, [], ◌∷◌,
  ◌++◌, map, arith,
}
use go_database.Suggest.Types.{Suggestion, SuggestContext}
use go_database.Suggest.Trie.{search_trie, new_keyword_trie}
use go_database.Suggest.Fuzzy.{fuzzy_match}
use go_database.Suggest.Templates.{get_statement_templates}
use go_database.Plugin.Types.{Schema}
use go_database.Suggest.Engine.{
  build_dictionary, extract_last_word, Collected, add_unseen, add_all, add_schema,
  schema_suggestions, add_fuzzy, sort_ranked, collect_suggestions, get_suggestions,
  keyword_suggestion,
}
use go_database.Suggest.Engine.Sorted.{
  distinct, is_ranked, texts, distinct-sort_ranked, distinct-take, is_ranked-take,
  sort_ranked-is_ranked,
}

elem-append : (v : Str) (xs ys : List Str) → elem v (xs ++ ys) ≡ (elem v xs || elem v ys)
elem-append v xs ys = any-append _ xs ys

distinct-append :
    (ts : List Str) (t : Str)
    → distinct ts ≡ true
    → elem t ts ≡ false
    → distinct (ts ++ t ∷ []) ≡ true
unfolding distinct
distinct-append [] t h new = refl
distinct-append (u ∷ ts) t h new =
    let rest = distinct-append ts t (ground (arith, h)) (ground (arith, new)) in
    let app = elem-append u ts (t ∷ []) in
    let turned = str_eq_sym t u in ground (arith, rest, app, turned, h, new)

texts_append :
    (ss : List Suggestion) (s : Suggestion)
    → texts (ss ++ s ∷ []) ≡ texts ss ++ Suggestion.text s ∷ []
unfolding texts
texts_append [] s = refl
texts_append (t ∷ ss) s = ap (λ r. Suggestion.text t ∷ r) (texts_append ss s)

texts-append :
    (ss : List Suggestion) (s : Suggestion) (ts : List Str)
    → texts ss ≡ ts
    → texts (ss ++ s ∷ []) ≡ ts ++ Suggestion.text s ∷ []
unfolding texts
texts-append ss s ts h = rw (← h) (texts_append ss s)

no_texts : texts [] ≡ []
unfolding texts
no_texts = refl

no_twice : distinct [] ≡ true
unfolding distinct
no_twice = refl

-- What holds of the two locals at each step.
record IsSound (c : Collected) : Type 0 where
  same : texts (Collected.results c) ≡ Collected.seen c
  once : distinct (Collected.seen c) ≡ true

add_unseen-IsSound : (c : Collected) (s : Suggestion) → IsSound c → IsSound (add_unseen c s)
unfolding add_unseen texts
add_unseen-IsSound c s h = elim (Bool-cases (elem (Suggestion.text s) (Collected.seen c))) [
  | inl old ↦ rw (add_unseen, old) h
  | inr new ↦
      rw (add_unseen, new)
        record {
          same = texts-append (Collected.results c) s (Collected.seen c) (IsSound.same h);
          once = distinct-append (Collected.seen c) (Suggestion.text s) (IsSound.once h) new;
        }
]

add_all-IsSound : (ss : List Suggestion) (c : Collected) → IsSound c → IsSound (add_all c ss)
unfolding add_all
add_all-IsSound [] c h = h
add_all-IsSound (s ∷ ss) c h = add_all-IsSound ss (add_unseen c s) (add_unseen-IsSound c s h)

add_schema-IsSound :
    (word : Str) (schema : Option Schema) (c : Collected)
    → IsSound c
    → IsSound (add_schema word schema c)
unfolding add_schema
add_schema-IsSound word none c h = h
add_schema-IsSound word (some schema) c h =
    add_all-IsSound (schema_suggestions word (Schema.tables schema)) c h

add_fuzzy-IsSound :
    (ctx : SuggestContext) (word : Str) (limit : ℕ) (c : Collected)
    → IsSound c
    → IsSound (add_fuzzy ctx word limit c)
unfolding add_fuzzy
add_fuzzy-IsSound ctx word limit c h = elim (Bool-cases (ltb (length (Collected.results c)) 3)) [
  | inl few ↦
      rw (add_fuzzy, few)
        (add_all-IsSound (fuzzy_match (build_dictionary (SuggestContext.schema ctx)) word limit) c
          h)
  | inr more ↦ rw (add_fuzzy, more) h
]

abbrev pub keywords_of : Str → ℕ → List Suggestion
keywords_of word limit = map keyword_suggestion (search_trie word limit new_keyword_trie)

collect_suggestions-IsSound :
    (ctx : SuggestContext) (word : Str) (limit : ℕ) → IsSound (collect_suggestions ctx word limit)
unfolding collect_suggestions
collect_suggestions-IsSound ctx word limit =
    let start : IsSound (record { results = []; seen = [] }) = record {
      same = no_texts;
      once = no_twice;
    } in
    let keywords = add_all-IsSound (keywords_of word limit) _ start in
    let names = add_schema-IsSound word (SuggestContext.schema ctx) _ keywords in
    add_all-IsSound (get_statement_templates ctx) _ (add_fuzzy-IsSound ctx word limit _ names)

pub get_suggestions-cases :
    (ctx : SuggestContext) (limit : ℕ)
    → (get_suggestions ctx limit ≡ [])
      ⊎ ((word : Str) × (get_suggestions ctx limit
            ≡ take limit (sort_ranked (Collected.results (collect_suggestions ctx word limit)))))
unfolding get_suggestions
get_suggestions-cases ctx limit =
    elim (Bool-cases (is_nil (trim_space (SuggestContext.input ctx)))) [
      | inl empty ↦ inl (rw (get_suggestions, empty) refl)
      | inr text ↦ inr (
        extract_last_word (trim_space (SuggestContext.input ctx)),
        rw (get_suggestions, text) refl,
      )
    ]

length-take_le : (n : ℕ) (ss : List Suggestion) → length (take n ss) ≤ n
length-take_le zero ss = omega arith
length-take_le (suc n) [] = omega arith
length-take_le (suc n) (s ∷ ss) = omega (arith, length-take_le n ss)

abbrev Ranked : ℕ → List Suggestion → Type 0
Ranked limit ss =
    (length ss ≤ limit) × (distinct (map Suggestion.text ss) ≡ true) × (is_ranked ss ≡ true)

nil-Ranked : (limit : ℕ) → Ranked limit []
unfolding distinct is_ranked
nil-Ranked limit = (omega arith, refl, refl)

take-Ranked :
    (limit : ℕ) (c : Collected)
    → IsSound c
    → Ranked limit (take limit (sort_ranked (Collected.results c)))
unfolding texts
take-Ranked limit c h =
    let once : distinct (texts (Collected.results c)) ≡ true =
      rw (IsSound.same h) (IsSound.once h) in
    let sorted : distinct (texts (sort_ranked (Collected.results c))) ≡ true =
      distinct-sort_ranked (Collected.results c) ∙ once in
    (
      length-take_le limit (sort_ranked (Collected.results c)),
      distinct-take limit (sort_ranked (Collected.results c)) sorted,
      is_ranked-take limit (sort_ranked (Collected.results c))
          (sort_ranked-is_ranked (Collected.results c)),
    )

-- The suggestions are at most `limit`, no text is suggested twice, and none is followed by one of more
-- confidence.
pub get_suggestions-ranked :
    (ctx : SuggestContext) (limit : ℕ)
    → (length (get_suggestions ctx limit) ≤ limit)
      × (distinct (map Suggestion.text (get_suggestions ctx limit)) ≡ true)
      × (is_ranked (get_suggestions ctx limit) ≡ true)
get_suggestions-ranked ctx limit = elim (get_suggestions-cases ctx limit) [
  | inl none_found ↦ rw none_found (nil-Ranked limit)
  | inr (word, found) ↦ rw found (
      take-Ranked limit (collect_suggestions ctx word limit)
        (collect_suggestions-IsSound ctx word limit))
]
