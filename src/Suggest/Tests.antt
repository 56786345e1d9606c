-- ===== src/Suggest/Tests.antt =====
-- internal/suggest: tests of the risk evaluator, the distance, the tree of words and the suggestions.
use go_database.Base.{
  length, all, Str, str, str_eq, has_prefix, index, contains, to_upper, to_lower, trim_space,
  fields, elem, ◌≤◌, ◌≡◌, refl, true, false, none, List, [], ◌∷◌, map, arith,
}
use go_database.Suggest.Types.{Suggestion, SuggestContext, risk_low}
use go_database.Suggest.Risk.{classify, classify_upper, evaluate_select}
use go_database.Suggest.Risk.Levels.{normalised}
use go_database.Suggest.Distance.{
  min3, cost, fill_cells, first_row, fill_rows, last_cell, distance, levenshtein,
}
use go_database.Suggest.Distance.Edits.{Edits, done, keep, replace, remove_one}
use go_database.Suggest.Distance.Rows.{levenshtein-shortest}
use go_database.Suggest.Trie.{
  new_trie, child_at, set_child, or_new, insert_at, insert_word, insert_words, descend, collect,
  search_trie,
}
use go_database.Suggest.Trie.Search.{search_trie_sound}
use go_database.Suggest.Templates.{
  can_write, get_statement_templates, looks_like_natural_language, contains_any, sanitize_ident,
}
use go_database.Suggest.Engine.{get_suggestions}
use go_database.Suggest.Engine.Ranked.{get_suggestions-ranked}
use go_database.Suggest.Engine.Sorted.{distinct, is_ranked}
use go_database.Suggest.Engine.Intents.{is_harmless, get_suggestions-harmless}
use go_database.Guard.{risk_level, prefix_command}

select_is_low : (classify (str "select 1")).0 ≡ risk_low
unfolding classify classify_upper evaluate_select has_prefix contains index to_upper trim_space
select_is_low = refl

drop_is_worst : 5 ≤ risk_level (prefix_command (normalised (str "drop table t")))
unfolding prefix_command has_prefix to_upper trim_space
drop_is_worst = omega arith

comment_in_front : has_prefix (normalised (str "/**/drop table t")) (str "/*") ≡ true
unfolding has_prefix to_upper trim_space
comment_in_front = refl

kitten : levenshtein (str "Kitten") (str "sitting") ≡ 3
unfolding levenshtein distance fill_rows first_row fill_cells last_cell min3 cost to_lower
kitten = refl

cat_to_cut : Edits (to_lower (str "cat")) (to_lower (str "Cu")) 2
unfolding to_lower
cat_to_cut = keep (replace (remove_one done))

levenshtein-shortest_example :
    Edits (to_lower (str "cat")) (to_lower (str "Cu")) (levenshtein (str "cat") (str "Cu"))
    × (levenshtein (str "cat") (str "Cu") ≤ 2)
levenshtein-shortest_example = levenshtein-shortest (str "cat") (str "Cu") 2 cat_to_cut

abbrev three_words : List Str
three_words = str "Show" ∷ str "SELECT" ∷ str "users" ∷ []

search_s :
    search_trie (str "s") 5 (insert_words three_words new_trie) ≡ str "Show" ∷ str "SELECT" ∷ []
unfolding search_trie insert_words insert_word insert_at or_new child_at set_child descend collect
    to_lower
search_s = refl

show_is_found :
    elem (str "Show") (search_trie (str "s") 5 (insert_words three_words new_trie)) ≡ true
unfolding str_eq
show_is_found = rw search_s refl

search_trie_sound_example :
    (elem (str "Show") three_words ≡ true)
    × (has_prefix (to_lower (str "Show")) (to_lower (str "s")) ≡ true)
search_trie_sound_example = search_trie_sound three_words (str "s") 5 (str "Show") show_is_found

abbrev viewer_context : SuggestContext
viewer_context = record {
  user_id = str "u1";
  role = str "viewer";
  connection_id = str "c1";
  current_table = str "orders";
  input = str "please delete all";
  schema = none;
}

admin_deletes :
    map Suggestion.text (get_statement_templates (record viewer_context { role = str "Admin" }))
    ≡ str "SELECT * FROM orders LIMIT 100;" ∷ str "DELETE FROM orders WHERE id = ?;" ∷ []
unfolding get_statement_templates looks_like_natural_language contains_any sanitize_ident can_write
    str_eq to_lower to_upper trim_space has_prefix fields contains
admin_deletes = refl

viewer_may_not : can_write (SuggestContext.role viewer_context) ≡ false
unfolding can_write str_eq to_lower
viewer_may_not = refl

get_suggestions-harmless_example : all is_harmless (get_suggestions viewer_context 10) ≡ true
get_suggestions-harmless_example = get_suggestions-harmless viewer_context 10 viewer_may_not

get_suggestions-ranked_example :
    (length (get_suggestions viewer_context 10) ≤ 10)
    × (distinct (map Suggestion.text (get_suggestions viewer_context 10)) ≡ true)
    × (is_ranked (get_suggestions viewer_context 10) ≡ true)
get_suggestions-ranked_example = get_suggestions-ranked viewer_context 10
