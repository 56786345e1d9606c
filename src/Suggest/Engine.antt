-- ===== src/Suggest/Engine.antt =====
-- internal/suggest/engine.go: `GetSuggestions`. `sort.Slice` leaves the order of equal elements open;
-- here it is a stable sort.
pub mod Sorted
pub mod Ranked
pub mod Intents
use go_database.Base.{
  ltb, if◌then◌else◌, length, take, is_nil, select, Str, str, has_prefix, to_lower, trim_space,
  fields, join, elem, ℕ, Bool, Option, none, some, List, [], ◌∷◌, ◌++◌, map,
}
use go_database.Plugin.Types.{Schema, TableInfo, ColumnInfo}
use go_database.Suggest.Types.{
  Suggestion, SuggestContext, RiskLevel, percent, more_confident, sugg_keyword, sugg_table,
  sugg_column, risk_low,
}
use go_database.Suggest.Risk.{classify}
use go_database.Suggest.Trie.{search_trie, new_keyword_trie, sql_keywords}
use go_database.Suggest.Fuzzy.{fuzzy_match}
use go_database.Suggest.Templates.{get_statement_templates}

-- The locals `results` and `seen` of `GetSuggestions`.
pub record Collected : Type 0 where
  pub results : List Suggestion
  pub seen : List Str

-- `append` and the entry in `seen`, for a text that is not there yet
unfoldable pub add_unseen : Collected → Suggestion → Collected
add_unseen c s = if elem (Suggestion.text s) (Collected.seen c) then c else record {
  results = Collected.results c ++ s ∷ [];
  seen = Collected.seen c ++ Suggestion.text s ∷ [];
}

unfoldable pub add_all : Collected → List Suggestion → Collected
unfolding add_unseen
add_all c [] = c
add_all c (s ∷ ss) = add_all (add_unseen c s) ss

-- `extractLastWord`
last_of : Str → List Str → Str
last_of w [] = w
last_of w (v ∷ ws) = last_of v ws

unfoldable pub extract_last_word : Str → Str
unfolding trim_space fields last_of
extract_last_word input = last_of [] (fields (trim_space input))

-- `tblName`
unfoldable pub table_name : List ColumnInfo → Str
unfolding join
table_name [] = []
table_name (col ∷ cols) =
    if ltb 3 (length (col ∷ cols))
    then ColumnInfo.name col ++ str ", ..."
    else join (str ", ") (map ColumnInfo.name (col ∷ cols))

unfoldable pub table_entries : List TableInfo → List Str
table_entries [] = []
table_entries (table ∷ tables) =
    TableInfo.name table ∷ map ColumnInfo.name (TableInfo.columns table) ++ table_entries tables

-- `buildDictionary`
unfoldable pub build_dictionary : Option Schema → List Str
unfolding table_entries
build_dictionary none = sql_keywords
build_dictionary (some schema) = sql_keywords ++ table_entries (Schema.tables schema)

abbrev pub keyword_suggestion : Str → Suggestion
keyword_suggestion word = record {
  text = word;
  description = (classify word).1;
  typ = sugg_keyword;
  confidence = percent 90;
  risk_level = (classify word).0;
}

abbrev pub table_suggestion : TableInfo → Suggestion
table_suggestion table = record {
  text = TableInfo.name table;
  description = str "table (" ++ (table_name (TableInfo.columns table) ++ str ")");
  typ = sugg_table;
  confidence = percent 85;
  risk_level = risk_low;
}

abbrev pub column_suggestion : Str → ColumnInfo → Suggestion
column_suggestion table col = record {
  text = ColumnInfo.name col;
  description = str "column in " ++ (table ++ (str " (" ++ (ColumnInfo.type_name col ++ str ")")));
  typ = sugg_column;
  confidence = percent 80;
  risk_level = risk_low;
}

abbrev pub starts_with : Str → Suggestion → Bool
starts_with word s = has_prefix (to_lower (Suggestion.text s)) (to_lower word)

-- The suggestions of the two loops over the schema that begin with the last word, in their order.
unfoldable pub schema_suggestions : Str → List TableInfo → List Suggestion
schema_suggestions word [] = []
schema_suggestions word (table ∷ tables) =
    select (starts_with word) (
      table_suggestion table
      ∷ map (column_suggestion (TableInfo.name table)) (TableInfo.columns table))
    ++ schema_suggestions word tables

unfoldable pub add_schema : Str → Option Schema → Collected → Collected
unfolding add_all schema_suggestions
add_schema word none c = c
add_schema word (some schema) c = add_all c (schema_suggestions word (Schema.tables schema))

unfoldable pub add_fuzzy : SuggestContext → Str → ℕ → Collected → Collected
unfolding add_all build_dictionary fuzzy_match
add_fuzzy ctx word limit c =
    if ltb (length (Collected.results c)) 3
    then add_all c (fuzzy_match (build_dictionary (SuggestContext.schema ctx)) word limit)
    else c

unfoldable pub place_ranked : Suggestion → List Suggestion → List Suggestion
place_ranked s [] = s ∷ []
place_ranked s (t ∷ ss) =
    let behind = place_ranked s ss in if more_confident t s then t ∷ behind else s ∷ t ∷ ss

unfoldable pub sort_ranked : List Suggestion → List Suggestion
unfolding place_ranked
sort_ranked [] = []
sort_ranked (s ∷ ss) = place_ranked s (sort_ranked ss)

-- The steps 1 to 4 of `GetSuggestions`.
unfoldable pub collect_suggestions : SuggestContext → Str → ℕ → Collected
unfolding add_all search_trie new_keyword_trie add_schema add_fuzzy
collect_suggestions ctx word limit =
    let empty : Collected = record { results = []; seen = [] } in
    let keywords =
      add_all empty (map keyword_suggestion (search_trie word limit new_keyword_trie)) in
    let names = add_schema word (SuggestContext.schema ctx) keywords in
    add_all (add_fuzzy ctx word limit names) (get_statement_templates ctx)

-- `GetSuggestions`
unfoldable pub get_suggestions : SuggestContext → ℕ → List Suggestion
unfolding collect_suggestions sort_ranked extract_last_word
get_suggestions ctx limit =
    let input = trim_space (SuggestContext.input ctx) in
    if is_nil input
    then []
    else take limit
        (sort_ranked (Collected.results (collect_suggestions ctx (extract_last_word input) limit)))
