-- ===== src/Suggest/Templates.antt =====
-- internal/suggest/engine.go: the templates of statements and the tests on the text that choose them.
use go_database.Base.{
  ltb, leb, ◌==◌, if◌then◌else◌, length, is_nil, any, all, Str, str, str_eq, has_prefix, contains,
  to_upper, to_lower, trim_space, fields, elem, ℕ, Bool, true, false, ◌&&◌, ◌||◌, List, [], ◌∷◌,
  ◌++◌,
}
use go_database.Suggest.Types.{
  Suggestion, SuggestContext, percent, sugg_intent, risk_low, risk_high,
}

-- `containsAny`
unfoldable pub contains_any : Str → List Str → Bool
unfolding contains
contains_any s substrs = any (λ sub. contains (to_lower s) sub) substrs

abbrev pub is_ident_byte : ℕ → Bool
is_ident_byte r =
    (leb b'a' r && leb r b'z')
    || ((leb b'A' r && leb r b'Z') || ((leb b'0' r && leb r b'9') || r == b'_'))

-- `sanitizeIdent`
unfoldable pub sanitize_ident : Str → Str
sanitize_ident name = if all is_ident_byte name then name else []

abbrev pub sql_prefixes : List Str
sql_prefixes =
    str "SELECT"
    ∷ str "INSERT"
    ∷ str "UPDATE"
    ∷ str "DELETE"
    ∷ str "CREATE"
    ∷ str "DROP"
    ∷ str "ALTER"
    ∷ str "SHOW"
    ∷ str "WITH"
    ∷ str "EXPLAIN"
    ∷ []

abbrev pub natural_words : List Str
natural_words =
    str "alle"
    ∷ str "zeige"
    ∷ str "wie"
    ∷ str "ist"
    ∷ str "der"
    ∷ str "die"
    ∷ str "das"
    ∷ str "show"
    ∷ str "all"
    ∷ str "list"
    ∷ str "find"
    ∷ str "where"
    ∷ str "what"
    ∷ str "which"
    ∷ str "give"
    ∷ str "delete"
    ∷ str "remove"
    ∷ str "create"
    ∷ str "add"
    ∷ str "update"
    ∷ str "change"
    ∷ []

-- `looksLikeNaturalLanguage`
unfoldable pub looks_like_natural_language : Str → Bool
unfolding has_prefix fields
looks_like_natural_language input =
    if ltb (length input) 3
    then false
    else if any (has_prefix input) sql_prefixes
    then false
    else if ltb (length (fields input)) 2
    then false
    else any (λ word. elem (to_lower word) natural_words) (fields input)

abbrev pub intent : Str → Str → ℕ → Suggestion
intent text description confidence = record {
  text = text;
  description = description;
  typ = sugg_intent;
  confidence = percent confidence;
  risk_level = risk_low;
}

abbrev pub or_users : Str → Str
or_users table = if is_nil table then str "users" else table

abbrev pub show_words : List Str
show_words = str "show" ∷ str "all" ∷ str "list" ∷ str "alle" ∷ str "zeige" ∷ []

abbrev pub count_words : List Str
count_words = str "count" ∷ str "anzahl" ∷ str "wie viele" ∷ []

abbrev pub schema_terms : List Str
schema_terms = str "schema" ∷ str "structure" ∷ str "struktur" ∷ str "spalten" ∷ []

-- The third word is written in UTF-8.
abbrev pub delete_words : List Str
delete_words = str "delete" ∷ str "remove" ∷ (b'l' ∷ 195 ∷ 182 ∷ str "schen") ∷ str "entfernen" ∷ []

abbrev pub select_template : Str → Suggestion
select_template table =
    intent (str "SELECT * FROM " ++ (table ++ str " LIMIT 100;"))
      (str "Show all data from " ++ table) 70

abbrev pub count_template : Str → Suggestion
count_template table =
    intent (str "SELECT COUNT(*) FROM " ++ (table ++ str ";")) (str "Count rows in " ++ table) 70

abbrev pub schema_template : Str → Suggestion
schema_template table =
    if is_nil table
    then intent
        (str
          "SELECT table_name, column_name, data_type FROM information_schema.columns WHERE table_schema = 'public' ORDER BY table_name, ordinal_position;")
        (str "Show database schema") 65
    else intent
        (str
            "SELECT column_name, data_type, is_nullable, column_default FROM information_schema.columns WHERE table_name = '"
          ++ (table ++ str "' ORDER BY ordinal_position;"))
        (str "Show columns of " ++ table) 70

abbrev pub delete_template : Str → Suggestion
delete_template table = record {
  text = str "DELETE FROM " ++ (table ++ str " WHERE id = ?;");
  description = str "Delete a specific row from " ++ (table ++ str " (HIGH RISK)");
  typ = sugg_intent;
  confidence = percent 60;
  risk_level = risk_high;
}

-- `role == "admin" || role == "developer"`
unfoldable pub can_write : Str → Bool
unfolding str_eq
can_write text = str_eq (to_lower text) (str "admin") || str_eq (to_lower text) (str "developer")

abbrev pub when : Bool → Suggestion → List Suggestion
when false s = []
when true s = s ∷ []

-- `getStatementTemplates`
unfoldable pub get_statement_templates : SuggestContext → List Suggestion
unfolding looks_like_natural_language contains_any sanitize_ident can_write
get_statement_templates ctx =
    let input = trim_space (to_upper (SuggestContext.input ctx)) in
    let table = SuggestContext.current_table ctx in
    if looks_like_natural_language input
    then when (contains_any input show_words) (select_template (or_users table))
      ++ (when (contains_any input count_words) (count_template (or_users table))
          ++ (when (contains_any input schema_terms) (schema_template (sanitize_ident table))
              ++ when (can_write (SuggestContext.role ctx) && contains_any input delete_words)
                  (delete_template (or_users (sanitize_ident table)))))
    else []
