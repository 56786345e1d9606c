-- ===== src/Suggest/Trie.antt =====
-- internal/suggest/trie.go: the tree of words. The letters are the bytes of the texts. The children of
-- a node are a list in the order in which a walk of the map meets them.
pub mod Insert
pub mod Collect
pub mod Placed
pub mod Search
use go_database.Base.{
  leb, ◌==◌, if◌then◌else◌, ◌>>=◌, length, Str, str, to_lower, ℕ, Bool, true, false, Option, none,
  some, List, [], ◌∷◌, ◌++◌,
}
use go_database.Plugin.Types.{Schema, TableInfo, ColumnInfo}

mutual
  -- `trieNode`: `children`, `isEnd` and `value`
  pub data Node : Type 0 where
    trie_node : Children → Bool → Str → Node

  pub data Children : Type 0 where
    no_children : Children
    child : ℕ → Node → Children → Children

-- `NewTrie`
abbrev pub new_trie : Node
new_trie = trie_node no_children false []

unfoldable pub child_at : ℕ → Children → Option Node
child_at c no_children = none
child_at c (child d n cs) = if d == c then some n else child_at c cs

unfoldable pub set_child : ℕ → Node → Children → Children
set_child c n no_children = child c n no_children
set_child c n (child d m cs) = if d == c then child c n cs else child d m (set_child c n cs)

unfoldable pub or_new : Option Node → Node
or_new none = new_trie
or_new (some n) = n

-- The loop of `Insert` over the letters that are left, and the two assignments behind it.
unfoldable pub insert_at : Str → Str → Node → Node
unfolding or_new child_at set_child
insert_at word [] (trie_node cs is_end value) = trie_node cs true word
insert_at word (c ∷ s) (trie_node cs is_end value) =
    trie_node (set_child c (insert_at word s (or_new (child_at c cs))) cs) is_end value

unfoldable pub insert_word : Str → Node → Node
unfolding insert_at
insert_word word t = insert_at word (to_lower word) t

-- The loop of `Search`.
unfoldable pub descend : Str → Node → Option Node
unfolding child_at
descend [] t = some t
descend (c ∷ s) (trie_node cs is_end value) = child_at c cs >>= descend s

unfoldable mutual
  pub collect : Node → List Str → ℕ → List Str
  collect (trie_node cs is_end value) results limit =
      if leb limit (length results)
      then results
      else collect_all cs (if is_end then results ++ value ∷ [] else results) limit

  pub collect_all : Children → List Str → ℕ → List Str
  collect_all no_children results limit = results
  collect_all (child c n cs) results limit = collect_all cs (collect n results limit) limit

-- `Search`; a negative limit is zero here.
unfoldable pub search_trie : Str → ℕ → Node → List Str
unfolding descend collect
search_trie prefix limit t = elim (descend (to_lower prefix) t) [
  | none ↦ []
  | some n ↦ collect n [] limit
]

unfoldable pub insert_words : List Str → Node → Node
unfolding insert_word
insert_words [] t = t
insert_words (w ∷ ws) t = insert_words ws (insert_word w t)

abbrev pub sql_keywords : List Str
sql_keywords =
    str "SELECT"
    ∷ str "FROM"
    ∷ str "WHERE"
    ∷ str "INSERT"
    ∷ str "INTO"
    ∷ str "VALUES"
    ∷ str "UPDATE"
    ∷ str "SET"
    ∷ str "DELETE"
    ∷ str "CREATE"
    ∷ str "TABLE"
    ∷ str "DATABASE"
    ∷ str "DROP"
    ∷ str "ALTER"
    ∷ str "ADD"
    ∷ str "COLUMN"
    ∷ str "INDEX"
    ∷ str "PRIMARY"
    ∷ str "KEY"
    ∷ str "FOREIGN"
    ∷ str "REFERENCES"
    ∷ str "NOT"
    ∷ str "NULL"
    ∷ str "DEFAULT"
    ∷ str "UNIQUE"
    ∷ str "CHECK"
    ∷ str "CONSTRAINT"
    ∷ str "JOIN"
    ∷ str "INNER"
    ∷ str "LEFT"
    ∷ str "RIGHT"
    ∷ str "OUTER"
    ∷ str "FULL"
    ∷ str "ON"
    ∷ str "AND"
    ∷ str "OR"
    ∷ str "IN"
    ∷ str "BETWEEN"
    ∷ str "LIKE"
    ∷ str "ORDER"
    ∷ str "BY"
    ∷ str "ASC"
    ∷ str "DESC"
    ∷ str "LIMIT"
    ∷ str "OFFSET"
    ∷ str "GROUP"
    ∷ str "HAVING"
    ∷ str "COUNT"
    ∷ str "SUM"
    ∷ str "AVG"
    ∷ str "MIN"
    ∷ str "MAX"
    ∷ str "DISTINCT"
    ∷ str "AS"
    ∷ str "CASE"
    ∷ str "WHEN"
    ∷ str "THEN"
    ∷ str "ELSE"
    ∷ str "END"
    ∷ str "EXISTS"
    ∷ str "ALL"
    ∷ str "ANY"
    ∷ str "SOME"
    ∷ str "UNION"
    ∷ str "EXCEPT"
    ∷ str "INTERSECT"
    ∷ str "WITH"
    ∷ str "RECURSIVE"
    ∷ str "RETURNING"
    ∷ str "EXPLAIN"
    ∷ str "ANALYZE"
    ∷ str "VACUUM"
    ∷ str "TRUNCATE"
    ∷ str "RENAME"
    ∷ str "IF"
    ∷ str "EXISTS"
    ∷ str "CASCADE"
    ∷ str "RESTRICT"
    ∷ str "BEGIN"
    ∷ str "COMMIT"
    ∷ str "ROLLBACK"
    ∷ str "SAVEPOINT"
    ∷ str "GRANT"
    ∷ str "REVOKE"
    ∷ str "SHOW"
    ∷ str "DESCRIBE"
    ∷ str "USE"
    ∷ str "PRAGMA"
    ∷ str "EXECUTE"
    ∷ []

-- `NewKeywordTrie`
unfoldable pub new_keyword_trie : Node
unfolding insert_words
new_keyword_trie = insert_words sql_keywords new_trie

-- The words that `NewSchemaTrie` inserts, in its order.
unfoldable pub column_words : Str → List ColumnInfo → List Str
column_words table [] = []
column_words table (col ∷ cols) =
    ColumnInfo.name col ∷ (table ++ (str "." ++ ColumnInfo.name col)) ∷ column_words table cols

unfoldable pub schema_words : List TableInfo → List Str
unfolding column_words
schema_words [] = []
schema_words (table ∷ tables) =
    TableInfo.name table ∷ column_words (TableInfo.name table) (TableInfo.columns table)
    ++ schema_words tables

-- `NewSchemaTrie`
unfoldable pub new_schema_trie : Option Schema → Node
unfolding schema_words insert_words
new_schema_trie none = new_trie
new_schema_trie (some schema) = insert_words (schema_words (Schema.tables schema)) new_trie
