-- ===== src/Graph/Lifecycle.antt =====
-- plugins/graph/graph.go: the rest of the plugin: its file, and what it shows of its store.
use go_database.Base.{if◌then◌else◌, is_nil, Str, str, elem, pos, Option, none, some, List, [], ◌∷◌}
use go_database.Plugin.Types.{Config, Schema, TableInfo}
use go_database.Graph.Store.{Node, Store, Save, labels_from}

-- `Tables`
abbrev tables : Store → List Str
tables st = labels_from [] st.nodes

-- The loop of `Schema`.
label_tables : List Str → List (Str × Node) → List TableInfo
label_tables seen [] = []
label_tables seen ((_, n) ∷ nodes) =
    let rest = label_tables (if elem n.label seen then seen else n.label ∷ seen) nodes in
    if elem n.label seen
    then rest
    else record { name = n.label; row_count = pos 0; columns = [] } ∷ rest

-- `Schema`
pub schema : Store → Schema
unfolding label_tables
schema st = record { tables = label_tables [] st.nodes }

-- `Connect`: the path, and the store; `read` is what the file of that path decodes to, if it can be
-- read.
pub connect : (Str → Option Store) → Config → Str × Store
connect read cfg =
    let path = if is_nil cfg.file_path then str "graph.db.json" else cfg.file_path in
    (path, elim (read path) [ some st ↦ st | none ↦ record { nodes = []; edges = [] } ])

-- `Close`, which saves once more.
abbrev pub close : Save → Store → Option Str
close save st = save st

-- `Databases` and `CreateDatabase`
abbrev databases : Str → List Str
databases path = path ∷ []

abbrev create_database : Store → Store
create_database st = st
