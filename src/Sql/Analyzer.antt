-- ===== src/Sql/Analyzer.antt =====
-- sql_query_api/repositories/sql_validators/ast_analyzer.py: what is read off the trees of sqlglot.
-- Sets are lists searched by `elem`.
use secure_db_access_gateway.Prelude.{
  String, Option, none, some, List, [], ◌∷◌, ◌++◌, Bool, true, false, not, ◌&&◌, map, any, elem,
  filter, if◌then◌else◌,
}
use secure_db_access_gateway.Prelude.Text.{lower, strip, is_set, has_text, remove_char, after_last}
use secure_db_access_gateway.Prelude.Dict.{lookup, insert, string_eq}
use secure_db_access_gateway.Sql.Tree.{
  Kind, select, set_operation, insert as insert_node, update, delete, drop, create, alter, command,
  truncate_table, merge, into, lock, function, table, cte, column, star, Label, Node, label,
  selects, node_list, walk, Parsers,
}

abbrev pub forbidden_functions : List String
forbidden_functions =
    "pg_read_file" ∷ "pg_read_binary_file" ∷ "pg_write_file" ∷ "pg_write_binary_file"
    ∷ "pg_file_write" ∷ "pg_file_rename" ∷ "pg_file_unlink" ∷ "pg_execute_server_program"
    ∷ "pg_terminate_backend" ∷ "pg_cancel_backend" ∷ "pg_sleep" ∷ "pg_sleep_for" ∷ "pg_sleep_until"
    ∷ "pg_advisory_lock" ∷ "pg_advisory_lock_shared" ∷ "pg_try_advisory_lock"
    ∷ "pg_try_advisory_lock_shared" ∷ "pg_advisory_xact_lock" ∷ "pg_advisory_xact_lock_shared"
    ∷ "dblink" ∷ "dblink_exec" ∷ "dblink_connect" ∷ "dblink_open" ∷ "dblink_fetch" ∷ "dblink_close"
    ∷ "dblink_disconnect" ∷ "lo_import" ∷ "lo_export" ∷ "lo_create" ∷ "lo_unlink" ∷ "lo_from_bytea"
    ∷ "lo_put" ∷ "lo_truncate" ∷ "query_to_xml" ∷ "table_to_xml" ∷ "cursor_to_xml" ∷ "copy" ∷ []

-- isinstance(node, MUTATION_EXPRESSION_TYPES)
unfoldable pub is_mutation : Kind → Bool
is_mutation insert_node = true
is_mutation update = true
is_mutation delete = true
is_mutation drop = true
is_mutation create = true
is_mutation alter = true
is_mutation command = true
is_mutation truncate_table = true
is_mutation merge = true
is_mutation into = true
is_mutation _ = false

-- isinstance(node, exp.Query), exp.Lock, exp.Func, exp.Table, exp.CTE, exp.Column, exp.Star
abbrev pub is_query : Kind → Bool
is_query select = true
is_query set_operation = true
is_query _ = false

abbrev pub is_lock : Kind → Bool
is_lock lock = true
is_lock _ = false

abbrev pub is_function : Kind → Bool
is_function function = true
is_function _ = false

abbrev pub is_table : Kind → Bool
is_table table = true
is_table _ = false

abbrev is_cte : Kind → Bool
is_cte cte = true
is_cte _ = false

abbrev is_column : Kind → Bool
is_column column = true
is_column _ = false

abbrev is_star : Kind → Bool
is_star star = true
is_star _ = false

abbrev is_select : Kind → Bool
is_select select = true
is_select _ = false

-- normalize_function_name
unfoldable pub normalize_function_name : String → String
normalize_function_name name =
    if not (is_set name)
    then ""
    else lower
        (strip (after_last b'.' (remove_char b'\'' (remove_char b'`' (remove_char b'"' name)))))

abbrev pub is_forbidden_function : Label → Bool
is_forbidden_function l =
    is_function l.kind && elem (normalize_function_name l.name) forbidden_functions

-- A node that `is_strictly_read_only` does not let by.
unfoldable pub is_harmful : Label → Bool
is_harmful l =
    if is_mutation l.kind then true else if is_lock l.kind then true else is_forbidden_function l

-- [stmt for stmt in ... if stmt is not None]
abbrev pub present : List (Option Node) → List Node
present [] = []
present (none ∷ ns) = present ns
present (some n ∷ ns) = n ∷ present ns

abbrev or_nothing : Option (List (Option Node)) → List Node
or_nothing none = []
or_nothing (some ns) = present ns

abbrev or_else_parse : Option (List (Option Node)) → Option (List (Option Node)) → List Node
or_else_parse (some ns) fallback = present ns
or_else_parse none fallback = or_nothing fallback

-- {tables: columns} with one more column
unfoldable pub add_column :
    String → String → List (String × List String) → List (String × List String)
add_column t c d = elim (lookup t d) [
  | none ↦ insert t (c ∷ []) d
  | some cs ↦ insert t (if elem c cs then cs else c ∷ cs) d
]

-- col.table or "*"
abbrev pub qualifier_or_star : String → String
qualifier_or_star t = lower (if is_set t then t else "*")

unfoldable pub add_columns : List Label → List (String × List String) → List (String × List String)
add_columns [] d = d
add_columns (l ∷ ls) d = add_columns ls (add_column (qualifier_or_star l.table) (lower l.name) d)

unfoldable pub columns_in : Node → List Label
columns_in n = filter (λ l. is_column l.kind) (walk n)

-- One projection. The columns of an alias are those of its `this`, and a column has none below it.
unfoldable pub add_projection : Node → List (String × List String) → List (String × List String)
add_projection n d =
    if is_star (label n).kind then add_column "*" "*" d else add_columns (columns_in n) d

unfoldable pub add_projections :
    List Node → List (String × List String) → List (String × List String)
add_projections [] d = d
add_projections (n ∷ ns) d = add_projections ns (add_projection n d)

module _ (parsers : Parsers) where
  -- AstSqlAnalyzer.parse_statements, for the dialect postgres
  unfoldable pub parse_statements : String → List Node
  parse_statements sql =
      if not (has_text sql)
      then []
      else or_else_parse (parsers.parse_postgres sql) (parsers.parse_default sql)

  unfoldable pub read_only_root : List Node → Bool
  read_only_root (n ∷ []) = is_query (label n).kind && not (any is_harmful (walk n))
  read_only_root _ = false

  -- AstSqlAnalyzer.is_single_statement
  unfoldable pub is_single_statement : String → Bool
  is_single_statement sql = elim (parse_statements sql) [ n ∷ [] ↦ true | _ ↦ false ]

  -- AstSqlAnalyzer.is_strictly_read_only
  unfoldable pub is_strictly_read_only : String → Bool
  unfolding read_only_root
  is_strictly_read_only sql = read_only_root (parse_statements sql)

  -- The physical tables of the nodes, without the names of CTEs, each once.
  unfoldable pub tables_from : List String → List Label → List String → List String
  tables_from ctes [] found = found
  tables_from ctes (l ∷ ls) found =
      let name = lower l.name in
      let new = is_table l.kind && is_set name && not (elem name ctes) && not (elem name found) in
      tables_from ctes ls (if new then found ++ name ∷ [] else found)

  tables_in : List Node → List String
  tables_in [] = []
  tables_in (n ∷ ns) =
      tables_from (map (λ l. lower l.alias_or_name) (filter (λ l. is_cte l.kind) (walk n))) (walk n)
        []

  -- AstSqlAnalyzer.extract_tables
  unfoldable pub extract_tables : String → List String
  unfolding tables_in
  extract_tables sql = tables_in (parse_statements sql)

  has_star : Node → Bool
  has_star n = is_select (label n).kind && any (λ s. is_star (label s).kind) (node_list (selects n))

  referenced_in : List Node → List String
  referenced_in [] = []
  referenced_in (n ∷ ns) =
      if has_star n then "*" ∷ [] else filter is_set (map (λ l. lower l.name) (columns_in n))

  -- AstSqlAnalyzer.extract_referenced_columns
  unfoldable pub extract_referenced_columns : String → List String
  unfolding referenced_in has_star
  extract_referenced_columns sql = referenced_in (parse_statements sql)

  selected_in : List Node → List (String × List String)
  selected_in [] = []
  selected_in (n ∷ ns) =
      if is_select (label n).kind then add_projections (node_list (selects n)) [] else []

  -- AstSqlAnalyzer.extract_selected_columns_by_table
  unfoldable pub extract_selected_columns_by_table : String → List (String × List String)
  unfolding selected_in
  extract_selected_columns_by_table sql = selected_in (parse_statements sql)
