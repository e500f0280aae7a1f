-- ===== src/Sql/Checker.antt =====
-- `DefaultSqlSafetyChecker` of sql_query_api/repositories/sql_validators/sql_safety_checker.py.
-- Sets and dictionaries of sets are lists.
use secure_db_access_gateway.Prelude.{
  ℕ, String, Option, none, some, List, [], ◌∷◌, ◌++◌, Bool, true, false, not, ◌&&◌, ◌||◌, ◌==◌, any,
  all, elem, is_empty, ltb, if◌then◌else◌, Result, ok, raise, value_error, ◌>>=◌,
}
use secure_db_access_gateway.Prelude.Text.{lower, strip, is_set, has_text, contains}
use secure_db_access_gateway.Prelude.Scan.{upper}
use secure_db_access_gateway.Sql.Tree.{
  TokenType, comment, comment_single, comment_multiline, comment_single_hint,
  comment_multiline_hint, plain, Token, Name, TopToken, leaf, identifier, identifier_list,
  function_call, Statement, Parsers,
}
use secure_db_access_gateway.Sql.Analyzer.{
  add_column, qualifier_or_star, is_strictly_read_only, extract_tables,
  extract_selected_columns_by_table,
}
use secure_db_access_gateway.Sql.Rules.{is_keyword, all_rules}
use secure_db_access_gateway.Sql.Cleaner.{clean_sql}
use Prim.Native.String.{count}

-- `table_allowlist` and `column_allowlist` are in lower case, as `__init__` leaves them.
pub record DefaultSqlSafetyChecker : Type 0 where
  pub max_query_length : ℕ
  pub table_allowlist : List String
  pub column_allowlist : List (String × List String)

-- token.ttype in Keyword: the type or one below it
abbrev below_keyword : TokenType → Bool
below_keyword comment = false
below_keyword comment_single = false
below_keyword comment_multiline = false
below_keyword comment_single_hint = false
below_keyword comment_multiline_hint = false
below_keyword plain = false
below_keyword _ = true

-- A keyword of the list, in any case.
abbrev is_word : List String → Token → Bool
is_word ws t = below_keyword t.ttype && elem (upper t.value) ws

abbrev clause_ends : List String
clause_ends =
    "WHERE" ∷ "GROUP" ∷ "HAVING" ∷ "ORDER" ∷ "LIMIT" ∷ "UNION" ∷ "INTERSECT" ∷ "EXCEPT" ∷ []

abbrev select_ends : List String
select_ends =
    "FROM" ∷ "WHERE" ∷ "GROUP" ∷ "HAVING" ∷ "ORDER" ∷ "LIMIT" ∷ "UNION" ∷ "INTERSECT" ∷ "EXCEPT"
    ∷ "JOIN" ∷ "LEFT" ∷ "RIGHT" ∷ "FULL" ∷ "OUTER" ∷ "INNER" ∷ "CROSS" ∷ []

-- tables.add(name.lower()), for a name that is there
add_name : Name → List String → List String
add_name n tables = elim n.real_name [
  | none ↦ tables
  | some name ↦ if is_set name then lower name ∷ tables else tables
]

add_names : List Name → List String → List String
unfolding add_name
add_names [] tables = tables
add_names (n ∷ ns) tables = add_names ns (add_name n tables)

-- The loop of _extract_table_names; the flag is `in_from_clause`.
unfoldable pub table_names_from : Bool → List TopToken → List String → List String
unfolding add_name add_names
table_names_from inside [] tables = tables
table_names_from false (leaf t ∷ ts) tables =
    table_names_from (is_word ("FROM" ∷ "JOIN" ∷ []) t) ts tables
table_names_from true (leaf t ∷ ts) tables =
    let rest = table_names_from true ts tables in
    if is_word ("FROM" ∷ "JOIN" ∷ []) t
    then rest
    else if is_word clause_ends t
    then tables
    else rest
table_names_from false (_ ∷ ts) tables = table_names_from false ts tables
table_names_from true (identifier n ∷ ts) tables = table_names_from true ts (add_name n tables)
table_names_from true (identifier_list ns ∷ ts) tables =
    table_names_from true ts (add_names ns tables)
table_names_from true (_ ∷ ts) tables = table_names_from true ts tables

-- _extract_table_names
unfoldable pub extract_table_names : Statement → List String
extract_table_names stmt = table_names_from false stmt.tokens []

abbrev parent_or_empty : Option String → String
parent_or_empty none = ""
parent_or_empty (some p) = p

add_selected : Name → List (String × List String) → List (String × List String)
add_selected n d = elim n.real_name [
  | none ↦ d
  | some name ↦
      if is_set name
      then add_column (qualifier_or_star (parent_or_empty n.parent_name)) (lower name) d
      else d
]

add_all_selected : List Name → List (String × List String) → List (String × List String)
unfolding add_selected
add_all_selected [] d = d
add_all_selected (n ∷ ns) d = add_all_selected ns (add_selected n d)

-- The loop of _extract_selected_columns; the flag is `in_select_clause`.
unfoldable pub selected_from :
    Bool → List TopToken → List (String × List String) → List (String × List String)
unfolding add_selected add_all_selected
selected_from inside [] d = d
selected_from false (leaf t ∷ ts) d = selected_from (is_word ("SELECT" ∷ []) t) ts d
selected_from true (leaf t ∷ ts) d =
    let rest = selected_from true ts d in
    if is_word ("SELECT" ∷ []) t then rest else if is_word select_ends t then d else rest
selected_from false (_ ∷ ts) d = selected_from false ts d
selected_from true (identifier n ∷ ts) d = selected_from true ts (add_selected n d)
selected_from true (identifier_list ns ∷ ts) d = selected_from true ts (add_all_selected ns d)
selected_from true (function_call text ∷ ts) d =
    selected_from true ts (if contains "*" text then add_column "*" "*" d else d)
selected_from true (_ ∷ ts) d = selected_from true ts d

-- _extract_selected_columns
unfoldable pub extract_selected_columns : Statement → List (String × List String)
extract_selected_columns stmt = selected_from false stmt.tokens []

-- The columns that are requested of a table: its own and the unqualified ones.
unfoldable pub requested_columns : String → List (String × List String) → List String
requested_columns t [] = []
requested_columns t ((u, cs) ∷ d) =
    let rest = requested_columns t d in if u == "*" || u == t then cs ++ rest else rest

-- The loop over column_allowlist; an empty set of columns is no violation.
unfoldable pub columns_allowed :
    List (String × List String) → List String → List (String × List String) → Bool
columns_allowed [] tables selected = true
columns_allowed ((t, allowed) ∷ d) tables selected =
    let rest = columns_allowed d tables selected in
    if elem t tables then all (λ c. elem c allowed) (requested_columns t selected) && rest else rest

-- a or b, for lists
abbrev pub or_list {ℓ} : {A : Type ℓ} → List A → List A → List A
or_list [] b = b
or_list (x ∷ xs) b = x ∷ xs

-- _contains_forbidden_mutation
abbrev mutations : List String
mutations =
    "delete" ∷ "insert" ∷ "update" ∷ "drop" ∷ "create" ∷ "alter" ∷ "commit" ∷ "rollback"
    ∷ "truncate" ∷ "grant" ∷ "revoke" ∷ "merge" ∷ "call" ∷ "execute" ∷ []

unfoldable pub contains_forbidden_mutation : Statement → Bool
contains_forbidden_mutation stmt =
    any (λ t. is_keyword t.ttype && elem (lower (strip t.value)) mutations) stmt.flat

module _ (parsers : Parsers) (checker : DefaultSqlSafetyChecker) where
  -- The tables of a statement: those of its tree, or else those of its tokens.
  unfoldable pub tables_of : Statement → String → List String
  tables_of stmt raw = or_list (extract_tables parsers raw) (extract_table_names stmt)

  -- _enforces_allowlist
  unfoldable pub enforces_allowlist : Statement → String → Bool
  enforces_allowlist stmt raw =
      if is_empty checker.table_allowlist && is_empty checker.column_allowlist
      then true
      else let tables = tables_of stmt raw in
        if not (is_empty checker.table_allowlist)
          && any (λ t. not (elem t checker.table_allowlist)) tables
        then false
        else if is_empty checker.column_allowlist
        then true
        else let selected =
            or_list (extract_selected_columns_by_table parsers raw)
              (extract_selected_columns stmt) in
          if any (λ kv. elem "*" kv.1) selected
          then false
          else columns_allowed checker.column_allowlist tables selected

  -- The checks behind sqlparse, for the statements that it gives.
  unfoldable pub statements_safe : List Statement → String → Bool
  statements_safe [] query = false
  statements_safe (stmt ∷ stmts) query =
      if not (all_rules parsers (stmt ∷ stmts) stmt query)
      then false
      else if contains_forbidden_mutation stmt
      then false
      else if not (is_strictly_read_only parsers query)
      then false
      else enforces_allowlist stmt query

  -- `false` for statements that sqlparse could not give: the exception is caught.
  unfoldable pub parsed_safe : Option (List Statement) → String → Bool
  parsed_safe none query = false
  parsed_safe (some stmts) query = statements_safe stmts query

  -- is_safe_select_query, with _is_safe_select_query
  unfoldable pub is_safe_select_query : String → Bool
  unfolding parsed_safe
  is_safe_select_query query =
      if not (has_text query)
      then false
      else if contains "\0" query
      then false
      else if ltb checker.max_query_length (count query)
      then false
      else parsed_safe (parsers.sqlparse query) query

  unfoldable pub validated : String → Result String
  validated sql =
      if is_safe_select_query sql
      then ok sql
      else raise (
          value_error
            "SQL query failed safety validation. Only simple SELECT statements are allowed.")

  -- clean_and_validate_sql
  unfoldable pub clean_and_validate_sql : String → Result String
  unfolding validated
  clean_and_validate_sql sql = clean_sql sql >>= validated
