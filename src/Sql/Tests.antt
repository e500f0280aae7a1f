-- ===== src/Sql/Tests.antt =====
-- Tests of sql_query_api/repositories/sql_validators with parsers that know one statement.
use secure_db_access_gateway.Prelude.{String, none, some, [], ◌∷◌, true, ok, ◌≡◌, refl, elem}
use secure_db_access_gateway.Prelude.Text.{
  lower, strip, lstrip, rstrip, has_text, contains, split_on, words, remove_char, is_space,
}
use secure_db_access_gateway.Prelude.Scan.{
  upper, drop_text, take_text, join_text, in_word, is_word_char,
}
use secure_db_access_gateway.Prelude.Dict.{string_eq}
use secure_db_access_gateway.Sql.Tree.{
  Kind, select, table, column, Label, Node, node, nil, cons, walk, Token, comment_multiline_hint,
  dml, keyword, plain, leaf, identifier, Statement, Parsers,
}
use secure_db_access_gateway.Sql.Cleaner.{
  without_fences, without_prefix, with_letter, starts_with_cte, from_words, with_select, checked,
  clean_sql,
}
use secure_db_access_gateway.Sql.Analyzer.{
  is_mutation, is_harmful, parse_statements, is_strictly_read_only, read_only_root, tables_from,
  extract_tables,
}
use secure_db_access_gateway.Sql.Rules.{
  single_statement, must_be_select, no_comment, no_forbidden_keyword, no_forbidden_function,
  no_forbidden_table, parts_of, is_forbidden_table, all_rules,
}
use secure_db_access_gateway.Sql.Checker.{
  DefaultSqlSafetyChecker, table_names_from, extract_table_names, tables_of, enforces_allowlist,
  statements_safe, parsed_safe, is_safe_select_query, validated, clean_and_validate_sql,
  contains_forbidden_mutation,
}
use secure_db_access_gateway.Sql.ReadOnly.{IsSafe, is_safe_select_query-IsSafe}
use native.Mathlib.Decide.{dec_le}

abbrev labelled : Kind → String → Label
labelled kind name = record {
  kind = kind;
  name = name;
  table = "";
  catalog = "";
  db = "";
  alias_or_name = name;
}

abbrev album_query : String
album_query = "SELECT title FROM album"

abbrev album_tree : Node
album_tree =
    node (labelled select "") (cons (node (labelled column "title") nil nil) nil)
      (cons (node (labelled table "album") nil nil) nil)

abbrev token : String → Token
token value = record { ttype = plain; value = value }

abbrev album_statement : Statement
album_statement = record {
  type_name = "SELECT";
  flat =
      record { ttype = dml; value = "SELECT" }
      ∷ token "title"
      ∷ record { ttype = keyword; value = "FROM" }
      ∷ token "album"
      ∷ [];
  tokens =
      leaf (record { ttype = dml; value = "SELECT" })
      ∷ identifier (record { parent_name = none; real_name = some "title" })
      ∷ leaf (record { ttype = keyword; value = "FROM" })
      ∷ identifier (record { parent_name = none; real_name = some "Album" })
      ∷ [];
}

abbrev parsers : Parsers
parsers = record {
  parse_postgres = λ sql. some (some album_tree ∷ []);
  parse_default = λ sql. none;
  parse_one = λ sql. some album_tree;
  sqlparse = λ sql. some (album_statement ∷ []);
}

abbrev checker : DefaultSqlSafetyChecker
checker = record { max_query_length = 10000; table_allowlist = "album" ∷ []; column_allowlist = [] }

fenced_cleaned : clean_sql "```sql\nSQL: elect title FROM album\n```" ≡ ok "Select title FROM album"
unfolding clean_sql without_fences without_prefix with_letter with_select from_words checked
    starts_with_cte strip lstrip rstrip is_space split_on join_text upper drop_text take_text dec_le
fenced_cleaned = refl

cte_cleaned :
    clean_sql "with x as (select 1) select * from x" ≡ ok "with x as (select 1) select * from x"
unfolding clean_sql without_fences without_prefix with_letter with_select from_words checked
    starts_with_cte strip lstrip rstrip is_space words in_word is_word_char upper drop_text dec_le
cte_cleaned = refl

album_safe : is_safe_select_query parsers checker album_query ≡ true
unfolding is_safe_select_query has_text strip lstrip rstrip is_space contains parsed_safe
    statements_safe all_rules single_statement must_be_select upper dec_le no_comment
    no_forbidden_keyword lower elem no_forbidden_function walk no_forbidden_table is_forbidden_table
    contains_forbidden_mutation is_strictly_read_only read_only_root parse_statements is_harmful
    is_mutation enforces_allowlist tables_of extract_tables tables_from parts_of join_text
    remove_char
album_safe = refl

album_cleaned : clean_and_validate_sql parsers checker album_query ≡ ok album_query
unfolding clean_and_validate_sql validated clean_sql without_fences without_prefix with_letter
    with_select checked is_safe_select_query has_text strip lstrip rstrip is_space contains
    parsed_safe statements_safe all_rules single_statement must_be_select upper dec_le no_comment
    no_forbidden_keyword lower elem no_forbidden_function walk no_forbidden_table is_forbidden_table
    contains_forbidden_mutation is_strictly_read_only read_only_root parse_statements is_harmful
    is_mutation enforces_allowlist tables_of extract_tables tables_from parts_of join_text
    remove_char
album_cleaned = refl

-- The comment rule lets a hint comment by.
hint_uncommented :
    no_comment (record album_statement {
      flat = record { ttype = comment_multiline_hint; value = "/*+ x */" } ∷ [];
    })
    ≡ true
unfolding no_comment
hint_uncommented = refl

fallback_tables : extract_table_names album_statement ≡ "album" ∷ []
unfolding extract_table_names table_names_from lower dec_le upper elem
fallback_tables = refl

is_safe_select_query-IsSafe_example : IsSafe parsers checker album_query
is_safe_select_query-IsSafe_example =
    is_safe_select_query-IsSafe parsers checker album_query album_safe
