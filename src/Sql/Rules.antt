-- ===== src/Sql/Rules.antt =====
-- The rules of sql_query_api/repositories/sql_validators/rules that the checker uses.
use secure_db_access_gateway.Prelude.{
  String, Option, none, some, List, [], ◌∷◌, Bool, true, false, not, ◌&&◌, ◌||◌, ◌==◌, map, any,
  elem, filter, if◌then◌else◌, starts_with,
}
use secure_db_access_gateway.Prelude.Text.{lower, strip, is_set, remove_char}
use secure_db_access_gateway.Prelude.Scan.{upper, words_of, join_text}
use secure_db_access_gateway.Sql.Tree.{
  Label, Node, walk, TokenType, keyword, ddl, dml, dcl, comment, comment_single, comment_multiline,
  Statement, Parsers,
}
use secure_db_access_gateway.Sql.Analyzer.{is_table, is_forbidden_function}

abbrev exactly_one : List Statement → Bool
exactly_one (s ∷ []) = true
exactly_one _ = false

-- SingleStatementRule.check, for what sqlparse gives
unfoldable pub single_statement : List Statement → Bool
single_statement stmts = exactly_one stmts

-- MustBeSelectRule.check
unfoldable pub must_be_select : Statement → String → Bool
must_be_select stmt raw =
    if upper stmt.type_name == "SELECT"
    then true
    else if upper stmt.type_name == "UNKNOWN"
    then elem "SELECT" (words_of (upper raw))
    else false

-- The tuple of the rule has the three exact types: a hint comment is none of them.
abbrev pub is_comment : TokenType → Bool
is_comment comment = true
is_comment comment_single = true
is_comment comment_multiline = true
is_comment _ = false

-- NoCommentRule.check
unfoldable pub no_comment : Statement → Bool
no_comment stmt = not (any (λ t. is_comment t.ttype) stmt.flat)

-- The four types that a keyword is looked for in.
abbrev pub is_keyword : TokenType → Bool
is_keyword ddl = true
is_keyword dml = true
is_keyword keyword = true
is_keyword dcl = true
is_keyword _ = false

abbrev pub forbidden_keywords : List String
forbidden_keywords =
    "delete" ∷ "insert" ∷ "update" ∷ "drop" ∷ "create" ∷ "alter" ∷ "commit" ∷ "rollback"
    ∷ "truncate" ∷ "grant" ∷ "revoke" ∷ "merge" ∷ "call" ∷ "execute" ∷ "copy" ∷ []

-- NoForbiddenKeywordsRule.check
unfoldable pub no_forbidden_keyword : Statement → Bool
no_forbidden_keyword stmt =
    not (any (λ t. is_keyword t.ttype && elem (lower t.value) forbidden_keywords) stmt.flat)

-- ForbiddenFunctionsRule.check and ForbiddenTableRule.check look at one tree.
unfoldable pub no_forbidden_function : Option Node → Bool
no_forbidden_function none = false
no_forbidden_function (some n) = not (any is_forbidden_function (walk n))

abbrev pub forbidden_prefixes : List String
forbidden_prefixes = "pg_" ∷ "information_schema" ∷ []

abbrev cleaned_part : String → String
cleaned_part p = lower (strip (remove_char b'`' (remove_char b'"' p)))

-- The parts of a table's name that are given.
unfoldable pub parts_of : Label → List String
parts_of l = map cleaned_part (filter is_set (l.catalog ∷ l.db ∷ l.name ∷ []))

-- parts[-1]
abbrev pub last_part : List String → String
last_part [] = ""
last_part (p ∷ []) = p
last_part (p ∷ q ∷ ps) = last_part (q ∷ ps)

abbrev pub has_forbidden_prefix : String → Bool
has_forbidden_prefix name = any (λ prefix. starts_with name prefix) forbidden_prefixes

-- A table that the rule refuses: its qualified name or its own starts with a forbidden prefix.
unfoldable pub is_forbidden_table : Label → Bool
is_forbidden_table l =
    is_table l.kind
    && (has_forbidden_prefix (join_text "." (parts_of l))
        || has_forbidden_prefix (last_part (parts_of l)))

unfoldable pub no_forbidden_table : Option Node → Bool
no_forbidden_table none = false
no_forbidden_table (some n) = not (any is_forbidden_table (walk n))

-- all(rule.check(stmt, query) for rule in self.rules), in the checker's order
unfoldable pub all_rules : Parsers → List Statement → Statement → String → Bool
all_rules parsers stmts stmt raw =
    single_statement stmts
    && must_be_select stmt raw
    && no_comment stmt
    && no_forbidden_keyword stmt
    && no_forbidden_function (parsers.parse_one raw)
    && no_forbidden_table (parsers.parse_one raw)
