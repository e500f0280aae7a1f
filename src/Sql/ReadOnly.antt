-- ===== src/Sql/ReadOnly.antt =====
-- What a statement that `DefaultSqlSafetyChecker` (sql_query_api/repositories/sql_validators) accepts
-- looks like, node by node, and what the cleaner hands on.
use secure_db_access_gateway.Prelude.{
  ◌≤◌, ◌≢◌, String, Option, none, some, List, [], ◌∷◌, Bool, true, false, not, any, elem, is_empty,
  ok, >>=-eq-ok, ◌≡◌, arith, In, inl, inr, Bool-cases, and_left, and_right, refl, ap, ◌∙◌,
}
use secure_db_access_gateway.Prelude.Member.{any-eq-false}
use secure_db_access_gateway.Prelude.Text.{has_text}
use secure_db_access_gateway.Sql.Tree.{
  Label, Node, label, walk, Occurs, Occurs-walk, Statement, Token, TokenType, comment,
  comment_single, comment_multiline, Parsers,
}
use secure_db_access_gateway.Sql.Analyzer.{
  is_mutation, is_query, is_lock, is_forbidden_function, is_harmful, parse_statements,
  is_strictly_read_only, read_only_root,
}
use secure_db_access_gateway.Sql.Rules.{
  is_comment, is_forbidden_table, no_forbidden_table, no_comment, single_statement, all_rules,
}
use secure_db_access_gateway.Sql.Checker.{
  DefaultSqlSafetyChecker, tables_of, enforces_allowlist, statements_safe, parsed_safe,
  is_safe_select_query, validated, clean_and_validate_sql,
}
use secure_db_access_gateway.Sql.Cleaner.{clean_sql}
use Prim.Native.String.{count}

not-eq-true : (b : Bool) → not b ≡ true → b ≡ false
not-eq-true b h = ground arith

is_comment-eq-false :
    (t : TokenType)
    → is_comment t ≡ false
    → (t ≢ comment) × (t ≢ comment_single) × (t ≢ comment_multiline)
is_comment-eq-false t h = (
  λ e. let is_one = ap is_comment e in absurd (cc (is_one, h)),
  λ e. let is_one = ap is_comment e in absurd (cc (is_one, h)),
  λ e. let is_one = ap is_comment e in absurd (cc (is_one, h)),
)

-- A node that only reads.
pub record IsHarmless (l : Label) : Type 0 where
  pub no_mutation : is_mutation l.kind ≡ false
  pub no_lock : is_lock l.kind ≡ false
  pub no_function : is_forbidden_function l ≡ false

IsHarmless-of : (l : Label) → is_harmful l ≡ false → IsHarmless l
unfolding is_harmful
IsHarmless-of l h = record {
  no_mutation = ground arith;
  no_lock = ground arith;
  no_function = ground arith;
}

-- No label of a tree passes a test that no label of its walk passes.
nowhere :
    (p : Label → Bool) (n : Node) (l : Label)
    → not (any p (walk n)) ≡ true
    → Occurs l n
    → p l ≡ false
nowhere p n l h o = any-eq-false p (walk n) (not-eq-true _ h) (Occurs-walk o)

module _ (parsers : Parsers) where
  -- The statement is one query, and each node of its tree is harmless.
  abbrev pub ReadOnly : String → Type 0
  ReadOnly query =
      (n : Node) × (parse_statements parsers query ≡ n ∷ [])
      × (is_query (label n).kind ≡ true)
      × ((l : Label) → Occurs l n → IsHarmless l)

  ReadOnly-root :
      (query : String) (ns : List Node)
      → parse_statements parsers query ≡ ns
      → read_only_root parsers ns ≡ true
      → ReadOnly query
  unfolding read_only_root
  ReadOnly-root query (n ∷ []) e h = (
    n,
    e,
    and_left _ _ h,
    λ l o. IsHarmless-of l (nowhere is_harmful n l (and_right (is_query (label n).kind) _ h) o),
  )
  ReadOnly-root query [] e h = cc
  ReadOnly-root query (n ∷ m ∷ ns) e h = cc

  -- The tree that `parse_one` gives names no table of the system catalogues.
  abbrev pub CatalogFree : String → Type 0
  CatalogFree query =
      (n : Node) × (parsers.parse_one query ≡ some n)
      × ((l : Label) → Occurs l n → is_forbidden_table l ≡ false)

  CatalogFree-of :
      (query : String) (o : Option Node)
      → parsers.parse_one query ≡ o
      → no_forbidden_table o ≡ true
      → CatalogFree query
  unfolding no_forbidden_table
  CatalogFree-of query (some n) e h = (n, e, λ l occurs. nowhere is_forbidden_table n l h occurs)
  CatalogFree-of query none e h = cc

  module _ (checker : DefaultSqlSafetyChecker) where
    -- With an allowlist of tables, each table of the statement is on it.
    abbrev pub TablesAllowed : Statement → String → Type 0
    TablesAllowed stmt query =
        is_empty checker.table_allowlist ≡ false
        → (t : String) → In t (tables_of parsers checker stmt query)
        → elem t checker.table_allowlist ≡ true

    enforces_allowlist-TablesAllowed :
        (stmt : Statement) (query : String)
        → enforces_allowlist parsers checker stmt query ≡ true
        → TablesAllowed stmt query
    unfolding enforces_allowlist
    enforces_allowlist-TablesAllowed stmt query h given t i =
        elim (Bool-cases (
          any (λ u. not (elem u checker.table_allowlist)) (tables_of parsers checker stmt query))) [
            | inl outside ↦ absurd (ground (arith, given, outside, h))
            | inr inside ↦ ground (
              arith,
              any-eq-false (λ u. not (elem u checker.table_allowlist))
                  (tables_of parsers checker stmt query) inside i,
            )
          ]

    -- What is asked of an accepted statement.
    pub record IsSafe (query : String) : Type 0 where
      pub given : has_text query ≡ true
      pub short : count query ≤ checker.max_query_length
      pub stmt : Statement
      pub single : parsers.sqlparse query ≡ some (stmt ∷ [])
      -- No token is of one of the three types; a hint comment is not excluded.
      pub uncommented :
          (t : Token)
          → In t stmt.flat
          → (t.ttype ≢ comment) × (t.ttype ≢ comment_single) × (t.ttype ≢ comment_multiline)
      pub read_only : ReadOnly query
      pub catalog_free : CatalogFree query
      pub allowed : TablesAllowed stmt query

    parsed-IsSafe :
        (query : String) (o : Option (List Statement))
        → parsers.sqlparse query ≡ o
        → has_text query ≡ true
        → count query ≤ checker.max_query_length
        → parsed_safe parsers checker o query ≡ true
        → IsSafe query
    unfolding parsed_safe statements_safe all_rules single_statement no_comment
        is_strictly_read_only
    parsed-IsSafe query (some (stmt ∷ [])) e given le h = record {
      given = given;
      short = le;
      stmt = stmt;
      single = e;
      uncommented = λ t i.
          is_comment-eq-false t.ttype
            (any-eq-false (λ (u : Token). is_comment u.ttype) stmt.flat (ground arith) i);
      read_only = ReadOnly-root query (parse_statements parsers query) refl (ground arith);
      catalog_free = CatalogFree-of query (parsers.parse_one query) refl (ground arith);
      allowed = enforces_allowlist-TablesAllowed stmt query (ground arith);
    }
    parsed-IsSafe query (some (stmt ∷ other ∷ stmts)) e given le h = absurd (ground arith)
    parsed-IsSafe query (some []) e given le h = cc
    parsed-IsSafe query none e given le h = cc

    -- An accepted statement is one query, within the length, without a token of one of the three
    -- comment types that the rule names (hint comments have others); no node of its tree changes data, locks rows or calls a forbidden function; it reads no system table; and its
    -- tables are on the allowlist, if there is one. A parser that fails accepts nothing.
    pub is_safe_select_query-IsSafe :
        (query : String) → is_safe_select_query parsers checker query ≡ true → IsSafe query
    unfolding is_safe_select_query
    is_safe_select_query-IsSafe query h =
        parsed-IsSafe query (parsers.sqlparse query) refl (ground arith) (ground arith)
          (ground arith)

    validated-eq-ok :
        (cleaned t : String)
        → validated parsers checker cleaned ≡ ok t
        → (cleaned ≡ t) × (is_safe_select_query parsers checker t ≡ true)
    unfolding validated
    validated-eq-ok cleaned t h = elim (Bool-cases (is_safe_select_query parsers checker cleaned)) [
      | inl safe ↦ let same : cleaned ≡ t = ground arith in (same, rw (← same) safe)
      | inr refused ↦ absurd (ground arith)
    ]

    -- A statement that `clean_and_validate_sql` gives is what the cleaner makes of the text, and the
    -- checker accepts it.
    pub clean_and_validate_sql-eq-ok :
        (sql t : String)
        → clean_and_validate_sql parsers checker sql ≡ ok t
        → (clean_sql sql ≡ ok t) × (is_safe_select_query parsers checker t ≡ true)
    unfolding clean_and_validate_sql
    clean_and_validate_sql-eq-ok sql t h =
        let (cleaned, e, k) = >>=-eq-ok (clean_sql sql) _ h in
        let (same, safe) = validated-eq-ok cleaned t k in (e ∙ ap ok same, safe)

    -- The statement that `clean_and_validate_sql` gives is what the cleaner makes of the text, and safe.
    pub clean_and_validate_sql-IsSafe :
        (sql t : String)
        → clean_and_validate_sql parsers checker sql ≡ ok t
        → (clean_sql sql ≡ ok t) × IsSafe t
    clean_and_validate_sql-IsSafe sql t h =
        let (cleaned, accepted) = clean_and_validate_sql-eq-ok sql t h in
        (cleaned, is_safe_select_query-IsSafe t accepted)
