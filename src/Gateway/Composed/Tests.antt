-- ===== src/Gateway/Composed/Tests.antt =====
-- A test of the composed pipeline of sql_query_api/services/query_gateway.py: one tenant, one policy
-- and parsers that know one statement.
use secure_db_access_gateway.Prelude.{
  none, some, [], ◌∷◌, true, false, ok, refl, In, here, there, elem,
}
use secure_db_access_gateway.Prelude.Text.{
  lower, strip, lstrip, rstrip, has_text, contains, is_space,
}
use secure_db_access_gateway.Prelude.Scan.{upper}
use secure_db_access_gateway.Prelude.Dict.{lookup, insert, string_eq, pair_eq, pair_beq}
use secure_db_access_gateway.Prelude.Json.{null}
use secure_db_access_gateway.Auth.{Principal}
use secure_db_access_gateway.Policy.{
  Policy, PolicyEvaluator, evaluate, matches, in_scope, table_matches, first_absent,
  row_restrictions_from, masked_of,
}
use secure_db_access_gateway.Tenant.{
  TenantDatabaseConfig, resolver, resolve, add_binding, is_valid_database_id,
}
use secure_db_access_gateway.Sql.Tree.{select, Label, node, nil, walk, dml, Statement, Parsers}
use secure_db_access_gateway.Sql.Cleaner.{
  without_fences, without_prefix, with_letter, with_select, checked, clean_sql,
}
use secure_db_access_gateway.Sql.Analyzer.{
  is_mutation, is_harmful, parse_statements, is_strictly_read_only, read_only_root,
}
use secure_db_access_gateway.Sql.Rules.{
  single_statement, must_be_select, no_comment, no_forbidden_keyword, no_forbidden_function,
  no_forbidden_table, is_forbidden_table, all_rules,
}
use secure_db_access_gateway.Sql.Checker.{
  DefaultSqlSafetyChecker, enforces_allowlist, statements_safe, parsed_safe, is_safe_select_query,
  validated, clean_and_validate_sql, contains_forbidden_mutation,
}
use secure_db_access_gateway.Gateway.{
  GovernedQueryRequest, executed, execute, execute_as, resolved, in_queue, with_slot, govern,
  run_allowed, ◌>>=◌,
}
use secure_db_access_gateway.Gateway.Limits.{new_quota, admit, acquire}
use secure_db_access_gateway.Gateway.Composed.{
  Outside, services, IsGoverned, evaluate_statement, execute-IsGoverned,
}
use native.Mathlib.Decide.{dec_le}

abbrev frank : Principal
frank = record {
  user_id = "auth0|frank";
  email = "frank@acme.test";
  org_id = "acme";
  roles = "viewer" ∷ [];
  attributes = [];
}

abbrev binding : TenantDatabaseConfig
binding = record {
  org_id = "acme";
  database_id = "default";
  credential_mode = "static";
  connection_string = "postgresql://db/x";
  replica_connection_string = none;
  use_read_replica = false;
  role_name = "";
  creds_dir = "";
  host = "";
  port = 5432;
  db_name = "";
  data_schema = "data";
  metadata_schema = "metadata";
  pool_size = none;
  max_overflow = none;
  pool_timeout = none;
  pool_recycle = none;
}

abbrev album_policy : Policy
album_policy = record {
  id = "allow-album";
  effect = "allow";
  org_id = null;
  principal_id = null;
  roles = [];
  database_id = null;
  table = some "album";
  columns = [];
  masked_columns = [];
  row_scope = [];
  action = "select";
}

abbrev evaluator : PolicyEvaluator
evaluator = record { policies = album_policy ∷ []; enabled = true }

abbrev root_label : Label
root_label = record {
  kind = select;
  name = "";
  table = "";
  catalog = "";
  db = "";
  alias_or_name = "";
}

abbrev statement : Statement
statement = record {
  type_name = "SELECT";
  flat = record { ttype = dml; value = "SELECT" } ∷ [];
  tokens = [];
}

abbrev parsers : Parsers
parsers = record {
  parse_postgres = λ sql. some (some (node root_label nil nil) ∷ []);
  parse_default = λ sql. none;
  parse_one = λ sql. some (node root_label nil nil);
  sqlparse = λ sql. some (statement ∷ []);
}

abbrev checker : DefaultSqlSafetyChecker
checker = record { max_query_length = 10000; table_allowlist = []; column_allowlist = [] }

abbrev outside : Outside
outside = record {
  tables_touched = λ sql. "album" ∷ [];
  referenced_columns = λ sql. [];
  apply_row_restrictions = λ sql restrictions who. ok sql;
  rewrite_masked_columns = λ sql columns. ok sql;
  select_alias_map = λ sql. [];
  decimal = λ n. "2";
  execute_sql_statement = λ b sql. ok [];
}

abbrev request : GovernedQueryRequest
request = record { principal = some frank; database_id = "default"; sql = "SELECT 1" }

query_executed :
    In
      (executed binding "SELECT 1")
      (execute
        (services parsers checker (binding ∷ []) evaluator outside)
        request
        true
        (new_quota 2 4)).0.effects
unfolding execute execute_as resolved in_queue with_slot govern run_allowed ◌>>=◌ has_text strip
    lstrip rstrip is_space new_quota admit acquire resolve resolver add_binding is_valid_database_id
    lookup insert pair_beq clean_and_validate_sql validated clean_sql without_fences without_prefix
    with_letter with_select checked upper dec_le is_safe_select_query contains parsed_safe
    statements_safe all_rules single_statement must_be_select no_comment no_forbidden_keyword lower
    elem no_forbidden_function walk no_forbidden_table is_forbidden_table
    contains_forbidden_mutation is_strictly_read_only read_only_root parse_statements is_harmful
    is_mutation enforces_allowlist evaluate_statement evaluate matches in_scope table_matches
    first_absent row_restrictions_from masked_of
query_executed = there (here refl)

execute-IsGoverned_example :
    IsGoverned parsers checker (binding ∷ []) evaluator outside request binding "SELECT 1"
execute-IsGoverned_example =
    execute-IsGoverned parsers checker (binding ∷ []) evaluator outside request true binding
      "SELECT 1" (new_quota 2 4) query_executed
