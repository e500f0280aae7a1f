-- ===== src/Repository/Execute.antt =====
-- `execute_sql_statement` of sql_query_api/repositories/sql_query_repository.py, with the session
-- that `get_conn` sets up and the validation of the read-only role. The checker, the database, the
-- row filter, `decimal` and the size of the encoded rows are the record `Services`.
use Prim.Native.Char.{Char, code}
use secure_db_access_gateway.Prelude.{
  ℕ, suc, String, Option, none, some, List, [], ◌∷◌, ◌++◌, Bool, true, false, not, ◌&&◌, ◌||◌, ◌==◌,
  map, elem, filter, is_empty, length, leb, ltb, if◌then◌else◌, starts_with, Result, ok, raise,
  raise_if, Exception, value_error, runtime_error, forbidden_sql, execution_error, ◌>>=◌, ◌>>◌,
}
use secure_db_access_gateway.Prelude.Text.{lower, strip, is_set, after_last, code_eq, concat}
use secure_db_access_gateway.Prelude.Scan.{is_word_char}
use secure_db_access_gateway.Prelude.Json.{str}
use secure_db_access_gateway.Tenant.{is_schema_name}
use secure_db_access_gateway.Gateway.Masking.{Row}
use secure_db_access_gateway.Repository.Cost.{evaluate_query_cost}
use secure_db_access_gateway.Repository.Limit.{ensure_limit}
use secure_db_access_gateway.Repository.Fetch.{fetch}

abbrev starts_name : Char → Bool
starts_name c = is_word_char c && not (leb b'0' (code c) && leb (code c) b'9')

every_role_char : String → Bool
unfolding code_eq
every_role_char String.[] = true
every_role_char (String.◌∷◌ c s) = (is_word_char c || code_eq (code c) b'$') && every_role_char s

-- ^[A-Za-z_][A-Za-z0-9_$]*$
unfoldable pub is_role_name : String → Bool
unfolding every_role_char
is_role_name String.[] = false
is_role_name (String.◌∷◌ c s) = starts_name c && every_role_char s

-- validate_readonly_role_name
unfoldable pub validate_readonly_role_name : Option String → Result (Option String)
validate_readonly_role_name none = ok none
validate_readonly_role_name (some name) =
    if not (is_set (strip name)) || not (is_role_name (strip name))
    then raise (
        value_error
          "SQL_READONLY_ROLE must be a bare PostgreSQL role name (not a qualified identifier or a literal).")
    else ok (some (strip name))

abbrev or_blank : Option String → String
or_blank none = ""
or_blank (some s) = s

-- enforce_readonly_role_guardrail, with the value of SQL_READONLY_ROLE
unfoldable pub enforce_readonly_role_guardrail : Option String → String → Bool → Result (Unit {0})
enforce_readonly_role_guardrail configured connection_string production =
    if not (starts_with connection_string "postgresql")
    then ok tt
    else if not production
    then ok tt
    else if not (is_set (strip (or_blank configured)))
    then raise (
        runtime_error
          "Production PostgreSQL tenants require SQL_READONLY_ROLE: the login session must SET ROLE to the dedicated SELECT-only role provisioned by scripts/setup_least_privilege_gateway_role.sql.")
    else (validate_readonly_role_name (some (strip (or_blank configured))) >>= λ role. ok tt)

-- What `__init__` keeps; the timeout in milliseconds, the threshold of the cost a natural number.
pub record SqlQueryRepository : Type 0 where
  pub sensitive_columns : List String
  pub data_schema : String
  pub query_timeout_ms : ℕ
  pub lock_timeout_ms : ℕ
  pub max_row_limit : ℕ
  pub max_result_bytes : ℕ
  pub query_cost_threshold : ℕ
  pub query_cost_action : String
  pub readonly_role : Option String

-- How a statement ends at the database: rows, no rows to return, a timeout, or an exception with the
-- message that `raise_sql_execution_exception` makes of it.
pub data Answer : Type 0 where
  rows : List Row → Answer
  no_rows : Answer
  timed_out : Answer
  failed : (message : String) → Answer

-- `connect` is a connection to the database and its dialect.
pub record Services : Type 0 where
  pub is_safe_select_query : String → Bool
  pub row_filter : Option (Row → Bool)
  pub size : List Row → ℕ
  pub decimal : ℕ → String
  pub seconds : ℕ → String
  pub connect : Result String
  pub run : (session : List String) → (sql : String) → Answer

abbrev role_statement : Option String → List String
role_statement none = []
role_statement (some role) = if is_set role then concat "SET ROLE " (concat role ";") ∷ [] else []

abbrev path_statement : String → List String
path_statement schema = if is_set schema then concat "SET search_path TO " schema ∷ [] else []

-- The session that `get_conn` sets up.
unfoldable pub session : (ℕ → String) → SqlQueryRepository → String → List String
session decimal r dialect =
    if dialect == "postgresql"
    then "SET SESSION CHARACTERISTICS AS TRANSACTION READ ONLY;" ∷ role_statement r.readonly_role
      ++ concat "SET SESSION statement_timeout = '" (concat (decimal r.query_timeout_ms) "';")
        ∷ concat "SET SESSION lock_timeout = '" (concat (decimal r.lock_timeout_ms) "';")
        ∷ path_statement r.data_schema
    else []

-- A key in the set, by itself or by what stands behind its last dot.
unfoldable pub is_sensitive : List String → String → Bool
is_sensitive columns key = elem (lower key) columns || elem (after_last b'.' (lower key)) columns

unfoldable pub mask_sensitive_row : List String → Row → Row
mask_sensitive_row columns [] = []
mask_sensitive_row columns ((key, value) ∷ row) =
    (key, if is_sensitive columns key then str "[MASKED]" else value)
    ∷ mask_sensitive_row columns row

-- _apply_sensitive_column_masking
unfoldable pub apply_sensitive_column_masking : List String → List Row → List Row
apply_sensitive_column_masking columns rows_ =
    if is_empty columns then rows_ else map (mask_sensitive_row columns) rows_

-- _apply_row_filter
unfoldable pub apply_row_filter : Option (Row → Bool) → List Row → List Row
apply_row_filter none rows_ = rows_
apply_row_filter (some keep) rows_ = filter keep rows_

module _ (sv : Services) (r : SqlQueryRepository) where
  unfoldable pub too_large : Exception
  too_large = execution_error (
      concat "Query result exceeds maximum allowed size ("
        (concat (sv.decimal r.max_result_bytes) " bytes)."))

  -- The rows that go back.
  unfoldable pub shaped : List Row → Result (List Row)
  unfolding too_large
  shaped fetched = do
    raise_if (ltb r.max_result_bytes (sv.size fetched)) too_large
    ok (apply_sensitive_column_masking r.sensitive_columns (apply_row_filter sv.row_filter fetched))

  -- The loop, with the fuel that it needs; it does not run out (`fetch_lem`).
  unfoldable pub fetched_or_stuck : Option (Result (List Row)) → Result (List Row)
  fetched_or_stuck none = raise (runtime_error "out of fuel")
  fetched_or_stuck (some result) = result

  unfoldable pub read_answer : Answer → Result (List Row)
  unfolding fetched_or_stuck
  read_answer (rows cursor) =
      fetched_or_stuck (fetch sv.decimal r.max_row_limit (suc (length cursor)) [] cursor) >>= shaped
  read_answer no_rows = ok []
  read_answer timed_out = raise (
      execution_error
        (concat "SQL query timed out after " (concat (sv.seconds r.query_timeout_ms) " seconds.")))
  read_answer (failed message) = raise (execution_error message)

  -- The execution of a text that has its limit.
  unfoldable pub run_limited : String → Result (List Row)
  run_limited sql = do
    raise_if
        ((evaluate_query_cost r.query_cost_threshold r.query_cost_action sql).decision == "deny")
        (forbidden_sql "Query exceeds the configured cost threshold and is rejected.")
    raise_if (not (is_schema_name r.data_schema))
        (value_error "SQL_DATA_SCHEMA must be a valid PostgreSQL schema identifier.")
    dialect ← sv.connect
    read_answer (sv.run (session sv.decimal r dialect) sql)

  -- execute_sql_statement
  unfoldable pub execute_sql_statement : String → Result (List Row)
  execute_sql_statement sql = do
    raise_if (not (sv.is_safe_select_query sql))
        (forbidden_sql "Only simple SELECT statements are allowed.")
    run_limited (ensure_limit sv.decimal r.max_row_limit sql)
