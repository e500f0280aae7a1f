-- ===== src/Repository/Tests.antt =====
-- Tests of sql_query_api/repositories/sql_query_repository.py with a database of two rows.
use secure_db_access_gateway.Prelude.{
  ℕ, String, none, some, List, [], ◌∷◌, ◌++◌, true, if◌then◌else◌, leb, ok, ◌≡◌, ◌≢◌, refl, arith,
  elem,
}
use secure_db_access_gateway.Prelude.Text.{
  lower, strip, lstrip, rstrip, rstrip_chars, is_space, contains, after_last, remove_char, code_eq,
}
use secure_db_access_gateway.Prelude.Scan.{upper, drop_text, words_of, is_word_char, in_word}
use secure_db_access_gateway.Prelude.Json.{num, str}
use secure_db_access_gateway.Tenant.{is_schema_name}
use secure_db_access_gateway.Gateway.Masking.{Row}
use secure_db_access_gateway.Repository.Cost.{
  outer_sql, number_of_tables, score_of, estimate_query_cost, decision_of, evaluate_query_cost,
}
use secure_db_access_gateway.Repository.Limit.{
  word_ci, spaces1, digits1, only_end, match_fetch, match_limit, search_from, ensure_limit,
}
use secure_db_access_gateway.Repository.Fetch.{
  take, drop, add_batch, with_batch, fetch, fetch_lem, limited,
}
use secure_db_access_gateway.Repository.Execute.{
  SqlQueryRepository, rows, Services, is_sensitive, mask_sensitive_row,
  apply_sensitive_column_masking, apply_row_filter, shaped, fetched_or_stuck, read_answer,
  run_limited, execute_sql_statement,
}
use secure_db_access_gateway.Repository.Bounds.{IsGuarded, execute-IsGuarded}
use native.Mathlib.Decide.{dec_le}

abbrev decimal : ℕ → String
decimal n = if leb n 50 then "50" else "100"

abbrev join_query : String
join_query = "SELECT * FROM a JOIN (SELECT 1 FROM b) x ON a.n = 'FROM'"

join_cost : (estimate_query_cost join_query).score ≡ 9
unfolding estimate_query_cost score_of number_of_tables outer_sql words_of upper dec_le strip lstrip
    rstrip is_space contains
join_cost = refl

abbrev action : String
action = "deny"

limit_clamped : ensure_limit decimal 50 "select a from t limit 900 ;" ≡ "select a from t LIMIT 50"
unfolding ensure_limit rstrip rstrip_chars is_space code_eq search_from match_fetch match_limit
    word_ci spaces1 digits1 only_end upper dec_le drop_text is_word_char in_word
limit_clamped = refl

fetch_rewritten :
    ensure_limit decimal 50 "select a from t fetch first 9 rows only" ≡ "select a from t LIMIT 50"
unfolding ensure_limit rstrip rstrip_chars is_space code_eq search_from match_fetch match_limit
    word_ci spaces1 digits1 only_end upper dec_le drop_text is_word_char in_word
fetch_rewritten = refl

limit_added : ensure_limit decimal 500 "select a from t" ≡ "select a from t LIMIT 100"
unfolding ensure_limit rstrip rstrip_chars is_space code_eq search_from match_fetch match_limit
    word_ci spaces1 digits1 only_end upper dec_le drop_text is_word_char in_word
limit_added = refl

-- Only the first LIMIT is clamped.
second_limit_kept :
    ensure_limit decimal 50 "select a from (select a from t limit 9) x limit 900"
    ≡ "select a from (select a from t LIMIT 50) x limit 900"
unfolding ensure_limit rstrip rstrip_chars is_space code_eq search_from match_fetch match_limit
    word_ci spaces1 digits1 only_end upper dec_le drop_text is_word_char in_word
second_limit_kept = refl

abbrev two_rows : List Row
two_rows = (("id", num 1) ∷ ("t.SSN", num 7) ∷ []) ∷ (("id", num 2) ∷ ("ssn", num 8) ∷ []) ∷ []

fetch_lem_example : fetch decimal 5 3 [] two_rows ≡ some (limited decimal 5 ([] ++ two_rows))
fetch_lem_example = fetch_lem decimal 5 3 [] two_rows (omega arith) (omega arith)

abbrev repository : SqlQueryRepository
repository = record {
  sensitive_columns = "ssn" ∷ [];
  data_schema = "public";
  query_timeout_ms = 30000;
  lock_timeout_ms = 5000;
  max_row_limit = 50;
  max_result_bytes = 1000;
  query_cost_threshold = 16;
  query_cost_action = "deny";
  readonly_role = none;
}

abbrev services : Services
services = record {
  is_safe_select_query = λ sql. true;
  row_filter = none;
  size = λ rs. 60;
  decimal = decimal;
  seconds = decimal;
  connect = ok "postgresql";
  run = λ session sql. rows two_rows;
}

abbrev masked : List Row
masked =
    (("id", num 1) ∷ ("t.SSN", str "[MASKED]") ∷ [])
    ∷ (("id", num 2) ∷ ("ssn", str "[MASKED]") ∷ [])
    ∷ []

rows_masked : execute_sql_statement services repository "select id, ssn from t" ≡ ok masked
unfolding execute_sql_statement run_limited read_answer shaped fetched_or_stuck fetch with_batch
    add_batch take drop apply_row_filter apply_sensitive_column_masking mask_sensitive_row
    is_sensitive elem lower dec_le after_last is_schema_name remove_char evaluate_query_cost
    decision_of estimate_query_cost score_of number_of_tables outer_sql words_of upper strip lstrip
    rstrip is_space contains ensure_limit rstrip_chars code_eq search_from match_fetch match_limit
    word_ci spaces1 digits1 only_end drop_text is_word_char in_word
rows_masked = refl

execute-IsGuarded_example :
    IsGuarded services repository masked
    × (services.is_safe_select_query "select id, ssn from t" ≡ true)
    × (is_schema_name "public" ≡ true)
    × ((evaluate_query_cost 16 "deny" (ensure_limit decimal 50 "select id, ssn from t")).decision
        ≢ "deny")
execute-IsGuarded_example =
    execute-IsGuarded services repository "select id, ssn from t" masked rows_masked
