-- ===== src/Sql/Cleaner.antt =====
-- `clean_sql` of sql_query_api/repositories/sql_validators/sql_cleaner.py.
use secure_db_access_gateway.Prelude.{
  String, List, [], ◌∷◌, Bool, not, ◌||◌, ◌&&◌, ◌==◌, filter, if◌then◌else◌, starts_with, Result,
  ok, raise, value_error, ◌>>=◌,
}
use secure_db_access_gateway.Prelude.Text.{strip, is_set, split_on, words, concat}
use secure_db_access_gateway.Prelude.Scan.{upper, take_text, drop_text, join_text, in_word}

-- Step 1: the lines of a Markdown block that are no fences.
unfoldable pub without_fences : String → String
without_fences sql =
    if starts_with sql "```"
    then strip (
        join_text "\n" (filter (λ line. not (starts_with (strip line) "```")) (split_on b'\n' sql)))
    else sql

-- Step 2: the text behind a prefix "SQL:" or "SQL ".
unfoldable pub without_prefix : String → String
without_prefix sql =
    if starts_with (upper sql) "SQL:"
    then strip (drop_text 4 sql)
    else if starts_with (upper sql) "SQL "
    then strip (drop_text 4 sql)
    else sql

-- Step 3: a lost first letter.
unfoldable pub with_letter : String → String
with_letter sql = if starts_with (strip (upper sql)) "ELECT" then concat "S" sql else sql

-- _WITH_PREFIX_RE.match(sql_upper)
unfoldable pub starts_with_cte : String → Bool
starts_with_cte sql_upper = starts_with sql_upper "WITH" && not (in_word (drop_text 4 sql_upper))

abbrev start_message : String
start_message = "SQL query failed safety validation: must start with SELECT after cleaning: "

abbrev end_message : String
end_message = "SQL query failed safety validation: does not start with SELECT after cleaning: "

-- A refusal shows the first hundred characters.
abbrev refused : String → String → Result String
refused message sql = raise (value_error (concat message (take_text 100 sql)))

-- Step 4, for a text that does not start with SELECT.
unfoldable pub from_words : String → List String → Result String
from_words sql [] =
    if starts_with_cte (strip (upper sql)) then ok sql else refused start_message sql
from_words sql (w ∷ ws) =
    if upper w == "ELECT"
    then ok (concat "SELECT " (join_text " " ws))
    else if starts_with_cte (strip (upper sql))
    then ok sql
    else refused start_message sql

unfoldable pub with_select : String → Result String
unfolding from_words
with_select sql =
    if starts_with (strip (upper sql)) "SELECT" then ok sql else from_words sql (words sql)

abbrev pub is_query_text : String → Bool
is_query_text sql_upper = starts_with sql_upper "SELECT" || starts_with_cte sql_upper

-- Step 5.
unfoldable pub checked : String → Result String
checked sql = if is_query_text (strip (upper sql)) then ok (strip sql) else refused end_message sql

unfoldable pub clean_sql : String → Result String
unfolding without_fences without_prefix with_letter with_select
clean_sql sql =
    if not (is_set sql)
    then raise (value_error "SQL query cannot be empty")
    else with_select (with_letter (without_prefix (strip (without_fences (strip sql))))) >>= checked
