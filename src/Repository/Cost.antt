-- ===== src/Repository/Cost.antt =====
-- `estimate_query_cost` and `evaluate_query_cost` of
-- sql_query_api/repositories/sql_query_repository.py. The threshold is a natural number.
use Prim.Native.Char.{Char, code}
use secure_db_access_gateway.Prelude.{
  ℕ, ◌+◌, ◌-◌, ◌≤◌, String, Option, none, some, List, [], ◌∷◌, Bool, false, not, ◌&&◌, ◌||◌, ◌==◌,
  filter, is_empty, length, leb, max, if◌then◌else◌, ◌≡◌, ◌↔◌, arith, eq_iff,
}
use secure_db_access_gateway.Prelude.Text.{strip, is_set, contains, code_eq, concat}
use secure_db_access_gateway.Prelude.Scan.{upper, join_text, words_of}

pub record Estimate : Type 0 where
  pub score : ℕ
  pub level : String
  pub reason : String

-- A character stands in a text.
has_char : ℕ → String → Bool
unfolding code_eq
has_char n String.[] = false
has_char n (String.◌∷◌ c s) = code_eq (code c) n || has_char n s

-- Inside a match that is replaced, the code of the character that ends it.
abbrev after : Bool → ℕ → Option ℕ
after opens n = if opens then some n else none

-- What a character opens, with the text behind it.
abbrev Opens : Type 0
Opens = Char → String → Option ℕ

-- re.sub(pattern, " ", s) for a pattern that goes from one character to the next closing one: the
-- mode is the closing character that is looked for.
replaced : Opens → Option ℕ → String → String
unfolding code_eq
replaced opens mode String.[] = String.[]
replaced opens (some n) (String.◌∷◌ c s) =
    replaced opens (if code_eq (code c) n then none else some n) s
replaced opens none (String.◌∷◌ c s) =
    let rest = replaced opens (opens c s) s in
    elim (opens c s) [ some n ↦ concat " " rest | none ↦ String.◌∷◌ c rest ]

-- (?:'[^']*'|"[^"]*")
quote_opens : Opens
unfolding has_char code_eq
quote_opens c s =
    if code_eq (code c) b'\'' || code_eq (code c) b'"'
    then after (has_char (code c) s) (code c)
    else none

-- \([^)]*\)
paren_opens : Opens
unfolding has_char code_eq
paren_opens c s = if code_eq (code c) b'(' then after (has_char b')' s) b')' else none

unfoldable pub outer_sql : String → String
unfolding replaced quote_opens paren_opens
outer_sql upper_sql = replaced paren_opens none (replaced quote_opens none upper_sql)

-- max(1, len(re.findall(r"\bFROM\b|\bJOIN\b", outer_sql)))
unfoldable pub number_of_tables : String → ℕ
unfolding outer_sql
number_of_tables upper_sql =
    max 1 (length (filter (λ w. w == "FROM" || w == "JOIN") (words_of (outer_sql upper_sql))))

abbrev weight : Bool → ℕ → ℕ
weight b n = if b then n else 0

abbrev note : Bool → String → List String → List String
note b reason reasons = if b then reason ∷ reasons else reasons

abbrev has_any : String → List String → Bool
has_any s [] = false
has_any s (t ∷ ts) = contains t s || has_any s ts

unfoldable pub score_of : String → String → ℕ
score_of normalized upper_sql =
    1
    + weight (contains "SELECT" upper_sql) 1
    + weight (contains "JOIN" upper_sql) 4
    + weight (has_any upper_sql ("GROUP BY" ∷ "HAVING" ∷ [])) 3
    + weight (contains "ORDER BY" upper_sql) 2
    + weight (contains "LIMIT" upper_sql) 1
    + weight (contains "*" normalized) 2
    + weight (has_any upper_sql ("UNION" ∷ "INTERSECT" ∷ "EXCEPT" ∷ [])) 4
    + weight (contains "WITH " upper_sql) 3
    + (number_of_tables upper_sql - 1)
    + weight (contains "SELECT COUNT" upper_sql) 2

unfoldable pub reasons_of : String → String → List String
reasons_of normalized upper_sql = note (contains "JOIN" upper_sql) "joins" (
    note (has_any upper_sql ("GROUP BY" ∷ "HAVING" ∷ [])) "aggregations" (
      note (contains "ORDER BY" upper_sql) "sorting" (
        note (contains "*" normalized) "wide scan" (
          note (has_any upper_sql ("UNION" ∷ "INTERSECT" ∷ "EXCEPT" ∷ [])) "set operations" (
            note (contains "WITH " upper_sql) "CTE"
              (note (contains "SELECT COUNT" upper_sql) "count aggregation" []))))))

unfoldable pub level_of : ℕ → String
level_of score =
    if leb score 4
    then "low"
    else if leb score 8
    then "medium"
    else if leb score 12
    then "high"
    else "critical"

-- estimate_query_cost
unfoldable pub estimate_query_cost : String → Estimate
estimate_query_cost sql =
    let normalized = strip sql in
    if not (is_set normalized)
    then record { score = 0; level = "low"; reason = "Empty query" }
    else let score = score_of normalized (upper normalized) in
      let reasons = reasons_of normalized (upper normalized) in
      record {
        score = score;
        level = level_of score;
        reason = if is_empty reasons then "basic select" else join_text ", " reasons;
      }

pub record CostDecision : Type 0 where
  pub estimate : Estimate
  pub threshold : ℕ
  pub decision : String
  pub message : String

-- The effective action of a score.
unfoldable pub decision_of : ℕ → ℕ → String → String
decision_of score threshold action =
    if leb threshold score && (action == "warn" || action == "deny") then action else "allow"

abbrev message_of : String → String
message_of decision =
    if decision == "deny"
    then "Query exceeds the configured cost threshold and is rejected."
    else if decision == "warn"
    then "Query exceeds the configured cost threshold and will be allowed with a warning."
    else "Query is within the configured cost budget."

-- evaluate_query_cost, for a configured threshold and action
unfoldable pub evaluate_query_cost : ℕ → String → String → CostDecision
evaluate_query_cost threshold action sql =
    let estimate = estimate_query_cost sql in
    let decision = decision_of estimate.score threshold action in
    record {
      estimate = estimate;
      threshold = threshold;
      decision = decision;
      message = message_of decision;
    }

-- A statement is rejected exactly when its score reaches the threshold and the action is to deny.
pub denied_iff :
    (threshold : ℕ) (action sql : String)
    → ((evaluate_query_cost threshold action sql).decision ≡ "deny")
      ↔ ((threshold ≤ (estimate_query_cost sql).score) × (action ≡ "deny"))
unfolding evaluate_query_cost decision_of
denied_iff threshold action sql =
    ground (
      arith,
      eq_iff action "deny",
      eq_iff action "warn",
      eq_iff "allow" "deny",
      eq_iff "warn" "deny",
    )
