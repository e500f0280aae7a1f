-- ===== src/Sql.antt =====
-- The SQL safety layer of sql_query_api/repositories/sql_validators: `Cleaner` (sql_cleaner.py),
-- `Analyzer` (ast_analyzer.py), `Rules` (rules/), `Checker` (sql_safety_checker.py). The parsers
-- sqlglot and sqlparse are the record `Parsers`; what they give is in `Tree`.
pub mod Tree
pub mod Cleaner
pub mod Analyzer
pub mod Rules
pub mod Checker
pub mod ReadOnly
mod Tests
