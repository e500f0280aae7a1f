-- ===== src/Repository.antt =====
-- sql_query_api/repositories/sql_query_repository.py: what guards a read-only statement on its way to
-- a database. `Cost` has the cost guard, `Limit` the bound on rows in the text, `Fetch` the loop that
-- reads the rows, `Execute` the whole of `execute_sql_statement`.
pub mod Cost
pub mod Limit
pub mod Fetch
pub mod Execute
pub mod Bounds
mod Tests
