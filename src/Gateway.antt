-- ===== src/Gateway.antt =====
-- sql_query_api/services/query_gateway.py: the governed pipeline around one query. `Limits` has the
-- tenant's quota, `Masking` the rows that go back; here they are put together. What the pipeline
-- calls in other components, and what the database does, is the record `Services`.
pub mod Limits
pub mod Slots
pub mod Masking
pub mod Governed
pub mod Composed
mod Tests
use secure_db_access_gateway.Prelude.{
  ℕ, String, Option, none, some, List, [], ◌∷◌, ◌++◌, Bool, true, false, not, if◌then◌else◌, Result,
  ok, raise, Exception, permission_error, value_error,
}
use secure_db_access_gateway.Prelude.Text
use secure_db_access_gateway.Prelude.Text.{has_text, is_set}
use secure_db_access_gateway.Prelude.Json.{Json}
use secure_db_access_gateway.Auth.{Principal}
use secure_db_access_gateway.Policy.{PolicyDecision}
use secure_db_access_gateway.Tenant.{TenantDatabaseConfig}
use Limits.{Quota, admit, acquire, leave}
use Masking.{Row, mask_rows}

pub record GovernedQueryRequest : Type 0 where
  pub principal : Option Principal
  pub database_id : String
  pub sql : String

-- The provider, the safety checker, the policy evaluator with the SQL analysis that it is given, the
-- two rewrites, a number's decimal text and the repository.
pub record Services : Type 0 where
  pub resolve : Principal → String → Result TenantDatabaseConfig
  pub clean_and_validate_sql : String → Result String
  pub evaluate : Principal → String → String → Result PolicyDecision
  pub apply_row_restrictions : String → List (String × String) → Principal → Result String
  pub rewrite_masked_columns : String → List String → Result String
  pub select_alias_map : String → List (String × List String)
  pub decimal : ℕ → String
  pub execute_sql_statement : TenantDatabaseConfig → String → Result (List Row)

-- What the pipeline leaves behind: audit events and the statements that reach a database.
pub data Effect : Type 0 where
  overloaded : (org_id database_id : String) → Effect
  policy_denied : (org_id database_id reason : String) → Effect
  sql_query : (org_id database_id sql : String) → Effect
  executed : TenantDatabaseConfig → (sql : String) → Effect

-- A result with the effects on the way to it.
pub record Traced (A : Type 0) : Type 0 where
  pub result : Result A
  pub effects : List Effect

and_then : {A B : Type 0} → Result A → List Effect → (A → Traced B) → Traced B
and_then (ok a) es f = record { result = (f a).result; effects = es ++ (f a).effects }
and_then (raise e) es f = record { result = raise e; effects = es }

infixl 5 ◌>>=◌
abbrev pub ◌>>=◌ : {A B : Type 0} → Traced A → (A → Traced B) → Traced B
unfolding and_then
m >>= f = and_then m.result m.effects f

infixl 5 ◌>>◌
abbrev pub ◌>>◌ : {B : Type 0} → Traced (Unit {0}) → Traced B → Traced B
unfolding and_then
m >> k = and_then m.result m.effects (λ _. k)

-- A call without effects, an effect, and an exception.
abbrev pub lift : {A : Type 0} → Result A → Traced A
lift r = record { result = r; effects = [] }

abbrev pub emit : Effect → Traced (Unit {0})
emit e = record { result = ok tt; effects = e ∷ [] }

abbrev pub fail : {A : Type 0} → Exception → Traced A
fail e = record { result = raise e; effects = [] }

module _ (sv : Services) where
  -- The rewrites, the audit event and the execution of an allowed statement.
  unfoldable pub run_allowed :
      Principal → TenantDatabaseConfig → String → PolicyDecision → Traced (List Row)
  run_allowed who binding cleaned decision = do
    restricted ← lift (sv.apply_row_restrictions cleaned decision.row_restrictions who)
    execution ← lift (sv.rewrite_masked_columns restricted decision.masked_columns)
    emit (sql_query who.org_id binding.database_id execution)
    emit (executed binding execution)
    rows ← lift (sv.execute_sql_statement binding execution)
    lift (ok (mask_rows (sv.select_alias_map restricted) decision.masked_columns rows))

  unfoldable pub deny : Principal → TenantDatabaseConfig → PolicyDecision → Traced (List Row)
  deny who binding decision = do
    emit (policy_denied who.org_id binding.database_id decision.reason)
    fail (permission_error decision.reason)

  -- The body of the `try` block, once the semaphore is held.
  unfoldable pub govern :
      Principal → GovernedQueryRequest → TenantDatabaseConfig → Traced (List Row)
  govern who req binding = do
    cleaned ← lift (sv.clean_and_validate_sql req.sql)
    decision ← lift (sv.evaluate who req.database_id (if is_set cleaned then cleaned else req.sql))
    if decision.allowed then run_allowed who binding cleaned decision else deny who binding decision

  abbrev busy : Principal → TenantDatabaseConfig → Exception → Traced (List Row)
  busy who binding e = record {
    result = raise e;
    effects = overloaded who.org_id binding.database_id ∷ [];
  }

  -- f"...{limit}). Please retry later."
  abbrev limit_message : String → ℕ → String
  limit_message start limit =
      Text.concat start (Text.concat (sv.decimal limit) "). Please retry later.")

  -- The body and the `finally` block, with the semaphore held, or not got before the timeout.
  unfoldable pub with_slot :
      Principal
      → GovernedQueryRequest
      → TenantDatabaseConfig
      → Quota
      → Option Quota
      → Traced (List Row) × Quota
  with_slot who req binding q none = (
    busy who binding (
        permission_error (limit_message "Tenant concurrency limit busy (limit: " q.max_concurrent)),
    leave false q,
  )
  with_slot who req binding q (some held) = (govern who req binding, leave true held)

  -- The wait for the semaphore behind the check of the queue limit, `none` if the queue is full;
  -- a timeout may end the wait.
  unfoldable pub in_queue :
      Principal
      → GovernedQueryRequest
      → TenantDatabaseConfig
      → Bool
      → Quota
      → Option Quota
      → Traced (List Row) × Quota
  in_queue who req binding in_time q none = (
    busy who binding
        (permission_error (limit_message "Tenant query queue full (limit: " q.queue_limit)),
    q,
  )
  in_queue who req binding in_time q (some queued) =
      with_slot who req binding queued (if in_time then acquire queued else none)

  unfoldable pub resolved :
      Principal
      → GovernedQueryRequest
      → Bool
      → Quota
      → Result TenantDatabaseConfig
      → Traced (List Row) × Quota
  resolved who req in_time q (raise e) = (fail e, q)
  resolved who req in_time q (ok binding) = in_queue who req binding in_time q (admit q)

  unfoldable pub execute_as :
      GovernedQueryRequest → Bool → Quota → Option Principal → Traced (List Row) × Quota
  execute_as req in_time q none =
      (fail (permission_error "Authenticated principal is required."), q)
  execute_as req in_time q (some who) =
      if not (has_text req.sql)
      then (fail (value_error "SQL statement cannot be empty."), q)
      else resolved who req in_time q (sv.resolve who req.database_id)

  -- GovernedQueryGateway.execute, run alone on a quota; `in_time` says whether a free semaphore is
  -- got before the timeout.
  unfoldable pub execute : GovernedQueryRequest → Bool → Quota → Traced (List Row) × Quota
  execute req in_time q = execute_as req in_time q req.principal
