-- ===== src/Gateway/Tests.antt =====
-- Tests of the pipeline of sql_query_api/services/query_gateway.py with services that allow one
-- statement.
use secure_db_access_gateway.Prelude.{
  ◌+◌, ◌≤◌, none, some, [], ◌∷◌, ◌≡◌, refl, true, false, ok, here, there,
}
use secure_db_access_gateway.Prelude.Text.{has_text, strip, lstrip, rstrip}
use secure_db_access_gateway.Prelude.Json.{str}
use secure_db_access_gateway.Auth.{Principal}
use secure_db_access_gateway.Policy.{PolicyDecision}
use secure_db_access_gateway.Tenant.{TenantDatabaseConfig}
use secure_db_access_gateway.Gateway.{
  GovernedQueryRequest, Services, execute, execute_as, resolved, in_queue, with_slot, govern,
  run_allowed, ◌>>=◌,
}
use secure_db_access_gateway.Gateway.Limits.{new_quota, admit, acquire, leave}
use secure_db_access_gateway.Gateway.Slots.{
  System, enter, start, finish, Reach, here as begin, next, Reach-bounded, Reach-no_leak,
}
use secure_db_access_gateway.Gateway.Governed.{Cleared, execute-Cleared}

abbrev dave : Principal
dave = record {
  user_id = "auth0|dave";
  email = "dave@acme.test";
  org_id = "acme";
  roles = [];
  attributes = [];
}

abbrev store : TenantDatabaseConfig
store = record {
  org_id = "acme";
  database_id = "default";
  credential_mode = "static";
  connection_string = "postgresql://db/x";
  replica_connection_string = none;
  use_read_replica = false;
  role_name = "";
  creds_dir = "";
  host = "";
  port = 5432;
  db_name = "";
  data_schema = "data";
  metadata_schema = "metadata";
  pool_size = none;
  max_overflow = none;
  pool_timeout = none;
  pool_recycle = none;
}

abbrev allowed : PolicyDecision
allowed = record {
  allowed = true;
  reason = "Allowed by policy.";
  policy_ids = [];
  row_restrictions = [];
  masked_columns = "ssn" ∷ [];
}

abbrev services : Services
services = record {
  resolve = λ who id. ok store;
  clean_and_validate_sql = λ sql. ok "SELECT ssn FROM album";
  evaluate = λ who id sql. ok allowed;
  apply_row_restrictions = λ sql restrictions who. ok "SELECT ssn FROM album WHERE true";
  rewrite_masked_columns = λ sql columns. ok "SELECT NULL AS ssn FROM album WHERE true";
  select_alias_map = λ sql. [];
  decimal = λ n. "2";
  execute_sql_statement = λ binding sql. ok ((("ssn", str "1") ∷ []) ∷ []);
}

abbrev ask : GovernedQueryRequest
ask = record { principal = some dave; database_id = "default"; sql = "SELECT ssn FROM album" }

execute-Cleared_example : Cleared services ask store "SELECT NULL AS ssn FROM album WHERE true"
unfolding execute execute_as resolved in_queue with_slot govern run_allowed has_text strip lstrip
    rstrip new_quota admit acquire ◌>>=◌
execute-Cleared_example =
    execute-Cleared services ask true store "SELECT NULL AS ssn FROM album WHERE true"
      (new_quota 2 4) (there (here refl))

abbrev in_line : System
in_line = record {
  quota = record { available = 1; max_concurrent = 1; queue_limit = 2; current_queued = 1 };
  waiting = 1;
  running = 0;
}

abbrev at_work : System
at_work = record {
  quota = record { available = 0; max_concurrent = 1; queue_limit = 2; current_queued = 1 };
  waiting = 0;
  running = 1;
}

Reach-in_line : Reach 1 2 in_line
unfolding new_quota admit
Reach-in_line = next begin (enter refl)

Reach-at_work : Reach 1 2 at_work
unfolding acquire
Reach-at_work = next Reach-in_line (start refl refl)

Reach-bounded_example :
    (at_work.running ≤ 1)
    × (0 + at_work.running ≤ 2)
    × (at_work.quota.current_queued ≡ 0 + at_work.running)
Reach-bounded_example = Reach-bounded Reach-at_work

abbrev after_work : System
after_work = record { quota = leave true at_work.quota; waiting = 0; running = 0 }

Reach-after_work : Reach 1 2 after_work
Reach-after_work = next Reach-at_work (finish refl)

Reach-no_leak_example : after_work.quota ≡ new_quota 1 2
Reach-no_leak_example = Reach-no_leak Reach-after_work refl refl
