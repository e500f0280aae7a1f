-- ===== src/Gateway/Composed.antt =====
-- The pipeline of sql_query_api/services/query_gateway.py put together with the resolver of
-- tenant_database_resolver.py, the checker of sql_safety_checker.py and the evaluator of
-- policy_engine.py, as the dependency container builds it without OPA.
mod Tests
use secure_db_access_gateway.Prelude.{
  ℕ, String, Option, none, some, List, [], ◌∷◌, Bool, true, false, if◌then◌else◌, Result, ok, ◌≡◌,
  ◌↔◌, arith, In, refl, ap, Bool-cases, inl, inr, ◌∙◌, subst, sym,
}
use secure_db_access_gateway.Prelude.Text.{is_set, has_text, strip, lstrip, rstrip}
use secure_db_access_gateway.Auth.{Principal}
use secure_db_access_gateway.Policy.{PolicyDecision, PolicyEvaluator, evaluate}
use secure_db_access_gateway.Policy.Spec.{Permits, evaluate_iff_Permits}
use secure_db_access_gateway.Tenant.{TenantDatabaseConfig, resolver, resolve}
use secure_db_access_gateway.Tenant.Isolation.{resolve_own}
use secure_db_access_gateway.Sql.Tree.{Parsers}
use secure_db_access_gateway.Sql.Checker.{
  DefaultSqlSafetyChecker, clean_and_validate_sql, is_safe_select_query,
}
use secure_db_access_gateway.Sql.ReadOnly.{
  IsSafe, clean_and_validate_sql-eq-ok, is_safe_select_query-IsSafe,
}
use secure_db_access_gateway.Sql.Cleaner.{clean_sql}
use secure_db_access_gateway.Gateway.{GovernedQueryRequest, Services, Effect, executed, execute}
use secure_db_access_gateway.Gateway.Limits.{Quota}
use secure_db_access_gateway.Gateway.Masking.{Row}
use secure_db_access_gateway.Gateway.Governed.{Cleared, execute-Cleared}

-- What the parts above do not give: the tables and columns of a statement, the two rewrites, the
-- alias map, a number's text and the repository.
pub record Outside : Type 0 where
  pub tables_touched : String → List String
  pub referenced_columns : String → List String
  pub apply_row_restrictions : String → List (String × String) → Principal → Result String
  pub rewrite_masked_columns : String → List String → Result String
  pub select_alias_map : String → List (String × List String)
  pub decimal : ℕ → String
  pub execute_sql_statement : TenantDatabaseConfig → String → Result (List Row)

is_set_of_has_text : (s : String) → has_text s ≡ true → is_set s ≡ true
unfolding has_text strip lstrip rstrip
is_set_of_has_text String.[] h = ground arith
is_set_of_has_text (String.◌∷◌ c s) h = refl

ok_injective : (d e : PolicyDecision) → ok d ≡ ok e → d ≡ e
ok_injective d e h = ground arith

module _ (parsers : Parsers) (checker : DefaultSqlSafetyChecker)
    (bindings : List TenantDatabaseConfig) (evaluator : PolicyEvaluator) (outside : Outside) where
  -- GovernedQueryGateway.evaluate, of a statement that is not empty
  unfoldable pub evaluate_statement : Principal → String → String → Result PolicyDecision
  evaluate_statement who database_id sql = ok (
      evaluate evaluator who database_id (outside.tables_touched sql)
        (outside.referenced_columns sql))

  abbrev pub services : Services
  services = record {
    resolve = λ who id. resolve (resolver bindings) who (some id);
    clean_and_validate_sql = clean_and_validate_sql parsers checker;
    evaluate = evaluate_statement;
    apply_row_restrictions = outside.apply_row_restrictions;
    rewrite_masked_columns = outside.rewrite_masked_columns;
    select_alias_map = outside.select_alias_map;
    decimal = outside.decimal;
    execute_sql_statement = outside.execute_sql_statement;
  }

  -- What stands behind a statement that reaches a database.
  pub record IsGoverned (req : GovernedQueryRequest) (b : TenantDatabaseConfig) (sql : String)
      : Type 0 where
    pub who : Principal
    pub cleaned : String
    pub decision : PolicyDecision
    pub restricted : String
    pub principal : req.principal ≡ some who
    pub configured : In b bindings
    pub own : b.org_id ≡ who.org_id
    -- the binding is the one that the request resolves to
    pub bound : resolve (resolver bindings) who (some req.database_id) ≡ ok b
    -- what was cleaned is the statement of the request, and the checker accepted it
    pub cleaned_from : clean_sql req.sql ≡ ok cleaned
    pub accepted : is_safe_select_query parsers checker cleaned ≡ true
    pub safe : IsSafe parsers checker cleaned
    pub permitted :
        evaluator.enabled ≡ true
        → Permits evaluator who req.database_id
            (outside.tables_touched cleaned)
            (outside.referenced_columns cleaned)
    pub rows : outside.apply_row_restrictions cleaned decision.row_restrictions who ≡ ok restricted
    pub masks : outside.rewrite_masked_columns restricted decision.masked_columns ≡ ok sql
    pub allowed : decision.allowed ≡ true
    pub decided :
        evaluate evaluator who req.database_id
          (outside.tables_touched cleaned)
          (outside.referenced_columns cleaned)
        ≡ decision

  IsGoverned-of :
      (req : GovernedQueryRequest) (b : TenantDatabaseConfig) (sql : String)
      → Cleared services req b sql
      → IsGoverned req b sql
  unfolding evaluate_statement
  IsGoverned-of req b sql c =
      let (cleaned_from, accepted) =
        clean_and_validate_sql-eq-ok parsers checker req.sql c.cleaned c.safe in
      let safe = is_safe_select_query-IsSafe parsers checker c.cleaned accepted in
      let (configured, own, id) = resolve_own bindings c.who (some req.database_id) b c.bound in
      let statement : (if is_set c.cleaned then c.cleaned else req.sql) ≡ c.cleaned =
        ground (arith, is_set_of_has_text c.cleaned safe.given) in
      let decided : evaluate evaluator c.who req.database_id (outside.tables_touched c.cleaned)
            (outside.referenced_columns c.cleaned)
          ≡ c.decision =
        ok_injective _ _ (
          subst (λ s. evaluate_statement c.who req.database_id s ≡ ok c.decision) statement
            c.decided) in
      record {
        who = c.who;
        cleaned = c.cleaned;
        decision = c.decision;
        restricted = c.restricted;
        principal = c.principal;
        configured = configured;
        own = own;
        bound = c.bound;
        cleaned_from = cleaned_from;
        accepted = accepted;
        safe = safe;
        allowed = c.allowed;
        permitted = λ on.
            (evaluate_iff_Permits evaluator c.who req.database_id (outside.tables_touched c.cleaned)
                (outside.referenced_columns c.cleaned) on).0
              (ap (λ d. d.allowed) decided ∙ c.allowed);
        rows = c.rows;
        masks = c.masks;
        decided = decided;
      }

  -- The whole gateway: each statement that `execute` sends to a database, whatever the request and
  -- the load, goes to the configured binding, one of the principal's own organisation, that the
  -- request resolves to. It is the rewriting, by the evaluator's decision to allow, of what the
  -- cleaner makes of the request's SQL. The safety checker accepted that cleaned statement, and the
  -- policies permit its tables and columns to this principal, if a policy document is configured.
  pub execute-IsGoverned :
      (req : GovernedQueryRequest) (in_time : Bool) (b : TenantDatabaseConfig) (sql : String)
      (q : Quota)
      → In (executed b sql) (execute services req in_time q).0.effects
      → IsGoverned req b sql
  execute-IsGoverned req in_time b sql q i =
      IsGoverned-of req b sql (execute-Cleared services req in_time b sql q i)
