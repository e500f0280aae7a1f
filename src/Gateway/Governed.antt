-- ===== src/Gateway/Governed.antt =====
-- What reaches a database through sql_query_api/services/query_gateway.py, and what comes back.
use secure_db_access_gateway.Prelude.{
  String, Option, none, some, List, [], ◌∷◌, Bool, true, if◌then◌else◌, Result, ok, raise,
  Bool-cases, inl, inr, ap, sym, ◌∙◌, Option-cases, ◌≡◌, arith, In, here, there, refl, ◌+◌, ◌-◌,
}
use secure_db_access_gateway.Prelude.Text.{has_text, is_set}
use secure_db_access_gateway.Prelude.Member.{not-In-nil}
use secure_db_access_gateway.Auth.{Principal}
use secure_db_access_gateway.Policy.{PolicyDecision}
use secure_db_access_gateway.Tenant.{TenantDatabaseConfig}
use secure_db_access_gateway.Gateway.Limits.{Quota, admit, acquire, leave}
use secure_db_access_gateway.Gateway.{
  GovernedQueryRequest, Services, Effect, overloaded, sql_query, executed, Traced, and_then,
  run_allowed, deny, govern, with_slot, in_queue, resolved, execute_as, execute,
}

module _ (sv : Services) where
  -- How a statement came to be executed: the request's principal was resolved to the binding, the
  -- cleaned statement was allowed, and what ran is its rewriting by the decision's restrictions and
  -- masks.
  pub record Cleared (req : GovernedQueryRequest) (binding : TenantDatabaseConfig) (sql : String)
      : Type 0 where
    pub who : Principal
    pub cleaned : String
    pub decision : PolicyDecision
    pub restricted : String
    pub principal : req.principal ≡ some who
    pub bound : sv.resolve who req.database_id ≡ ok binding
    pub safe : sv.clean_and_validate_sql req.sql ≡ ok cleaned
    pub decided :
        sv.evaluate who req.database_id (if is_set cleaned then cleaned else req.sql) ≡ ok decision
    pub allowed : decision.allowed ≡ true
    pub rows : sv.apply_row_restrictions cleaned decision.row_restrictions who ≡ ok restricted
    pub masks : sv.rewrite_masked_columns restricted decision.masked_columns ≡ ok sql

  abbrev Runs : TenantDatabaseConfig → String → List Effect → Type 0
  Runs binding sql es = In (executed binding sql) es

  abbrev AfterLift : {A B : Type 0} → Effect → Result A → (A → Traced B) → Type 0
  AfterLift {A} x r f = (a : A) × (r ≡ ok a) × In x (f a).effects

  -- An effect behind a call without effects is one of the rest.
  In-lift :
      {A B : Type 0} (x : Effect) (r : Result A) (f : A → Traced B)
      → In x (and_then r [] f).effects
      → AfterLift x r f
  unfolding and_then
  In-lift x (ok a) f h = (a, refl, h)
  In-lift x (raise e) f h = absurd (not-In-nil h)

  ran :
      (b binding : TenantDatabaseConfig) (sql exec org db : String) (rest : List Effect)
      → Runs b sql (sql_query org db exec ∷ executed binding exec ∷ rest)
      → ¬ Runs b sql rest
      → (b ≡ binding) × (sql ≡ exec)
  ran b binding sql exec org db rest (here e) none_later = cc
  ran b binding sql exec org db rest (there (here e)) none_later = (ground arith, ground arith)
  ran b binding sql exec org db rest (there (there h)) none_later = absurd (none_later h)

  run_allowed-Runs :
      (who : Principal) (b binding : TenantDatabaseConfig) (cleaned : String) (d : PolicyDecision)
      (sql : String)
      → Runs b sql (run_allowed sv who binding cleaned d).effects
      → (restricted : String) × (b ≡ binding)
        × (sv.apply_row_restrictions cleaned d.row_restrictions who ≡ ok restricted)
        × (sv.rewrite_masked_columns restricted d.masked_columns ≡ ok sql)
  unfolding run_allowed and_then
  run_allowed-Runs who b binding cleaned d sql h =
      let (restricted, e, i) =
        In-lift (executed b sql) (sv.apply_row_restrictions cleaned d.row_restrictions who) _ h in
      let (exec, k, j) =
        In-lift (executed b sql) (sv.rewrite_masked_columns restricted d.masked_columns) _ i in
      let (same, text) = ran b binding sql exec who.org_id binding.database_id _ j λ later.
        let (rows, m, n) =
          In-lift (executed b sql) (sv.execute_sql_statement binding exec) _ later in
        not-In-nil n in
      (restricted, same, e, k ∙ ap ok (sym text))

  deny-Runs :
      (who : Principal) (b binding : TenantDatabaseConfig) (d : PolicyDecision) (sql : String)
      → ¬ Runs b sql (deny sv who binding d).effects
  unfolding deny and_then
  deny-Runs who b binding d sql (here e) = cc
  deny-Runs who b binding d sql (there h) = not-In-nil h

  govern-Cleared :
      (req : GovernedQueryRequest) (who : Principal) (b binding : TenantDatabaseConfig)
      (sql : String)
      → req.principal ≡ some who
      → sv.resolve who req.database_id ≡ ok binding
      → Runs b sql (govern sv who req binding).effects
      → Cleared req b sql
  unfolding govern and_then
  govern-Cleared req who b binding sql p r h =
      let (cleaned, e, i) = In-lift (executed b sql) (sv.clean_and_validate_sql req.sql) _ h in
      let (d, k, j) =
        In-lift (executed b sql)
          (sv.evaluate who req.database_id (if is_set cleaned then cleaned else req.sql)) _ i in
      elim (Bool-cases d.allowed) [
        | inl allowed ↦
            let (restricted, same, m, n) =
              run_allowed-Runs who b binding cleaned d sql (rw allowed at j) in
            record {
              who = who;
              cleaned = cleaned;
              decision = d;
              restricted = restricted;
              principal = p;
              bound = r ∙ ap ok (sym same);
              safe = e;
              decided = k;
              allowed = allowed;
              rows = m;
              masks = n;
            }
        | inr refused ↦ absurd (deny-Runs who b binding d sql (rw refused at j))
      ]

  only_busy :
      {org db : String} (b : TenantDatabaseConfig) (sql : String)
      → ¬ Runs b sql (overloaded org db ∷ [])
  only_busy b sql (here e) = cc
  only_busy b sql (there h) = not-In-nil h

  module _ (req : GovernedQueryRequest) (in_time : Bool) (b : TenantDatabaseConfig)
      (sql : String) where
    with_slot-Cleared :
        (who : Principal) (binding : TenantDatabaseConfig) (q : Quota) (held : Option Quota)
        → req.principal ≡ some who
        → sv.resolve who req.database_id ≡ ok binding
        → Runs b sql (with_slot sv who req binding q held).0.effects
        → Cleared req b sql
    unfolding with_slot
    with_slot-Cleared who binding q none p r h = absurd (only_busy b sql h)
    with_slot-Cleared who binding q (some held) p r h = govern-Cleared req who b binding sql p r h

    in_queue-Cleared :
        (who : Principal) (binding : TenantDatabaseConfig) (q : Quota) (queued : Option Quota)
        → req.principal ≡ some who
        → sv.resolve who req.database_id ≡ ok binding
        → Runs b sql (in_queue sv who req binding in_time q queued).0.effects
        → Cleared req b sql
    unfolding in_queue
    in_queue-Cleared who binding q none p r h = absurd (only_busy b sql h)
    in_queue-Cleared who binding q (some queued) p r h =
        with_slot-Cleared who binding queued (if in_time then acquire queued else none) p r h

    resolved-Cleared :
        (who : Principal) (q : Quota) (r : Result TenantDatabaseConfig)
        → req.principal ≡ some who
        → sv.resolve who req.database_id ≡ r
        → Runs b sql (resolved sv who req in_time q r).0.effects
        → Cleared req b sql
    unfolding resolved
    resolved-Cleared who q (raise e) p r h = absurd (not-In-nil h)
    resolved-Cleared who q (ok binding) p r h = in_queue-Cleared who binding q (admit q) p r h

    execute_as-Cleared :
        (q : Quota) (who : Option Principal)
        → req.principal ≡ who
        → Runs b sql (execute_as sv req in_time q who).0.effects
        → Cleared req b sql
    unfolding execute_as
    execute_as-Cleared q none p h = absurd (not-In-nil h)
    execute_as-Cleared q (some who) p h = elim (Bool-cases (has_text req.sql)) [
      | inr blank ↦ absurd (not-In-nil (rw blank at h))
      | inl given ↦ resolved-Cleared who q (sv.resolve who req.database_id) p refl (rw given at h)
    ]

    -- A statement reaches a database only after the whole pipeline: whatever the request and the
    -- load, an execution that `execute` leaves behind is of a principal's statement that was cleaned,
    -- allowed by the policy decision, and rewritten by it, on the binding of that principal.
    pub execute-Cleared :
        (q : Quota) → In (executed b sql) (execute sv req in_time q).0.effects → Cleared req b sql
    unfolding execute
    execute-Cleared q h = execute_as-Cleared q req.principal refl h

  with_slot-quota :
      (who : Principal) (req : GovernedQueryRequest) (binding : TenantDatabaseConfig)
      (in_time : Bool) (q : Quota)
      → (with_slot sv who req binding q (if in_time then acquire q else none)).1
        ≡ record q { current_queued = q.current_queued - 1 }
  unfolding with_slot acquire leave
  with_slot-quota who req binding in_time q = ground arith

  in_queue-quota :
      (who : Principal) (req : GovernedQueryRequest) (binding : TenantDatabaseConfig)
      (in_time : Bool) (q : Quota)
      → (in_queue sv who req binding in_time q (admit q)).1 ≡ q
  unfolding in_queue admit
  in_queue-quota who req binding in_time q = ground (
    arith,
    with_slot-quota who req binding in_time (record q { current_queued = q.current_queued + 1 }),
  )

  resolved-quota :
      (who : Principal) (req : GovernedQueryRequest) (in_time : Bool) (q : Quota)
      (r : Result TenantDatabaseConfig)
      → (resolved sv who req in_time q r).1 ≡ q
  unfolding resolved
  resolved-quota who req in_time q (raise e) = refl
  resolved-quota who req in_time q (ok binding) = in_queue-quota who req binding in_time q

  -- Run alone, a request leaves the quota as it was, on every path: refused, timed out, denied,
  -- failed in a rewrite or in the database, or answered.
  pub execute-quota :
      (req : GovernedQueryRequest) (in_time : Bool) (q : Quota) → (execute sv req in_time q).1 ≡ q
  unfolding execute execute_as
  execute-quota req in_time q = elim (Option-cases req.principal) [
    | inl e ↦ rw (e, execute_as)
    | inr (who, e) ↦ elim (Bool-cases (has_text req.sql)) [
      | inl given ↦
          rw (e, execute_as, given)
            (resolved-quota who req in_time q (sv.resolve who req.database_id))
      | inr blank ↦ rw (e, execute_as, blank)
    ]
  ]
