-- ===== src/Lib.antt =====
-- A verification library of the secure database access gateway: a Python service (`sql_query_api`)
-- that runs read-only SQL for authenticated tenants, the login service in front of it (`auth0_api`),
-- and the secrets that both read (`shared`). A GraphQL request passes the body budget, the
-- authentication layer and the rate limiter; the gateway then resolves the tenant's binding, waits for
-- a slot of the tenant's quota, cleans the statement, asks a policy evaluator, rewrites the statement
-- by its decision, executes it and masks the rows. Each of these is a module; the gateway takes the
-- parts that it calls as the record `Services`.
--
-- Which file models which part (paths from the repository's root):
-- - Auth, Auth/Claims: sql_query_api/auth.py. `Principal`, `extract_bearer_token`,
--   `build_principal_from_claims`, `validate_access_token`. Decoding a token is the parameter `decode`.
-- - Rbac, Rbac/Trust: sql_query_api/middlewares/rbac_middleware.py. `call` is `__call__`.
-- - RateLimit, RateLimit/Window, RateLimit/Admission:
--   sql_query_api/middlewares/rate_limit_middleware.py. A storage maps a key to the times of its
--   deque; `State` has the five storages.
-- - BodyLimit, BodyLimit/Budget: sql_query_api/middlewares/body_size_limit_middleware.py. The channel is
--   the list of the messages it will give.
-- - Policy, Policy/Stages, Policy/Scopes, Policy/Scopes/Deciding, Policy/Spec:
--   `PolicyEvaluator.evaluate` of sql_query_api/services/policy_engine.py, and its specification
--   `Permits`, stated on the policies of the document one by one.
-- - Policy/Access, Policy/Access/Scan, Policy/Access/Mirror: `effective_access` of the same file.
-- - Policy/Document: `Policy.from_dict` and `PolicyEvaluator.from_environment` of the same file.
-- - Opa, Opa/Config, Opa/FailClosed: sql_query_api/services/opa_policy_engine.py.
-- - Tenant, Tenant/Isolation: sql_query_api/services/tenant_database_resolver.py. Tenant/Parse,
--   Tenant/Parse/Entry, Tenant/Parse/Owner: `_parse_bindings` of the same file.
-- - Tenant/Rotated, Tenant/Rotated/Cache: sql_query_api/config/rotated_creds.py.
-- - Tenant/Provider, Tenant/Provider/Connects, Tenant/Provider/Own:
--   sql_query_api/dependencies/tenant_service_provider.py.
-- - Sql/Cleaner, Sql/Checker, Sql/Rules, Sql/Analyzer, Sql/ReadOnly:
--   sql_query_api/repositories/sql_validators. Sql/Tree has the tokens and trees that the two parsers
--   give: a node has a kind, names, its selected expressions and its children. A hint comment has its
--   own token types, which the comment rule does not name.
-- - Repository/Cost, Repository/Limit, Repository/Fetch, Repository/Execute, Repository/Bounds:
--   sql_query_api/repositories/sql_query_repository.py. `fetch` is the loop over the cursor.
-- - Incident, Incident/State: sql_query_api/services/incident_response.py.
-- - Gateway, Gateway/Limits, Gateway/Slots, Gateway/Governed: sql_query_api/services/query_gateway.py.
--   `execute` is one request run alone, with its effects in order; `Step` is any interleaving of
--   requests on one quota. Gateway/Composed puts the pipeline together with the resolver, the checker
--   and the evaluator. Gateway/Masking: `mask_rows` of sql_query_api/services/policy_engine.py.
-- - Audit, Audit/Chain: `log_audit_event` of sql_query_api/config/app_logger.py.
--   Audit/Sinks, Audit/Sinks/Buffer: `S3AuditSink` and `CompositeAuditSink` of the same file.
-- - Correlation, Correlation/Identifier: sql_query_api/middlewares/correlation_middleware.py, and
--   `sanitize_correlation_id` of sql_query_api/config/app_logger.py.
-- - Introspection, Introspection/Visible: `introspect_schema` of
--   sql_query_api/routes/sql_query_controller.py.
-- - Encryption, Encryption/RoundTrip: sql_query_api/services/encryption.py.
-- - Secrets, Secrets/Sources: shared/shared_secrets/secrets.py.
-- - Csrf, Csrf/Origins, Csrf/Shown, Csrf/Layers: auth0_api/app/security/csrf.py, and `normalize_origin` of
--   auth0_api/app/utils/helpers.py.
-- - Session, Session/Lifetime: auth0_api/app/auth/session_store.py.
-- - Prelude: numbers, texts, dictionaries, JSON values, results that may be exceptions.
--
-- Conventions and bounds. Times and limits are natural numbers. Sets are lists. Python's exceptions
-- are the `raise` of `Result`. `lower` changes the ASCII letters only. JSON numbers are natural. Loops
-- are structural recursion, but for the loop over the database's cursor, which takes fuel: one more
-- than the rows of the cursor. The word characters of regular expressions and `upper` are those of
-- ASCII. Timeouts, limits and the threshold of the cost are natural. Not under the repository, and so
-- parameters: the token decoder, `str()` of a value that is not a text, `json.dumps` and `json.loads`,
-- SHA-256, `int()` of a header, URL parsing, the HTTP client of OPA, the Redis client, the S3 client,
-- AES-GCM and base64, the environment and the disk, the SQL parsers, and the database.
--
-- Not modelled: the rewrites by row scopes and masks, which rest on SQL parsers; the configuration
-- file of the tenants, whose values stay unchecked; the queries of the schema's introspection; the
-- CloudWatch sink and the clients of the key services; metrics, logging, routes, wiring, scripts, the
-- explorer and the web application.
mod Prelude
pub mod Auth
pub mod Rbac
pub mod Policy
pub mod Tenant
pub mod RateLimit
pub mod BodyLimit
pub mod Audit
pub mod Sql
pub mod Repository
pub mod Encryption
pub mod Introspection
pub mod Correlation
pub mod Incident
pub mod Gateway
pub mod Secrets
pub mod Opa
pub mod Csrf
pub mod Session
