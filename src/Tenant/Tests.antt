-- ===== src/Tenant/Tests.antt =====
-- Tests of the resolver of sql_query_api/services/tenant_database_resolver.py on two organisations.
use secure_db_access_gateway.Prelude.{
  String, none, some, List, [], ◌∷◌, ◌≡◌, refl, ok, ◌↔◌, true, false, filter,
}
use secure_db_access_gateway.Prelude.Text.{strip, lstrip, rstrip, has_text}
use secure_db_access_gateway.Prelude.Dict.{lookup, insert, pair_beq, pair_eq}
use secure_db_access_gateway.Auth.{Principal}
use secure_db_access_gateway.Tenant.{
  TenantDatabaseConfig, resolver, add_binding, resolve, only, is_valid_database_id,
}
use secure_db_access_gateway.Tenant.Isolation.{resolve_iff, resolve_isolated}

abbrev binding : String → String → TenantDatabaseConfig
binding org id = record {
  org_id = org;
  database_id = id;
  credential_mode = "static";
  connection_string = "postgresql://db/x";
  replica_connection_string = none;
  use_read_replica = false;
  role_name = "";
  creds_dir = "";
  host = "";
  port = 5432;
  db_name = "";
  data_schema = "data";
  metadata_schema = "metadata";
  pool_size = none;
  max_overflow = none;
  pool_timeout = none;
  pool_recycle = none;
}

abbrev bob : Principal
bob = record {
  user_id = "auth0|bob";
  email = "bob@acme.test";
  org_id = "acme";
  roles = "viewer" ∷ [];
  attributes = [];
}

abbrev acme_default : TenantDatabaseConfig
acme_default = binding "acme" "default"

abbrev bindings : List TenantDatabaseConfig
bindings = binding "globex" "default" ∷ acme_default ∷ binding "acme" "sales" ∷ []

-- Another tenant is added: nothing changes for bob.
abbrev more_bindings : List TenantDatabaseConfig
more_bindings = acme_default ∷ binding "initech" "default" ∷ binding "acme" "sales" ∷ []

default_resolved : resolve (resolver bindings) bob (some " default") ≡ ok acme_default
unfolding resolve resolver add_binding only is_valid_database_id strip lstrip rstrip lookup insert
    pair_beq has_text
default_resolved = refl

resolve_iff_example : (resolve (resolver bindings) bob (some " default") ≡ ok acme_default) ↔ (
    (has_text "acme" ≡ true)
    × (is_valid_database_id " default" ≡ true)
    × (filter (λ b. pair_beq (b.org_id, b.database_id) ("acme", strip " default")) bindings
        ≡ acme_default ∷ []))
resolve_iff_example = resolve_iff bindings bob (some " default") acme_default

resolve_isolated_example :
    resolve (resolver bindings) bob (some "sales")
    ≡ resolve (resolver more_bindings) bob (some "sales")
resolve_isolated_example = resolve_isolated bindings more_bindings bob (some "sales") refl
