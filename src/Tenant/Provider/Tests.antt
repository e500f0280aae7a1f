-- ===== src/Tenant/Provider/Tests.antt =====
-- Tests of sql_query_api/dependencies/tenant_service_provider.py on two organisations, one of them
-- with rotated credentials. A service is stood for by the connection string it was set up with.
use secure_db_access_gateway.Prelude.{
  String, none, some, List, [], ◌∷◌, false, ◌==◌, if◌then◌else◌, ◌≡◌, Result, ok, refl,
}
use secure_db_access_gateway.Prelude.Text.{concat, strip, lstrip, rstrip, has_text}
use secure_db_access_gateway.Prelude.Dict.{lookup, insert, pair_beq, pair_eq}
use secure_db_access_gateway.Auth.{Principal}
use secure_db_access_gateway.Tenant.{
  TenantDatabaseConfig, resolver, add_binding, resolve, only, is_valid_database_id,
  effective_connection_string, effective_target,
}
use secure_db_access_gateway.Tenant.Provider.{
  Settings, settings_of, provide, serve, get_container, set_up,
}
use secure_db_access_gateway.Tenant.Provider.Own.{
  provide_all, Request, UsedBy, IsSetUp, provide-IsSetUp, provide-again,
}

abbrev binding : String → TenantDatabaseConfig
binding org = record {
  org_id = org;
  database_id = "sales";
  credential_mode = if org == "acme" then "rotated" else "static";
  connection_string = "postgresql://db/x";
  replica_connection_string = none;
  use_read_replica = false;
  role_name = "reader";
  creds_dir = "";
  host = "";
  port = 5432;
  db_name = "";
  data_schema = "data";
  metadata_schema = "metadata";
  pool_size = none;
  max_overflow = none;
  pool_timeout = none;
  pool_recycle = none;
}

abbrev who : String → Principal
who org = record { user_id = "u"; email = "u@x.test"; org_id = org; roles = []; attributes = [] }

abbrev bindings : List TenantDatabaseConfig
bindings = binding "acme" ∷ binding "globex" ∷ []

abbrev setup_container : Settings → String
setup_container s = s.connection_string

abbrev written : String → String → String → Result String
written password org role = ok (concat "postgresql://u:" password)

abbrev requests : List Request
requests =
    (who "globex", some "sales", written "p1") ∷ (who "acme", some " sales ", written "p1") ∷ []

-- The password is p3 by now, and the service still has p1.
served :
    (provide setup_container
      (written "p3")
      (resolver bindings)
      (who "acme")
      (some "sales")
      (provide_all setup_container bindings requests [])).0
    ≡ ok (binding "acme", "postgresql://u:p1")
unfolding provide provide_all serve get_container set_up settings_of effective_connection_string
    effective_target lookup insert resolver add_binding resolve only is_valid_database_id strip
    lstrip rstrip has_text pair_beq
served = refl

provide-IsSetUp_example :
    (resolve (resolver bindings) (who "acme") (some "sales") ≡ ok (binding "acme"))
    × ("acme" ≡ (who "acme").org_id)
    × IsSetUp setup_container
        (UsedBy ((who "acme", some "sales", written "p3") ∷ requests))
        (binding "acme")
        "postgresql://u:p1"
provide-IsSetUp_example =
    provide-IsSetUp setup_container bindings requests (who "acme") (some "sales") (written "p3")
      (binding "acme") "postgresql://u:p1" served

first :
    (provide setup_container (written "p1") (resolver bindings) (who "acme") (some "sales") []).0
    ≡ ok (binding "acme", "postgresql://u:p1")
unfolding provide serve get_container set_up settings_of effective_connection_string
    effective_target lookup insert resolver add_binding resolve only is_valid_database_id strip
    lstrip rstrip has_text pair_beq
first = refl

provide-again_example :
    provide setup_container
      (written "p2")
      (resolver bindings)
      (who "acme")
      (some "sales")
      (provide setup_container (written "p1") (resolver bindings) (who "acme") (some "sales") []).1
    ≡ (
      ok (binding "acme", "postgresql://u:p1"),
      (provide setup_container (written "p1") (resolver bindings) (who "acme") (some "sales") []).1,
    )
provide-again_example =
    provide-again setup_container bindings (who "acme") (some "sales") (written "p1") (written "p2")
      [] (binding "acme") "postgresql://u:p1" first
