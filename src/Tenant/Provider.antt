-- ===== src/Tenant/Provider.antt =====
-- sql_query_api/dependencies/tenant_service_provider.py: the services of the tenants, each set up
-- once. `setup_container` (dependencies/dependency_container.py) and what it makes are parameters: a
-- service `S` for the values that it is handed. A container always gives the one service it holds.
pub mod Connects
pub mod Own
mod Tests
use secure_db_access_gateway.Prelude.{
  ℕ, String, Option, none, some, List, [], ◌∷◌, Result, ok, raise, ◌>>=◌,
}
use secure_db_access_gateway.Prelude.Dict.{lookup, insert, pair_eq}
use secure_db_access_gateway.Auth.{Principal}
use secure_db_access_gateway.Tenant.{
  TenantDatabaseConfig, Bindings, key_of, resolve, effective_connection_string, effective_target,
}

-- The arguments of `setup_container`.
pub record Settings : Type 0 where
  pub connection_string : String
  pub data_schema : String
  pub metadata_schema : String
  pub tenant_org_id : String
  pub tenant_database_id : String
  pub database_target : String
  pub pool_size : Option ℕ
  pub max_overflow : Option ℕ
  pub pool_timeout : Option ℕ
  pub pool_recycle : Option ℕ

unfoldable pub settings_of : TenantDatabaseConfig → String → Settings
settings_of b connection_string = record {
  connection_string = connection_string;
  data_schema = b.data_schema;
  metadata_schema = b.metadata_schema;
  tenant_org_id = b.org_id;
  tenant_database_id = b.database_id;
  database_target = effective_target b;
  pool_size = b.pool_size;
  max_overflow = b.max_overflow;
  pool_timeout = b.pool_timeout;
  pool_recycle = b.pool_recycle;
}

module _ {S : Type 0} (setup_container : Settings → S)
    (rotated : String → String → Result String) where
  abbrev pub Containers : Type 0
  Containers = List ((String × String) × S)

  unfoldable pub set_up :
      TenantDatabaseConfig
      → Containers
      → Result String
      → Result (TenantDatabaseConfig × S) × Containers
  set_up b containers (raise e) = (raise e, containers)
  set_up b containers (ok connection_string) =
      let container = setup_container (settings_of b connection_string) in
      (ok (b, container), insert (key_of b) container containers)

  unfoldable pub get_container :
      TenantDatabaseConfig → Containers → Option S → Result (TenantDatabaseConfig × S) × Containers
  unfolding set_up
  get_container b containers (some container) = (ok (b, container), containers)
  get_container b containers none = set_up b containers (effective_connection_string rotated b)

  unfoldable pub serve :
      Containers → Result TenantDatabaseConfig → Result (TenantDatabaseConfig × S) × Containers
  unfolding get_container
  serve containers (raise e) = (raise e, containers)
  serve containers (ok b) = get_container b containers (lookup (key_of b) containers)

  -- TenantServiceProvider.resolve
  unfoldable pub provide :
      Bindings
      → Principal
      → Option String
      → Containers
      → Result (TenantDatabaseConfig × S) × Containers
  unfolding serve
  provide bindings who id containers = serve containers (resolve bindings who id)
