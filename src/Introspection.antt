-- ===== src/Introspection.antt =====
-- `introspect_schema` of sql_query_api/routes/sql_query_controller.py: the schema of a tenant's database
-- as far as the principal may see it. The context of the request, the repository's introspection and
-- the evaluator's view are parameters that may raise; logging is left out.
pub mod Visible
mod Tests
use secure_db_access_gateway.Prelude.{
  ℕ, String, List, [], ◌∷◌, Bool, true, false, not, ◌&&◌, filter, map, length, Result, ok, raise,
  runtime_error,
}
use secure_db_access_gateway.Auth.{Principal}
use secure_db_access_gateway.Tenant.{TenantDatabaseConfig}
use secure_db_access_gateway.Policy.Access.{EffectiveAccess, table_accessible, column_accessible}

pub record ColumnInfo : Type 0 where
  pub name : String
  pub type_name : String
  pub nullable : Bool
  pub is_primary : Bool

pub record ForeignKeyInfo : Type 0 where
  pub column : String
  pub foreign_schema : String
  pub foreign_table : String
  pub foreign_column : String

pub record TableInfo : Type 0 where
  pub name : String
  pub schema_name : String
  pub columns : List ColumnInfo
  pub foreign_keys : List ForeignKeyInfo

-- The condition on a foreign key: both ends may be seen.
unfoldable pub key_visible : EffectiveAccess → String → ForeignKeyInfo → Bool
key_visible access table key =
    column_accessible access table key.column
    && table_accessible access key.foreign_table
    && column_accessible access key.foreign_table key.foreign_column

-- The body of the loop, for a table that may be seen.
unfoldable pub visible_part : EffectiveAccess → TableInfo → TableInfo
visible_part access t = record {
  name = t.name;
  schema_name = t.schema_name;
  columns = filter (λ c. column_accessible access t.name c.name) t.columns;
  foreign_keys = filter (key_visible access t.name) t.foreign_keys;
}

unfoldable pub visible_tables : EffectiveAccess → List TableInfo → List TableInfo
unfolding visible_part
visible_tables access raw =
    map (visible_part access) (filter (λ t. table_accessible access t.name) raw)

-- The audit event `schema_introspection`.
pub record Introspected : Type 0 where
  pub user : String
  pub org_id : String
  pub database_id : String
  pub tables_viewed : ℕ
  pub policy_restricted : Bool

abbrev pub hidden : {A : Type 0} → Result A × List Introspected
hidden = (raise (runtime_error "Failed to introspect database schema."), [])

module _ (request_context : Result (Principal × TenantDatabaseConfig))
    (introspect : TenantDatabaseConfig → Result (List TableInfo))
    (effective_access : Principal → String → Result EffectiveAccess) where
  unfoldable pub viewed :
      Principal
      → TenantDatabaseConfig
      → List TableInfo
      → Result EffectiveAccess
      → Result (List TableInfo) × List Introspected
  viewed who binding raw (raise e) = hidden
  viewed who binding raw (ok access) =
      let tables = visible_tables access raw in
      (
        ok tables,
        record {
          user = who.email;
          org_id = who.org_id;
          database_id = binding.database_id;
          tables_viewed = length tables;
          policy_restricted = not access.unrestricted;
        }
            ∷ [],
      )

  unfoldable pub with_tables :
      Principal
      → TenantDatabaseConfig
      → Result (List TableInfo)
      → Result (List TableInfo) × List Introspected
  unfolding viewed
  with_tables who binding (raise e) = hidden
  with_tables who binding (ok raw) =
      viewed who binding raw (effective_access who binding.database_id)

  unfoldable pub with_context :
      Result (Principal × TenantDatabaseConfig) → Result (List TableInfo) × List Introspected
  unfolding with_tables
  with_context (raise e) = hidden
  with_context (ok (who, binding)) = with_tables who binding (introspect binding)

  -- Query.introspect_schema
  unfoldable pub introspect_schema : Result (List TableInfo) × List Introspected
  unfolding with_context
  introspect_schema = with_context request_context
