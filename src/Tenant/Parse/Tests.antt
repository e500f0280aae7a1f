-- ===== src/Tenant/Parse/Tests.antt =====
-- Tests of `_parse_bindings` of sql_query_api/services/tenant_database_resolver.py on a document with
-- two organisations.
use secure_db_access_gateway.Prelude.{
  ℕ, String, none, some, [], ◌∷◌, false, Result, ok, raise, value_error, runtime_error, ◌≡◌, refl,
  In, here,
}
use secure_db_access_gateway.Prelude.Text.{strip, lstrip, rstrip, contains}
use secure_db_access_gateway.Prelude.Json.{
  Json, num, str, obj, Fields, end, field, fields, get, has_key,
}
use secure_db_access_gateway.Tenant.{TenantDatabaseConfig, init}
use secure_db_access_gateway.Tenant.Parse.{
  put, require_object, with_mode, entry_of, database_entries, nested_entries, is_single, entries_of,
  ids_of, required_connection, connection_value, replica_value, nested_replica, stripped,
  optional_number, pool_of, static_arguments, static_binding, rotated_arguments, rotated_given,
  rotated_binding, binding_of, bindings_of, parse_bindings, from_raw_config,
}
use secure_db_access_gateway.Tenant.Parse.Entry.{Content}
use secure_db_access_gateway.Tenant.Parse.Owner.{parse_bindings-owner}

abbrev number : Json → Result ℕ
number (num n) = ok n
number _ = raise (value_error "invalid literal")

abbrev shown_value : Json → String
shown_value v = "?"

-- The entry of `acme` says that it is of `globex`.
abbrev claims_globex : Fields
claims_globex =
    field "org_id" (str "globex")
      (field "url" (str " postgresql://db/a ") (field "pool_size" (num 5) end))

abbrev rotated_entry : Fields
rotated_entry =
    field "role_name" (str "reader") (field "host" (str "db") (field "db_name" (str " orders") end))

abbrev of_acme : Fields
of_acme = field "sales" (obj claims_globex) (field "orders" (obj rotated_entry) end)

abbrev parsed : Fields
parsed =
    field " acme" (obj of_acme)
      (field "globex" (obj (field "main" (str "postgresql://db/g") end)) end)

abbrev sales : TenantDatabaseConfig
sales = record {
  org_id = "acme";
  database_id = "sales";
  credential_mode = "static";
  connection_string = "postgresql://db/a";
  replica_connection_string = none;
  use_read_replica = false;
  role_name = "";
  creds_dir = "/creds";
  host = "";
  port = 5432;
  db_name = "";
  data_schema = "public";
  metadata_schema = "meta";
  pool_size = some 5;
  max_overflow = none;
  pool_timeout = none;
  pool_recycle = none;
}

abbrev orders : TenantDatabaseConfig
orders = record sales {
  database_id = "orders";
  credential_mode = "rotated";
  connection_string = "";
  role_name = "reader";
  host = "db";
  db_name = "orders";
  pool_size = none;
}

abbrev main : TenantDatabaseConfig
main = record sales {
  org_id = "globex";
  database_id = "main";
  connection_string = "postgresql://db/g";
  pool_size = none;
}

accepted :
    parse_bindings number shown_value "public" "meta" (obj parsed) ≡ ok (sales ∷ orders ∷ main ∷ [])
unfolding parse_bindings entries_of nested_entries database_entries entry_of with_mode put
    require_object bindings_of binding_of static_binding rotated_binding rotated_given stripped
    pool_of optional_number ids_of required_connection connection_value replica_value nested_replica
    static_arguments rotated_arguments init get has_key strip lstrip rstrip contains
accepted = refl

not_single : is_single parsed ≡ false
unfolding has_key
not_single = refl

parse_bindings-owner_example :
    (org_id : String) × (databases : Fields) × (database_id : String) × (v : Json) × In
      (org_id, obj databases)
      (fields parsed)
    × In (database_id, v) (fields databases)
    × ("acme" ≡ strip org_id)
    × ("sales" ≡ strip database_id)
    × (entry : Fields) × Content v entry
    × (binding_of number shown_value "public" "meta" entry ≡ ok sales)
parse_bindings-owner_example =
    parse_bindings-owner number shown_value "public" "meta" parsed (sales ∷ orders ∷ main ∷ [])
      sales not_single accepted (here refl)

no_connection :
    from_raw_config number shown_value "public" "meta"
      (λ s. some (obj (field "acme" (obj (field "sales" (obj end) end)) end)))
      "{}"
    ≡ raise (runtime_error "Tenant database configuration is invalid.")
unfolding from_raw_config parse_bindings entries_of nested_entries database_entries entry_of
    with_mode put require_object bindings_of binding_of static_binding pool_of optional_number
    ids_of required_connection connection_value replica_value nested_replica static_arguments init
    get has_key strip lstrip rstrip contains
no_connection = refl
