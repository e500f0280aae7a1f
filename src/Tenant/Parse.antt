-- ===== src/Tenant/Parse.antt =====
-- sql_query_api/services/tenant_database_resolver.py: the bindings that `_parse_bindings` reads from
-- the JSON document of TENANT_DATABASES_JSON. `number` is Python's `int` (for `pool_timeout`, its
-- `float`) of a JSON value, with a natural result; `shown` is Python's `str` of a value that is no
-- text. `data_schema` and `metadata_schema` are the defaults that the environment gives. A
-- `creds_dir` that is no text is kept as the text it is shown by.
pub mod Entry
pub mod Owner
mod Tests
use secure_db_access_gateway.Prelude.{
  ℕ, String, Option, none, some, List, [], ◌∷◌, ◌++◌, Bool, true, false, not, ◌&&◌, ◌==◌,
  if◌then◌else◌, Result, ok, raise, raise_if, ◌>>=◌, ◌>>◌, value_error, attribute_error,
  runtime_error, type_error, Exception,
}
use secure_db_access_gateway.Prelude.Text.{concat, strip, is_set}
use secure_db_access_gateway.Prelude.Json.{
  Json, null, bool, num, str, arr, obj, Items, nil, cons, Fields, end, field, truthy, get, has_key,
  or_else,
}
use secure_db_access_gateway.Tenant.{TenantDatabaseConfig, Arguments, Bindings, init, resolver}

-- fs[k] = v
unfoldable pub put : String → Json → Fields → Fields
put k v end = field k v end
put k v (field j w fs) = if j == k then field j v fs else field j w (put k v fs)

-- fs.get(k, default)
abbrev pub get_or : String → Json → Fields → Json
get_or k default fs = if has_key k fs then get k fs else default

abbrev pub is_text : String → Json → Bool
is_text t (str s) = s == t
is_text t _ = false

-- isinstance(value, dict)
unfoldable pub require_object : String → Json → Result Fields
require_object message (obj fs) = ok fs
require_object message _ = raise (value_error message)

unfoldable pub object_items : Items → Result (List Fields)
unfolding require_object
object_items nil = ok []
object_items (cons v vs) = do
  fs ← require_object "Tenant database entries must be objects." v
  rest ← object_items vs
  ok (fs ∷ rest)

-- The mode of an entry that names none.
unfoldable pub with_mode : Fields → Fields
unfolding put
with_mode entry =
    if has_key "credential_mode" entry
    then entry
    else put "credential_mode"
        (if has_key "connection_string" entry
          then str "static"
          else if has_key "role_name" entry
          then str "rotated"
          else str "static")
        entry

unfoldable pub entry_of : String → String → Json → Result Fields
unfolding put with_mode
entry_of org_id database_id (str s) = ok (
    field "org_id" (str org_id) (
      field "database_id" (str database_id)
        (field "connection_string" (str s) (field "credential_mode" (str "static") end))))
entry_of org_id database_id (obj fs) =
    ok (with_mode (put "database_id" (str database_id) (put "org_id" (str org_id) fs)))
entry_of org_id database_id _ =
    raise (value_error "Tenant database connection configuration is invalid.")

unfoldable pub database_entries : String → Fields → Result (List Fields)
database_entries org_id end = ok []
database_entries org_id (field database_id v rest) = do
  entry ← entry_of org_id database_id v
  more ← database_entries org_id rest
  ok (entry ∷ more)

unfoldable pub nested_entries : Fields → Result (List Fields)
nested_entries end = ok []
nested_entries (field org_id v rest) = do
  databases ← require_object "Tenant database mappings must be nested objects." v
  entries ← database_entries org_id databases
  more ← nested_entries rest
  ok (entries ++ more)

abbrev pub is_single : Fields → Bool
is_single fs = has_key "org_id" fs && has_key "database_id" fs

-- The first loop of `_parse_bindings`.
unfoldable pub entries_of : Json → Result (List Fields)
entries_of (arr vs) = object_items vs
entries_of (obj fs) = if is_single fs then ok (fs ∷ []) else nested_entries fs
entries_of _ = raise (value_error "Tenant database configuration must be a JSON object or array.")

pub record Pool : Type 0 where
  pub size : Option ℕ
  pub overflow : Option ℕ
  pub timeout : Option ℕ
  pub recycle : Option ℕ

-- isinstance(entry.get(key), str) for both keys
unfoldable pub ids_of : Json → Json → Result (String × String)
ids_of (str org_id) (str database_id) = ok (org_id, database_id)
ids_of _ _ = raise (value_error "Tenant database entries require org_id and database_id.")

unfoldable pub required_connection : Json → Result String
required_connection (str s) =
    if is_set (strip s)
    then ok (strip s)
    else raise (value_error "Static mode entries require connection_string.")
required_connection _ = raise (value_error "Static mode entries require connection_string.")

-- replica_connection_string.strip(), if that is a text with characters
abbrev replica_text : Json → Option String
replica_text (str s) = if is_set (strip s) then some (strip s) else none
replica_text _ = none

connection_value : Fields → Json
connection_value entry =
    or_else (or_else (get "connection_string" entry) (get "database_url" entry)) (get "url" entry)

-- The nested forms of the replica.
nested_replica : Json → Json → Json
unfolding connection_value
nested_replica found (obj fs) =
    or_else (or_else (or_else found (get "connection_string" fs)) (get "database_url" fs))
      (get "url" fs)
nested_replica found _ = found

unfoldable pub replica_value : Fields → Json
unfolding nested_replica
replica_value entry =
    let found =
      or_else
        (or_else
          (or_else (get "replica_connection_string" entry)
            (get "read_replica_connection_string" entry))
          (get "replica_url" entry))
        (get "read_replica_url" entry) in
    nested_replica (nested_replica found (get "replica" entry)) (get "read_replica" entry)

-- bool(use_read_replica), which an entry that leaves it out takes from its replica
abbrev use_replica : Json → Json → Bool
use_replica null replica = truthy replica
use_replica v replica = truthy v

-- value.strip()
unfoldable pub stripped : Json → Result String
stripped (str s) = ok (strip s)
stripped _ = raise (attribute_error "object has no attribute 'strip'")

module _ (number : Json → Result ℕ) (shown : Json → String)
    (data_schema metadata_schema : String) where
  -- int(value), unless it is None
  unfoldable pub optional_number : Json → Result (Option ℕ)
  optional_number null = ok none
  optional_number v = do n ← number v; ok (some n)

  unfoldable pub pool_of : Fields → Result Pool
  pool_of entry = do
    size ← optional_number (get "pool_size" entry)
    overflow ← optional_number (get "max_overflow" entry)
    timeout ← optional_number (get "pool_timeout" entry)
    recycle ← optional_number (get "pool_recycle" entry)
    ok (record { size = size; overflow = overflow; timeout = timeout; recycle = recycle })

  -- str(value)
  abbrev shown_text : Json → String
  shown_text (str s) = s
  shown_text v = shown v

  unfoldable pub static_arguments : Fields → Pool → String × String → String → Arguments
  unfolding replica_value
  static_arguments entry pool (org_id, database_id) connection = record {
    org_id = strip org_id;
    database_id = strip database_id;
    connection_string = some connection;
    credential_mode = "static";
    replica_connection_string = replica_text (replica_value entry);
    use_read_replica = some (use_replica (get "use_read_replica" entry) (replica_value entry));
    role_name = "";
    creds_dir = "/creds";
    host = "";
    port = 5432;
    db_name = "";
    data_schema = shown_text (get_or "data_schema" (str data_schema) entry);
    metadata_schema = shown_text (get_or "metadata_schema" (str metadata_schema) entry);
    pool_size = pool.size;
    max_overflow = pool.overflow;
    pool_timeout = pool.timeout;
    pool_recycle = pool.recycle;
  }

  unfoldable pub static_binding : Fields → Result TenantDatabaseConfig
  unfolding connection_value
  static_binding entry = do
    pool ← pool_of entry
    ids ← ids_of (get "org_id" entry) (get "database_id" entry)
    connection ← required_connection (connection_value entry)
    ok (init (static_arguments entry pool ids connection))

  unfoldable pub rotated_arguments :
      Fields → Pool → String × String → String → String → ℕ → String → Arguments
  rotated_arguments entry pool (org_id, database_id) role_name host port db_name = record {
    org_id = strip org_id;
    database_id = strip database_id;
    connection_string = none;
    credential_mode = "rotated";
    replica_connection_string = none;
    use_read_replica = none;
    role_name = role_name;
    creds_dir = shown_text (get_or "creds_dir" (str "/creds") entry);
    host = host;
    port = port;
    db_name = db_name;
    data_schema = shown_text (get_or "data_schema" (str data_schema) entry);
    metadata_schema = shown_text (get_or "metadata_schema" (str metadata_schema) entry);
    pool_size = pool.size;
    max_overflow = pool.overflow;
    pool_timeout = pool.timeout;
    pool_recycle = pool.recycle;
  }

  -- The three guards of the rotated mode.
  unfoldable pub rotated_given : Fields → Result (Unit {0})
  rotated_given entry = do
    raise_if (not (truthy (get "role_name" entry)))
        (value_error "Rotated mode entries require role_name.")
    raise_if (not (truthy (get "host" entry))) (value_error "Rotated mode entries require host.")
    raise_if (not (truthy (get "db_name" entry)))
        (value_error "Rotated mode entries require db_name.")

  unfoldable pub rotated_binding : Fields → Result TenantDatabaseConfig
  rotated_binding entry = do
    pool ← pool_of entry
    ids ← ids_of (get "org_id" entry) (get "database_id" entry)
    rotated_given entry
    role_name ← stripped (get "role_name" entry)
    host ← stripped (get "host" entry)
    port ← number (get_or "port" (num 5432) entry)
    db_name ← stripped (get "db_name" entry)
    ok (init (rotated_arguments entry pool ids role_name host port db_name))

  unfoldable pub binding_of : Fields → Result TenantDatabaseConfig
  binding_of entry =
      let mode = get_or "credential_mode" (str "static") entry in
      if is_text "static" mode
      then static_binding entry
      else if is_text "rotated" mode
      then rotated_binding entry
      else raise (value_error (concat "Unknown credential_mode: " (shown_text mode)))

  -- The second loop of `_parse_bindings`.
  unfoldable pub bindings_of : List Fields → Result (List TenantDatabaseConfig)
  bindings_of [] = ok []
  bindings_of (entry ∷ entries) = do b ← binding_of entry; bs ← bindings_of entries; ok (b ∷ bs)

  -- TenantDatabaseResolver._parse_bindings
  unfoldable pub parse_bindings : Json → Result (List TenantDatabaseConfig)
  parse_bindings parsed = do entries ← entries_of parsed; bindings_of entries

  -- except (TypeError, ValueError, json.JSONDecodeError)
  unfoldable pub as_invalid : Exception → Exception
  as_invalid (value_error m) = runtime_error "Tenant database configuration is invalid."
  as_invalid (type_error m) = runtime_error "Tenant database configuration is invalid."
  as_invalid e = e

  unfoldable pub checked_bindings : Result (List TenantDatabaseConfig) → Result Bindings
  unfolding as_invalid
  checked_bindings (raise e) = raise (as_invalid e)
  checked_bindings (ok []) =
      raise (runtime_error "Tenant database configuration must contain at least one mapping.")
  checked_bindings (ok (b ∷ bs)) = ok (resolver (b ∷ bs))

  -- TenantDatabaseResolver.from_environment without a configuration file, from the value that the
  -- environment or the secret gives; `loads` is `json.loads`, `none` a JSONDecodeError.
  unfoldable pub from_raw_config : (String → Option Json) → String → Result Bindings
  unfolding checked_bindings
  from_raw_config loads raw_config =
      if is_set raw_config
      then elim (loads raw_config) [
        | none ↦ raise (runtime_error "Tenant database configuration is invalid.")
        | some parsed ↦ checked_bindings (parse_bindings parsed)
      ]
      else raise (
          runtime_error
            "Tenant database configuration not found. Provide config file at /config/tenant_databases.json or set TENANT_DATABASES_JSON.")
