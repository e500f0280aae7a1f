-- ===== src/Tenant.antt =====
-- sql_query_api/services/tenant_database_resolver.py: the binding of an organisation and a logical
-- database, and its resolution. The rotated credentials (config/rotated_creds.py) are the parameter
-- `rotated` of the connection string.
pub mod Isolation
pub mod Rotated
pub mod Provider
pub mod Parse
mod Tests
use Prim.Native.Char.{Char, code}
use Prim.Native.String.{count}
use secure_db_access_gateway.Prelude.{
  ℕ, String, Option, none, some, List, [], ◌∷◌, ◌++◌, Bool, true, false, not, ◌&&◌, ◌||◌, ◌==◌, leb,
  any, all, if◌then◌else◌, Result, ok, raise, raise_if, ◌>>=◌, ◌>>◌, Exception, value_error,
  resolution_error,
}
use secure_db_access_gateway.Prelude.Text
use secure_db_access_gateway.Prelude.Text.{strip, has_text, is_set, contains, remove_char}
use secure_db_access_gateway.Prelude.Dict.{lookup, insert, pair_eq}
use secure_db_access_gateway.Auth.{Principal}

pub record TenantDatabaseConfig : Type 0 where
  pub org_id : String
  pub database_id : String
  pub credential_mode : String
  pub connection_string : String
  pub replica_connection_string : Option String
  pub use_read_replica : Bool
  pub role_name : String
  pub creds_dir : String
  pub host : String
  pub port : ℕ
  pub db_name : String
  pub data_schema : String
  pub metadata_schema : String
  pub pool_size : Option ℕ
  pub max_overflow : Option ℕ
  pub pool_timeout : Option ℕ
  pub pool_recycle : Option ℕ

-- The arguments of `__init__`; `none` is the Python default `None`.
pub record Arguments : Type 0 where
  pub org_id : String
  pub database_id : String
  pub connection_string : Option String
  pub credential_mode : String
  pub replica_connection_string : Option String
  pub use_read_replica : Option Bool
  pub role_name : String
  pub creds_dir : String
  pub host : String
  pub port : ℕ
  pub db_name : String
  pub data_schema : String
  pub metadata_schema : String
  pub pool_size : Option ℕ
  pub max_overflow : Option ℕ
  pub pool_timeout : Option ℕ
  pub pool_recycle : Option ℕ

abbrev pub or_text : Option String → String
or_text none = ""
or_text (some s) = s

abbrev pub is_given : Option String → Bool
is_given none = false
is_given (some s) = is_set s

-- An unset replica switch follows the replica's connection string.
abbrev replica_switch : Option Bool → Option String → Bool
replica_switch (some b) r = b
replica_switch none r = is_given r

-- TenantDatabaseConfig.__init__: a connection string with a scheme is the legacy format, which
-- ignores the fields of the rotated mode. It ends without a call of `__post_init__`.
unfoldable pub init : Arguments → TenantDatabaseConfig
init a =
    let legacy = contains "://" (or_text a.connection_string) in
    record {
      org_id = a.org_id;
      database_id = a.database_id;
      credential_mode = if legacy then "static" else a.credential_mode;
      connection_string = or_text a.connection_string;
      replica_connection_string = a.replica_connection_string;
      use_read_replica = replica_switch a.use_read_replica a.replica_connection_string;
      role_name = if legacy then "" else a.role_name;
      creds_dir = a.creds_dir;
      host = if legacy then "" else a.host;
      port = if legacy then 5432 else a.port;
      db_name = if legacy then "" else a.db_name;
      data_schema = a.data_schema;
      metadata_schema = a.metadata_schema;
      pool_size = a.pool_size;
      max_overflow = a.max_overflow;
      pool_timeout = a.pool_timeout;
      pool_recycle = a.pool_recycle;
    }

is_digit : ℕ → Bool
is_digit c = leb b'0' c && leb c b'9'

is_letter : ℕ → Bool
is_letter c = (leb b'A' c && leb c b'Z') || (leb b'a' c && leb c b'z')

-- [A-Za-z0-9_.-]
unfoldable pub id_char : Char → Bool
unfolding is_digit is_letter
id_char c =
    is_letter (code c) || is_digit (code c) || any (Text.code_eq (code c)) (b'_' ∷ b'.' ∷ b'-' ∷ [])

unfoldable pub every_char : (Char → Bool) → String → Bool
every_char p String.[] = true
every_char p (String.◌∷◌ c s) = p c && every_char p s

-- ^[A-Za-z0-9][A-Za-z0-9_.-]{0,127}$
id_pattern : String → Bool
unfolding id_char every_char is_letter is_digit
id_pattern String.[] = false
id_pattern (String.◌∷◌ c s) =
    (is_letter (code c) || is_digit (code c)) && every_char id_char s && leb (count s) 127

unfoldable pub is_valid_database_id : String → Bool
unfolding id_pattern
is_valid_database_id s = id_pattern (strip s)

-- `s.replace("_", "").isalnum()`, for the ASCII letters and digits
unfoldable pub is_schema_name : String → Bool
unfolding every_char is_letter is_digit
is_schema_name s =
    let rest = remove_char b'_' s in
    is_set rest && every_char (λ c. is_letter (code c) || is_digit (code c)) rest

check_rotated : TenantDatabaseConfig → Result (Unit {0})
check_rotated c = do
  raise_if (not (is_set c.role_name)) (value_error "Rotated mode requires role_name.")
  raise_if (not (is_set c.host)) (value_error "Rotated mode requires host.")
  raise_if (not (is_set c.db_name)) (value_error "Rotated mode requires db_name.")

-- The checks of the two credential modes.
unfoldable pub check_mode : TenantDatabaseConfig → Result (Unit {0})
unfolding check_rotated
check_mode c =
    if c.credential_mode == "static"
    then raise_if (not (has_text c.connection_string))
        (value_error "Static mode requires connection_string.")
    else if c.credential_mode == "rotated"
    then check_rotated c
    else raise (value_error (Text.concat "Unknown credential_mode: " c.credential_mode))

-- TenantDatabaseConfig.__post_init__
unfoldable pub post_init : TenantDatabaseConfig → Result (Unit {0})
unfolding check_mode is_schema_name
post_init c = do
  raise_if (not (has_text c.org_id)) (value_error "org_id is required.")
  raise_if (not (has_text c.database_id)) (value_error "database_id is required.")
  raise_if (not (is_valid_database_id c.database_id))
      (value_error "Tenant database identifiers must be opaque logical identifiers.")
  raise_if (not (is_schema_name c.data_schema && is_schema_name c.metadata_schema))
      (value_error "Configured schema names must be valid identifiers.")
  check_mode c

-- TenantDatabaseConfig.effective_connection_string
unfoldable pub effective_connection_string :
    (String → String → Result String) → TenantDatabaseConfig → Result String
effective_connection_string rotated c =
    if c.credential_mode == "static"
    then if c.use_read_replica && is_given c.replica_connection_string
      then ok (or_text c.replica_connection_string)
      else ok c.connection_string
    else rotated c.org_id c.role_name

-- TenantDatabaseConfig.effective_target
unfoldable pub effective_target : TenantDatabaseConfig → String
effective_target c =
    if c.credential_mode == "static"
    then if c.use_read_replica && is_given c.replica_connection_string then "replica" else "primary"
    else "rotated"

abbrev pub Bindings : Type 0
Bindings = List ((String × String) × List TenantDatabaseConfig)

abbrev pub or_empty : Option (List TenantDatabaseConfig) → List TenantDatabaseConfig
or_empty none = []
or_empty (some bs) = bs

abbrev pub key_of : TenantDatabaseConfig → String × String
key_of b = (b.org_id, b.database_id)

-- self._bindings.setdefault(key, []).append(binding)
unfoldable pub add_binding : TenantDatabaseConfig → Bindings → Bindings
add_binding b d = insert (key_of b) (or_empty (lookup (key_of b) d) ++ b ∷ []) d

bindings_from : Bindings → List TenantDatabaseConfig → Bindings
unfolding add_binding
bindings_from d [] = d
bindings_from d (b ∷ bs) = bindings_from (add_binding b d) bs

-- TenantDatabaseResolver.__init__
unfoldable pub resolver : List TenantDatabaseConfig → Bindings
unfolding bindings_from
resolver bs = bindings_from [] bs

unfoldable pub only : List TenantDatabaseConfig → Result TenantDatabaseConfig
only [] = raise (resolution_error "Database is not available for this organisation.")
only (b ∷ []) = ok b
only (b ∷ c ∷ bs) = raise (resolution_error "Database configuration is ambiguous.")

-- TenantDatabaseResolver.resolve
unfoldable pub resolve : Bindings → Principal → Option String → Result TenantDatabaseConfig
unfolding only
resolve d who id =
    if not (has_text who.org_id)
    then raise (resolution_error "Authenticated organisation is required.")
    else if not (is_valid_database_id (or_text id))
    then raise (resolution_error "A valid logical database_id is required.")
    else only (or_empty (lookup (who.org_id, strip (or_text id)) d))
