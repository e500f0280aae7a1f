-- ===== src/Tenant/Rotated.antt =====
-- sql_query_api/config/rotated_creds.py: the credentials that a sidecar writes to a shared volume,
-- one file for each tenant and role, and the loader's cache of them. What a file of the volume gives
-- is an argument, since it changes while the program runs; the values of a file are not checked by
-- the program, so they stay JSON values. `shown` is Python's `str` of one. The lock is left out: a
-- call runs whole.
pub mod Cache
mod Tests
use secure_db_access_gateway.Prelude.{
  String, Option, none, some, List, [], ◌∷◌, Bool, true, false, ◌&&◌, if◌then◌else◌, Result, ok,
  raise, Exception, type_error, not_found_error, ◌>>=◌,
}
use secure_db_access_gateway.Prelude.Text.{concat}
use secure_db_access_gateway.Prelude.Dict.{lookup, insert, remove, string_eq}
use secure_db_access_gateway.Prelude.Json.{Json, obj, Fields, get, has_key}

pub record RotatedCredentials : Type 0 where
  pub tenant_id : Json
  pub role_name : Json
  pub database : Json
  pub username : Json
  pub password : Json
  pub rotated_at : Json
  pub host : Json
  pub port : Json

-- What opening and reading a file gives; `unreadable` is an OSError or a JSONDecodeError.
pub data FileContent : Type 0 where
  missing : FileContent
  unreadable : FileContent
  document : Json → FileContent

-- The files of the volume by their name without `.json`.
abbrev pub Volume : Type 0
Volume = String → FileContent

abbrev pub Cache : Type 0
Cache = List (String × RotatedCredentials)

-- f"{tenant_id}_{role_name}", the name of the file and the key of the cache
abbrev pub cache_key : String → String → String
cache_key tenant_id role_name = concat tenant_id (concat "_" role_name)

is_complete : Fields → Bool
is_complete fs =
    has_key "tenant_id" fs
    && has_key "role_name" fs
    && has_key "database" fs
    && has_key "username" fs
    && has_key "password" fs
    && has_key "rotated_at" fs
    && has_key "host" fs
    && has_key "port" fs

unfoldable pub credentials_of : Fields → RotatedCredentials
credentials_of fs = record {
  tenant_id = get "tenant_id" fs;
  role_name = get "role_name" fs;
  database = get "database" fs;
  username = get "username" fs;
  password = get "password" fs;
  rotated_at = get "rotated_at" fs;
  host = get "host" fs;
  port = get "port" fs;
}

-- A missing key is a KeyError, which is caught; a document that is no object raises a TypeError,
-- which is not.
unfoldable pub read_file : FileContent → Result (Option RotatedCredentials)
unfolding is_complete credentials_of
read_file missing = ok none
read_file unreadable = ok none
read_file (document (obj fs)) = ok (if is_complete fs then some (credentials_of fs) else none)
read_file (document v) = raise (type_error "indices must be integers")

-- RotatedCredentialLoader._load_file
unfoldable pub load_file : Volume → String → String → Result (Option RotatedCredentials)
unfolding read_file
load_file volume tenant_id role_name = read_file (volume (cache_key tenant_id role_name))

-- The message leaves out the directory.
unfoldable pub found :
    String → String → Cache → Option RotatedCredentials → Result RotatedCredentials × Cache
found tenant_id role_name cache none = (
  raise (
      not_found_error
        (concat "No rotated credentials found for " (concat tenant_id (concat "/" role_name)))),
  cache,
)
found tenant_id role_name cache (some creds) =
    (ok creds, insert (cache_key tenant_id role_name) creds cache)

unfoldable pub store_loaded :
    String → String → Cache → Result (Option RotatedCredentials) → Result RotatedCredentials × Cache
unfolding found
store_loaded tenant_id role_name cache (raise e) = (raise e, cache)
store_loaded tenant_id role_name cache (ok loaded) = found tenant_id role_name cache loaded

unfoldable pub use_cached :
    Volume → String → String → Cache → Option RotatedCredentials → Result RotatedCredentials × Cache
unfolding store_loaded load_file
use_cached volume tenant_id role_name cache none =
    store_loaded tenant_id role_name cache (load_file volume tenant_id role_name)
use_cached volume tenant_id role_name cache (some creds) = (ok creds, cache)

-- RotatedCredentialLoader.get_credentials
unfoldable pub get_credentials :
    Volume → String → String → Cache → Result RotatedCredentials × Cache
unfolding use_cached
get_credentials volume tenant_id role_name cache =
    use_cached volume tenant_id role_name cache (lookup (cache_key tenant_id role_name) cache)

-- RotatedCredentialLoader.invalidate_cache
unfoldable pub invalidate_cache : String → String → Cache → Cache
invalidate_cache tenant_id role_name cache = remove (cache_key tenant_id role_name) cache

-- The rotated mode of TenantDatabaseConfig.effective_connection_string: a new loader for each call.
unfoldable pub rotated_connection_string :
    (Json → String) → Volume → String → String → Result String
unfolding get_credentials
rotated_connection_string shown volume org_id role_name = do
  creds ← (get_credentials volume org_id role_name []).0
  ok (
      concat "postgresql+asyncpg://" (
        concat (shown creds.username) (
          concat ":" (
            concat (shown creds.password) (
              concat "@" (
                concat (shown creds.host)
                  (concat ":" (concat (shown creds.port) (concat "/" (shown creds.database))))))))))
