-- ===== src/Tenant/Rotated/Tests.antt =====
-- Tests of the loader of sql_query_api/config/rotated_creds.py on a volume with one file, which is
-- then rotated.
use secure_db_access_gateway.Prelude.{
  String, [], ◌==◌, if◌then◌else◌, ◌≡◌, ok, raise, not_found_error, refl,
}
use secure_db_access_gateway.Prelude.Dict.{lookup, insert, string_eq}
use secure_db_access_gateway.Prelude.Json.{Json, str, obj, Fields, end, field, get, has_key}
use secure_db_access_gateway.Tenant.Rotated.{
  RotatedCredentials, missing, document, Volume, credentials_of, load_file, read_file, store_loaded,
  use_cached, found, get_credentials, rotated_connection_string,
}
use secure_db_access_gateway.Tenant.Rotated.Cache.{get_credentials-shared}

abbrev written : String → Fields
written password = field "tenant_id" (str "org") (
    field "role_name" (str "a_read") (
      field "database" (str "orders") (
        field "username" (str "u1") (
          field "password" (str password) (
            field "rotated_at" (str "t0")
              (field "host" (str "db") (field "port" (str "5432") end)))))))

abbrev volume : String → Volume
volume password name = if name == "org_a_read" then document (obj (written password)) else missing

abbrev shown_text : Json → String
shown_text (str s) = s
shown_text _ = "5432"

abbrev given : RotatedCredentials
given = credentials_of (written "p1")

read_once : (get_credentials (volume "p1") "org" "a_read" []).0 ≡ ok given
unfolding get_credentials use_cached store_loaded load_file read_file found lookup insert
    credentials_of has_key get
read_once = refl

nothing_there :
    (get_credentials (volume "p1") "acme" "read" []).0
    ≡ raise (not_found_error "No rotated credentials found for acme/read")
unfolding get_credentials use_cached store_loaded load_file read_file found lookup
nothing_there = refl

connection :
    rotated_connection_string shown_text (volume "p1") "org" "a_read"
    ≡ ok "postgresql+asyncpg://u1:p1@db:5432/orders"
unfolding rotated_connection_string get_credentials use_cached store_loaded load_file read_file
    found lookup insert credentials_of has_key get
connection = refl

get_credentials-shared_example :
    get_credentials (volume "p1") "org_a" "read" []
    ≡ get_credentials (volume "p1") "org" "a_read" []
get_credentials-shared_example =
    get_credentials-shared (volume "p1") "org" "a_read" "org_a" "read" [] given refl read_once
