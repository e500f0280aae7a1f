-- ===== src/Introspection/Tests.antt =====
-- Tests of `introspect_schema` of sql_query_api/routes/sql_query_controller.py on two tables, one of
-- which the principal may see.
use secure_db_access_gateway.Prelude.{
  String, none, elem, List, [], ◌∷◌, true, false, Result, ok, raise, runtime_error, ◌≡◌, refl, here,
}
use secure_db_access_gateway.Prelude.Text.{
  lower, strip, lstrip, rstrip, strip_chars, contains, after_last,
}
use secure_db_access_gateway.Auth.{Principal}
use secure_db_access_gateway.Tenant.{TenantDatabaseConfig}
use secure_db_access_gateway.Policy.Access.{
  EffectiveAccess, table_accessible, column_accessible, normalize_identifier,
}
use secure_db_access_gateway.Introspection.{
  ColumnInfo, ForeignKeyInfo, TableInfo, key_visible, visible_part, visible_tables,
  introspect_schema,
}
use secure_db_access_gateway.Introspection.Visible.{
  IsShown, introspect_schema-IsShown, introspect_schema-evaluate,
}
use secure_db_access_gateway.Prelude.{some, ◌⊎◌, inl, ap, there, In}
use secure_db_access_gateway.Prelude.Json.{str, null}
use secure_db_access_gateway.Prelude.Member.{not-In-nil}
use secure_db_access_gateway.Prelude.Dict.{lookup, insert, string_eq}
use secure_db_access_gateway.Policy.{
  Policy, PolicyEvaluator, evaluate, matches, in_scope, first_absent, row_restrictions_from,
  table_policies_of, applicable, table_matches,
}
use secure_db_access_gateway.Policy.Access.{effective_access}
use native.Mathlib.Decide.{dec_le}

abbrev who : Principal
who = record { user_id = "u"; email = "u@x.test"; org_id = "acme"; roles = []; attributes = [] }

abbrev binding : TenantDatabaseConfig
binding = record {
  org_id = "acme";
  database_id = "sales";
  credential_mode = "static";
  connection_string = "postgresql://db/x";
  replica_connection_string = none;
  use_read_replica = false;
  role_name = "";
  creds_dir = "";
  host = "";
  port = 5432;
  db_name = "";
  data_schema = "data";
  metadata_schema = "metadata";
  pool_size = none;
  max_overflow = none;
  pool_timeout = none;
  pool_recycle = none;
}

abbrev column : String → ColumnInfo
column name = record { name = name; type_name = "text"; nullable = true; is_primary = false }

abbrev to_secret : ForeignKeyInfo
to_secret = record {
  column = "title";
  foreign_schema = "public";
  foreign_table = "secret";
  foreign_column = "title";
}

abbrev album : TableInfo
album = record {
  name = "Album";
  schema_name = "public";
  columns = column "title" ∷ column "cost" ∷ [];
  foreign_keys = to_secret ∷ [];
}

abbrev secret : TableInfo
secret = record {
  name = "secret";
  schema_name = "public";
  columns = column "title" ∷ [];
  foreign_keys = [];
}

abbrev album_shown : TableInfo
album_shown = record album { columns = column "title" ∷ []; foreign_keys = [] }

abbrev view : EffectiveAccess
view = record {
  accessible_tables = "album" ∷ [];
  allowed_columns = "title" ∷ [];
  masked_columns = [];
  unrestricted = false;
}

abbrev introspect : TenantDatabaseConfig → Result (List TableInfo)
introspect b = ok (secret ∷ album ∷ [])

abbrev access_of : Principal → String → Result EffectiveAccess
access_of p id = ok view

only_album : (introspect_schema (ok (who, binding)) introspect access_of).0 ≡ ok (album_shown ∷ [])
unfolding introspect_schema visible_tables visible_part key_visible table_accessible
    column_accessible normalize_identifier lower strip lstrip rstrip strip_chars contains after_last
    dec_le elem
only_album = refl

-- An exception of any part is answered without its message.
nothing_leaks :
    (introspect_schema (ok (who, binding)) (λ b. raise (runtime_error "password=...")) access_of).0
    ≡ raise (runtime_error "Failed to introspect database schema.")
unfolding introspect_schema
nothing_leaks = refl

introspect_schema-IsShown_example : IsShown (ok (who, binding)) introspect access_of album_shown
introspect_schema-IsShown_example =
    introspect_schema-IsShown (ok (who, binding)) introspect access_of (album_shown ∷ [])
      album_shown only_album (here refl)

abbrev allow_album : Policy
allow_album = record {
  id = "allow-album";
  effect = "allow";
  org_id = str "acme";
  principal_id = null;
  roles = [];
  database_id = null;
  table = some "album";
  columns = "title" ∷ [];
  masked_columns = [];
  row_scope = [];
  action = "select";
}

abbrev document : PolicyEvaluator
document = record { policies = allow_album ∷ []; enabled = true }

effects : (p : Policy) → In p document.policies → (p.effect ≡ "allow") ⊎ (p.effect ≡ "deny")
effects p (here e) = inl (ap (λ (q : Policy). q.effect) e)
effects p (there h) = absurd (not-In-nil h)

album_viewed :
    (introspect_schema
      (ok (who, binding))
      introspect
      (λ p db. ok (effective_access document p db))).0
    ≡ ok (album_shown ∷ [])
unfolding introspect_schema visible_tables visible_part key_visible table_accessible
    column_accessible normalize_identifier lower strip lstrip rstrip strip_chars contains after_last
    dec_le elem effective_access matches in_scope lookup insert table_matches
album_viewed = refl

introspect_schema-evaluate_example :
    (evaluate document who "sales" ("Album" ∷ []) []).allowed ≡ true
unfolding normalize_identifier strip lower dec_le contains after_last strip_chars first_absent
    row_restrictions_from table_policies_of applicable table_matches matches in_scope elem
introspect_schema-evaluate_example =
    introspect_schema-evaluate document who binding introspect (album_shown ∷ []) album_shown refl
      effects refl refl album_viewed (here refl)
