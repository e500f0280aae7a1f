-- ===== src/Tenant/Parse/Owner.antt =====
-- Whose the bindings are that `_parse_bindings` of
-- sql_query_api/services/tenant_database_resolver.py reads, and what they hold.
use secure_db_access_gateway.Prelude.{
  ℕ, String, List, [], ◌∷◌, Bool, true, false, if◌then◌else◌, Result, ok, raise, Exception,
  >>=-eq-ok, ◌≡◌, ◌⊎◌, inl, inr, arith, refl, ap, sym, ◌∙◌, In, here, there, Bool-cases, subst,
}
use secure_db_access_gateway.Prelude.Text.{strip, is_set, contains}
use secure_db_access_gateway.Prelude.Json.{
  Json, null, bool, num, str, arr, obj, Fields, fields, get,
}
use secure_db_access_gateway.Tenant.{TenantDatabaseConfig, init}
use secure_db_access_gateway.Tenant.Parse.{
  get_or, is_text, nested_entries, is_single, entries_of, Pool, ids_of, required_connection,
  connection_value, stripped, pool_of, static_arguments, static_binding, rotated_arguments,
  rotated_given, rotated_binding, binding_of, bindings_of, parse_bindings,
}
use secure_db_access_gateway.Tenant.Parse.Entry.{
  ok-eq-ok, In-ok-nil, >>-eq-ok, In-cons, Names, Content, nested_entries-Within, entries_of-obj,
}

if-same : (t : Bool) (s : String) → (if t then s else s) ≡ s
if-same true s = refl
if-same false s = refl

abbrev pub IsUsable : TenantDatabaseConfig → Type 0
IsUsable b =
    ((b.credential_mode ≡ "static") × (is_set b.connection_string ≡ true))
    ⊎ (b.credential_mode ≡ "rotated")

module _ (number : Json → Result ℕ) (shown : Json → String)
    (data_schema metadata_schema : String) where
  -- A binding read from an entry has the trimmed identifiers of the entry.
  abbrev Keeps : Fields → TenantDatabaseConfig → Type 0
  Keeps entry b =
      (org_id database_id : String)
      → Names org_id database_id entry
      → (b.org_id ≡ strip org_id) × (b.database_id ≡ strip database_id)

  ids_of-Names :
      (org_id database_id : String) (entry : Fields) (ids : String × String)
      → Names org_id database_id entry
      → ids_of (get "org_id" entry) (get "database_id" entry) ≡ ok ids
      → (org_id, database_id) ≡ ids
  unfolding ids_of
  ids_of-Names org_id database_id entry ids (o, d) h = ok-eq-ok (
      ap (λ v. ids_of v (str database_id)) (sym o)
      ∙ ap (λ w. ids_of (get "org_id" entry) w) (sym d)
      ∙ h)

  kept :
      (org_id database_id : String) (ids : String × String) (b c : TenantDatabaseConfig)
      → (org_id, database_id) ≡ ids
      → c ≡ b
      → (c.org_id ≡ strip ids.0) × (c.database_id ≡ strip ids.1)
      → (b.org_id ≡ strip org_id) × (b.database_id ≡ strip database_id)
  kept org_id database_id ids b c same e (o, d) =
      subst (λ x. (x.org_id ≡ strip org_id) × (x.database_id ≡ strip database_id)) e
        (o ∙ ap (λ p. strip p.0) (sym same), d ∙ ap (λ p. strip p.1) (sym same))

  -- Behind a binding of the static mode, and behind one of the rotated mode.
  static_binding-eq-ok :
      (entry : Fields) (b : TenantDatabaseConfig)
      → static_binding number shown data_schema metadata_schema entry ≡ ok b
      → (pool : Pool) × (ids : String × String) × (connection : String) × (ids_of
            (get "org_id" entry)
            (get "database_id" entry)
          ≡ ok ids)
        × (required_connection (connection_value entry) ≡ ok connection)
        × (init
              (static_arguments number shown data_schema metadata_schema entry pool ids connection)
            ≡ b)
  unfolding static_binding
  static_binding-eq-ok entry b h =
      let (pool, hp, h1) = >>=-eq-ok (pool_of number shown data_schema metadata_schema entry) _ h in
      let (ids, hi, h2) = >>=-eq-ok (ids_of (get "org_id" entry) (get "database_id" entry)) _ h1 in
      let (connection, hc, h3) = >>=-eq-ok (required_connection (connection_value entry)) _ h2 in
      (pool, ids, connection, hi, hc, ok-eq-ok h3)

  rotated_binding-eq-ok :
      (entry : Fields) (b : TenantDatabaseConfig)
      → rotated_binding number shown data_schema metadata_schema entry ≡ ok b
      → (pool : Pool) × (ids : String × String) × (role_name : String) × (host : String)
        × (port : ℕ) × (db_name : String) × (ids_of (get "org_id" entry) (get "database_id" entry)
            ≡ ok ids)
        × (init (
              rotated_arguments number shown data_schema metadata_schema entry pool ids role_name
                host port db_name)
            ≡ b)
  unfolding rotated_binding
  rotated_binding-eq-ok entry b h =
      let (pool, hp, h1) = >>=-eq-ok (pool_of number shown data_schema metadata_schema entry) _ h in
      let (ids, hi, h2) = >>=-eq-ok (ids_of (get "org_id" entry) (get "database_id" entry)) _ h1 in
      let (_, hg, h3) =
        >>-eq-ok (rotated_given number shown data_schema metadata_schema entry) _ h2 in
      let (role_name, hr, h4) = >>=-eq-ok (stripped (get "role_name" entry)) _ h3 in
      let (host, hh, h5) = >>=-eq-ok (stripped (get "host" entry)) _ h4 in
      let (port, hn, h6) = >>=-eq-ok (number (get_or "port" (num 5432) entry)) _ h5 in
      let (db_name, hd, h7) = >>=-eq-ok (stripped (get "db_name" entry)) _ h6 in
      (pool, ids, role_name, host, port, db_name, hi, ok-eq-ok h7)

  static_binding-Keeps :
      (entry : Fields) (b : TenantDatabaseConfig)
      → static_binding number shown data_schema metadata_schema entry ≡ ok b
      → Keeps entry b
  unfolding init static_arguments
  static_binding-Keeps entry b h org_id database_id names =
      let (pool, ids, connection, hi, hc, e) = static_binding-eq-ok entry b h in
      kept org_id database_id ids b
        (init (static_arguments number shown data_schema metadata_schema entry pool ids connection))
        (ids_of-Names org_id database_id entry ids names hi) e (refl, refl)

  rotated_binding-Keeps :
      (entry : Fields) (b : TenantDatabaseConfig)
      → rotated_binding number shown data_schema metadata_schema entry ≡ ok b
      → Keeps entry b
  unfolding init rotated_arguments
  rotated_binding-Keeps entry b h org_id database_id names =
      let (pool, ids, role_name, host, port, db_name, hi, e) = rotated_binding-eq-ok entry b h in
      kept org_id database_id ids b
        (init (
          rotated_arguments number shown data_schema metadata_schema entry pool ids role_name host
            port db_name))
        (ids_of-Names org_id database_id entry ids names hi) e (refl, refl)

  required_connection-is_set :
      (v : Json) (connection : String)
      → required_connection v ≡ ok connection
      → is_set connection ≡ true
  unfolding required_connection
  required_connection-is_set (str s) connection h = elim (Bool-cases (is_set (strip s))) [
    | inl e ↦ ground arith
    | inr e ↦ ground arith
  ]
  required_connection-is_set null connection h = cc
  required_connection-is_set (bool b) connection h = cc
  required_connection-is_set (num n) connection h = cc
  required_connection-is_set (arr vs) connection h = cc
  required_connection-is_set (obj fs) connection h = cc

  static_binding-IsUsable :
      (entry : Fields) (b : TenantDatabaseConfig)
      → static_binding number shown data_schema metadata_schema entry ≡ ok b
      → IsUsable b
  unfolding init static_arguments
  static_binding-IsUsable entry b h =
      let (pool, ids, connection, hi, hc, e) = static_binding-eq-ok entry b h in
      subst IsUsable e (
        inl (
          if-same (contains "://" connection) "static",
          required_connection-is_set (connection_value entry) connection hc,
        ))

  rotated_binding-IsUsable :
      (entry : Fields) (b : TenantDatabaseConfig)
      → rotated_binding number shown data_schema metadata_schema entry ≡ ok b
      → IsUsable b
  unfolding init rotated_arguments contains
  rotated_binding-IsUsable entry b h =
      let (pool, ids, role_name, host, port, db_name, hi, e) = rotated_binding-eq-ok entry b h in
      subst IsUsable e (inr refl)

  -- What holds of the bindings of both modes holds of every binding that is read.
  module _ (P : Fields → TenantDatabaseConfig → Type 0)
      (of_static : (entry : Fields) (b : TenantDatabaseConfig)
        → static_binding number shown data_schema metadata_schema entry ≡ ok b
        → P entry b)
      (of_rotated : (entry : Fields) (b : TenantDatabaseConfig)
        → rotated_binding number shown data_schema metadata_schema entry ≡ ok b
        → P entry b) where
    never : {e : Exception} (entry : Fields) (b : TenantDatabaseConfig) → raise e ≡ ok b → P entry b
    never entry b h = cc

    binding_of_rule :
        (entry : Fields) (b : TenantDatabaseConfig)
        → binding_of number shown data_schema metadata_schema entry ≡ ok b
        → P entry b
    unfolding binding_of
    binding_of_rule entry b h =
        let mode = get_or "credential_mode" (str "static") entry in
        elim (Bool-cases (is_text "static" mode)) [
          | inl e ↦ of_static entry b (rw e at h)
          | inr e ↦ elim (Bool-cases (is_text "rotated" mode)) [
            | inl e2 ↦ of_rotated entry b (rw (e, e2) at h)
            | inr e2 ↦ never entry b (rw (e, e2) at h)
          ]
        ]

    bindings_of_rule :
        (entries : List Fields) (bs : List TenantDatabaseConfig)
        → bindings_of number shown data_schema metadata_schema entries ≡ ok bs
        → (b : TenantDatabaseConfig) → In b bs
        → (entry : Fields) × In entry entries
          × (binding_of number shown data_schema metadata_schema entry ≡ ok b)
          × P entry b
    unfolding bindings_of
    bindings_of_rule [] bs h b i = In-ok-nil h i
    bindings_of_rule (entry ∷ entries) bs h b i =
        let (first, hf, h1) =
          >>=-eq-ok (binding_of number shown data_schema metadata_schema entry) _ h in
        let (rest, hr, h2) =
          >>=-eq-ok (bindings_of number shown data_schema metadata_schema entries) _ h1 in
        elim (In-cons (subst (λ l. In b l) (sym (ok-eq-ok h2)) i)) [
          | inl same ↦ (
            entry,
            here refl,
            hf ∙ ap ok (sym same),
            subst (P entry) (sym same) (binding_of_rule entry first hf),
          )
          | inr j ↦
              let (e, at, read, p) = bindings_of_rule entries rest hr b j in (e, there at, read, p)
        ]

  -- The bindings of a nested configuration belong to the organisation and the database under whose
  -- keys they stand, trimmed, whatever the entry itself says. Each is what `binding_of` reads from an
  -- entry with the content of the very value that stands there: a text as the connection string, or an
  -- object's fields but for the identifiers and the mode.
  pub parse_bindings-owner :
      (fs : Fields) (bs : List TenantDatabaseConfig) (b : TenantDatabaseConfig)
      → is_single fs ≡ false
      → parse_bindings number shown data_schema metadata_schema (obj fs) ≡ ok bs
      → In b bs
      → (org_id : String) × (databases : Fields) × (database_id : String) × (v : Json) × In
          (org_id, obj databases)
          (fields fs)
        × In (database_id, v) (fields databases)
        × (b.org_id ≡ strip org_id)
        × (b.database_id ≡ strip database_id)
        × (entry : Fields) × Content v entry
        × (binding_of number shown data_schema metadata_schema entry ≡ ok b)
  unfolding parse_bindings
  parse_bindings-owner fs bs b nested h i =
      let (entries, he, h1) = >>=-eq-ok (entries_of (obj fs)) _ h in
      let found : nested_entries fs ≡ ok entries = sym (entries_of-obj fs nested) ∙ he in
      let (entry, j, read, keeps) =
        bindings_of_rule Keeps static_binding-Keeps rotated_binding-Keeps entries bs h1 b i in
      let (org_id, databases, database_id, v, within, at, content, names) =
        nested_entries-Within fs entries found entry j in
      let (o, d) = keeps org_id database_id names in
      (org_id, databases, database_id, v, within, at, o, d, entry, content, read)

  -- Every binding of a configuration that is accepted is of the static mode with a connection
  -- string that is not empty, or of the rotated mode.
  pub parse_bindings-IsUsable :
      (parsed : Json) (bs : List TenantDatabaseConfig) (b : TenantDatabaseConfig)
      → parse_bindings number shown data_schema metadata_schema parsed ≡ ok bs
      → In b bs
      → IsUsable b
  unfolding parse_bindings
  parse_bindings-IsUsable parsed bs b h i =
      let (entries, he, h1) = >>=-eq-ok (entries_of parsed) _ h in
      let (entry, j, read, usable) =
        bindings_of_rule (λ _ c. IsUsable c) static_binding-IsUsable rotated_binding-IsUsable
          entries bs h1 b i in
      usable
