-- ===== src/Introspection/Visible.antt =====
-- What `introspect_schema` of sql_query_api/routes/sql_query_controller.py shows.
use secure_db_access_gateway.Prelude.{
  String, List, [], ◌∷◌, true, filter, map, Result, ok, raise, ◌≡◌, arith, refl, sym, subst, In,
  here, there, none, ◌⊎◌,
}
use secure_db_access_gateway.Prelude.Member.{filter-In}
use secure_db_access_gateway.Auth.{Principal}
use secure_db_access_gateway.Tenant.{TenantDatabaseConfig}
use secure_db_access_gateway.Prelude.Text.{lower}
use secure_db_access_gateway.Policy.{
  Policy, PolicyEvaluator, evaluate, first_absent, row_restrictions_from, table_policies_of,
  applicable,
}
use secure_db_access_gateway.Policy.Access.{
  EffectiveAccess, table_accessible, column_accessible, effective_access, normalize_identifier,
}
use secure_db_access_gateway.Policy.Access.Mirror.{table_accessible-evaluate}
use secure_db_access_gateway.Introspection.{
  ColumnInfo, ForeignKeyInfo, TableInfo, key_visible, visible_part, visible_tables, viewed,
  with_tables, with_context, introspect_schema,
}

ok-eq-ok : {A : Type 0} {a b : A} → ok a ≡ ok b → a ≡ b
ok-eq-ok h = cc

In-map :
    {A B : Type 0} (f : A → B) (xs : List A) {y : B}
    → In y (map f xs)
    → (x : A) × In x xs × (y ≡ f x)
In-map f [] i = elim i [ ]
In-map f (x ∷ xs) (here e) = (x, here refl, e)
In-map f (x ∷ xs) (there i) = let (z, j, e) = In-map f xs i in (z, there j, e)

-- A table shown, against the table of the database that it is a part of.
pub record IsPart (access : EffectiveAccess) (raw : List TableInfo) (t : TableInfo) : Type 0 where
  pub whole : TableInfo
  pub there_is : In whole raw
  pub same_name : t.name ≡ whole.name
  pub table_allowed : table_accessible access t.name ≡ true
  pub columns_allowed :
      (c : ColumnInfo)
      → In c t.columns
      → In c whole.columns × (column_accessible access t.name c.name ≡ true)
  pub keys_allowed :
      (k : ForeignKeyInfo)
      → In k t.foreign_keys
      → In k whole.foreign_keys
        × (column_accessible access t.name k.column ≡ true)
        × (table_accessible access k.foreign_table ≡ true)
        × (column_accessible access k.foreign_table k.foreign_column ≡ true)

visible_part-IsPart :
    (access : EffectiveAccess) (raw : List TableInfo) (whole : TableInfo)
    → In whole raw
    → table_accessible access whole.name ≡ true
    → IsPart access raw (visible_part access whole)
unfolding visible_part key_visible
visible_part-IsPart access raw whole i allowed = record {
  whole = whole;
  there_is = i;
  same_name = refl;
  table_allowed = allowed;
  columns_allowed = λ c j.
      filter-In (λ (d : ColumnInfo). column_accessible access whole.name d.name) whole.columns j;
  keys_allowed = λ k j.
      let (at, seen) = filter-In (key_visible access whole.name) whole.foreign_keys j in
      (at, ground (arith, seen), ground (arith, seen), ground (arith, seen));
}

visible_tables-IsPart :
    (access : EffectiveAccess) (raw : List TableInfo) (t : TableInfo)
    → In t (visible_tables access raw)
    → IsPart access raw t
unfolding visible_tables
visible_tables-IsPart access raw t i =
    let shows = λ (u : TableInfo). table_accessible access u.name in
    let (whole, j, e) = In-map (visible_part access) (filter shows raw) i in
    let (at, allowed) = filter-In shows raw j in
    subst (IsPart access raw) (sym e) (visible_part-IsPart access raw whole at allowed)

-- Where the tables of an answer come from.
pub record IsShown (request_context : Result (Principal × TenantDatabaseConfig))
    (introspect : TenantDatabaseConfig → Result (List TableInfo))
    (access_of : Principal → String → Result EffectiveAccess) (t : TableInfo) : Type 0 where
  pub who : Principal
  pub binding : TenantDatabaseConfig
  pub access : EffectiveAccess
  pub raw : List TableInfo
  pub asked : request_context ≡ ok (who, binding)
  pub found : introspect binding ≡ ok raw
  pub view : access_of who binding.database_id ≡ ok access
  pub part : IsPart access raw t

module _ (request_context : Result (Principal × TenantDatabaseConfig))
    (introspect : TenantDatabaseConfig → Result (List TableInfo))
    (access_of : Principal → String → Result EffectiveAccess) where
  viewed-IsShown :
      (who : Principal) (binding : TenantDatabaseConfig) (raw : List TableInfo)
      (r : Result EffectiveAccess) (tables : List TableInfo) (t : TableInfo)
      → request_context ≡ ok (who, binding)
      → introspect binding ≡ ok raw
      → access_of who binding.database_id ≡ r
      → (viewed request_context introspect access_of who binding raw r).0 ≡ ok tables
      → In t tables
      → IsShown request_context introspect access_of t
  unfolding viewed
  viewed-IsShown who binding raw (raise e) tables t asked found view h i = cc
  viewed-IsShown who binding raw (ok access) tables t asked found view h i =
      let same : visible_tables access raw ≡ tables = cc in
      record {
        who = who;
        binding = binding;
        access = access;
        raw = raw;
        asked = asked;
        found = found;
        view = view;
        part = visible_tables-IsPart access raw t (subst (λ l. In t l) (sym same) i);
      }

  with_tables-IsShown :
      (who : Principal) (binding : TenantDatabaseConfig) (r : Result (List TableInfo))
      (tables : List TableInfo) (t : TableInfo)
      → request_context ≡ ok (who, binding)
      → introspect binding ≡ r
      → (with_tables request_context introspect access_of who binding r).0 ≡ ok tables
      → In t tables
      → IsShown request_context introspect access_of t
  unfolding with_tables
  with_tables-IsShown who binding (raise e) tables t asked found h i = cc
  with_tables-IsShown who binding (ok raw) tables t asked found h i =
      viewed-IsShown who binding raw (access_of who binding.database_id) tables t asked found refl h
        i

  with_context-IsShown :
      (r : Result (Principal × TenantDatabaseConfig)) (tables : List TableInfo) (t : TableInfo)
      → request_context ≡ r
      → (with_context request_context introspect access_of r).0 ≡ ok tables
      → In t tables
      → IsShown request_context introspect access_of t
  unfolding with_context
  with_context-IsShown (raise e) tables t asked h i = cc
  with_context-IsShown (ok (who, binding)) tables t asked h i =
      with_tables-IsShown who binding (introspect binding) tables t asked refl h i

  -- A table that the schema query shows is a part of one of the resolved database, under the same
  -- name, and the principal's view has the table, each of its columns that is shown, and both ends of
  -- each foreign key that is shown.
  pub introspect_schema-IsShown :
      (tables : List TableInfo) (t : TableInfo)
      → (introspect_schema request_context introspect access_of).0 ≡ ok tables
      → In t tables
      → IsShown request_context introspect access_of t
  unfolding introspect_schema
  introspect_schema-IsShown tables t h i = with_context-IsShown request_context tables t refl h i

shown_accessible :
    (e : PolicyEvaluator) (who : Principal) (binding : TenantDatabaseConfig)
    (introspect : TenantDatabaseConfig → Result (List TableInfo)) (t : TableInfo)
    → IsShown (ok (who, binding)) introspect (λ p db. ok (effective_access e p db)) t
    → table_accessible (effective_access e who binding.database_id) t.name ≡ true
shown_accessible e who binding introspect t s =
    let same : effective_access e s.who s.binding.database_id ≡ s.access = ok-eq-ok s.view in
    let pair : (who, binding) ≡ (s.who, s.binding) = ok-eq-ok s.asked in
    let accessible =
      subst (λ a. table_accessible a t.name ≡ true) (sym same) s.part.table_allowed in
    subst (λ p. table_accessible (effective_access e p.0 p.1.database_id) t.name ≡ true) (sym pair)
      accessible

-- What the schema query shows can be queried: with the policy evaluator enabled and a document whose
-- effects are all `allow` or `deny`, `evaluate` allows the principal each table shown, alone and with
-- no column referenced, if the principal has the attributes that the table's row scopes need and the
-- table's normalised name is its lower-case name.
pub introspect_schema-evaluate :
    (e : PolicyEvaluator) (who : Principal) (binding : TenantDatabaseConfig)
    (introspect : TenantDatabaseConfig → Result (List TableInfo)) (tables : List TableInfo)
    (t : TableInfo)
    → e.enabled ≡ true
    → ((p : Policy) → In p e.policies → (p.effect ≡ "allow") ⊎ (p.effect ≡ "deny"))
    → normalize_identifier t.name ≡ lower t.name
    → first_absent who (
        row_restrictions_from []
          (table_policies_of (applicable e.policies who binding.database_id (t.name ∷ []))))
      ≡ none
    → (introspect_schema (ok (who, binding)) introspect (λ p db. ok (effective_access e p db))).0
      ≡ ok tables
    → In t tables
    → (evaluate e who binding.database_id (t.name ∷ []) []).allowed ≡ true
introspect_schema-evaluate e who binding introspect tables t on effects named present h i =
    let view = λ (p : Principal) (db : String). ok (effective_access e p db) in
    let shown : IsShown (ok (who, binding)) introspect view t =
      introspect_schema-IsShown (ok (who, binding)) introspect view tables t h i in
    table_accessible-evaluate e who binding.database_id on t.name effects named present
      (shown_accessible e who binding introspect t shown)
