-- ===== src/Tenant/Provider/Connects.antt =====
-- The connection string and the settings of a binding, as `TenantServiceProvider.resolve` of
-- sql_query_api/dependencies/tenant_service_provider.py hands them to the container.
use secure_db_access_gateway.Prelude.{
  String, Option, none, some, true, ◌&&◌, ◌==◌, if◌then◌else◌, ◌≡◌, ◌≢◌, ◌⊎◌, Result, ok, arith,
  refl, sym, ap, ◌∙◌, Bool-cases, inl, inr, eq_iff,
}
use secure_db_access_gateway.Prelude.Text.{is_set}
use secure_db_access_gateway.Tenant.{
  TenantDatabaseConfig, or_text, is_given, effective_connection_string,
}
use secure_db_access_gateway.Tenant.Provider.{Settings, settings_of}

some_injective : (s t : String) → some s ≡ some t → s ≡ t
some_injective s t h = ground arith

-- What gives the connection string of an organisation's role at some time, or fails.
abbrev pub Credentials : Type 0
Credentials = String → String → Result String

-- The replica that a static binding connects to, if it has one and is to use it.
abbrev pub Replica : TenantDatabaseConfig → String → Type 0
Replica b connection_string =
    (b.use_read_replica ≡ true)
    × (b.replica_connection_string ≡ some connection_string)
    × (is_set connection_string ≡ true)

-- The connection string is the binding's own: its replica's, or else its primary's, or, if the mode is
-- not static, what used credentials give for its organisation and its role.
abbrev pub Connects : (Credentials → Type 0) → TenantDatabaseConfig → String → Type 0
Connects used b connection_string =
    ((b.credential_mode ≡ "static")
      × (Replica b connection_string
          ⊎ (((replica : String) → ¬ Replica b replica)
              × (connection_string ≡ b.connection_string))))
    ⊎ ((b.credential_mode ≢ "static")
        × (rotated : Credentials) × used rotated
        × (rotated b.org_id b.role_name ≡ ok connection_string))

-- The settings are those of the binding.
pub record OfBinding (used : Credentials → Type 0) (b : TenantDatabaseConfig) (settings : Settings)
    : Type 0 where
  pub connects : Connects used b settings.connection_string
  pub tenant_org_id : settings.tenant_org_id ≡ b.org_id
  pub tenant_database_id : settings.tenant_database_id ≡ b.database_id
  pub data_schema : settings.data_schema ≡ b.data_schema
  pub metadata_schema : settings.metadata_schema ≡ b.metadata_schema

pub settings_of-OfBinding :
    (used : Credentials → Type 0) (b : TenantDatabaseConfig) (connection_string : String)
    → Connects used b connection_string
    → OfBinding used b (settings_of b connection_string)
unfolding settings_of
settings_of-OfBinding used b connection_string connects = record {
  connects = connects;
  tenant_org_id = refl;
  tenant_database_id = refl;
  data_schema = refl;
  metadata_schema = refl;
}

static-Connects :
    (b : TenantDatabaseConfig) (connection_string : String) (replica : Option String)
    → b.replica_connection_string ≡ replica
    → (if b.use_read_replica && is_given replica
        then ok (or_text replica)
        else ok b.connection_string)
      ≡ ok connection_string
    → Replica b connection_string
      ⊎ (((other : String) → ¬ Replica b other) × (connection_string ≡ b.connection_string))
static-Connects b connection_string none e h =
    inr (λ other (_, r, _). let no : none ≡ some other = sym e ∙ r in cc, ground arith)
static-Connects b connection_string (some s) e h =
    elim (Bool-cases (b.use_read_replica && is_set s)) [
      | inl both ↦
          let same : s ≡ connection_string = ground arith in
          inl (ground arith, e ∙ ap some same, rw (← same) (ground arith))
      | inr not_both ↦ inr (
        λ other (u, r, set).
            let same : s ≡ other = some_injective s other (sym e ∙ r) in
            let is : is_set s ≡ true = rw same set in
            let both : (b.use_read_replica && is_set s) ≡ true = ground arith in
            absurd (cc (both, not_both)),
        ground arith,
      )
    ]

pub effective-Connects :
    (used : Credentials → Type 0) (rotated : Credentials) (b : TenantDatabaseConfig)
    (connection_string : String)
    → used rotated
    → effective_connection_string rotated b ≡ ok connection_string
    → Connects used b connection_string
unfolding effective_connection_string
effective-Connects used rotated b connection_string u h =
    elim (Bool-cases (b.credential_mode == "static")) [
      | inl static ↦ inl (
        (eq_iff b.credential_mode "static").0 static,
        static-Connects b connection_string b.replica_connection_string refl (rw static at h),
      )
      | inr other ↦ inr (
        λ e.
            let is_static = (eq_iff b.credential_mode "static").1 e in
            absurd (cc (is_static, other)),
        rotated,
        u,
        rw other at h,
      )
    ]
