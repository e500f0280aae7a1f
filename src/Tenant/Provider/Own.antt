-- ===== src/Tenant/Provider/Own.antt =====
-- Whose service a principal is given by sql_query_api/dependencies/tenant_service_provider.py.
use secure_db_access_gateway.Prelude.{
  String, Option, none, some, List, [], ◌∷◌, ◌≡◌, Result, ok, raise, arith, refl, In, here, there,
  subst, ap, ◌∙◌, Bool-cases, inl, inr,
}
use secure_db_access_gateway.Prelude.Member.{In-filter}
use secure_db_access_gateway.Prelude.Text.{strip}
use secure_db_access_gateway.Prelude.Dict.{
  lookup, insert, pair_eq, pair_beq, pair_beq_iff, lookup-insert, beq_refl,
}
use secure_db_access_gateway.Auth.{Principal}
use secure_db_access_gateway.Tenant.{
  TenantDatabaseConfig, or_text, key_of, resolver, resolve, effective_connection_string,
}
use secure_db_access_gateway.Tenant.Isolation.{resolve_iff, resolve_own, keyed}
use secure_db_access_gateway.Tenant.Provider.Connects.{
  Credentials, OfBinding, settings_of-OfBinding, effective-Connects,
}
use secure_db_access_gateway.Tenant.Provider.{
  Settings, settings_of, set_up, get_container, serve, provide,
}

-- One request: whose it is, which database it names, and the credentials at its time.
abbrev pub Request : Type 0
Request = Principal × Option String × Credentials

-- The credentials of one of the requests.
abbrev pub UsedBy : List Request → Credentials → Type 0
UsedBy requests rotated = (who : Principal) × (id : Option String) × In (who, id, rotated) requests

module _ {S : Type 0} (setup_container : Settings → S) where
  -- The service was set up for the binding, with a connection string of its own.
  abbrev pub IsSetUp : (Credentials → Type 0) → TenantDatabaseConfig → S → Type 0
  IsSetUp used b s =
      (settings : Settings) × OfBinding used b settings × (s ≡ setup_container settings)

  IsSetUp-of :
      (used : Credentials → Type 0) (rotated : Credentials) (b : TenantDatabaseConfig)
      (connection_string : String)
      → used rotated
      → effective_connection_string rotated b ≡ ok connection_string
      → IsSetUp used b (setup_container (settings_of b connection_string))
  IsSetUp-of used rotated b connection_string u e = (
    settings_of b connection_string,
    settings_of-OfBinding used b connection_string
        (effective-Connects used rotated b connection_string u e),
    refl,
  )

  -- Every service of the cache was set up for a configured binding with its key.
  abbrev pub AllSetUp :
      (Credentials → Type 0) → List TenantDatabaseConfig → List ((String × String) × S) → Type 0
  AllSetUp used bs containers =
      (k : String × String) (s : S)
      → lookup k containers ≡ some s
      → (b : TenantDatabaseConfig) × In b bs × (key_of b ≡ k) × IsSetUp used b s

  -- The cache after the requests.
  unfoldable pub provide_all :
      List TenantDatabaseConfig
      → List Request
      → List ((String × String) × S)
      → List ((String × String) × S)
  provide_all bs [] containers = containers
  provide_all bs ((who, id, rotated) ∷ rest) containers =
      provide_all bs rest (provide setup_container rotated (resolver bs) who id containers).1

  the_one : {c b : TenantDatabaseConfig} → In c (b ∷ []) → c ≡ b
  the_one (here e) = e
  the_one (there i) = elim i [ ]

  -- The binding that a principal is given is the only one with its key.
  resolve-only :
      (bs : List TenantDatabaseConfig) (who : Principal) (id : Option String)
      (b c : TenantDatabaseConfig)
      → resolve (resolver bs) who id ≡ ok b
      → In c bs
      → key_of c ≡ key_of b
      → c ≡ b
  resolve-only bs who id b c h i same =
      let (org, valid, single) = (resolve_iff bs who id b).0 h in
      let own = resolve_own bs who id b h in
      let asked : String × String = (who.org_id, strip (or_text id)) in
      let q : key_of c ≡ asked = same ∙ (λ k. (own.1 k, own.2 k)) in
      the_one (
        subst (λ l. In c l) single
          (In-filter (keyed asked) bs i ((pair_beq_iff (key_of c) asked).1 q)))

  module _ (used : Credentials → Type 0) where
    insert-AllSetUp :
        (bs : List TenantDatabaseConfig) (rotated : Credentials) (b : TenantDatabaseConfig)
        (connection_string : String) (containers : List ((String × String) × S))
        → used rotated
        → effective_connection_string rotated b ≡ ok connection_string
        → In b bs
        → AllSetUp used bs containers
        → AllSetUp used bs
            (insert (key_of b) (setup_container (settings_of b connection_string)) containers)
    insert-AllSetUp bs rotated b connection_string containers u e i inv k s h =
        elim (Bool-cases (pair_beq (key_of b) k)) [
          | inl own ↦
              let found =
                lookup-insert (key_of b) k (setup_container (settings_of b connection_string))
                  containers in
              (
                b,
                i,
                (pair_beq_iff (key_of b) k).0 own,
                let same : setup_container (settings_of b connection_string) ≡ s = ground arith in
                    subst (IsSetUp used b) same (IsSetUp-of used rotated b connection_string u e),
              )
          | inr other ↦
              let passed =
                lookup-insert (key_of b) k (setup_container (settings_of b connection_string))
                  containers in
              inv k s (ground arith)
        ]

    set_up-AllSetUp :
        (rotated : Credentials) (bs : List TenantDatabaseConfig)
        (containers : List ((String × String) × S)) (b : TenantDatabaseConfig) (r : Result String)
        → used rotated
        → effective_connection_string rotated b ≡ r
        → In b bs
        → AllSetUp used bs containers
        → AllSetUp used bs (set_up setup_container rotated b containers r).1
    unfolding set_up
    set_up-AllSetUp rotated bs containers b (raise e) u q i inv = inv
    set_up-AllSetUp rotated bs containers b (ok c) u q i inv =
        insert-AllSetUp bs rotated b c containers u q i inv

    get_container-AllSetUp :
        (rotated : Credentials) (bs : List TenantDatabaseConfig)
        (containers : List ((String × String) × S)) (b : TenantDatabaseConfig) (o : Option S)
        → used rotated
        → In b bs
        → AllSetUp used bs containers
        → AllSetUp used bs (get_container setup_container rotated b containers o).1
    unfolding get_container
    get_container-AllSetUp rotated bs containers b (some s) u i inv = inv
    get_container-AllSetUp rotated bs containers b none u i inv =
        set_up-AllSetUp rotated bs containers b (effective_connection_string rotated b) u refl i inv

    serve-AllSetUp :
        (rotated : Credentials) (bs : List TenantDatabaseConfig)
        (containers : List ((String × String) × S)) (r : Result TenantDatabaseConfig)
        → used rotated
        → ((b : TenantDatabaseConfig) → r ≡ ok b → In b bs)
        → AllSetUp used bs containers
        → AllSetUp used bs (serve setup_container rotated containers r).1
    unfolding serve
    serve-AllSetUp rotated bs containers (raise e) u from inv = inv
    serve-AllSetUp rotated bs containers (ok b) u from inv =
        get_container-AllSetUp rotated bs containers b (lookup (key_of b) containers) u
          (from b refl) inv

    provide-AllSetUp :
        (rotated : Credentials) (bs : List TenantDatabaseConfig) (who : Principal)
        (id : Option String) (containers : List ((String × String) × S))
        → used rotated
        → AllSetUp used bs containers
        → AllSetUp used bs (provide setup_container rotated (resolver bs) who id containers).1
    unfolding provide
    provide-AllSetUp rotated bs who id containers u inv =
        serve-AllSetUp rotated bs containers (resolve (resolver bs) who id) u
          (λ b h. (resolve_own bs who id b h).0) inv

    provide_all-AllSetUp :
        (bs : List TenantDatabaseConfig) (requests : List Request)
        (containers : List ((String × String) × S))
        → ((rotated : Credentials) → UsedBy requests rotated → used rotated)
        → AllSetUp used bs containers
        → AllSetUp used bs (provide_all bs requests containers)
    unfolding provide_all
    provide_all-AllSetUp bs [] containers u inv = inv
    provide_all-AllSetUp bs ((who, id, rotated) ∷ rest) containers u inv =
        provide_all-AllSetUp bs rest
          (provide setup_container rotated (resolver bs) who id containers).1
          (λ later (other, j, i). u later (other, j, there i))
          (provide-AllSetUp rotated bs who id containers (u rotated (who, id, here refl)) inv)

    -- A service that is set up now, or that the cache holds, was set up for the binding.
    set_up-IsSetUp :
        (rotated : Credentials) (containers : List ((String × String) × S))
        (b c : TenantDatabaseConfig) (s : S) (r : Result String)
        → used rotated
        → effective_connection_string rotated b ≡ r
        → (set_up setup_container rotated b containers r).0 ≡ ok (c, s)
        → (b ≡ c) × IsSetUp used b s
    unfolding set_up
    set_up-IsSetUp rotated containers b c s (raise e) u q h = cc
    set_up-IsSetUp rotated containers b c s (ok connection_string) u q h =
        let same : setup_container (settings_of b connection_string) ≡ s = cc in
        (cc, subst (IsSetUp used b) same (IsSetUp-of used rotated b connection_string u q))

    get_container-IsSetUp :
        (rotated : Credentials) (bs : List TenantDatabaseConfig) (who : Principal)
        (id : Option String) (containers : List ((String × String) × S))
        (b c : TenantDatabaseConfig) (s : S) (o : Option S)
        → used rotated
        → AllSetUp used bs containers
        → resolve (resolver bs) who id ≡ ok b
        → lookup (key_of b) containers ≡ o
        → (get_container setup_container rotated b containers o).0 ≡ ok (c, s)
        → (b ≡ c) × IsSetUp used b s
    unfolding get_container
    get_container-IsSetUp rotated bs who id containers b c s none u inv r e h =
        set_up-IsSetUp rotated containers b c s (effective_connection_string rotated b) u refl h
    get_container-IsSetUp rotated bs who id containers b c s (some t) u inv r e h =
        let (d, i, same, set_up_for) = inv (key_of b) t e in
        let one = resolve-only bs who id b d r i same in
        let given : t ≡ s = cc in
        (cc, subst (λ x. IsSetUp used x s) one (subst (IsSetUp used d) given set_up_for))

    serve-IsSetUp :
        (rotated : Credentials) (bs : List TenantDatabaseConfig) (who : Principal)
        (id : Option String) (containers : List ((String × String) × S)) (c : TenantDatabaseConfig)
        (s : S) (r : Result TenantDatabaseConfig)
        → used rotated
        → AllSetUp used bs containers
        → resolve (resolver bs) who id ≡ r
        → (serve setup_container rotated containers r).0 ≡ ok (c, s)
        → (resolve (resolver bs) who id ≡ ok c) × IsSetUp used c s
    unfolding serve
    serve-IsSetUp rotated bs who id containers c s (raise e) u inv q h = cc
    serve-IsSetUp rotated bs who id containers c s (ok b) u inv q h =
        let (same, t) =
          get_container-IsSetUp rotated bs who id containers b c s (lookup (key_of b) containers) u
            inv q refl h in
        (cc, subst (λ x. IsSetUp used x s) same t)

    empty-AllSetUp : {bs : List TenantDatabaseConfig} → AllSetUp used bs []
    unfolding lookup
    empty-AllSetUp k s h = cc

  -- After any requests from an empty cache, a principal that is given a binding and a service is
  -- given the binding that the configuration resolves for it, one of its own organisation, and a
  -- service that was set up with the schemas and the identifiers of this binding and with a
  -- connection string of its own: its replica's or its primary's if the mode is static, and else
  -- what the credentials at the time of this request or of an earlier one give for its
  -- organisation and its role.
  pub provide-IsSetUp :
      (bs : List TenantDatabaseConfig) (requests : List Request) (who : Principal)
      (id : Option String) (rotated : Credentials) (b : TenantDatabaseConfig) (s : S)
      → (provide setup_container rotated (resolver bs) who id (provide_all bs requests [])).0
        ≡ ok (b, s)
      → (resolve (resolver bs) who id ≡ ok b)
        × (b.org_id ≡ who.org_id)
        × IsSetUp (UsedBy ((who, id, rotated) ∷ requests)) b s
  unfolding provide
  provide-IsSetUp bs requests who id rotated b s h =
      let used : Credentials → Type 0 = UsedBy ((who, id, rotated) ∷ requests) in
      let held =
        provide_all-AllSetUp used bs requests [] (λ r (w, j, i). (w, j, there i))
          (empty-AllSetUp used) in
      let (r, t) =
        serve-IsSetUp used rotated bs who id (provide_all bs requests []) b s
          (resolve (resolver bs) who id) (who, id, here refl) held refl h in
      (r, (resolve_own bs who id b r).1, t)

  lookup-set_up :
      (rotated : String → String → Result String) (containers : List ((String × String) × S))
      (b c : TenantDatabaseConfig) (s : S) (r : Result String)
      → (set_up setup_container rotated b containers r).0 ≡ ok (c, s)
      → (b ≡ c) × (lookup (key_of b) (set_up setup_container rotated b containers r).1 ≡ some s)
  unfolding set_up
  lookup-set_up rotated containers b c s (raise e) h = cc
  lookup-set_up rotated containers b c s (ok connection_string) h =
      let made = setup_container (settings_of b connection_string) in
      (cc, ground (arith, lookup-insert (key_of b) (key_of b) made containers, beq_refl (key_of b)))

  lookup-get_container :
      (rotated : String → String → Result String) (containers : List ((String × String) × S))
      (b c : TenantDatabaseConfig) (s : S) (o : Option S)
      → lookup (key_of b) containers ≡ o
      → (get_container setup_container rotated b containers o).0 ≡ ok (c, s)
      → (b ≡ c)
        × (lookup (key_of b) (get_container setup_container rotated b containers o).1 ≡ some s)
  unfolding get_container
  lookup-get_container rotated containers b c s none e h =
      lookup-set_up rotated containers b c s (effective_connection_string rotated b) h
  lookup-get_container rotated containers b c s (some t) e h = (cc, cc)

  serve-again :
      (before after : String → String → Result String) (containers : List ((String × String) × S))
      (b : TenantDatabaseConfig) (s : S) (r : Result TenantDatabaseConfig)
      → (serve setup_container before containers r).0 ≡ ok (b, s)
      → serve setup_container after (serve setup_container before containers r).1 r
        ≡ (ok (b, s), (serve setup_container before containers r).1)
  unfolding serve
  serve-again before after containers b s (raise e) h = cc
  serve-again before after containers b s (ok c) h =
      let (same, kept) =
        lookup-get_container before containers c b s (lookup (key_of c) containers) refl h in
      let later =
        (get_container setup_container before c containers (lookup (key_of c) containers)).1 in
      rw kept (unfold get_container in ap (λ x. (ok (x, s), later)) same)

  -- A service once given for a principal is given again, whatever credentials are written by then:
  -- the second request does not read them.
  pub provide-again :
      (bs : List TenantDatabaseConfig) (who : Principal) (id : Option String)
      (before after : String → String → Result String) (containers : List ((String × String) × S))
      (b : TenantDatabaseConfig) (s : S)
      → (provide setup_container before (resolver bs) who id containers).0 ≡ ok (b, s)
      → provide setup_container after
          (resolver bs)
          who
          id
          (provide setup_container before (resolver bs) who id containers).1
        ≡ (ok (b, s), (provide setup_container before (resolver bs) who id containers).1)
  unfolding provide
  provide-again bs who id before after containers b s h =
      serve-again before after containers b s (resolve (resolver bs) who id) h
