-- ===== src/Tenant/Isolation.antt =====
-- What the resolver of sql_query_api/services/tenant_database_resolver.py can hand to a principal.
use secure_db_access_gateway.Prelude.{
  String, Option, List, [], ◌∷◌, ◌++◌, Bool, true, ◌==◌, ◌≡◌, ◌↔◌, filter, if◌then◌else◌, ok, arith,
  refl, In, here, Bool-cases, inl, inr, ap, sym, subst, ◌∙◌,
}
use secure_db_access_gateway.Prelude.Member.{filter-In}
use secure_db_access_gateway.Prelude.Text.{strip, has_text}
use secure_db_access_gateway.Prelude.Dict.{lookup, pair_eq, lookup-insert, pair_beq, pair_beq_iff}
use secure_db_access_gateway.Auth.{Principal}
use secure_db_access_gateway.Tenant.{
  TenantDatabaseConfig, Bindings, or_empty, or_text, key_of, add_binding, bindings_from, resolver,
  only, resolve, is_valid_database_id,
}
use mathlib.Core.List.{append_assoc, append-nil}

module _ (k : String × String) where
  abbrev pub keyed : TenantDatabaseConfig → Bool
  keyed b = pair_beq (key_of b) k

  lookup-add_binding :
      (b : TenantDatabaseConfig) (d : Bindings)
      → or_empty (lookup k (add_binding b d))
        ≡ (if keyed b then or_empty (lookup k d) ++ b ∷ [] else or_empty (lookup k d))
  unfolding add_binding
  lookup-add_binding b d = elim (Bool-cases (keyed b)) [
    | inl e ↦
        let same = (pair_beq_iff (key_of b) k).0 e in
        rw (lookup-insert, e) (ap (λ (j : String × String). or_empty (lookup j d) ++ b ∷ []) same)
    | inr e ↦ rw (lookup-insert, e) refl
  ]

  lookup-bindings_from :
      (d : Bindings) (bs : List TenantDatabaseConfig)
      → or_empty (lookup k (bindings_from d bs)) ≡ or_empty (lookup k d) ++ filter keyed bs
  unfolding bindings_from
  lookup-bindings_from d [] = sym (append-nil _)
  lookup-bindings_from d (b ∷ bs) = elim (Bool-cases (keyed b)) [
    | inl e ↦
        rw (lookup-bindings_from (add_binding b d) bs, lookup-add_binding b d, e)
          (append_assoc (or_empty (lookup k d)) (b ∷ []) (filter keyed bs))
    | inr e ↦ rw (lookup-bindings_from (add_binding b d) bs, lookup-add_binding b d, e) refl
  ]

  -- The dictionary gives under a key the bindings with that key, in the order of the configuration.
  pub lookup-resolver :
      (bs : List TenantDatabaseConfig) → or_empty (lookup k (resolver bs)) ≡ filter keyed bs
  unfolding resolver lookup
  lookup-resolver bs = lookup-bindings_from [] bs

only-eq-ok :
    (bs : List TenantDatabaseConfig) (c : TenantDatabaseConfig) → (only bs ≡ ok c) ↔ (bs ≡ c ∷ [])
unfolding only
only-eq-ok [] c = ground arith
only-eq-ok (b ∷ []) c = ground arith
only-eq-ok (b ∷ d ∷ bs) c = ground arith

module _ (bs : List TenantDatabaseConfig) (who : Principal) (id : Option String) where
  abbrev asked : String × String
  asked = (who.org_id, strip (or_text id))

  -- A principal is given a binding exactly when it belongs to an organisation, asks by a valid
  -- identifier, and the binding is the only one configured for that organisation under the trimmed
  -- identifier.
  pub resolve_iff :
      (c : TenantDatabaseConfig)
      → (resolve (resolver bs) who id ≡ ok c) ↔ (
          (has_text who.org_id ≡ true)
          × (is_valid_database_id (or_text id) ≡ true)
          × (filter (keyed asked) bs ≡ c ∷ []))
  unfolding resolve
  resolve_iff c =
      ground (arith, lookup-resolver asked bs, only-eq-ok (or_empty (lookup asked (resolver bs))) c)

  -- No principal is given a binding of another organisation, or one under another identifier, or
  -- one that the configuration does not hold.
  pub resolve_own :
      (c : TenantDatabaseConfig)
      → resolve (resolver bs) who id ≡ ok c
      → In c bs × (c.org_id ≡ who.org_id) × (c.database_id ≡ strip (or_text id))
  resolve_own c h =
      let (org, valid, single) = (resolve_iff c).0 h in
      let (i, q) = filter-In (keyed asked) bs (subst (λ l. In c l) (sym single) (here refl)) in
      let same = (pair_beq_iff (key_of c) asked).0 q in (i, ap (λ p. p.0) same, ap (λ p. p.1) same)

-- The bindings of an organisation.
abbrev of_org : String → List TenantDatabaseConfig → List TenantDatabaseConfig
of_org org bs = filter (λ b. b.org_id == org) bs

filter-keyed-of_org :
    (org id : String) (bs : List TenantDatabaseConfig)
    → filter (keyed (org, id)) bs ≡ filter (keyed (org, id)) (of_org org bs)
unfolding pair_beq
filter-keyed-of_org org id [] = refl
filter-keyed-of_org org id (b ∷ bs) = ground (arith, filter-keyed-of_org org id bs)

-- Tenant isolation: what a principal is answered, a binding or an error, depends only on the
-- bindings of its own organisation. Two configurations that agree on these answer alike, whatever
-- they hold for other organisations.
pub resolve_isolated :
    (bs cs : List TenantDatabaseConfig) (who : Principal) (id : Option String)
    → of_org who.org_id bs ≡ of_org who.org_id cs
    → resolve (resolver bs) who id ≡ resolve (resolver cs) who id
unfolding resolve
resolve_isolated bs cs who id h =
    let k : String × String = (who.org_id, strip (or_text id)) in
    let same =
      filter-keyed-of_org who.org_id (strip (or_text id)) bs
      ∙ ap (λ l. filter (keyed k) l) h
      ∙ sym (filter-keyed-of_org who.org_id (strip (or_text id)) cs) in
    cc (lookup-resolver k bs, lookup-resolver k cs, same)
