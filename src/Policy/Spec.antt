-- ===== src/Policy/Spec.antt =====
-- What a policy document permits, stated over the policies one by one, and that the evaluator of
-- sql_query_api/services/policy_engine.py decides exactly that.
use secure_db_access_gateway.Prelude.{
  String, any, Option-cases, eq_iff, ◌&&◌, ◌==◌, none, some, List, [], true, false, ◌≡◌, ◌↔◌,
  is_empty, arith, In, Bool-cases, inl, inr, ◌⊎◌, refl, ap, ◌∙◌,
}
use secure_db_access_gateway.Prelude.Member.{
  any_of_In, any-eq-true, is_empty-eq-false, is_empty_of_In,
}
use secure_db_access_gateway.Prelude.Text.{lower}
use secure_db_access_gateway.Auth.{Principal}
use secure_db_access_gateway.Policy.{
  Policy, PolicyEvaluator, in_scope, names_table, matches, applicable, denies_of, table_policies_of,
  row_restrictions_from, first_absent, evaluate,
}
use secure_db_access_gateway.Policy.Scopes.{Has}
use secure_db_access_gateway.Policy.Scopes.Deciding.{LastScopes, all_present}
use secure_db_access_gateway.Policy.Stages.{
  Passes, evaluate-Passes, Passes-evaluate, table_policies-In, In-table_policies, denies-In,
  In-denies, applicable-In, In-applicable, matches_named, named_of_none_missing, none_missing,
  listed_of_not_refused, not_refused,
}

-- An allow policy of the document that is in scope and names the table `t`, in lower case.
pub record Grants (e : PolicyEvaluator) (who : Principal) (db t : String) (p : Policy)
    : Type 0 where
  pub member : In p e.policies
  pub allows : p.effect ≡ "allow"
  pub scope : in_scope p who db "select" ≡ true
  pub table : p.table ≡ some (lower t)

module _ (e : PolicyEvaluator) (who : Principal) (db : String) (tables cols : List String) where
  -- The policy grants some table that is asked for.
  abbrev pub GrantsAsked : Policy → Type 0
  GrantsAsked p = (t : String) × In t tables × Grants e who db t p

  pub record Permits : Type 0 where
    -- some table is asked for
    pub asks : is_empty tables ≡ false
    -- no deny policy matches a table that is asked for
    pub undenied :
        (p : Policy) (t : String)
        → In p e.policies
        → In t tables
        → p.effect ≡ "deny"
        → matches p who db t ≡ false
    -- every table is named by an allow policy
    pub covered : (t : String) → In t tables → (p : Policy) × Grants e who db t p
    -- a referenced column is listed by an allow policy of some table asked for, unless none of
    -- these policies lists columns
    pub columns :
        (c : String)
        → In c cols
        → ((t : String) (p : Policy)
            → In t tables
            → Grants e who db t p
            → is_empty p.columns ≡ true)
          ⊎ ((t : String) × (p : Policy) × In t tables × Grants e who db t p × In c p.columns)
    -- for each column, the principal has the attribute by which the last policy of the document that
    -- grants a table asked for and scopes the column scopes it
    pub subject : (c a : String) → LastScopes GrantsAsked c a e.policies → Has who a

  fits :
      (p : Policy)
      → GrantsAsked p
      → (any (matches p who db) tables ≡ true) × ((p.effect == "allow" && names_table p) ≡ true)
  fits p (t, i, g) = (
    any_of_In (matches p who db) tables i
        ((matches_named p who db (lower t) t g.table).1 (g.scope, refl)),
    ground (arith, eq_iff p.effect "allow", g.allows, g.table),
  )

  of_fits :
      (p : Policy)
      → In p e.policies
      → any (matches p who db) tables ≡ true
      → (p.effect == "allow" && names_table p) ≡ true
      → GrantsAsked p
  of_fits p i h k =
      let (t, j, m) = any-eq-true (matches p who db) tables h in
      elim (Option-cases p.table) [
        | inl n ↦ absurd (ground arith)
        | inr (s, n) ↦
            let (scope, same) = (matches_named p who db s t n).0 m in
            let allows = (eq_iff p.effect "allow").0 (ground arith) in
            (t, j, record { member = i; allows = allows; scope = scope; table = n ∙ ap some same })
      ]

  -- The code's test of the collected row scopes is the one on the deciding policies.
  pub present_iff :
      (first_absent who
          (row_restrictions_from [] (table_policies_of (applicable e.policies who db tables)))
        ≡ none)
      ↔ ((c a : String) → LastScopes GrantsAsked c a e.policies → Has who a)
  unfolding applicable table_policies_of
  present_iff =
      all_present GrantsAsked (λ p. p.effect == "allow" && names_table p)
        (λ p. any (matches p who db) tables) fits who e.policies of_fits

  abbrev hits : List Policy
  hits = applicable e.policies who db tables

  abbrev relevant : List Policy
  relevant = table_policies_of hits

  Grants-relevant : (t : String) (p : Policy) → In t tables → Grants e who db t p → In p relevant
  Grants-relevant t p i g =
      In-table_policies p hits (lower t)
        (In-applicable who db tables p e.policies t g.member i
          ((matches_named p who db (lower t) t g.table).1 (g.scope, refl)))
        g.allows g.table

  relevant-Grants : (p : Policy) → In p relevant → (t : String) × In t tables × Grants e who db t p
  relevant-Grants p i =
      let (j, a, s, n) = table_policies-In p hits i in
      let (k, t, m, q) = applicable-In who db tables p e.policies j in
      let (c, l) = (matches_named p who db s t n).0 q in
      (t, m, record { member = k; allows = a; scope = c; table = n ∙ ap some l })

  Passes-Permits : is_empty tables ≡ false → Passes who hits tables cols → Permits
  Passes-Permits n h = record {
    asks = n;
    undenied = λ p t i j d. elim (Bool-cases (matches p who db t)) [
      | inr no_match ↦ no_match
      | inl hit ↦
          let found = In-denies p hits (In-applicable who db tables p e.policies t i j hit) d in
          let some_denies = is_empty_of_In found in ground (arith, h.none_denies)
    ];
    covered = λ t i.
        let (p, j, q) = named_of_none_missing relevant tables t h.tables_named i in
        let (u, k, g) = relevant-Grants p j in
        (p, record { member = g.member; allows = g.allows; scope = g.scope; table = q });
    columns = λ c i. elim (listed_of_not_refused relevant cols c h.columns_listed i) [
      | inl none_list ↦ inl (λ t p j g. none_list p (Grants-relevant t p j g))
      | inr (p, j, q) ↦ let (t, k, g) = relevant-Grants p j in inr (t, p, k, g, q)
    ];
    subject = present_iff.0 h.subject;
  }

  Permits-Passes : Permits → Passes who hits tables cols
  Permits-Passes h = record {
    none_denies = elim (Bool-cases (is_empty (denies_of hits))) [
      | inl none_denies ↦ none_denies
      | inr some_denies ↦
          let (p, i) = is_empty-eq-false (denies_of hits) some_denies in
          let (j, d) = denies-In p hits i in
          let (k, t, m, q) = applicable-In who db tables p e.policies j in
          let clear = h.undenied p t k m d in absurd (cc (q, clear))
    ];
    some_allow =
        let (t, i) = is_empty-eq-false tables h.asks in
        let (p, g) = h.covered t i in is_empty_of_In (Grants-relevant t p i g);
    tables_named =
        none_missing relevant tables
          λ t i. let (p, g) = h.covered t i in (p, Grants-relevant t p i g, g.table);
    columns_listed = not_refused relevant cols λ c i. elim (h.columns c i) [
      | inl none_list ↦ inl λ p j. let (t, k, g) = relevant-Grants p j in none_list t p k g
      | inr (t, p, k, g, q) ↦ inr (p, Grants-relevant t p k g, q)
    ];
    subject = present_iff.1 h.subject;
  }

  -- With the evaluator enabled, a request is allowed exactly when the document permits it: some
  -- table is asked for, no deny policy matches one of them, each is named by an allow policy in
  -- scope, the referenced columns are listed (unless no such policy lists columns), and the principal
  -- has, for each column with a row scope, the attribute of the last policy that scopes it. When
  -- several of these policies scope one column, the attributes of the earlier ones are not needed.
  pub evaluate_iff_Permits :
      e.enabled ≡ true → ((evaluate e who db tables cols).allowed ≡ true) ↔ Permits
  evaluate_iff_Permits on = (
    λ h. let (n, passes) = evaluate-Passes e on who db tables cols h in Passes-Permits n passes,
    λ h. Passes-evaluate e on who db tables cols h.asks (Permits-Passes h),
  )

-- Deny precedence: with the evaluator enabled, one deny policy of the document that matches one of
-- the tables makes the decision a refusal, whatever the other policies, tables and columns are.
pub deny_precedence :
    (e : PolicyEvaluator) (who : Principal) (db : String) (tables cols : List String) (p : Policy)
    (t : String)
    → e.enabled ≡ true
    → In p e.policies
    → In t tables
    → p.effect ≡ "deny"
    → matches p who db t ≡ true
    → (evaluate e who db tables cols).allowed ≡ false
deny_precedence e who db tables cols p t on i j d m =
    elim (Bool-cases (evaluate e who db tables cols).allowed) [
      | inr refused ↦ refused
      | inl allowed ↦
          let clear =
            ((evaluate_iff_Permits e who db tables cols on).0 allowed).undenied p t i j d in
          absurd (cc (m, clear))
    ]
