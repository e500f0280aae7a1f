-- ===== src/Policy/Stages.antt =====
-- The guards of `evaluate` in sql_query_api/services/policy_engine.py, read off a decision.
use secure_db_access_gateway.Prelude.{
  String, none, some, List, [], Bool, true, false, not, ◌&&◌, ◌==◌, ◌≡◌, ◌↔◌, any, elem, is_empty,
  arith, In, Bool-cases, inl, inr, Option-cases, eq_iff, ◌⊎◌,
}
use secure_db_access_gateway.Prelude.Member.{
  is_empty_of_In, any-eq-true, any_of_In, any-eq-false, any-false, In-filter, filter-In, elem-In,
  In-elem,
}
use secure_db_access_gateway.Prelude.Text.{lower}
use secure_db_access_gateway.Auth.{Principal}
use secure_db_access_gateway.Policy.{
  Policy, PolicyEvaluator, in_scope, table_matches, matches, applicable, denies_of,
  table_policies_of, names_table, names, some_table_missing, column_refused, row_restrictions_from,
  first_absent, grant, decide_on, evaluate,
}

module _ (who : Principal) where
  -- The guards of `decide_on` all pass.
  pub record Passes (ps : List Policy) (tables cols : List String) : Type 0 where
    pub none_denies : is_empty (denies_of ps) ≡ true
    pub some_allow : is_empty (table_policies_of ps) ≡ false
    pub tables_named : some_table_missing (table_policies_of ps) tables ≡ false
    pub columns_listed : column_refused (table_policies_of ps) cols ≡ false
    pub subject : first_absent who (row_restrictions_from [] (table_policies_of ps)) ≡ none

  pub grant-allowed :
      (ps : List Policy)
      → ((grant who ps).allowed ≡ true) ↔ (first_absent who (row_restrictions_from [] ps) ≡ none)
  unfolding grant
  grant-allowed ps = ground arith

  pub decide_on-Passes :
      (ps : List Policy) (tables cols : List String)
      → (decide_on ps who tables cols).allowed ≡ true
      → Passes ps tables cols
  unfolding decide_on
  decide_on-Passes ps tables cols h = ground (arith, grant-allowed (table_policies_of ps))

  pub Passes-decide_on :
      (ps : List Policy) (tables cols : List String)
      → Passes ps tables cols
      → (decide_on ps who tables cols).allowed ≡ true
  unfolding decide_on
  Passes-decide_on ps tables cols h = ground (arith, grant-allowed (table_policies_of ps))

module _ (e : PolicyEvaluator) (on : e.enabled ≡ true) (who : Principal) (db : String) where
  pub evaluate-Passes :
      (tables cols : List String)
      → (evaluate e who db tables cols).allowed ≡ true
      → (is_empty tables ≡ false) × Passes who (applicable e.policies who db tables) tables cols
  unfolding evaluate
  evaluate-Passes tables cols h =
      ground (arith, decide_on-Passes who (applicable e.policies who db tables) tables cols)

  pub Passes-evaluate :
      (tables cols : List String)
      → is_empty tables ≡ false
      → Passes who (applicable e.policies who db tables) tables cols
      → (evaluate e who db tables cols).allowed ≡ true
  unfolding evaluate
  Passes-evaluate tables cols n h =
      ground (arith, Passes-decide_on who (applicable e.policies who db tables) tables cols)

-- The policies that the filters of `evaluate` keep.
pub table_policies-In :
    (p : Policy) (ps : List Policy)
    → In p (table_policies_of ps)
    → In p ps × (p.effect ≡ "allow") × (t : String) × (p.table ≡ some t)
unfolding table_policies_of
table_policies-In p ps h =
    let (i, q) = filter-In (λ (x : Policy). x.effect == "allow" && names_table x) ps h in
    elim (Option-cases p.table) [
      | inl n ↦ absurd (ground arith)
      | inr (t, e) ↦ (i, ground (arith, eq_iff p.effect "allow"), t, e)
    ]

pub In-table_policies :
    (p : Policy) (ps : List Policy) (t : String)
    → In p ps
    → p.effect ≡ "allow"
    → p.table ≡ some t
    → In p (table_policies_of ps)
unfolding table_policies_of
In-table_policies p ps t i a n =
    In-filter (λ (x : Policy). x.effect == "allow" && names_table x) ps i
      (ground (arith, eq_iff p.effect "allow"))

pub denies-In :
    (p : Policy) (ps : List Policy) → In p (denies_of ps) → In p ps × (p.effect ≡ "deny")
unfolding denies_of
denies-In p ps h =
    let (i, q) = filter-In (λ (x : Policy). x.effect == "deny") ps h in
    (i, (eq_iff p.effect "deny").0 q)

pub In-denies : (p : Policy) (ps : List Policy) → In p ps → p.effect ≡ "deny" → In p (denies_of ps)
unfolding denies_of
In-denies p ps i d =
    In-filter (λ (x : Policy). x.effect == "deny") ps i ((eq_iff p.effect "deny").1 d)

module _ (who : Principal) (db : String) (tables : List String) where
  pub applicable-In :
      (p : Policy) (ps : List Policy)
      → In p (applicable ps who db tables)
      → In p ps × (t : String) × In t tables × (matches p who db t ≡ true)
  unfolding applicable
  applicable-In p ps h =
      let (i, q) = filter-In (λ (x : Policy). any (matches x who db) tables) ps h in
      let (t, m, r) = any-eq-true (matches p who db) tables q in (i, t, m, r)

  pub In-applicable :
      (p : Policy) (ps : List Policy) (t : String)
      → In p ps
      → In t tables
      → matches p who db t ≡ true
      → In p (applicable ps who db tables)
  unfolding applicable
  In-applicable p ps t i j m =
      In-filter (λ (x : Policy). any (matches x who db) tables) ps i
        (any_of_In (matches p who db) tables j m)

-- A policy that names a table matches that table alone, up to its scope.
pub matches_named :
    (p : Policy) (who : Principal) (db s t : String)
    → p.table ≡ some s
    → (matches p who db t ≡ true) ↔ ((in_scope p who db "select" ≡ true) × (s ≡ lower t))
unfolding matches table_matches
matches_named p who db s t e = ground (arith, eq_iff s (lower t))

names-eq-true : (t : String) (p : Policy) → (names t p ≡ true) ↔ (p.table ≡ some t)
unfolding names
names-eq-true t p = elim (Option-cases p.table) [
  | inl n ↦ rw n (ground arith)
  | inr (s, n) ↦ rw n (ground (arith, eq_iff s t))
]

module _ (ps : List Policy) where
  pub named_of_none_missing :
      (tables : List String) (t : String)
      → some_table_missing ps tables ≡ false
      → In t tables
      → (p : Policy) × In p ps × (p.table ≡ some (lower t))
  unfolding some_table_missing
  named_of_none_missing tables t h i =
      let there_is = any-eq-false (λ u. not (any (names (lower u)) ps)) tables h i in
      let (p, j, q) = any-eq-true (names (lower t)) ps (ground arith) in
      (p, j, (names-eq-true (lower t) p).0 q)

  pub none_missing :
      (tables : List String)
      → ((t : String) → In t tables → (p : Policy) × In p ps × (p.table ≡ some (lower t)))
      → some_table_missing ps tables ≡ false
  unfolding some_table_missing
  none_missing tables h =
      any-false (λ u. not (any (names (lower u)) ps)) tables
        λ t i.
          let (p, j, q) = h t i in
          let there_is = any_of_In (names (lower t)) ps j ((names-eq-true (lower t) p).1 q) in
          ground arith

  abbrev lists_columns : Policy → Bool
  lists_columns p = not (is_empty p.columns)

  abbrev unlisted : String → Bool
  unlisted c = not (any (λ p. elem c p.columns) ps)

  pub listed_of_not_refused :
      (cols : List String) (c : String)
      → column_refused ps cols ≡ false
      → In c cols
      → ((p : Policy) → In p ps → is_empty p.columns ≡ true)
        ⊎ ((p : Policy) × In p ps × In c p.columns)
  unfolding column_refused
  listed_of_not_refused cols c h i = elim (Bool-cases (any lists_columns ps)) [
    | inl some_list ↦
        let none_unlisted : any unlisted cols ≡ false = ground (arith, is_empty_of_In i) in
        let listed = any-eq-false unlisted cols none_unlisted i in
        let (p, j, q) = any-eq-true (λ p. elem c p.columns) ps (ground arith) in
        inr (p, j, elem-In c p.columns q)
    | inr none_lists ↦
        inl λ p j. let no_list = any-eq-false lists_columns ps none_lists j in ground arith
  ]

  pub not_refused :
      (cols : List String)
      → ((c : String)
          → In c cols
          → ((p : Policy) → In p ps → is_empty p.columns ≡ true)
            ⊎ ((p : Policy) × In p ps × In c p.columns))
      → column_refused ps cols ≡ false
  unfolding column_refused
  not_refused cols h = elim (Bool-cases (any lists_columns ps)) [
    | inr none_lists ↦ ground arith
    | inl some_list ↦
        let listed : any unlisted cols ≡ false =
          any-false unlisted cols λ c i. listed_one c (h c i) some_list in
        ground arith
  ]
    where
      listed_one :
          (c : String)
          → (((p : Policy) → In p ps → is_empty p.columns ≡ true)
              ⊎ ((p : Policy) × In p ps × In c p.columns))
          → any lists_columns ps ≡ true
          → unlisted c ≡ false
      listed_one c (inl none_list) s =
          let (p, j, q) = any-eq-true lists_columns ps s in ground (arith, none_list p j)
      listed_one c (inr (p, j, q)) s =
          let found = any_of_In (λ p. elem c p.columns) ps j (In-elem c p.columns q) in ground arith
