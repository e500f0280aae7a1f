-- ===== src/Policy/Access/Mirror.antt =====
-- The schema view of `effective_access` against the query path of `evaluate`, both in
-- sql_query_api/services/policy_engine.py.
use secure_db_access_gateway.Prelude.{
  String, none, some, List, [], ◌∷◌, Bool, true, false, not, ◌&&◌, ◌≡◌, any, elem, arith, eq_iff,
  refl, Option-cases, inl, inr, Bool-cases, ◌∙◌, sym, ap, In, eq_refl, ◌⊎◌, here, there, subst, ◌≢◌,
}
use secure_db_access_gateway.Prelude.Member.{
  any-false, any_of_In, any-eq-true, elem-filter, not-In-nil,
}
use secure_db_access_gateway.Prelude.Text.{lower, lower_idem}
use secure_db_access_gateway.Auth.{Principal}
use secure_db_access_gateway.Policy.{
  Policy, PolicyEvaluator, matches, in_scope, table_matches, evaluate, first_absent,
  row_restrictions_from, table_policies_of, applicable,
}
use secure_db_access_gateway.Policy.Spec.{Permits, Grants, present_iff, evaluate_iff_Permits}
use secure_db_access_gateway.Policy.Access.{
  effective_access, table_accessible, normalize_identifier, scan, tables_of, access_of_scan,
  empty_scan,
}
use secure_db_access_gateway.Policy.Access.Scan.{
  denies_all, denies_table, shows_table, scan-deny_all, scan-denied, scan-shown,
}

module _ (e : PolicyEvaluator) (who : Principal) (db : String) (on : e.enabled ≡ true) where
  -- A table is in the view exactly when no deny policy hides it or everything, and some other
  -- policy names it.
  accessible_lem :
      (t : String)
      → let u = normalize_identifier t in
        table_accessible (effective_access e who db) t ≡ (
          not (any (denies_all who db) e.policies)
          && (any (shows_table who db u) e.policies
              && not (any (denies_table who db u) e.policies)))
  unfolding table_accessible effective_access access_of_scan elem
  accessible_lem t =
      let u = normalize_identifier t in
      let found = scan who db e.policies empty_scan in
      ground (
        arith,
        scan-deny_all who db e.policies empty_scan,
        scan-denied who db u e.policies empty_scan,
        scan-shown who db u e.policies empty_scan,
        elem-filter (λ x. not (elem x found.denied_tables)) u (tables_of found.allow_by_table),
      )

  -- A policy of the document hides or shows a table as `matches` says.
  denies_all-matches :
      (p : Policy) (t : String)
      → denies_all who db p ≡ true
      → (p.effect ≡ "deny") × (matches p who db t ≡ true)
  unfolding matches table_matches
  denies_all-matches p t h = ground (arith, eq_iff p.effect "deny")

  denies_table-matches :
      (p : Policy) (t : String)
      → denies_table who db (lower t) p ≡ true
      → (p.effect ≡ "deny") × (matches p who db t ≡ true)
  unfolding matches table_matches
  denies_table-matches p t h = ground (arith, eq_iff p.effect "deny")

  Grants-shows :
      (t : String) (p : Policy) → Grants e who db t p → shows_table who db (lower t) p ≡ true
  unfolding matches table_matches
  Grants-shows t p g = ground (
    arith,
    eq_iff p.effect "deny",
    eq_iff "allow" "deny",
    lower_idem t,
    eq_refl (lower t),
    eq_iff (lower t) (lower (lower t)),
  )

  shows_named :
      (p : Policy) (t : String)
      → p.effect ≢ "deny"
      → in_scope p who db "select" ≡ true
      → p.table ≡ some (lower t)
      → shows_table who db (lower t) p ≡ true
  unfolding matches table_matches
  shows_named p t effect scope names = ground (
    arith,
    eq_iff p.effect "deny",
    lower_idem t,
    eq_refl (lower t),
    eq_iff (lower t) (lower (lower t)),
  )

  shows-Grants :
      (t : String) (p : Policy)
      → In p e.policies
      → (p.effect ≡ "allow") ⊎ (p.effect ≡ "deny")
      → shows_table who db (lower t) p ≡ true
      → Grants e who db t p
  unfolding matches table_matches
  shows-Grants t p i w h = elim (Option-cases p.table) [
    | inl n ↦ absurd (ground arith)
    | inr (s, n) ↦ record {
      member = i;
      allows = ground (arith, eq_iff p.effect "deny");
      scope = ground arith;
      table = ground (arith, eq_iff s (lower t));
    }
  ]

  -- With the evaluator enabled, a table that `evaluate` lets the principal query, alone or beside
  -- others, whatever the columns, is in the view, if its normalised name is its lower-case name.
  pub evaluate-table_accessible :
      (tables cols : List String) (t : String)
      → In t tables
      → normalize_identifier t ≡ lower t
      → (evaluate e who db tables cols).allowed ≡ true
      → table_accessible (effective_access e who db) t ≡ true
  evaluate-table_accessible tables cols t i n h =
      let permits = (evaluate_iff_Permits e who db tables cols on).0 h in
      let (p, g) = permits.covered t i in
      let nothing_hides : any (denies_all who db) e.policies ≡ false =
        any-false (denies_all who db) e.policies
          λ q j. no_deny q j permits (denies_all who db q) (denies_all-matches q t) in
      let not_hidden : any (denies_table who db (lower t)) e.policies ≡ false =
        any-false (denies_table who db (lower t)) e.policies
          λ q j. no_deny q j permits (denies_table who db (lower t) q) (denies_table-matches q t) in
      let shown =
        any_of_In (shows_table who db (lower t)) e.policies g.member (Grants-shows t p g) in
      accessible_lem t ∙ rw n (ground arith)
    where
      no_deny :
          (q : Policy)
          → In q e.policies
          → Permits e who db tables cols
          → (b : Bool) → (b ≡ true → (q.effect ≡ "deny") × (matches q who db t ≡ true))
          → b ≡ false
      no_deny q j permits true hidden =
          let (d, m) = hidden refl in
          let clear = permits.undenied q t j i d in absurd (cc (m, clear))
      no_deny q j permits false hidden = refl

  deny-hides :
      (p : Policy) (t : String)
      → p.effect ≡ "deny"
      → matches p who db t ≡ true
      → (denies_all who db p ≡ true) ⊎ (denies_table who db (lower t) p ≡ true)
  unfolding matches table_matches
  deny-hides p t d m = elim (Option-cases p.table) [
    | inl n ↦ inl (ground (arith, eq_iff p.effect "deny"))
    | inr (s, n) ↦ inr (
        ground (
          arith,
          eq_iff p.effect "deny",
          eq_iff s (lower t),
          lower_idem t,
          eq_iff s (lower s),
          ap (λ (u : String). lower u) (named s n),
          named s n,
        ))
  ]
    where
      named : (s : String) → p.table ≡ some s → s ≡ lower t
      named s n = ground (arith, eq_iff s (lower t))

  not-denied :
      (p : Policy) (t : String)
      → In p e.policies
      → p.effect ≡ "deny"
      → any (denies_all who db) e.policies ≡ false
      → any (denies_table who db (lower t)) e.policies ≡ false
      → matches p who db t ≡ false
  not-denied p t i d a b = elim (Bool-cases (matches p who db t)) [
    | inr clear ↦ clear
    | inl m ↦ elim (deny-hides p t d m) [
      | inl h ↦ let k = any_of_In (denies_all who db) e.policies i h in absurd (cc (k, a))
      | inr h ↦
          let k = any_of_In (denies_table who db (lower t)) e.policies i h in absurd (cc (k, b))
    ]
  ]

  -- With the evaluator enabled and a document whose effects are all `allow` or `deny`, a table in
  -- the view can be queried: `evaluate` allows the table alone, with no column referenced, if the
  -- principal has the attributes that its row scopes need and the normalised name is the
  -- lower-case name.
  pub table_accessible-evaluate :
      (t : String)
      → ((p : Policy) → In p e.policies → (p.effect ≡ "allow") ⊎ (p.effect ≡ "deny"))
      → normalize_identifier t ≡ lower t
      → first_absent who
          (row_restrictions_from [] (table_policies_of (applicable e.policies who db (t ∷ []))))
        ≡ none
      → table_accessible (effective_access e who db) t ≡ true
      → (evaluate e who db (t ∷ []) []).allowed ≡ true
  table_accessible-evaluate t effects n present h =
      let view = sym (accessible_lem t) ∙ h in
      let open_all : any (denies_all who db) e.policies ≡ false = ground (arith, view) in
      let clear : any (denies_table who db (lower t)) e.policies ≡ false =
        ground (arith, rw n at view) in
      let shown : any (shows_table who db (lower t)) e.policies ≡ true =
        ground (arith, rw n at view) in
      let (p, i, s) = any-eq-true (shows_table who db (lower t)) e.policies shown in
      (evaluate_iff_Permits e who db (t ∷ []) [] on).1 (record {
        asks = refl;
        undenied = λ q u j k d.
            alone u k (λ v. matches q who db v ≡ false) (not-denied q t j d open_all clear);
        covered = λ u k.
            alone u k (λ v. (q : Policy) × Grants e who db v q)
              (p, shows-Grants t p i (effects p i) s);
        columns = λ c k. absurd (not-In-nil k);
        subject = (present_iff e who db (t ∷ []) []).0 present;
      })
    where
      alone : (u : String) → In u (t ∷ []) → (P : String → Type 0) → P t → P u
      alone u (here q) P x = subst P (sym q) x
      alone u (there k) P x = elim k [ ]

  -- The view trusts any effect but `deny`: a policy in scope that names the table shows it, if no
  -- deny policy matches the table, while `evaluate` refuses the table as long as no policy with
  -- the effect `allow` grants it.
  pub other_effect_shown :
      (p : Policy) (t : String)
      → In p e.policies
      → p.effect ≢ "deny"
      → in_scope p who db "select" ≡ true
      → p.table ≡ some (lower t)
      → normalize_identifier t ≡ lower t
      → ((q : Policy) → In q e.policies → q.effect ≡ "deny" → matches q who db t ≡ false)
      → ((q : Policy) → ¬ Grants e who db t q)
      → (table_accessible (effective_access e who db) t ≡ true)
        × ((evaluate e who db (t ∷ []) []).allowed ≡ false)
  other_effect_shown p t i effect scope names n undenied ungranted = (seen, refused)
    where
      clear :
          (q : Policy)
          → In q e.policies
          → (b : Bool) → (b ≡ true → (q.effect ≡ "deny") × (matches q who db t ≡ true))
          → b ≡ false
      clear q j true hidden =
          let (d, m) = hidden refl in let no_match = undenied q j d in absurd (cc (m, no_match))
      clear q j false hidden = refl

      nothing_hides : any (denies_all who db) e.policies ≡ false
      nothing_hides =
          any-false (denies_all who db) e.policies
            λ q j. clear q j (denies_all who db q) (denies_all-matches q t)

      not_hidden : any (denies_table who db (lower t)) e.policies ≡ false
      not_hidden =
          any-false (denies_table who db (lower t)) e.policies
            λ q j. clear q j (denies_table who db (lower t) q) (denies_table-matches q t)

      shown : any (shows_table who db (lower t)) e.policies ≡ true
      shown =
          any_of_In (shows_table who db (lower t)) e.policies i (shows_named p t effect scope names)

      seen : table_accessible (effective_access e who db) t ≡ true
      seen = accessible_lem t ∙ rw n (ground (arith, nothing_hides, not_hidden, shown))

      refused : (evaluate e who db (t ∷ []) []).allowed ≡ false
      refused = elim (Bool-cases (evaluate e who db (t ∷ []) []).allowed) [
        | inr r ↦ r
        | inl a ↦
            let (q, g) =
              ((evaluate_iff_Permits e who db (t ∷ []) [] on).0 a).covered t (here refl) in
            absurd (ungranted q g)
      ]
