-- ===== src/Opa/FailClosed.antt =====
-- What sql_query_api/services/opa_policy_engine.py does when OPA is missing, silent or unclear.
use secure_db_access_gateway.Prelude.{
  String, Option, List, [], true, false, elem, map, is_empty, Result, ok, raise, >>=-eq-ok, ◌≡◌,
  arith, refl, In, inl, inr, Bool-cases, ◌⊎◌, sym, subst,
}
use secure_db_access_gateway.Prelude.Member.{not-In-nil}
use secure_db_access_gateway.Prelude.Text.{is_set}
use secure_db_access_gateway.Prelude.Json.{
  Json, null, bool, num, str, arr, obj, Items, nil, Fields, end, items, get,
}
use secure_db_access_gateway.Auth.{Principal, text_of}
use secure_db_access_gateway.Policy.{PolicyDecision}
use secure_db_access_gateway.Policy.Access.{EffectiveAccess}
use secure_db_access_gateway.Secrets.{Reading, is_environment_production, is_ci}
use secure_db_access_gateway.Opa.{
  Client, Answer, OpaPolicyEvaluator, is_true, as_str_tuple, as_str_mapping, decision_of,
  or_invalid, decide, shown, access_of, or_none, get_default, query_opa, evaluate, effective_access,
  evaluate_doc, access_doc,
}
use secure_db_access_gateway.Opa.Config.{
  OpaConfig, optional, read_url, read_enabled, config_of, from_environment, off_spellings,
}

module _ (env : String → Option String) (disk : String → Reading) where
  config_of-eq-ok :
      (raw_url raw_enabled cert key ca : String) (c : OpaConfig)
      → is_environment_production env ≡ true
      → is_ci env ≡ false
      → config_of env disk raw_url raw_enabled cert key ca ≡ ok c
      → (is_set raw_url ≡ true) ⊎ (elem raw_enabled off_spellings ≡ true)
  unfolding config_of
  config_of-eq-ok raw_url raw_enabled cert key ca c production ci h =
      elim (Bool-cases (is_set raw_url)) [ inl set ↦ inl set | inr blank ↦ inr (ground arith) ]

  -- Outside CI, a production gateway gets a configuration only if it has an OPA URL or OPA is
  -- switched off by name: it never falls back to the in-process evaluator by omission.
  pub production_needs_opa :
      (c : OpaConfig)
      → is_environment_production env ≡ true
      → is_ci env ≡ false
      → from_environment env disk ≡ ok c
      → ((url : String) × (read_url env disk ≡ ok url) × (is_set url ≡ true))
        ⊎ ((enabled : String) × (read_enabled env disk ≡ ok enabled)
            × (elem enabled off_spellings ≡ true))
  unfolding from_environment
  production_needs_opa c production ci h =
      let (url, u, h1) = >>=-eq-ok (read_url env disk) _ h in
      let (enabled, e, h2) = >>=-eq-ok (read_enabled env disk) _ h1 in
      let (cert, c1, h3) = >>=-eq-ok (optional env disk "OPA_MTLS_CERT_PATH") _ h2 in
      let (key, c2, h4) = >>=-eq-ok (optional env disk "OPA_MTLS_KEY_PATH") _ h3 in
      let (ca, c3, h5) = >>=-eq-ok (optional env disk "OPA_MTLS_CA_PATH") _ h4 in
      elim (config_of-eq-ok url enabled cert key ca c production ci h5) [
        | inl set ↦ inl (url, u, set)
        | inr off ↦ inr (enabled, e, off)
      ]

module _ (render : Json → String) where
  -- An allowing answer is an object whose `allowed` is the literal `true`.
  abbrev pub Allowing : Json → PolicyDecision → Type 0
  Allowing answer d =
      (fs : Fields) × (answer ≡ obj fs)
      × (get "allowed" fs ≡ bool true)
      × (decision_of render fs ≡ ok d)

  decision_of-allowed :
      (fs : Fields) (d : PolicyDecision)
      → decision_of render fs ≡ ok d
      → d.allowed ≡ true
      → is_true (get "allowed" fs) ≡ true
  unfolding decision_of
  decision_of-allowed fs d h a =
      let (ids, e1, h1) =
        >>=-eq-ok (as_str_tuple render (get_default "policy_ids" (arr nil) fs) "policy_ids") _ h in
      let (rows, e2, h2) =
        >>=-eq-ok
          (as_str_mapping render (get_default "row_restrictions" (obj end) fs) "row_restrictions") _
          h1 in
      let (masked, e3, h3) =
        >>=-eq-ok (as_str_tuple render (get_default "masked_columns" (arr nil) fs) "masked_columns")
          _ h2 in
      ground arith

  is_true-literal : (v : Json) → is_true v ≡ true → v ≡ bool true
  is_true-literal (bool b) h = rw h refl
  is_true-literal null h = cc
  is_true-literal (num n) h = cc
  is_true-literal (str s) h = cc
  is_true-literal (arr vs) h = cc
  is_true-literal (obj fs) h = cc

  or_invalid-allowed :
      (r : Result PolicyDecision)
      → (or_invalid render r).allowed ≡ true
      → r ≡ ok (or_invalid render r)
  unfolding or_invalid
  or_invalid-allowed (ok d) h = refl
  or_invalid-allowed (raise e) h = cc

  decide-Allowing :
      (answer : Json)
      → (decide render answer).allowed ≡ true
      → Allowing answer (decide render answer)
  unfolding decide
  decide-Allowing (obj fs) h =
      let made = or_invalid-allowed (decision_of render fs) h in
      (fs, refl, is_true-literal (get "allowed" fs) (decision_of-allowed fs _ made h), made)
  decide-Allowing null h = cc
  decide-Allowing (bool b) h = cc
  decide-Allowing (num n) h = cc
  decide-Allowing (str s) h = cc
  decide-Allowing (arr vs) h = cc

  -- The items of an answer's field, as `_as_str_tuple` reads them.
  abbrev pub Lists : String → String → Json → Type 0
  Lists name t answer =
      (fs : Fields) × (vs : Items) × (answer ≡ obj fs)
      × (get_default name (arr nil) fs ≡ arr vs)
      × In t (map (text_of render) (items vs))

  as_str_tuple-In :
      (v : Json) (name t : String) (ts : List String)
      → as_str_tuple render v name ≡ ok ts
      → In t ts
      → (vs : Items) × (v ≡ arr vs) × In t (map (text_of render) (items vs))
  unfolding as_str_tuple
  as_str_tuple-In null name t ts h i =
      let same : ts ≡ [] = ground arith in absurd (not-In-nil (subst (λ l. In t l) same i))
  as_str_tuple-In (arr vs) name t ts h i = (vs, refl, ground arith)
  as_str_tuple-In (bool b) name t ts h i = cc
  as_str_tuple-In (num n) name t ts h i = cc
  as_str_tuple-In (str s) name t ts h i = cc
  as_str_tuple-In (obj fs) name t ts h i = cc

  -- The items that `_as_str_tuple` reads of a field that is there or not.
  Lists-answer :
      (fs : Fields) (name t : String) (ts : List String)
      → as_str_tuple render (get_default name (arr nil) fs) name ≡ ok ts
      → In t ts
      → Lists name t (obj fs)
  Lists-answer fs name t ts h i =
      let (vs, e, j) = as_str_tuple-In (get_default name (arr nil) fs) name t ts h i in
      (fs, vs, refl, e, j)

  access_of-Lists :
      (fs : Fields) (a : EffectiveAccess) (t : String)
      → access_of render fs ≡ ok a
      → In t a.accessible_tables
      → Lists "accessible_tables" t (obj fs)
  unfolding access_of
  access_of-Lists fs a t h i =
      let (tables, e1, h1) =
        >>=-eq-ok
          (as_str_tuple render (get_default "accessible_tables" (arr nil) fs) "accessible_tables") _
          h in
      let (columns, e2, h2) =
        >>=-eq-ok
          (as_str_tuple render (get_default "allowed_columns" (arr nil) fs) "allowed_columns") _
          h1 in
      let (masked, e3, h3) =
        >>=-eq-ok (as_str_tuple render (get_default "masked_columns" (arr nil) fs) "masked_columns")
          _ h2 in
      let same : tables ≡ a.accessible_tables = ground arith in
      Lists-answer fs "accessible_tables" t tables e1 (subst (λ ts. In t ts) (sym same) i)

  or_none-In :
      (r : Result EffectiveAccess) (t : String)
      → In t (or_none render r).accessible_tables
      → r ≡ ok (or_none render r)
  unfolding or_none
  or_none-In (ok a) t i = refl
  or_none-In (raise e) t i = absurd (not-In-nil i)

  shown-Lists :
      (answer : Json) (t : String)
      → In t (shown render answer).accessible_tables
      → Lists "accessible_tables" t answer
  unfolding shown
  shown-Lists (obj fs) t i =
      access_of-Lists fs (or_none render (access_of render fs)) t
        (or_none-In (access_of render fs) t i) i
  shown-Lists null t i = absurd (not-In-nil i)
  shown-Lists (bool b) t i = absurd (not-In-nil i)
  shown-Lists (num n) t i = absurd (not-In-nil i)
  shown-Lists (str s) t i = absurd (not-In-nil i)
  shown-Lists (arr vs) t i = absurd (not-In-nil i)

  module _ (post : Client → List (String × String) → String → Json → Answer) (cid : String)
      (e : OpaPolicyEvaluator) (who : Principal) (database_id : String) where
    -- OPA has to say yes: a query is allowed only by an enabled evaluator, for a query that names a
    -- table, on an answer of OPA to that very query that is an object with `allowed` the literal
    -- `true` and well-formed fields, which make up the decision. Any failure denies.
    pub evaluate-allowed :
        (tables columns : List String)
        → (evaluate render post cid e who database_id tables columns).allowed ≡ true
        → (e.enabled ≡ true)
          × (is_empty tables ≡ false)
          × Allowing
              (query_opa render post cid e.config "/gateway/evaluate"
                (evaluate_doc render post cid who database_id tables columns))
              (evaluate render post cid e who database_id tables columns)
    unfolding evaluate
    evaluate-allowed tables columns h = elim (Bool-cases e.enabled) [
      | inr off ↦ cc
      | inl on ↦ elim (Bool-cases (is_empty tables)) [
        | inl empty ↦ cc
        | inr some_table ↦
            (on, some_table, rw (on, some_table) (decide-Allowing _ (rw (on, some_table) at h)))
      ]
    ]

    -- A table is shown to a principal only by an enabled evaluator whose OPA answered with an object
    -- that lists the table.
    pub effective_access-listed :
        (t : String)
        → In t (effective_access render post cid e who database_id).accessible_tables
        → (e.enabled ≡ true)
          × Lists "accessible_tables" t (
              query_opa render post cid e.config "/gateway/effective_access"
                (access_doc render post cid who database_id))
    unfolding effective_access
    effective_access-listed t i = elim (Bool-cases e.enabled) [
      | inr off ↦ absurd (not-In-nil (rw off at i))
      | inl on ↦ (on, shown-Lists _ t (rw on at i))
    ]
