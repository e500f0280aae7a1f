-- ===== src/Policy/Document.antt =====
-- Policy documents of sql_query_api/services/policy_engine.py: `Policy.from_dict` and
-- `PolicyEvaluator.from_environment`. `loads` is `json.loads`, `none` where it raises, and `render`
-- is Python's `str()` of a value that is not a text.
mod Tests
use secure_db_access_gateway.Prelude.{
  String, Option, none, some, List, [], ◌∷◌, Bool, true, false, not, ◌&&◌, ◌||◌, map, elem,
  if◌then◌else◌, Result, ok, raise, Exception, runtime_error, type_error, attribute_error, all,
  permission_error, value_error, resolution_error, missing_secret, forbidden_sql, execution_error,
  not_found_error, ◌>>=◌, >>=-eq-ok, ◌≡◌, arith, refl, Bool-cases, inl, inr, subst, ap, ◌∙◌,
}
use secure_db_access_gateway.Prelude.Text
use secure_db_access_gateway.Prelude.Text.{lower, is_set}
use secure_db_access_gateway.Prelude.Dict.{insert, string_eq}
use secure_db_access_gateway.Prelude.Json.{
  Json, null, bool, num, str, arr, obj, Items, nil, cons, Fields, end, field, items, fields, get,
  has_key, truthy, or_else,
}
use secure_db_access_gateway.Auth.{text_of}
use secure_db_access_gateway.Secrets.{Reading, is_environment_production, is_ci, read_secret}
use secure_db_access_gateway.Policy.{Policy, PolicyEvaluator}

-- The items that a loop over `value or []` goes through: those of a list, the characters of a text,
-- the keys of an object; a number or `True` raises `TypeError`.
chars : String → List Json
chars String.[] = []
chars (String.◌∷◌ c s) = str (String.◌∷◌ c String.[]) ∷ chars s

unfoldable pub iterate : Json → Result (List Json)
unfolding chars
iterate null = ok []
iterate (bool b) = if b then raise (type_error "'bool' object is not iterable") else ok []
iterate (num n) =
    if truthy (num n) then raise (type_error "'int' object is not iterable") else ok []
iterate (str s) = ok (chars s)
iterate (arr vs) = ok (items vs)
iterate (obj fs) = ok (map (λ kv. str kv.0) (fields fs))

-- (value or {}).items(), which only an object has
unfoldable pub entries : Json → Result (List (String × Json))
entries (obj fs) = ok (fields fs)
entries v = if truthy v then raise (attribute_error "object has no attribute 'items'") else ok []

-- The first of a non-empty list, anything else as it is.
unfoldable pub first_action : Json → Json
first_action (arr (cons v vs)) = v
first_action v = v

abbrev is_object : Json → Bool
is_object (obj fs) = true
is_object v = false

module _ (render : Json → String) where
  unfoldable pub lowered : List Json → List String
  lowered vs = map (λ v. lower (text_of render v)) vs

  -- The dictionary of the row scope; a later column of the same lower-case name wins.
  unfoldable pub row_scope_from :
      List (String × String) → List (String × Json) → List (String × String)
  row_scope_from d [] = d
  row_scope_from d ((column, attribute) ∷ rest) =
      row_scope_from (insert (lower column) (text_of render attribute) d) rest

  unfoldable pub policy_of :
      Fields → List Json → List Json → List Json → List (String × Json) → Policy
  policy_of value roles columns masked scope = record {
    id = text_of render (or_else (get "id" value) (or_else (get "name" value) (str "unnamed")));
    effect =
        lower (text_of render (if has_key "effect" value then get "effect" value else str "allow"));
    org_id = or_else (get "org_id" value) (get "organisation_id" value);
    principal_id = or_else (get "principal_id" value) (get "user_id" value);
    roles = lowered roles;
    database_id = get "database_id" value;
    table =
        if truthy (get "table" value)
        then some (lower (text_of render (get "table" value)))
        else none;
    columns = lowered columns;
    masked_columns = lowered masked;
    row_scope = row_scope_from [] scope;
    action = lower (
        text_of render (
          or_else (first_action (or_else (get "action" value) (get "actions" value)))
            (str "select")));
  }

  -- Policy.from_dict
  unfoldable pub from_dict : Fields → Result Policy
  from_dict value = do
    roles ← iterate (get "roles" value)
    columns ← iterate (get "columns" value)
    masked ← iterate (get "masked_columns" value)
    scope ← entries (get "row_scope" value)
    ok (policy_of value roles columns masked scope)

  policies_from : List Json → Result (List Policy)
  policies_from [] = ok []
  policies_from (obj fs ∷ vs) = do p ← from_dict fs; ps ← policies_from vs; ok (p ∷ ps)
  policies_from (v ∷ vs) = policies_from vs

  -- A `TypeError` or `ValueError` on the way becomes a `RuntimeError`; the `AttributeError` of a row
  -- scope without `items` is not caught.
  from_policies : Result (List Policy) → Result PolicyEvaluator
  from_policies (ok ps) = ok (record { policies = ps; enabled = true })
  from_policies (raise (attribute_error m)) = raise (attribute_error m)
  from_policies (raise e) = raise (runtime_error "Policy configuration is invalid.")

  from_document : Option Json → Result PolicyEvaluator
  unfolding policies_from from_policies
  from_document (some (arr vs)) =
      if all is_object (items vs)
      then from_policies (policies_from (items vs))
      else raise (runtime_error "Policy configuration is invalid.")
  from_document _ = raise (runtime_error "Policy configuration is invalid.")

  abbrev missing_policy : String
  missing_policy =
      "Missing required POLICY_POLICIES_JSON environment variable or POLICY_POLICIES_JSON_FILE secret for policy configuration. Preferred: enable OPA (OPA_ENABLED=true) and serve policies via bundle."

  module _ (loads : String → Option Json) (env : String → Option String)
      (disk : String → Reading) where
    -- The second reading of the secret, for a first one that came back empty.
    unfoldable pub read_again : String → Result String
    read_again raw =
        if is_set raw
        then ok raw
        else read_secret env disk "POLICY_POLICIES_JSON"
            (is_environment_production env && not (is_ci env)) "" (some missing_policy)

    unfoldable pub evaluator_of : String → Result PolicyEvaluator
    unfolding from_document
    evaluator_of raw =
        if is_set raw
        then from_document (loads raw)
        else if is_environment_production env && not (is_ci env)
        then raise (runtime_error missing_policy)
        else ok (record { policies = []; enabled = false })

    -- PolicyEvaluator.from_environment, without its warnings
    unfoldable pub from_environment : Result PolicyEvaluator
    from_environment = do
      first ← read_secret env disk "POLICY_POLICIES_JSON" false "" none
      raw ← read_again first
      evaluator_of raw

    ok-eq-ok : {A : Type 0} {a b : A} → ok a ≡ ok b → a ≡ b
    ok-eq-ok h = cc

    -- The policies are those of the objects, one each, in order.
    pub data AllFrom : List Json → List Policy → Type 0 where
      all_read : AllFrom [] []
      next_read :
          {fs : Fields} {p : Policy} {vs : List Json} {ps : List Policy}
          → from_dict fs ≡ ok p
          → AllFrom vs ps
          → AllFrom (obj fs ∷ vs) (p ∷ ps)

    policies_from-AllFrom :
        (vs : List Json) (ps : List Policy)
        → all is_object vs ≡ true
        → policies_from vs ≡ ok ps
        → AllFrom vs ps
    unfolding policies_from
    policies_from-AllFrom [] ps objects h = subst (AllFrom []) (ok-eq-ok h) all_read
    policies_from-AllFrom (obj fs ∷ vs) ps objects h =
        let (p, read, h1) = >>=-eq-ok (from_dict fs) _ h in
        let (rest, read_rest, h2) = >>=-eq-ok (policies_from vs) _ h1 in
        subst (AllFrom (obj fs ∷ vs)) (ok-eq-ok h2)
          (next_read read (policies_from-AllFrom vs rest objects read_rest))
    policies_from-AllFrom (null ∷ vs) ps objects h = cc
    policies_from-AllFrom (bool b ∷ vs) ps objects h = cc
    policies_from-AllFrom (num n ∷ vs) ps objects h = cc
    policies_from-AllFrom (str s ∷ vs) ps objects h = cc
    policies_from-AllFrom (arr ws ∷ vs) ps objects h = cc

    from_policies-eq-ok :
        (r : Result (List Policy)) (e : PolicyEvaluator)
        → from_policies r ≡ ok e
        → (e.enabled ≡ true) × (r ≡ ok e.policies)
    unfolding from_policies
    from_policies-eq-ok (ok ps) e h = (ground arith, ground arith)
    from_policies-eq-ok (raise (attribute_error m)) e h = cc
    from_policies-eq-ok (raise (permission_error m)) e h = cc
    from_policies-eq-ok (raise (value_error m)) e h = cc
    from_policies-eq-ok (raise (type_error m)) e h = cc
    from_policies-eq-ok (raise (runtime_error m)) e h = cc
    from_policies-eq-ok (raise (resolution_error m)) e h = cc
    from_policies-eq-ok (raise (missing_secret m)) e h = cc
    from_policies-eq-ok (raise (forbidden_sql m)) e h = cc
    from_policies-eq-ok (raise (execution_error m)) e h = cc
    from_policies-eq-ok (raise (not_found_error m)) e h = cc

    -- The evaluator has the policies of a document, and decides by them.
    abbrev pub DecidesBy : Option Json → PolicyEvaluator → Type 0
    DecidesBy document e =
        (vs : Items) × (document ≡ some (arr vs))
        × (e.enabled ≡ true)
        × AllFrom (items vs) e.policies

    from_document-DecidesBy :
        (o : Option Json) (e : PolicyEvaluator) → from_document o ≡ ok e → DecidesBy o e
    unfolding from_document
    from_document-DecidesBy (some (arr vs)) e h = elim (Bool-cases (all is_object (items vs))) [
      | inl objects ↦
          let (on, read) = from_policies-eq-ok (policies_from (items vs)) e (rw objects at h) in
          (vs, refl, on, policies_from-AllFrom (items vs) e.policies objects read)
      | inr other ↦ absurd (ground (arith, other))
    ]
    from_document-DecidesBy none e h = cc
    from_document-DecidesBy (some null) e h = cc
    from_document-DecidesBy (some (bool b)) e h = cc
    from_document-DecidesBy (some (num n)) e h = cc
    from_document-DecidesBy (some (str s)) e h = cc
    from_document-DecidesBy (some (obj fs)) e h = cc

    evaluator_of-DecidesBy :
        (raw : String) (e : PolicyEvaluator)
        → (is_environment_production env && not (is_ci env)) ≡ true
        → evaluator_of raw ≡ ok e
        → (is_set raw ≡ true) × DecidesBy (loads raw) e
    unfolding evaluator_of
    evaluator_of-DecidesBy raw e strict h = elim (Bool-cases (is_set raw)) [
      | inl set ↦ (set, from_document-DecidesBy (loads raw) e (rw set at h))
      | inr blank ↦ absurd (ground arith)
    ]

    -- The text is what a reading of the secret gave.
    abbrev pub IsSecret : String → Type 0
    IsSecret raw =
        (required : Bool) × (message : Option String) × (read_secret env disk "POLICY_POLICIES_JSON"
            required "" message
          ≡ ok raw)

    read_again-IsSecret :
        (first raw : String)
        → read_secret env disk "POLICY_POLICIES_JSON" false "" none ≡ ok first
        → read_again first ≡ ok raw
        → IsSecret raw
    unfolding read_again
    read_again-IsSecret first raw read h = elim (Bool-cases (is_set first)) [
      | inl set ↦
          let same : first ≡ raw = ok-eq-ok (rw set at h) in (false, none, read ∙ ap ok same)
      | inr blank ↦
          (is_environment_production env && not (is_ci env), some missing_policy, rw blank at h)
    ]

    -- No silent allow-all: in production outside CI, an evaluator that `from_environment` returns is
    -- enabled, and its policies are those that `from_dict` reads from the objects of a JSON array, one
    -- each and in order, where the array is the document that a reading of the secret gave.
    pub production_enabled :
        (e : PolicyEvaluator)
        → is_environment_production env ≡ true
        → is_ci env ≡ false
        → from_environment ≡ ok e
        → (raw : String) × IsSecret raw × (is_set raw ≡ true) × DecidesBy (loads raw) e
    unfolding from_environment
    production_enabled e production ci h =
        let (first, f, h1) =
          >>=-eq-ok (read_secret env disk "POLICY_POLICIES_JSON" false "" none) _ h in
        let (raw, r, h2) = >>=-eq-ok (read_again first) _ h1 in
        let (set, by) = evaluator_of-DecidesBy raw e (ground arith) h2 in
        (raw, read_again-IsSecret first raw f r, set, by)
