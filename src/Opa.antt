-- ===== src/Opa.antt =====
-- sql_query_api/services/opa_policy_engine.py: the policy evaluator that asks an OPA sidecar. The
-- HTTP client is the parameter `post`, `render` is Python's `str()` of a value that is not a text,
-- and the context's correlation ID is an argument. Metrics and logging are left out.
pub mod Config
pub mod FailClosed
mod Tests
use Prim.Native.Nat.{Ordering}
use Prim.Native.String.{compare}
use secure_db_access_gateway.Prelude.{
  ℕ, String, Option, none, some, List, [], ◌∷◌, Bool, true, false, not, ◌&&◌, ◌||◌, ◌==◌, map,
  is_empty, if◌then◌else◌, Result, ok, raise, raise_if, Exception, type_error, runtime_error, ◌>>=◌,
  ◌>>◌,
}
use secure_db_access_gateway.Prelude.Text
use secure_db_access_gateway.Prelude.Text.{is_set}
use secure_db_access_gateway.Prelude.Json.{
  Json, null, bool, num, str, arr, obj, Items, nil, cons, Fields, end, field, items, fields, get,
  has_key,
}
use secure_db_access_gateway.Auth.{Principal, text_of}
use secure_db_access_gateway.Policy.{PolicyDecision, denied}
use secure_db_access_gateway.Policy.Access.{EffectiveAccess}
use Config.{OpaConfig, is_given, given}

-- What `httpx.AsyncClient` is created with. `verify` is its default, a bundle of certificates, or a
-- switch.
pub data Verify : Type 0 where
  default : Verify
  bundle : String → Verify
  switch : Bool → Verify

pub record Client : Type 0 where
  pub base_url : String
  pub cert : Option (String × String)
  pub verify : Verify

-- What posting a query ends in: a timeout, an HTTP error or another exception; a document.
pub data Answer : Type 0 where
  failed : Answer
  document : Json → Answer

-- type(value).__name__
abbrev type_name : Json → String
type_name null = "NoneType"
type_name (bool b) = "bool"
type_name (num n) = "int"
type_name (str s) = "str"
type_name (arr vs) = "list"
type_name (obj fs) = "dict"

-- `_InvalidOpaResponse`, a subclass of `TypeError`
abbrev invalid_response : String → String → Json → Exception
invalid_response name shape v = type_error (
    Text.concat "'" (
      Text.concat name
        (Text.concat "' must be an " (Text.concat shape (Text.concat ", got " (type_name v))))))

-- result.get(k, default)
unfoldable pub get_default : String → Json → Fields → Json
get_default k absent fs = if has_key k fs then get k fs else absent

-- v is True
abbrev pub is_true : Json → Bool
is_true (bool b) = b
is_true _ = false

module _ (render : Json → String) where
  -- _as_str_tuple
  unfoldable pub as_str_tuple : Json → String → Result (List String)
  as_str_tuple null name = ok []
  as_str_tuple (arr vs) name = ok (map (text_of render) (items vs))
  as_str_tuple v name = raise (invalid_response name "array" v)

  -- _as_str_mapping; the keys of a document are distinct texts
  unfoldable pub as_str_mapping : Json → String → Result (List (String × String))
  as_str_mapping null name = ok []
  as_str_mapping (obj fs) name = ok (map (λ kv. (kv.0, text_of render kv.1)) (fields fs))
  as_str_mapping v name = raise (invalid_response name "object" v)

  -- The `try` block of `evaluate`, for a result that is an object.
  unfoldable pub decision_of : Fields → Result PolicyDecision
  unfolding as_str_tuple as_str_mapping get_default
  decision_of result = do
    policy_ids ← as_str_tuple (get_default "policy_ids" (arr nil) result) "policy_ids"
    rows ← as_str_mapping (get_default "row_restrictions" (obj end) result) "row_restrictions"
    masked ← as_str_tuple (get_default "masked_columns" (arr nil) result) "masked_columns"
    ok (record {
      allowed = is_true (get "allowed" result);
      reason = text_of render (get_default "reason" (str "No reason provided.") result);
      policy_ids = policy_ids;
      row_restrictions = rows;
      masked_columns = masked;
    })

  or_invalid : Result PolicyDecision → PolicyDecision
  or_invalid (ok d) = d
  or_invalid (raise e) = denied "Invalid OPA response structure." []

  -- `evaluate` behind the answer of `_query_opa`
  unfoldable pub decide : Json → PolicyDecision
  unfolding decision_of or_invalid
  decide null = denied "OPA policy evaluation failed (unreachable or invalid response)." []
  decide (obj result) = or_invalid (decision_of result)
  decide _ = denied "Invalid OPA response structure." []

  abbrev pub no_access : EffectiveAccess
  no_access = record {
    accessible_tables = [];
    allowed_columns = [];
    masked_columns = [];
    unrestricted = false;
  }

  access_of : Fields → Result EffectiveAccess
  unfolding as_str_tuple get_default
  access_of result = do
    tables ← as_str_tuple (get_default "accessible_tables" (arr nil) result) "accessible_tables"
    columns ← as_str_tuple (get_default "allowed_columns" (arr nil) result) "allowed_columns"
    masked ← as_str_tuple (get_default "masked_columns" (arr nil) result) "masked_columns"
    ok (record {
      accessible_tables = tables;
      allowed_columns = columns;
      masked_columns = masked;
      unrestricted = false;
    })

  or_none : Result EffectiveAccess → EffectiveAccess
  or_none (ok a) = a
  or_none (raise e) = no_access

  -- `effective_access` behind the answer of `_query_opa`
  unfoldable pub shown : Json → EffectiveAccess
  unfolding access_of or_none
  shown (obj result) = or_none (access_of result)
  shown _ = no_access

-- sorted() of a set: in the order of the code points, without duplicates
insert_sorted : String → List String → List String
insert_sorted s [] = s ∷ []
insert_sorted s (t ∷ ts) =
    let rest = insert_sorted s ts in
    elim (compare s t) [ Ordering.lt ↦ s ∷ t ∷ ts | Ordering.eq ↦ t ∷ ts | Ordering.gt ↦ t ∷ rest ]

unfoldable pub sorted_set : List String → List String
unfolding insert_sorted
sorted_set [] = []
sorted_set (s ∷ ts) = insert_sorted s (sorted_set ts)

abbrev strs : List String → Items
strs [] = nil
strs (s ∷ ts) = cons (str s) (strs ts)

abbrev principal_doc : Principal → Json
principal_doc who = obj (
    field "user_id" (str who.user_id)
      (field "org_id" (str who.org_id) (field "roles" (arr (strs (sorted_set who.roles))) end)))

pub record OpaPolicyEvaluator : Type 0 where
  pub config : OpaConfig
  pub enabled : Bool

-- OpaPolicyEvaluator.__init__, with a configuration
unfoldable pub init : OpaConfig → Bool → OpaPolicyEvaluator
init config enabled = record {
  config = config;
  enabled = enabled && config.enabled && is_set config.url;
}

-- OpaPolicyEvaluator._get_client, for a client that is not there yet
unfoldable pub get_client : OpaConfig → Result Client
get_client c =
    if not c.mtls_enabled
    then ok (record { base_url = c.url; cert = none; verify = default })
    else if not (is_given c.mtls_cert_path) || not (is_given c.mtls_key_path)
    then raise (runtime_error "OPA mTLS enabled but cert/key paths not configured")
    else ok (record {
      base_url = c.url;
      cert = some (given c.mtls_cert_path, given c.mtls_key_path);
      verify =
          if is_given c.mtls_ca_path then bundle (given c.mtls_ca_path) else switch c.mtls_verify;
    })

-- OpaPolicyEvaluator._get_correlation_header
unfoldable pub get_correlation_header : String → List (String × String)
get_correlation_header cid =
    if is_set cid && not (cid == "N/A") then ("X-Correlation-ID", cid) ∷ [] else []

abbrev headers : String → List (String × String)
headers cid = ("Content-Type", "application/json") ∷ get_correlation_header cid

module _ (render : Json → String) (post : Client → List (String × String) → String → Json → Answer)
    (cid : String) where
  -- data.get("result"), where a document that is no object has no `get`
  result_of : Answer → Json
  result_of (document (obj body)) = get "result" body
  result_of _ = null

  query_with : String → Json → Result Client → Json
  unfolding result_of
  query_with path input (raise e) = null
  query_with path input (ok client) =
      result_of
        (post client (headers cid) (Text.concat "/v1/data" path) (obj (field "input" input end)))

  -- OpaPolicyEvaluator._query_opa; `null` is None
  unfoldable pub query_opa : OpaConfig → String → Json → Json
  unfolding query_with
  query_opa c path input = query_with path input (get_client c)

  abbrev pub evaluate_doc : Principal → String → List String → List String → Json
  evaluate_doc who database_id tables columns = obj (
      field "principal" (principal_doc who) (
        field "database_id" (str database_id) (
          field "tables" (arr (strs tables))
            (field "referenced_columns" (arr (strs (sorted_set columns))) end))))

  -- OpaPolicyEvaluator.evaluate
  unfoldable pub evaluate :
      OpaPolicyEvaluator → Principal → String → List String → List String → PolicyDecision
  evaluate e who database_id tables columns =
      if not e.enabled
      then denied "OPA is disabled." []
      else if is_empty tables
      then denied "No protected table could be identified." []
      else decide render
          (query_opa e.config "/gateway/evaluate" (evaluate_doc who database_id tables columns))

  abbrev pub access_doc : Principal → String → Json
  access_doc who database_id = obj (
      field "principal" (principal_doc who)
        (field "database_id" (str database_id) (field "query_type" (str "effective_access") end)))

  -- OpaPolicyEvaluator.effective_access
  unfoldable pub effective_access : OpaPolicyEvaluator → Principal → String → EffectiveAccess
  effective_access e who database_id =
      if not e.enabled
      then no_access render
      else shown render
          (query_opa e.config "/gateway/effective_access" (access_doc who database_id))
