-- ===== src/Opa/Tests.antt =====
-- Tests of sql_query_api/services/opa_policy_engine.py with a sidecar that gives fixed answers.
use secure_db_access_gateway.Prelude.{
  String, Option, none, some, List, [], ◌∷◌, true, false, ◌==◌, if◌then◌else◌, ok, ◌≡◌, refl, In,
  here, elem, is_empty,
}
use secure_db_access_gateway.Prelude.Text.{lower, strip, lstrip, rstrip}
use secure_db_access_gateway.Prelude.Json.{
  Json, bool, str, arr, obj, nil, cons, end, field, get, has_key,
}
use secure_db_access_gateway.Auth.{Principal}
use secure_db_access_gateway.Secrets.{
  Reading, missing, is_environment_production, is_ci, is_switched_on, read_secret, source_file,
  from_file, fallback,
}
use secure_db_access_gateway.Opa.{
  Client, Answer, document, OpaPolicyEvaluator, get_client, query_opa, evaluate, effective_access,
  evaluate_doc, decide, decision_of, as_str_tuple, as_str_mapping, shown, get_default,
}
use secure_db_access_gateway.Opa.Config.{
  OpaConfig, from_environment, read_url, read_enabled, optional, config_of, disabled_config,
}
use secure_db_access_gateway.Opa.FailClosed.{Allowing, evaluate-allowed}
use native.Mathlib.Decide.{dec_le}

abbrev erin : Principal
erin = record {
  user_id = "auth0|erin";
  email = "erin@acme.test";
  org_id = "acme";
  roles = "viewer" ∷ [];
  attributes = [];
}

abbrev render : Json → String
render v = "None"

abbrev config : OpaConfig
config = record {
  url = "http://opa:8181";
  timeout = 5;
  enabled = true;
  mtls_enabled = false;
  mtls_cert_path = none;
  mtls_key_path = none;
  mtls_ca_path = none;
  mtls_verify = true;
}

-- A sidecar that allows every query and shows one table.
abbrev permissive : Client → List (String × String) → String → Json → Answer
permissive client headers path input = document (
    obj (
      field "result"
        (obj (
          field "allowed" (bool true)
            (field "accessible_tables" (arr (cons (str "album") nil)) end)))
        end))

-- A sidecar whose `allowed` is a text.
abbrev loose : Client → List (String × String) → String → Json → Answer
loose client headers path input =
    document (obj (field "result" (obj (field "allowed" (str "true") end)) end))

abbrev evaluator : OpaPolicyEvaluator
evaluator = record { config = config; enabled = true }

album_allowed :
    (evaluate render permissive "N/A" evaluator erin "default" ("album" ∷ []) []).allowed ≡ true
unfolding evaluate query_opa get_client decide decision_of as_str_tuple as_str_mapping get_default
    get has_key
album_allowed = refl

loose_denied :
    (evaluate render loose "N/A" evaluator erin "default" ("album" ∷ []) []).allowed ≡ false
unfolding evaluate query_opa get_client decide decision_of as_str_tuple as_str_mapping get_default
    get has_key
loose_denied = refl

evaluate-allowed_example :
    (evaluator.enabled ≡ true)
    × (is_empty {A = String} ("album" ∷ []) ≡ false)
    × Allowing render
        (query_opa render permissive "N/A" config "/gateway/evaluate"
          (evaluate_doc render permissive "N/A" erin "default" ("album" ∷ []) []))
        (evaluate render permissive "N/A" evaluator erin "default" ("album" ∷ []) [])
evaluate-allowed_example =
    evaluate-allowed render permissive "N/A" evaluator erin "default" ("album" ∷ []) []
      album_allowed

album_shown :
    In "album" (effective_access render permissive "N/A" evaluator erin "default").accessible_tables
unfolding effective_access query_opa get_client shown as_str_tuple get_default get has_key
album_shown = here refl

abbrev env : String → Option String
env name = if name == "OPA_ENABLED" then some "false" else none

abbrev disk : String → Reading
disk path = missing

in_production : is_environment_production env ≡ true
unfolding is_environment_production lower dec_le elem
in_production = refl

not_in_ci : is_ci env ≡ false
unfolding is_ci is_switched_on lower dec_le elem strip lstrip rstrip
not_in_ci = refl

switched_off : from_environment env disk ≡ ok (disabled_config env disk)
unfolding from_environment read_url read_enabled optional config_of read_secret source_file
    from_file fallback lower dec_le elem strip lstrip rstrip is_environment_production is_ci
switched_off = refl
