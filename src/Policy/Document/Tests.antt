-- ===== src/Policy/Document/Tests.antt =====
-- Tests of `Policy.from_dict` and `PolicyEvaluator.from_environment` on a document of one policy.
use secure_db_access_gateway.Prelude.{
  String, Option, none, some, [], ◌∷◌, true, false, ◌==◌, if◌then◌else◌, elem, ok, ◌≡◌, refl,
}
use secure_db_access_gateway.Prelude.Text.{is_set, lower, strip, lstrip, rstrip}
use secure_db_access_gateway.Prelude.Dict.{string_eq}
use secure_db_access_gateway.Prelude.Json.{
  Json, null, str, arr, obj, nil, cons, Fields, end, field, get, has_key,
}
use secure_db_access_gateway.Secrets.{
  Reading, missing, is_environment_production, is_ci, is_switched_on, read_secret,
}
use secure_db_access_gateway.Policy.{Policy, PolicyEvaluator}
use secure_db_access_gateway.Policy.Document.{
  iterate, entries, first_action, lowered, row_scope_from, policy_of, from_dict, read_again,
  evaluator_of, from_environment, production_enabled, IsSecret, DecidesBy,
}
use native.Mathlib.Decide.{dec_le}

abbrev render : Json → String
render v = "?"

abbrev album_document : Fields
album_document = field "id" (str "allow-album") (
    field "effect" (str "ALLOW")
      (field "table" (str "Album") (field "roles" (arr (cons (str "Viewer") nil)) end)))

abbrev album_policy : Policy
album_policy = record {
  id = "allow-album";
  effect = "allow";
  org_id = null;
  principal_id = null;
  roles = "viewer" ∷ [];
  database_id = null;
  table = some "album";
  columns = [];
  masked_columns = [];
  row_scope = [];
  action = "select";
}

album_read : from_dict render album_document ≡ ok album_policy
unfolding from_dict iterate entries policy_of lowered row_scope_from first_action get has_key lower
    dec_le
album_read = refl

abbrev env : String → Option String
env name = if name == "POLICY_POLICIES_JSON" then some "[...]" else none

abbrev disk : String → Reading
disk path = missing

abbrev loads : String → Option Json
loads text = some (arr (cons (obj album_document) nil))

abbrev loaded : PolicyEvaluator
loaded = record { policies = album_policy ∷ []; enabled = true }

in_production : is_environment_production env ≡ true
unfolding is_environment_production lower dec_le elem
in_production = refl

not_in_ci : is_ci env ≡ false
unfolding is_ci is_switched_on lower dec_le elem strip lstrip rstrip
not_in_ci = refl

document_loaded : from_environment render loads env disk ≡ ok loaded
unfolding from_environment read_again evaluator_of read_secret from_dict iterate entries policy_of
    lowered row_scope_from first_action get has_key lower dec_le strip lstrip rstrip
document_loaded = refl

production_enabled_example :
    (raw : String) × IsSecret render loads env disk raw
    × (is_set raw ≡ true)
    × DecidesBy render loads env disk (loads raw) loaded
production_enabled_example =
    production_enabled render loads env disk loaded in_production not_in_ci document_loaded
