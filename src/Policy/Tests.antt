-- ===== src/Policy/Tests.antt =====
-- Tests of the policy evaluator of sql_query_api/services/policy_engine.py at one small document.
use secure_db_access_gateway.Prelude.{
  String, some, List, [], ◌∷◌, true, false, ◌≡◌, ◌↔◌, arith, In, here, there, eq_iff, refl, elem,
  ap,
}
use secure_db_access_gateway.Prelude.Member.{not-In-nil}
use secure_db_access_gateway.Prelude.Text.{lower, strip, contains, after_last, strip_chars}
use secure_db_access_gateway.Prelude.Dict.{lookup, insert, string_eq}
use secure_db_access_gateway.Prelude.Json.{null, str}
use secure_db_access_gateway.Auth.{Principal}
use secure_db_access_gateway.Policy.{
  Policy, PolicyEvaluator, in_scope, table_matches, matches, evaluate, first_absent,
  row_restrictions_from,
}
use secure_db_access_gateway.Policy.Spec.{Grants, Permits, evaluate_iff_Permits}
use secure_db_access_gateway.Policy.Access.{
  effective_access, table_accessible, normalize_identifier,
}
use secure_db_access_gateway.Policy.Access.Mirror.{evaluate-table_accessible, other_effect_shown}
use native.Mathlib.Decide.{dec_le}

abbrev alice : Principal
alice = record {
  user_id = "auth0|alice";
  email = "alice@acme.test";
  org_id = "acme";
  roles = "viewer" ∷ [];
  attributes = ("region", str "emea") ∷ [];
}

abbrev on_table : String → String → String → List String → Policy
on_table id effect table columns = record {
  id = id;
  effect = effect;
  org_id = str "acme";
  principal_id = null;
  roles = "viewer" ∷ [];
  database_id = null;
  table = some table;
  columns = columns;
  masked_columns = [];
  row_scope = ("region", "region") ∷ [];
  action = "select";
}

abbrev allow_album : Policy
allow_album = on_table "allow-album" "allow" "album" ("title" ∷ [])

abbrev deny_secret : Policy
deny_secret = on_table "deny-secret" "deny" "secret" []

abbrev grant_track : Policy
grant_track = on_table "grant-track" "grant" "track" []

abbrev document : PolicyEvaluator
document = record { policies = allow_album ∷ deny_secret ∷ []; enabled = true }

album_allowed : (evaluate document alice "default" ("Album" ∷ []) ("title" ∷ [])).allowed ≡ true
unfolding evaluate matches in_scope table_matches elem lower dec_le first_absent
    row_restrictions_from lookup insert
album_allowed = refl

-- Two policies scope one column: the scope of the second replaces that of the first, so the attribute
-- of the first, which alice lacks, is not asked for.
abbrev cleared_album : Policy
cleared_album = record (on_table "cleared-album" "allow" "album" []) {
  row_scope = ("region", "clearance") ∷ [];
}

scope_overwritten :
    (evaluate
      (record { policies = cleared_album ∷ allow_album ∷ []; enabled = true })
      alice
      "default"
      ("album" ∷ [])
      []).allowed
    ≡ true
unfolding evaluate matches in_scope table_matches elem lower dec_le first_absent
    row_restrictions_from lookup insert
scope_overwritten = refl

scope_required :
    (evaluate
      (record { policies = cleared_album ∷ []; enabled = true })
      alice
      "default"
      ("album" ∷ [])
      []).allowed
    ≡ false
unfolding evaluate matches in_scope table_matches elem lower dec_le first_absent
    row_restrictions_from lookup insert
scope_required = refl

secret_denied :
    (evaluate document alice "default" ("album" ∷ "secret" ∷ []) []).reason ≡ "Denied by policy."
unfolding evaluate matches in_scope table_matches elem lower dec_le
secret_denied = refl

evaluate_iff_Permits_example :
    ((evaluate document alice "default" ("Album" ∷ []) ("title" ∷ [])).allowed ≡ true)
    ↔ Permits document alice "default" ("Album" ∷ []) ("title" ∷ [])
evaluate_iff_Permits_example =
    evaluate_iff_Permits document alice "default" ("Album" ∷ []) ("title" ∷ []) refl

evaluate-table_accessible_example :
    table_accessible (effective_access document alice "default") "Album" ≡ true
unfolding normalize_identifier strip lower dec_le contains after_last strip_chars
evaluate-table_accessible_example =
    evaluate-table_accessible document alice "default" refl ("Album" ∷ []) ("title" ∷ []) "Album"
      (here refl) refl album_allowed

abbrev granting : PolicyEvaluator
granting = record { policies = grant_track ∷ []; enabled = true }

granting_undenied :
    (q : Policy)
    → In q granting.policies
    → q.effect ≡ "deny"
    → matches q alice "default" "track" ≡ false
granting_undenied q (here e) d =
    ground (arith, ap (λ (p : Policy). p.effect) e, eq_iff "grant" "deny")
granting_undenied q (there h) d = absurd (not-In-nil h)

granting_nothing : (q : Policy) → ¬ Grants granting alice "default" "track" q
granting_nothing q g = not_allow q g.member g.allows
  where
    not_allow : (p : Policy) → In p granting.policies → p.effect ≡ "allow" → ⊥
    not_allow p (here e) a = ground (arith, ap (λ (r : Policy). r.effect) e, eq_iff "grant" "allow")
    not_allow p (there h) a = not-In-nil h

other_effect_shown_example :
    (table_accessible (effective_access granting alice "default") "track" ≡ true)
    × ((evaluate granting alice "default" ("track" ∷ []) []).allowed ≡ false)
unfolding normalize_identifier strip lower dec_le contains after_last strip_chars in_scope elem
other_effect_shown_example =
    other_effect_shown granting alice "default" refl grant_track "track" (here refl)
      (λ e. ground (arith, eq_iff "grant" "deny")) refl refl refl granting_undenied granting_nothing
