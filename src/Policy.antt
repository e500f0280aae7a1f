-- ===== src/Policy.antt =====
-- sql_query_api/services/policy_engine.py: policy documents, decisions, the in-process evaluator.
-- Sets are lists searched by `elem`. `org_id`, `principal_id` and `database_id` of a policy are
-- whatever JSON value the document holds, as in the source; only a text can match.
pub mod Scopes
pub mod Stages
pub mod Access
pub mod Spec
pub mod Document
mod Tests
use secure_db_access_gateway.Prelude.{
  String, Option, none, some, List, [], ◌∷◌, ◌++◌, Bool, true, false, not, ◌&&◌, ◌||◌, ◌==◌, map,
  any, all, elem, filter, is_empty, if◌then◌else◌,
}
use secure_db_access_gateway.Prelude.Text
use secure_db_access_gateway.Prelude.Text.{lower}
use secure_db_access_gateway.Prelude.Dict.{lookup, insert, string_eq}
use secure_db_access_gateway.Prelude.Json.{Json, null, str}
use secure_db_access_gateway.Auth.{Principal}

pub record Policy : Type 0 where
  pub id : String
  pub effect : String
  pub org_id : Json
  pub principal_id : Json
  pub roles : List String
  pub database_id : Json
  pub table : Option String
  pub columns : List String
  pub masked_columns : List String
  pub row_scope : List (String × String)
  pub action : String

pub record PolicyDecision : Type 0 where
  pub allowed : Bool
  pub reason : String
  pub policy_ids : List String
  pub row_restrictions : List (String × String)
  pub masked_columns : List String

pub record PolicyEvaluator : Type 0 where
  pub policies : List Policy
  pub enabled : Bool

-- PolicyDecision(False, reason, ids)
abbrev pub denied : String → List String → PolicyDecision
denied reason ids = record {
  allowed = false;
  reason = reason;
  policy_ids = ids;
  row_restrictions = [];
  masked_columns = [];
}

-- `value is None or value == s`
unfoldable pub unset_or_is : Json → String → Bool
unset_or_is null s = true
unset_or_is (str t) s = t == s
unset_or_is _ s = false

unfoldable pub table_matches : Option String → String → Bool
table_matches none t = true
table_matches (some p) t = p == lower t

-- The conditions of `_matches` that do not name a table.
unfoldable pub in_scope : Policy → Principal → String → String → Bool
unfolding unset_or_is
in_scope p who db act =
    unset_or_is p.org_id who.org_id
    && unset_or_is p.principal_id who.user_id
    && (is_empty p.roles || any (λ r. elem r who.roles) p.roles)
    && unset_or_is p.database_id db
    && (p.action == "select" || p.action == "*" || p.action == lower act)

-- PolicyEvaluator._matches, whose `action` is never given and so is `select`
unfoldable pub matches : Policy → Principal → String → String → Bool
matches p who db t = in_scope p who db "select" && table_matches p.table t

unfoldable pub applicable : List Policy → Principal → String → List String → List Policy
applicable ps who db tables = filter (λ p. any (matches p who db) tables) ps

abbrev pub names_table : Policy → Bool
names_table p = elim p.table [ none ↦ false | some t ↦ true ]

unfoldable pub denies_of : List Policy → List Policy
denies_of ps = filter (λ p. p.effect == "deny") ps

unfoldable pub table_policies_of : List Policy → List Policy
table_policies_of ps = filter (λ p. p.effect == "allow" && names_table p) ps

-- `policy.table == t` for the policies that name a table
unfoldable pub names : String → Policy → Bool
names t p = elim p.table [ none ↦ false | some s ↦ s == t ]

-- `table.lower() not in allowed_tables`, for some requested table
unfoldable pub some_table_missing : List Policy → List String → Bool
unfolding names
some_table_missing ps tables = any (λ t. not (any (names (lower t)) ps)) tables

-- The test of the column whitelist: a reference that no listed set of columns holds.
unfoldable pub column_refused : List Policy → List String → Bool
column_refused ps cols =
    not (is_empty cols)
    && any (λ p. not (is_empty p.columns)) ps
    && any (λ c. not (any (λ p. elem c p.columns) ps)) cols

-- d.update(e)
unfoldable pub update : List (String × String) → List (String × String) → List (String × String)
update d [] = d
update d ((k, v) ∷ e) = update (insert k v d) e

unfoldable pub row_restrictions_from : List (String × String) → List Policy → List (String × String)
unfolding update
row_restrictions_from d [] = d
row_restrictions_from d (p ∷ ps) = row_restrictions_from (update d p.row_scope) ps

unfoldable pub masked_of : List Policy → List String
masked_of [] = []
masked_of (p ∷ ps) = p.masked_columns ++ masked_of ps

-- The names that `getattr` finds on a principal before it looks into the attributes.
abbrev pub own_members : List String
own_members =
    "user_id" ∷ "email" ∷ "org_id" ∷ "roles" ∷ "attributes" ∷ "role" ∷ "has_role" ∷ "has_any_role"
    ∷ []

abbrev pub is_none : Json → Bool
is_none null = true
is_none _ = false

-- `name not in principal.attributes or getattr(principal, name, None) is None`
unfoldable pub attribute_absent : Principal → String → Bool
attribute_absent who name = elim (lookup name who.attributes) [
  | none ↦ true
  | some v ↦ not (elem name own_members) && is_none v
]

-- The first subject attribute of the restrictions that the principal lacks.
unfoldable pub first_absent : Principal → List (String × String) → Option String
unfolding attribute_absent
first_absent who [] = none
first_absent who ((c, a) ∷ d) =
    let rest = first_absent who d in if attribute_absent who a then some a else rest

abbrev absent_reason : String → String
absent_reason a = Text.concat "Required subject attribute '" (Text.concat a "' is absent.")

-- The last part of `evaluate`: row scopes and masks of the allow policies.
unfoldable pub grant : Principal → List Policy → PolicyDecision
unfolding row_restrictions_from masked_of first_absent
grant who ps =
    let rows = row_restrictions_from [] ps in
    elim (first_absent who rows) [
      | some a ↦ denied (absent_reason a) []
      | none ↦ record {
        allowed = true;
        reason = "Allowed by policy.";
        policy_ids = map (λ p. p.id) ps;
        row_restrictions = rows;
        masked_columns = masked_of ps;
      }
    ]

unfoldable pub decide_on : List Policy → Principal → List String → List String → PolicyDecision
unfolding denies_of table_policies_of some_table_missing column_refused grant
decide_on ps who tables cols =
    if not (is_empty (denies_of ps))
    then denied "Denied by policy." (map (λ p. p.id) (denies_of ps))
    else if is_empty (table_policies_of ps)
    then denied "No allow policy matched the requested table." []
    else if some_table_missing (table_policies_of ps) tables
    then denied "A requested table is not allowed by policy." []
    else if column_refused (table_policies_of ps) cols
    then denied "A referenced column is not allowed by policy." []
    else grant who (table_policies_of ps)

-- PolicyEvaluator.evaluate; `referenced_columns=None` is the empty list, which the source treats
-- alike.
unfoldable pub evaluate :
    PolicyEvaluator → Principal → String → List String → List String → PolicyDecision
unfolding decide_on applicable
evaluate e who db tables cols =
    if not e.enabled
    then record {
      allowed = true;
      reason = "Policy document not configured; legacy gateway controls apply.";
      policy_ids = [];
      row_restrictions = [];
      masked_columns = [];
    }
    else if is_empty tables
    then denied "No protected table could be identified." []
    else decide_on (applicable e.policies who db tables) who tables cols
