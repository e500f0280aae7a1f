-- ===== src/Policy/Access.antt =====
-- `effective_access` of sql_query_api/services/policy_engine.py: the schema that a principal is
-- shown, and how it stands to what `evaluate` lets the same principal query.
pub mod Scan
pub mod Mirror
use secure_db_access_gateway.Prelude.{
  String, Option, none, some, List, [], ◌∷◌, ◌++◌, Bool, true, false, not, ◌&&◌, ◌||◌, ◌==◌, any,
  elem, filter, is_empty, if◌then◌else◌, map,
}
use secure_db_access_gateway.Prelude.Text.{lower, strip, after_last, contains}
use secure_db_access_gateway.Prelude.Text
use secure_db_access_gateway.Prelude.Dict.{lookup, insert, string_eq}
use secure_db_access_gateway.Auth.{Principal}
use secure_db_access_gateway.Policy.{Policy, PolicyEvaluator, matches, masked_of}

pub record EffectiveAccess : Type 0 where
  pub accessible_tables : List String
  pub allowed_columns : List String
  pub masked_columns : List String
  pub unrestricted : Bool

-- _normalize_identifier of a text: trimmed, in lower case, without quotes at its ends, and only
-- what stands behind the last dot
unfoldable pub normalize_identifier : String → String
normalize_identifier s =
    let cleaned = Text.strip_chars (b'`' ∷ b'"' ∷ b'[' ∷ b']' ∷ []) (lower (strip s)) in
    if contains "." cleaned then after_last b'.' cleaned else cleaned

-- EffectiveAccess.table_accessible
unfoldable pub table_accessible : EffectiveAccess → String → Bool
table_accessible a t =
    if a.unrestricted then true else elem (normalize_identifier t) a.accessible_tables

-- EffectiveAccess.column_accessible
unfoldable pub column_accessible : EffectiveAccess → String → String → Bool
unfolding table_accessible
column_accessible a t c =
    if not (table_accessible a t)
    then false
    else if a.unrestricted || is_empty a.allowed_columns
    then true
    else elem (normalize_identifier c) a.allowed_columns

-- EffectiveAccess.is_masked
unfoldable pub is_masked : EffectiveAccess → String → Bool
is_masked a c = elem (normalize_identifier c) a.masked_columns

-- The variables of the loop over the policies.
pub record Scanned : Type 0 where
  pub deny_all : Bool
  pub denied_tables : List String
  pub allow_by_table : List (String × List Policy)

-- allow_by_table.setdefault(t, []).append(p)
unfoldable pub append_under :
    String → Policy → List (String × List Policy) → List (String × List Policy)
append_under t p d = elim (lookup t d) [
  | none ↦ insert t (p ∷ []) d
  | some ps ↦ insert t (ps ++ p ∷ []) d
]

abbrev or_blank : Option String → String
or_blank none = ""
or_blank (some t) = t

-- One round of the loop.
unfoldable pub scan_policy : Principal → String → Policy → Scanned → Scanned
unfolding append_under
scan_policy who db p s =
    if not (matches p who db (or_blank p.table))
    then s
    else if p.effect == "deny"
    then elim p.table [
      | none ↦ record s { deny_all = true }
      | some t ↦ record s { denied_tables = t ∷ s.denied_tables }
    ]
    else elim p.table [
      | none ↦ s
      | some t ↦ record s { allow_by_table = append_under t p s.allow_by_table }
    ]

unfoldable pub scan : Principal → String → List Policy → Scanned → Scanned
unfolding scan_policy
scan who db [] s = s
scan who db (p ∷ ps) s = scan who db ps (scan_policy who db p s)

unfoldable pub all_policies : List (String × List Policy) → List Policy
all_policies [] = []
all_policies ((t, ps) ∷ d) = ps ++ all_policies d

unfoldable pub columns_of : List Policy → List String
columns_of [] = []
columns_of (p ∷ ps) = p.columns ++ columns_of ps

abbrev tables_of : List (String × List Policy) → List String
tables_of d = map (λ kv. kv.0) d

abbrev pub empty_scan : Scanned
empty_scan = record { deny_all = false; denied_tables = []; allow_by_table = [] }

unfoldable pub access_of_scan : Scanned → EffectiveAccess
unfolding all_policies columns_of
access_of_scan s = record {
  accessible_tables =
      if s.deny_all
      then []
      else filter (λ t. not (elem t s.denied_tables)) (tables_of s.allow_by_table);
  allowed_columns = columns_of (all_policies s.allow_by_table);
  masked_columns = masked_of (all_policies s.allow_by_table);
  unrestricted = false;
}

-- PolicyEvaluator.effective_access
unfoldable pub effective_access : PolicyEvaluator → Principal → String → EffectiveAccess
unfolding scan access_of_scan
effective_access e who db =
    if not e.enabled
    then record {
      accessible_tables = [];
      allowed_columns = [];
      masked_columns = [];
      unrestricted = true;
    }
    else access_of_scan (scan who db e.policies empty_scan)
