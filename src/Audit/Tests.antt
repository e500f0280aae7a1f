-- ===== src/Audit/Tests.antt =====
-- Tests of `log_audit_event` (sql_query_api/config/app_logger.py) with a digest that keeps its text.
use secure_db_access_gateway.Prelude.{String, some, [], ◌∷◌, ◌≡◌, refl}
use secure_db_access_gateway.Prelude.Dict.{lookup, insert, string_eq}
use secure_db_access_gateway.Prelude.Json.{str}
use secure_db_access_gateway.Audit.{Document, Call, log_all, event_of}
use secure_db_access_gateway.Audit.Chain.{Linked, audit_chain, labels_unprotected}

abbrev dumps : Document → String
dumps [] = "{}"
dumps ((k, v) ∷ d) = k

abbrev sha256 : String → String
sha256 s = s

abbrev sql_call : Call
sql_call = record {
  event_type = "SQL_QUERY";
  payload = ("user", str "carol") ∷ [];
  correlation_id = "c-1";
  hashed_at = "10:00:00";
  recorded_at = "10:00:01";
}

audit_chain_example :
    Linked ""
      (log_all dumps sha256 ("", []) (sql_call ∷ sql_call ∷ [])).1
      (log_all dumps sha256 ("", []) (sql_call ∷ sql_call ∷ [])).0
audit_chain_example = audit_chain dumps sha256 (sql_call ∷ sql_call ∷ [])

abbrev public_call : Call
public_call = record {
  event_type = "SQL_QUERY";
  payload = ("user", str "carol") ∷ ("data_classification", str "PUBLIC") ∷ [];
  correlation_id = "c-2";
  hashed_at = "10:00:00";
  recorded_at = "11:00:00";
}

labels_unprotected_example :
    (lookup "audit_hash" (event_of dumps sha256 "" public_call)
      ≡ lookup "audit_hash" (event_of dumps sha256 "" sql_call))
    × (lookup "data_classification" (event_of dumps sha256 "" public_call) ≡ some (str "PUBLIC"))
    × (lookup "correlation_id" (event_of dumps sha256 "" public_call) ≡ some (str "c-2"))
    × (lookup "timestamp" (event_of dumps sha256 "" public_call) ≡ some (str "11:00:00"))
unfolding lookup insert
labels_unprotected_example =
    labels_unprotected dumps sha256 "" sql_call (str "PUBLIC") "c-2" "11:00:00" refl
