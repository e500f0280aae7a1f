-- ===== src/Audit.antt =====
-- `log_audit_event` of sql_query_api/config/app_logger.py: the hash chain over the audit events of a
-- context. `dumps` is `json.dumps` of a document with sorted keys, `sha256` the hex digest of a
-- text; both are arguments, and so are the two readings of the clock. Sinks are the list of the
-- events written.
pub mod Chain
pub mod Sinks
mod Tests
use secure_db_access_gateway.Prelude.{
  ℕ, String, Option, none, some, List, [], ◌∷◌, ◌++◌, Bool, not, ◌==◌, elem, filter, if◌then◌else◌,
}
use secure_db_access_gateway.Prelude.Text
use secure_db_access_gateway.Prelude.Dict.{lookup, insert, remove, string_eq}
use secure_db_access_gateway.Prelude.Json.{Json, str}

abbrev pub Document : Type 0
Document = List (String × Json)

-- {**d, **e}
unfoldable pub update : Document → Document → Document
update d [] = d
update d ((k, v) ∷ e) = update (insert k v d) e

abbrev classified : Option Json → Json
classified none = str "INTERNAL"
classified (some c) = c

-- payload.pop("data_classification", "INTERNAL")
unfoldable pub data_classification : Document → Json
data_classification payload = classified (lookup "data_classification" payload)

unfoldable pub without_classification : Document → Document
without_classification payload = remove "data_classification" payload

unfoldable pub hash_payload : Document → Document
hash_payload payload =
    filter (λ kv. not (elem kv.0 ("audit_hash" ∷ "prev_audit_hash" ∷ []))) payload

-- What one call of `log_audit_event` is given, and the two readings of the clock in it.
pub record Call : Type 0 where
  pub event_type : String
  pub payload : Document
  pub correlation_id : String
  pub hashed_at : String
  pub recorded_at : String

module _ (dumps : Document → String) (sha256 : String → String) where
  unfoldable pub hash_input : Call → String
  unfolding update
  hash_input c = dumps (
      update (("event", str c.event_type) ∷ ("timestamp", str c.hashed_at) ∷ [])
        (hash_payload (without_classification c.payload)))

  unfoldable pub current_hash : String → Call → String
  current_hash prev_hash c = sha256 (Text.concat prev_hash (hash_input c))

  -- The document that goes to the sink.
  unfoldable pub event_of : String → Call → Document
  event_of prev_hash c = insert "data_classification" (data_classification c.payload) (
      insert "prev_audit_hash" (str prev_hash) (
        insert "audit_hash" (str (current_hash prev_hash c)) (
          insert "correlation_id" (str c.correlation_id) (
            update (("event", str c.event_type) ∷ ("timestamp", str c.recorded_at) ∷ [])
              (without_classification c.payload)))))

  -- log_audit_event: the hash of the context, the events written so far, and the call
  unfoldable pub log_audit_event : String × List Document → Call → String × List Document
  log_audit_event (prev_hash, written) c =
      (current_hash prev_hash c, written ++ event_of prev_hash c ∷ [])

  pub log_all : String × List Document → List Call → String × List Document
  log_all s [] = s
  log_all s (c ∷ cs) = log_all (log_audit_event s c) cs
