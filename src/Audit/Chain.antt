-- ===== src/Audit/Chain.antt =====
-- The chain that `log_audit_event` (sql_query_api/config/app_logger.py) leaves, and what its hashes
-- cover.
use secure_db_access_gateway.Prelude.{
  String, none, some, List, [], ◌∷◌, ◌++◌, ◌≡◌, arith, refl, ◌∙◌, sym, ap,
}
use secure_db_access_gateway.Prelude.Dict.{
  lookup, insert, remove, string_eq, lookup-insert, lookup-remove, remove-insert,
}
use secure_db_access_gateway.Prelude.Json.{Json, str}
use secure_db_access_gateway.Audit.{
  Document, Call, hash_input, current_hash, event_of, log_audit_event, log_all, data_classification,
  without_classification, update,
}

-- Every event names the hash before it as its `prev_audit_hash`, and carries the next one as its
-- `audit_hash`; the last hash is `end`.
abbrev pub Linked : String → List Document → String → Type 0
Linked start [] end = start ≡ end
Linked start (d ∷ ds) end =
    (h : String) × (lookup "prev_audit_hash" d ≡ some (str start))
    × (lookup "audit_hash" d ≡ some (str h))
    × Linked h ds end

Linked-concat :
    (start end h : String) (ds : List Document) (d : Document)
    → Linked start ds end
    → lookup "prev_audit_hash" d ≡ some (str end)
    → lookup "audit_hash" d ≡ some (str h)
    → Linked start (ds ++ d ∷ []) h
Linked-concat start end h [] d e p q = (h, p ∙ ap (λ (x : String). some (str x)) (sym e), q, refl)
Linked-concat start end h (c ∷ ds) d (k, a, b, l) p q = (k, a, b, Linked-concat k end h ds d l p q)

lookup-update :
    (k : String) (d e : Document) → lookup k e ≡ none → lookup k (update d e) ≡ lookup k d
unfolding update lookup
lookup-update k d [] h = refl
lookup-update k d ((j, v) ∷ e) h =
    ground (arith, lookup-update k (insert j v d) e, lookup-insert j k v d)

module _ (dumps : Document → String) (sha256 : String → String) where
  prev_of_event :
      (prev : String) (c : Call)
      → lookup "prev_audit_hash" (event_of dumps sha256 prev c) ≡ some (str prev)
  unfolding event_of
  prev_of_event prev c = simp lookup-insert

  hash_of_event :
      (prev : String) (c : Call)
      → lookup "audit_hash" (event_of dumps sha256 prev c)
        ≡ some (str (current_hash dumps sha256 prev c))
  unfolding event_of
  hash_of_event prev c = simp lookup-insert

  log_all-Linked :
      (start end : String) (ds : List Document) (cs : List Call)
      → Linked start ds end
      → Linked start (log_all dumps sha256 (end, ds) cs).1 (log_all dumps sha256 (end, ds) cs).0
  unfolding log_all log_audit_event
  log_all-Linked start end ds [] h = h
  log_all-Linked start end ds (c ∷ cs) h =
      log_all-Linked start (current_hash dumps sha256 end c)
        (ds ++ event_of dumps sha256 end c ∷ []) cs
        (Linked-concat start end (current_hash dumps sha256 end c) ds (event_of dumps sha256 end c)
          h (prev_of_event end c) (hash_of_event end c))

  -- The events of any sequence of calls in a fresh context form one chain: each carries the hash of
  -- the one before as its `prev_audit_hash`, the first the empty text, and the context is left with
  -- the hash of the last.
  pub audit_chain :
      (cs : List Call)
      → Linked "" (log_all dumps sha256 ("", []) cs).1 (log_all dumps sha256 ("", []) cs).0
  audit_chain cs = log_all-Linked "" "" [] cs refl

  -- A call with another data classification, correlation ID and recorded time.
  abbrev relabel : Json → String → String → Call → Call
  relabel label id time c = record c {
    payload = insert "data_classification" label c.payload;
    correlation_id = id;
    recorded_at = time;
  }

  same_hash :
      (prev : String) (c : Call) (label : Json) (id time : String)
      → current_hash dumps sha256 prev (relabel label id time c) ≡ current_hash dumps sha256 prev c
  unfolding current_hash hash_input without_classification
  same_hash prev c label id time = rw (remove-insert "data_classification" label c.payload) refl

  label_of_event :
      (prev : String) (c : Call) (label : Json) (id time : String)
      → lookup "data_classification" (event_of dumps sha256 prev (relabel label id time c))
        ≡ some label
  unfolding event_of data_classification
  label_of_event prev c label id time = simp lookup-insert

  id_of_event :
      (prev : String) (c : Call) (label : Json) (id time : String)
      → lookup "correlation_id" (event_of dumps sha256 prev (relabel label id time c))
        ≡ some (str id)
  unfolding event_of
  id_of_event prev c label id time = simp lookup-insert

  time_of_event :
      (prev : String) (c : Call) (label : Json) (id time : String)
      → lookup "timestamp" c.payload ≡ none
      → lookup "timestamp" (event_of dumps sha256 prev (relabel label id time c)) ≡ some (str time)
  unfolding event_of without_classification lookup
  time_of_event prev c label id time h =
      simp (lookup-insert, remove-insert)
        (lookup-update "timestamp" _ (remove "data_classification" c.payload)
          (lookup-remove "data_classification" "timestamp" c.payload ∙ h))

  -- The hash covers neither the data classification, nor the correlation ID, nor the recorded time
  -- of an event: with others in their place, whatever they are, the event carries them and the same
  -- `audit_hash`, if the payload sets no `timestamp` of its own.
  pub labels_unprotected :
      (prev : String) (c : Call) (label : Json) (id time : String)
      → lookup "timestamp" c.payload ≡ none
      → let d = event_of dumps sha256 prev (relabel label id time c) in
        (lookup "audit_hash" d ≡ lookup "audit_hash" (event_of dumps sha256 prev c))
        × (lookup "data_classification" d ≡ some label)
        × (lookup "correlation_id" d ≡ some (str id))
        × (lookup "timestamp" d ≡ some (str time))
  labels_unprotected prev c label id time h = (
    rw
        (
          hash_of_event prev (relabel label id time c),
          hash_of_event prev c,
          same_hash prev c label id time,
        )
        refl,
    label_of_event prev c label id time,
    id_of_event prev c label id time,
    time_of_event prev c label id time h,
  )
