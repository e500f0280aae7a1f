-- ===== src/Audit/Sinks/Tests.antt =====
-- Tests of the sinks of sql_query_api/config/app_logger.py: batches of two events, with a bucket that
-- takes every batch and one that takes none.
use secure_db_access_gateway.Prelude.{ℕ, List, [], ◌∷◌, ◌++◌, Bool, true, false, ◌≡◌, refl}
use secure_db_access_gateway.Audit.Sinks.{
  S3AuditSink, Operation, write_event, flush_now, flush_locked, write, flush, operate, operate_all,
}
use secure_db_access_gateway.Audit.Sinks.Buffer.{written, operate_all_complete, operate-dropped}

abbrev stored : List ℕ → List ℕ → Bool × List ℕ
stored batch bucket = (true, bucket ++ batch)

abbrev refused : List ℕ → List ℕ → Bool × List ℕ
refused batch bucket = (false, bucket)

abbrev calls : List (Operation ℕ)
calls = write_event 1 ∷ write_event 2 ∷ write_event 3 ∷ flush_now ∷ write_event 4 ∷ []

abbrev fresh : S3AuditSink ℕ (List ℕ)
fresh = record { buffer = []; bucket = [] }

abbrev one_waiting : S3AuditSink ℕ (List ℕ)
one_waiting = record { buffer = 1 ∷ []; bucket = [] }

returned : (operate_all stored 2 calls fresh).0 ≡ true
unfolding operate_all operate write flush flush_locked
returned = refl

operate_all_complete_example :
    (operate_all stored 2 calls fresh).1.bucket ++ (operate_all stored 2 calls fresh).1.buffer
    ≡ ([] ++ []) ++ written calls
operate_all_complete_example =
    operate_all_complete stored 2 (λ b. b) (λ batch b h. refl) calls fresh returned

raised : (operate refused 2 (write_event 2) one_waiting).0 ≡ false
unfolding operate write flush flush_locked
raised = refl

operate-dropped_example :
    operate refused 2 (write_event 2) one_waiting ≡ (false, record { buffer = []; bucket = [] })
operate-dropped_example =
    operate-dropped refused 2 (write_event 2) one_waiting raised (λ batch b h. refl)
