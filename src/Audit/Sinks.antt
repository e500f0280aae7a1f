-- ===== src/Audit/Sinks.antt =====
-- The sinks of sql_query_api/config/app_logger.py: the buffer of `S3AuditSink` and the order in which
-- `CompositeAuditSink` writes. The S3 client is a parameter: `put` tells whether `put_object` raised,
-- and gives the bucket afterwards. The lock makes an operation run whole; the timer of the sink is a
-- flush at any time.
pub mod Buffer
mod Tests
use secure_db_access_gateway.Prelude.{
  ℕ, List, [], ◌∷◌, ◌++◌, Bool, true, false, ◌&&◌, length, leb, if◌then◌else◌,
}

-- The sink's buffer and the bucket.
pub record S3AuditSink (E B : Type 0) : Type 0 where
  pub buffer : List E
  pub bucket : B

-- Whether an operation returned, with the state that it leaves; `false` is an exception.
abbrev pub Outcome : Type 0 → Type 0
Outcome S = Bool × S

-- A call of `write`, or of `flush` by the timer or by `close`.
pub data Operation (E : Type 0) : Type 0 where
  write_event : E → Operation E
  flush_now : Operation E

module _ {E B : Type 0} (put : List E → B → Bool × B) (max_batch : ℕ) where
  put_batch : List E → Bool × B → Outcome (S3AuditSink E B)
  put_batch batch (stored, bucket) = (stored, record { buffer = []; bucket = bucket })

  -- S3AuditSink._flush_locked: the buffer is cleared before the batch is put.
  unfoldable pub flush_locked : List E → B → Outcome (S3AuditSink E B)
  unfolding put_batch
  flush_locked [] bucket = (true, record { buffer = []; bucket = bucket })
  flush_locked (e ∷ es) bucket = put_batch (e ∷ es) (put (e ∷ es) bucket)

  -- S3AuditSink.write
  unfoldable pub write : E → S3AuditSink E B → Outcome (S3AuditSink E B)
  write e s =
      let buffer = s.buffer ++ e ∷ [] in
      if leb max_batch (length buffer)
      then flush_locked buffer s.bucket
      else (true, record s { buffer = buffer })

  -- S3AuditSink.flush
  unfoldable pub flush : S3AuditSink E B → Outcome (S3AuditSink E B)
  flush s = flush_locked s.buffer s.bucket

  unfoldable pub operate : Operation E → S3AuditSink E B → Outcome (S3AuditSink E B)
  operate (write_event e) s = write e s
  operate flush_now s = flush s

  -- The calls one after another; the flag tells whether all returned.
  unfoldable pub operate_all : List (Operation E) → S3AuditSink E B → Outcome (S3AuditSink E B)
  operate_all [] s = (true, s)
  operate_all (c ∷ cs) s =
      let first = operate c s in let rest = operate_all cs first.1 in (first.0 && rest.0, rest.1)

module _ {E : Type 0} where
  -- CompositeAuditSink.write: each sink has its events, and whether it raises.
  unfoldable pub write_composite : E → List (Bool × List E) → Bool × List (Bool × List E)
  write_composite e [] = (true, [])
  write_composite e ((raises, events) ∷ sinks) =
      let rest = write_composite e sinks in
      if raises
      then (false, (raises, events) ∷ sinks)
      else (rest.0, (raises, events ++ e ∷ []) ∷ rest.1)
