-- ===== src/Audit/Sinks/Buffer.antt =====
-- What the buffer of `S3AuditSink` of sql_query_api/config/app_logger.py keeps.
use secure_db_access_gateway.Prelude.{
  ℕ, ◌<◌, List, [], ◌∷◌, ◌++◌, Bool, true, false, length, leb, ◌≡◌, arith, refl, ap, sym, ◌∙◌, inl,
  inr, Bool-cases, and_left, map, In, here, there, and_right,
}
use mathlib.Core.List.{append_assoc, append-nil}
use secure_db_access_gateway.Audit.Sinks.{
  S3AuditSink, Operation, write_event, flush_now, flush_locked, write, flush, operate, operate_all,
  write_composite,
}

-- The events of the calls, in order.
abbrev pub written : {E : Type 0} → List (Operation E) → List E
written [] = []
written (write_event e ∷ cs) = e ∷ written cs
written (flush_now ∷ cs) = written cs

module _ {E B : Type 0} (put : List E → B → Bool × B) (max_batch : ℕ) (contents : B → List E)
    (stores : (batch : List E) (b : B)
      → (put batch b).0 ≡ true
      → contents (put batch b).1 ≡ contents b ++ batch) where
  -- What the bucket holds, and then what the buffer holds.
  abbrev kept : S3AuditSink E B → List E
  kept s = contents s.bucket ++ s.buffer

  kept-flush_locked :
      (buffer : List E) (b : B)
      → (flush_locked put max_batch buffer b).0 ≡ true
      → kept (flush_locked put max_batch buffer b).1 ≡ contents b ++ buffer
  unfolding flush_locked
  kept-flush_locked [] b h = refl
  kept-flush_locked (e ∷ es) b h = append-nil _ ∙ stores (e ∷ es) b h

  kept-operate :
      (c : Operation E) (s : S3AuditSink E B)
      → (operate put max_batch c s).0 ≡ true
      → kept (operate put max_batch c s).1 ≡ kept s ++ written (c ∷ [])
  unfolding operate write flush
  kept-operate (write_event e) s h =
      elim (Bool-cases (leb max_batch (length (s.buffer ++ e ∷ [])))) [
        | inl full ↦ rw full (
            kept-flush_locked (s.buffer ++ e ∷ []) s.bucket (rw full at h)
            ∙ sym (append_assoc (contents s.bucket) s.buffer (e ∷ [])))
        | inr room ↦ rw room (sym (append_assoc (contents s.bucket) s.buffer (e ∷ [])))
      ]
  kept-operate flush_now s h = kept-flush_locked s.buffer s.bucket h ∙ sym (append-nil _)

  written-cons :
      (c : Operation E) (cs : List (Operation E))
      → written (c ∷ []) ++ written cs ≡ written (c ∷ cs)
  written-cons (write_event e) cs = refl
  written-cons flush_now cs = refl

  -- If no call raises, no event is lost: the bucket and then the buffer hold what they held before,
  -- followed by the events written, in order.
  pub operate_all_complete :
      (cs : List (Operation E)) (s : S3AuditSink E B)
      → (operate_all put max_batch cs s).0 ≡ true
      → contents (operate_all put max_batch cs s).1.bucket
          ++ (operate_all put max_batch cs s).1.buffer
        ≡ (contents s.bucket ++ s.buffer) ++ written cs
  unfolding operate_all
  operate_all_complete [] s h = sym (append-nil _)
  operate_all_complete (c ∷ cs) s h =
      let first = operate put max_batch c s in
      operate_all_complete cs first.1 (and_right first.0 _ h)
      ∙ ap (λ l. l ++ written cs) (kept-operate c s (and_left first.0 _ h))
      ∙ append_assoc (kept s) (written (c ∷ [])) (written cs)
      ∙ ap (λ l. kept s ++ l) (written-cons c cs)

module _ {E B : Type 0} (put : List E → B → Bool × B) (max_batch : ℕ) where
  flush_locked-buffer :
      (buffer : List E) (b : B) → (flush_locked put max_batch buffer b).1.buffer ≡ []
  unfolding flush_locked
  flush_locked-buffer [] b = refl
  flush_locked-buffer (e ∷ es) b = refl

  flush_locked-dropped :
      (buffer : List E) (b : B)
      → (flush_locked put max_batch buffer b).0 ≡ false
      → ((batch : List E) (b : B) → (put batch b).0 ≡ false → (put batch b).1 ≡ b)
      → flush_locked put max_batch buffer b ≡ (false, record { buffer = []; bucket = b })
  unfolding flush_locked
  flush_locked-dropped [] b h unstored = cc
  flush_locked-dropped (e ∷ es) b h unstored =
      λ i. (h i, record { buffer = []; bucket = unstored (e ∷ es) b h i })

  operate-bounded :
      (c : Operation E) (s : S3AuditSink E B)
      → length s.buffer < max_batch
      → length (operate put max_batch c s).1.buffer < max_batch
  unfolding operate write flush
  operate-bounded (write_event e) s h =
      elim (Bool-cases (leb max_batch (length (s.buffer ++ e ∷ [])))) [
        | inl full ↦ rw (full, flush_locked-buffer (s.buffer ++ e ∷ []) s.bucket) (omega arith)
        | inr room ↦ rw room (ground arith)
      ]
  operate-bounded flush_now s h = rw (flush_locked-buffer s.buffer s.bucket) (omega arith)

  -- A call that raises has dropped the buffer: its events are neither in the buffer, for another
  -- try, nor, if the client stored nothing, in the bucket.
  pub operate-dropped :
      (c : Operation E) (s : S3AuditSink E B)
      → (operate put max_batch c s).0 ≡ false
      → ((batch : List E) (b : B) → (put batch b).0 ≡ false → (put batch b).1 ≡ b)
      → operate put max_batch c s ≡ (false, record { buffer = []; bucket = s.bucket })
  unfolding operate write flush
  operate-dropped (write_event e) s h unstored =
      elim (Bool-cases (leb max_batch (length (s.buffer ++ e ∷ [])))) [
        | inl full ↦
            rw full (flush_locked-dropped (s.buffer ++ e ∷ []) s.bucket (rw full at h) unstored)
        | inr room ↦ let never : true ≡ false = (rw room at h) in cc
      ]
  operate-dropped flush_now s h unstored = flush_locked-dropped s.buffer s.bucket h unstored

  -- The buffer never reaches the size of a batch, whatever fails.
  pub operate_all-bounded :
      (cs : List (Operation E)) (s : S3AuditSink E B)
      → length s.buffer < max_batch
      → length (operate_all put max_batch cs s).1.buffer < max_batch
  unfolding operate_all
  operate_all-bounded [] s h = h
  operate_all-bounded (c ∷ cs) s h =
      operate_all-bounded cs (operate put max_batch c s).1 (operate-bounded c s h)

-- A composite sink is not atomic: when one of its sinks raises, those before it have the event
-- already, and those after it do not get it.
pub write_composite-stops :
    {E : Type 0} (e : E) (before after : List (Bool × List E)) (events : List E)
    → ((sink : Bool × List E) → In sink before → sink.0 ≡ false)
    → write_composite e (before ++ (true, events) ∷ after)
      ≡ (false, map (λ sink. (sink.0, sink.1 ++ e ∷ [])) before ++ (true, events) ∷ after)
unfolding write_composite
write_composite-stops e [] after events fine = refl
write_composite-stops e ((raises, own) ∷ before) after events fine =
    let ih = write_composite-stops e before after events (λ sink i. fine sink (there i)) in
    rw (fine (raises, own) (here refl), ih) refl
