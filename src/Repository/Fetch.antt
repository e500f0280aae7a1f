-- ===== src/Repository/Fetch.antt =====
-- The loop of `execute_sql_statement` (sql_query_api/repositories/sql_query_repository.py) that reads
-- the rows of a result in batches, and what it computes.
use secure_db_access_gateway.Prelude.{
  ℕ, zero, suc, ◌+◌, ◌-◌, ◌≤◌, ◌<◌, String, Option, none, some, List, [], ◌∷◌, ◌++◌, true, leb, ltb,
  length, length-append, if◌then◌else◌, Result, ok, raise, Exception, execution_error, ◌≡◌, arith,
  refl, Bool-cases, inl, inr, sym, ◌∙◌, ap,
}
use secure_db_access_gateway.Prelude.Text.{concat}
use mathlib.Core.List.{append_assoc, append-nil}

-- xs[:n] and xs[n:]
unfoldable pub take {ℓ} : {A : Type ℓ} → ℕ → List A → List A
take zero xs = []
take (suc n) [] = []
take (suc n) (x ∷ xs) = x ∷ take n xs

unfoldable pub drop {ℓ} : {A : Type ℓ} → ℕ → List A → List A
drop zero xs = xs
drop (suc n) [] = []
drop (suc n) (x ∷ xs) = drop n xs

pub take-drop {ℓ} : {A : Type ℓ} (n : ℕ) (xs : List A) → take n xs ++ drop n xs ≡ xs
unfolding take drop
take-drop zero xs = refl
take-drop (suc n) [] = refl
take-drop (suc n) (x ∷ xs) = ap (λ t. x ∷ t) (take-drop n xs)

pub length-drop {ℓ} : {A : Type ℓ} (n : ℕ) (xs : List A) → length (drop n xs) ≡ length xs - n
unfolding drop
length-drop zero xs = omega arith
length-drop (suc n) [] = omega arith
length-drop (suc n) (x ∷ xs) = omega (arith, length-drop n xs)

pub length-take-drop {ℓ} :
    {A : Type ℓ} (n : ℕ) (xs : List A) → length (take n xs) + length (drop n xs) ≡ length xs
length-take-drop n xs = sym (length-append (take n xs) (drop n xs)) ∙ ap length (take-drop n xs)

abbrev pub too_many : (ℕ → String) → ℕ → Exception
too_many decimal max =
    execution_error (
      concat "Query result exceeds the maximum allowed row limit ("
        (concat (decimal max) " rows)."))

module _ {A : Type 0} (decimal : ℕ → String) (max : ℕ) where
  -- `for row in batch`: each row is appended, and the length checked.
  unfoldable pub add_batch : List A → List A → Result (List A)
  add_batch rows [] = ok rows
  add_batch rows (r ∷ batch) =
      let rest = add_batch (rows ++ r ∷ []) batch in
      if ltb max (length (rows ++ r ∷ [])) then raise (too_many decimal max) else rest

  -- What is done with a batch: an empty one ends the loop; `again` is its next round.
  abbrev after_batch :
      (List A → Option (Result (List A))) → Result (List A) → Option (Result (List A))
  after_batch again (ok more) = again more
  after_batch again (raise e) = some (raise e)

  unfoldable pub with_batch :
      (List A → Option (Result (List A))) → List A → List A → Option (Result (List A))
  with_batch again rows [] = some (ok rows)
  with_batch again rows (r ∷ batch) = after_batch again (add_batch rows (r ∷ batch))

  -- `while len(result_dicts) <= max: batch = fetchmany(256)`, on the rows that the cursor still has;
  -- `none` is a loop that has run out of fuel.
  unfoldable pub fetch : ℕ → List A → List A → Option (Result (List A))
  fetch zero rows cursor = none
  fetch (suc fuel) rows cursor =
      if leb (length rows) max
      then with_batch (λ more. fetch fuel more (drop 256 cursor)) rows (take 256 cursor)
      else some (ok rows)

  -- What the loop computes: all rows, or the error if they are more than the limit.
  abbrev pub limited : List A → Result (List A)
  limited rows = if leb (length rows) max then ok rows else raise (too_many decimal max)

  add_batch_lem :
      (rows batch : List A) → length rows ≤ max → add_batch rows batch ≡ limited (rows ++ batch)
  unfolding add_batch
  add_batch_lem rows [] h = rw (append-nil rows) (ground arith)
  add_batch_lem rows (r ∷ batch) h = elim (Bool-cases (ltb max (length (rows ++ r ∷ [])))) [
    | inl over ↦ ground (arith, over, length-append rows (r ∷ batch), length-append rows (r ∷ []))
    | inr fits ↦
        rw
          (
            fits,
            add_batch_lem (rows ++ r ∷ []) batch (ground arith),
            append_assoc rows (r ∷ []) batch,
          )
          refl
  ]

  take_nil : (cursor : List A) → take 256 cursor ≡ [] → cursor ≡ []
  unfolding take
  take_nil [] h = refl
  take_nil (x ∷ xs) h = cc

  with_batch_lem :
      (fuel : ℕ) (rows batch rest : List A)
      → (length rest < fuel
          → (more : List A) → length more ≤ max
          → fetch fuel more rest ≡ some (limited (more ++ rest)))
      → (batch ≡ [] → rest ≡ [])
      → (0 < length batch → length rest < fuel)
      → length rows ≤ max
      → with_batch (λ more. fetch fuel more rest) rows batch
        ≡ some (limited (rows ++ (batch ++ rest)))
  unfolding with_batch
  with_batch_lem fuel rows [] rest ih last less h = rw (last refl, append-nil rows) (ground arith)
  with_batch_lem fuel rows (r ∷ batch) rest ih last less h =
      elim (Bool-cases (leb (length (rows ++ r ∷ batch)) max)) [
        | inl fits ↦
            rw
              (
                add_batch_lem rows (r ∷ batch) h,
                fits,
                ih (less (omega arith)) (rows ++ r ∷ batch) (ground arith),
              )
              (rw (append_assoc rows (r ∷ batch) rest) refl)
        | inr over ↦
            rw (add_batch_lem rows (r ∷ batch) h, over)
              (ground (
                arith,
                length-append rows (r ∷ batch),
                length-append rows (r ∷ batch ++ rest),
                length-append batch rest,
              ))
      ]

  -- The loop ends, with more fuel than the cursor has rows, and what it gives is what the rows that
  -- were read before and those of the cursor make together: all of them, in order, or the error.
  pub fetch_lem :
      (fuel : ℕ) (rows cursor : List A)
      → length cursor < fuel
      → length rows ≤ max
      → fetch fuel rows cursor ≡ some (limited (rows ++ cursor))
  unfolding fetch drop
  fetch_lem zero rows cursor lt le = absurd (omega arith)
  fetch_lem (suc fuel) rows cursor lt le =
      let within : leb (length rows) max ≡ true = ground arith in
      rw within (
        with_batch_lem fuel rows (take 256 cursor) (drop 256 cursor)
          (λ less more m. fetch_lem fuel more (drop 256 cursor) less m)
          (λ e. ap (drop 256) (take_nil cursor e))
          (λ some_row. omega (arith, length-take-drop 256 cursor)) le
        ∙ ap (λ c. some (limited (rows ++ c))) (take-drop 256 cursor))
