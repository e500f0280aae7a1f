-- ===== src/RateLimit/Window.antt =====
-- The sliding window of `_check_limit` in sql_query_api/middlewares/rate_limit_middleware.py: how
-- many requests of one key pass within one window, over any history.
use secure_db_access_gateway.Prelude.{
  ℕ, suc, ◌+◌, ◌≤◌, String, List, [], ◌∷◌, ◌++◌, Bool, ◌==◌, ltb, length, length-append,
  if◌then◌else◌, ◌≡◌, arith, eq_iff, refl, Bool-cases, inl, inr, ap,
}
use secure_db_access_gateway.Prelude.Dict.{lookup, string_eq, lookup-insert}
use secure_db_access_gateway.RateLimit.{Storage, times, evict, current, check_limit}

-- The requests of a list of times that are still within the window at time `now`.
unfoldable pub live : ℕ → ℕ → List ℕ → ℕ
live window now [] = 0
live window now (t ∷ ts) =
    if ltb now (t + window) then suc (live window now ts) else live window now ts

live-append :
    (window now : ℕ) (xs ys : List ℕ)
    → live window now (xs ++ ys) ≡ live window now xs + live window now ys
unfolding live
live-append window now [] ys = ground arith
live-append window now (x ∷ xs) ys = ground (arith, live-append window now xs ys)

live-le-length : (window now : ℕ) (xs : List ℕ) → live window now xs ≤ length xs
unfolding live
live-le-length window now [] = ground arith
live-le-length window now (x ∷ xs) = ground (arith, live-le-length window now xs)

-- Evicted requests are outside the window now, and later.
live-evict :
    (window now later : ℕ) (xs : List ℕ)
    → now ≤ later
    → live window later (evict window now xs) ≡ live window later xs
unfolding live evict
live-evict window now later [] h = refl
live-evict window now later (x ∷ xs) h = ground (arith, live-evict window now later xs h)

length-evict-le : (window now : ℕ) (xs : List ℕ) → length (evict window now xs) ≤ length xs
unfolding evict
length-evict-le window now [] = ground arith
length-evict-le window now (x ∷ xs) = ground (arith, length-evict-le window now xs)

-- A history of calls of `_check_limit` on one storage: the key and the time of each. The log holds
-- the times of the calls that passed, for the key `k`.
abbrev logged : Bool → Bool → ℕ → List ℕ → List ℕ
logged passed mine now log = if passed then (if mine then log ++ now ∷ [] else log) else log

unfoldable pub run : ℕ → ℕ → String → List (String × ℕ) → List ℕ → Storage → List ℕ
run window max k [] log s = log
run window max k ((j, now) ∷ calls) log s =
    let (passed, s') = check_limit window j max s now in
    run window max k calls (logged passed (j == k) now log) s'

-- The times of the calls do not fall, from `start` on, and `end` is not before the last.
abbrev pub Ordered : ℕ → List (String × ℕ) → ℕ → Type 0
Ordered start [] end = start ≤ end
Ordered start ((j, now) ∷ calls) end = (start ≤ now) × Ordered now calls end

-- What the deque of `k` keeps of the log.
record Keeps (window max : ℕ) (k : String) (now : ℕ) (log : List ℕ) (s : Storage) : Type 0 where
  counted :
      (later : ℕ) → now ≤ later → live window later log ≤ live window later (times (lookup k s))
  bounded : length (times (lookup k s)) ≤ max

module _ (window m : ℕ) (k : String) where
  check_limit-Keeps :
      (now then_ : ℕ) (j : String) (log : List ℕ) (s : Storage)
      → now ≤ then_
      → Keeps window (suc m) k now log s
      → Keeps window
          (suc m)
          k
          then_
          (logged (check_limit window j (suc m) s then_).0 (j == k) then_ log)
          (check_limit window j (suc m) s then_).1
  unfolding check_limit current
  check_limit-Keeps now then_ j log s h v = elim (Bool-cases (j == k)) [
    | inl e ↦
        let same = ap (λ (x : String). lookup x s) ((eq_iff j k).0 e) in
        let kept = evict window then_ (times (lookup k s)) in
        record {
          counted = λ later le. ground (
            arith,
            same,
            lookup-insert j k (current window then_ s j) s,
            lookup-insert j k (current window then_ s j ++ then_ ∷ []) s,
            live-evict window then_ later (times (lookup k s)),
            live-append window later kept (then_ ∷ []),
            live-append window later log (then_ ∷ []),
            v.counted later,
          );
          bounded = ground (
            arith,
            same,
            lookup-insert j k (current window then_ s j) s,
            lookup-insert j k (current window then_ s j ++ then_ ∷ []) s,
            length-evict-le window then_ (times (lookup k s)),
            length-append kept (then_ ∷ []),
            v.bounded,
          );
        }
    | inr e ↦ record {
      counted = λ later le. ground (
        arith,
        lookup-insert j k (current window then_ s j) s,
        lookup-insert j k (current window then_ s j ++ then_ ∷ []) s,
        v.counted later,
      );
      bounded = ground (
        arith,
        lookup-insert j k (current window then_ s j) s,
        lookup-insert j k (current window then_ s j ++ then_ ∷ []) s,
      );
    }
  ]

  run-Keeps :
      (now end : ℕ) (calls : List (String × ℕ)) (log : List ℕ) (s : Storage)
      → Ordered now calls end
      → Keeps window (suc m) k now log s
      → live window end (run window (suc m) k calls log s) ≤ suc m
  unfolding run
  run-Keeps now end [] log s h v =
      omega (arith, v.counted end h, live-le-length window end (times (lookup k s)))
  run-Keeps now end ((j, then_) ∷ calls) log s (h, hs) v =
      run-Keeps then_ end calls (logged (check_limit window j (suc m) s then_).0 (j == k) then_ log)
        (check_limit window j (suc m) s then_).1 hs (check_limit-Keeps now then_ j log s h v)

-- Over any history of calls of `_check_limit` on a fresh storage, with any keys, at times that do
-- not fall: of the calls of one key that passed, at most the limit, a positive number, lie within
-- the window at the end of the history.
pub window_bound :
    (window m : ℕ) (k : String) (calls : List (String × ℕ)) (end : ℕ)
    → Ordered 0 calls end
    → live window end (run window (suc m) k calls [] []) ≤ suc m
unfolding live lookup
window_bound window m k calls end h =
    run-Keeps window m k 0 end calls [] [] h
      (record { counted = λ later le. ground arith; bounded = omega arith })
