-- ===== src/Repository/Bounds.antt =====
-- What `execute_sql_statement` (sql_query_api/repositories/sql_query_repository.py) returns.
use secure_db_access_gateway.Prelude.{
  suc, ◌≤◌, String, Option, none, some, List, [], ◌∷◌, Bool, true, false, not, ◌==◌, elem, is_empty,
  map, length, leb, ltb, length-filter-le, Result, ok, raise_if, ◌>>◌, >>=-eq-ok, Exception, ◌≡◌,
  ◌≢◌, arith, In, here, there, refl, inl, inr, Bool-cases, eq_iff, sym, ap, subst,
}
use secure_db_access_gateway.Prelude.Member.{not-In-nil}
use secure_db_access_gateway.Prelude.Json.{Json, str}
use secure_db_access_gateway.Tenant.{is_schema_name}
use secure_db_access_gateway.Gateway.Masking.{Row}
use secure_db_access_gateway.Repository.Cost.{evaluate_query_cost}
use secure_db_access_gateway.Repository.Limit.{ensure_limit}
use secure_db_access_gateway.Repository.Fetch.{fetch, fetch_lem, limited}
use secure_db_access_gateway.Repository.Execute.{
  SqlQueryRepository, Answer, rows, no_rows, timed_out, failed, Services, is_sensitive,
  mask_sensitive_row, apply_sensitive_column_masking, apply_row_filter, shaped, fetched_or_stuck,
  too_large, read_answer, run_limited, execute_sql_statement,
}

>>-eq-ok :
    {B : Type 0} (b : Bool) (e : Exception) (m : Result B) {x : B}
    → (raise_if b e >> m) ≡ ok x
    → (b ≡ false) × (m ≡ ok x)
>>-eq-ok true e m h = cc
>>-eq-ok false e m h = (refl, h)

-- No sensitive cell of a row shows its value.
abbrev pub Hidden : List String → Row → Type 0
Hidden columns row =
    (key : String) (value : Json)
    → In (key, value) row
    → is_sensitive columns key ≡ true
    → value ≡ str "[MASKED]"

mask_sensitive_row-Hidden :
    (columns : List String) (row : Row) → Hidden columns (mask_sensitive_row columns row)
unfolding mask_sensitive_row
mask_sensitive_row-Hidden columns [] key value i s = absurd (not-In-nil i)
mask_sensitive_row-Hidden columns ((k, v) ∷ row) key value (there i) s =
    mask_sensitive_row-Hidden columns row key value i s
mask_sensitive_row-Hidden columns ((k, v) ∷ row) key value (here e) s =
    let same = ap (λ (p : String × Json). p.0) e in
    let masked = ap (λ (p : String × Json). p.1) e in ground (arith, same, masked, s)

all_masked-Hidden :
    (columns : List String) (rs : List Row) (row : Row)
    → In row (map (mask_sensitive_row columns) rs)
    → Hidden columns row
all_masked-Hidden columns [] row i = absurd (not-In-nil i)
all_masked-Hidden columns (r ∷ rs) row (here e) =
    subst (Hidden columns) (sym e) (mask_sensitive_row-Hidden columns r)
all_masked-Hidden columns (r ∷ rs) row (there i) = all_masked-Hidden columns rs row i

-- With no sensitive column, none is.
none_sensitive :
    (columns : List String) (key : String)
    → is_empty columns ≡ true
    → is_sensitive columns key ≡ false
unfolding is_sensitive elem
none_sensitive [] key h = refl
none_sensitive (c ∷ cs) key h = cc

masking-Hidden :
    (columns : List String) (rs : List Row) (row : Row)
    → In row (apply_sensitive_column_masking columns rs)
    → Hidden columns row
unfolding apply_sensitive_column_masking
masking-Hidden columns rs row i = elim (Bool-cases (is_empty columns)) [
  | inl empty ↦ λ key value j s. absurd (ground (arith, none_sensitive columns key empty, s))
  | inr given ↦ all_masked-Hidden columns rs row (rw given at i)
]

length-masking :
    (columns : List String) (rs : List Row)
    → length (apply_sensitive_column_masking columns rs) ≡ length rs
unfolding apply_sensitive_column_masking
length-masking columns rs = ground (arith, length-map (mask_sensitive_row columns) rs)
  where
    length-map : (f : Row → Row) (xs : List Row) → length (map f xs) ≡ length xs
    length-map f [] = refl
    length-map f (x ∷ xs) = ap suc (length-map f xs)

length-row_filter :
    (keep : Option (Row → Bool)) (rs : List Row) → length (apply_row_filter keep rs) ≤ length rs
unfolding apply_row_filter
length-row_filter none rs = omega arith
length-row_filter (some keep) rs = length-filter-le keep rs

module _ (sv : Services) (r : SqlQueryRepository) where
  limited-eq-ok :
      (cursor fetched : List Row)
      → limited sv.decimal r.max_row_limit cursor ≡ ok fetched
      → (cursor ≡ fetched) × (length fetched ≤ r.max_row_limit)
  limited-eq-ok cursor fetched h = elim (Bool-cases (leb (length cursor) r.max_row_limit)) [
    | inl fits ↦
        let same : cursor ≡ fetched = ground arith in
        (same, subst (λ l. length l ≤ r.max_row_limit) same (ground arith))
    | inr over ↦ absurd (ground arith)
  ]

  -- What is asked of the rows that go back.
  pub record IsGuarded (out : List Row) : Type 0 where
    pub few : length out ≤ r.max_row_limit
    pub hidden : (row : Row) → In row out → Hidden r.sensitive_columns row

  -- Rows that are filtered, then masked, are guarded if they were few.
  shaped-IsGuarded :
      (fetched out : List Row)
      → length fetched ≤ r.max_row_limit
      → shaped sv r fetched ≡ ok out
      → IsGuarded out
  unfolding shaped
  shaped-IsGuarded fetched out few h =
      let (_, made) = >>-eq-ok (ltb r.max_result_bytes (sv.size fetched)) (too_large sv r) _ h in
      let kept = apply_row_filter sv.row_filter fetched in
      let same : apply_sensitive_column_masking r.sensitive_columns kept ≡ out = ground arith in
      record {
        few = omega (
          arith,
          ap length same,
          length-masking r.sensitive_columns kept,
          length-row_filter sv.row_filter fetched,
          few,
        );
        hidden = λ row i.
            masking-Hidden r.sensitive_columns kept row (subst (λ l. In row l) (sym same) i);
      }

  fetched-few :
      (cursor fetched : List Row)
      → fetched_or_stuck sv r (fetch sv.decimal r.max_row_limit (suc (length cursor)) [] cursor)
        ≡ ok fetched
      → length fetched ≤ r.max_row_limit
  unfolding fetched_or_stuck
  fetched-few cursor fetched h =
      (limited-eq-ok cursor fetched (
        rw
          (fetch_lem sv.decimal r.max_row_limit (suc (length cursor)) [] cursor (omega arith)
            (omega arith))
          at h)).1

  read_answer-IsGuarded :
      (answer : Answer) (out : List Row) → read_answer sv r answer ≡ ok out → IsGuarded out
  unfolding read_answer
  read_answer-IsGuarded (rows cursor) out h =
      let (fetched, e, k) =
        >>=-eq-ok
          (fetched_or_stuck sv r (fetch sv.decimal r.max_row_limit (suc (length cursor)) [] cursor))
          (shaped sv r) h in
      shaped-IsGuarded fetched out (fetched-few cursor fetched e) k
  read_answer-IsGuarded no_rows out h =
      let same : [] ≡ out = ground arith in
      record {
        few = subst (λ l. length l ≤ r.max_row_limit) same (omega arith);
        hidden = λ row i. absurd (not-In-nil (subst (λ l. In row l) (sym same) i));
      }
  read_answer-IsGuarded timed_out out h = cc
  read_answer-IsGuarded (failed message) out h = cc

  -- The rows that `execute_sql_statement` returns are at most the row limit and show no sensitive
  -- cell; and it returns rows only for a statement that the checker accepts, whose text with its
  -- limit the cost guard does not deny, on a schema with a valid name.
  pub execute-IsGuarded :
      (sql : String) (out : List Row)
      → execute_sql_statement sv r sql ≡ ok out
      → IsGuarded out
        × (sv.is_safe_select_query sql ≡ true)
        × (is_schema_name r.data_schema ≡ true)
        × ((evaluate_query_cost r.query_cost_threshold r.query_cost_action
              (ensure_limit sv.decimal r.max_row_limit sql)).decision
            ≢ "deny")
  unfolding execute_sql_statement run_limited
  execute-IsGuarded sql out h =
      let text = ensure_limit sv.decimal r.max_row_limit sql in
      let cost = (evaluate_query_cost r.query_cost_threshold r.query_cost_action text).decision in
      let (safe, h1) = >>-eq-ok (not (sv.is_safe_select_query sql)) _ _ h in
      let (cheap, h2) = >>-eq-ok (cost == "deny") _ _ h1 in
      let (named, h3) = >>-eq-ok (not (is_schema_name r.data_schema)) _ _ h2 in
      let (dialect, _, h4) = >>=-eq-ok sv.connect _ h3 in
      (
        read_answer-IsGuarded _ out h4,
        ground (arith, safe),
        ground (arith, named),
        ground (arith, cheap, eq_iff cost "deny"),
      )
