-- ===== src/Correlation/Identifier.antt =====
-- Which identifier a response of sql_query_api/middlewares/correlation_middleware.py carries.
use Prim.Native.String.{count}
use secure_db_access_gateway.Tenant.{id_char, every_char}
use secure_db_access_gateway.Prelude.{
  ◌≤◌, ◌↔◌, subst, sym, String, Option, none, some, true, ◌≡◌, ◌⊎◌, inl, inr, refl, arith,
  Bool-cases,
}
use secure_db_access_gateway.Prelude.Text.{is_set}
use secure_db_access_gateway.Prelude.Dict.{lookup, string_eq, lookup-insert}
use secure_db_access_gateway.Correlation.{
  is_safe_id, sanitize_correlation_id, or_id, Request, Response, Answer, returned, raised,
  correlation_id_of, with_identifier, correlation_id_middleware,
}

-- What `sanitize_correlation_id` may let through: one to 128 characters of the pattern.
abbrev pub SafeId : String → Type 0
SafeId id = (is_set id ≡ true) × (every_char id_char id ≡ true) × (count id ≤ 128)

-- A header's value that may be used, and a header without one.
abbrev pub Usable : Option String → String → Type 0
Usable header id = (header ≡ some id) × SafeId id

abbrev pub Unusable : Option String → Type 0
Unusable header = (id : String) → header ≡ some id → ¬ SafeId id

is_safe_id-SafeId : (id : String) → (is_safe_id id ≡ true) ↔ SafeId id
is_safe_id-SafeId id = ground arith

or_id-sanitize :
    (header : Option String) (rest : String)
    → Usable header (or_id (sanitize_correlation_id header) rest)
      ⊎ (Unusable header × (or_id (sanitize_correlation_id header) rest ≡ rest))
unfolding sanitize_correlation_id
or_id-sanitize none rest = inr (λ id e. cc, refl)
or_id-sanitize (some v) rest = elim (Bool-cases (is_safe_id v)) [
  | inl safe ↦
      let safe_id = (is_safe_id-SafeId v).0 safe in inl (rw safe (rw safe_id.0 (refl, safe_id)))
  | inr unsafe ↦ inr (
    λ id e safe_id.
        let same : v ≡ id = cc in
        let safe = (is_safe_id-SafeId v).1 (subst SafeId (sym same) safe_id) in
        absurd (cc (safe, unsafe)),
    rw unsafe refl,
  )
]

-- Which identifier a request gets that has none yet.
abbrev pub Chosen : String → Option String → Option String → String → Type 0
Chosen new_id first second id =
    Usable first id ⊎ (Unusable first × (Usable second id ⊎ (Unusable second × (id ≡ new_id))))

correlation_id_of-Chosen :
    (new_id : String) (request : Request)
    → request.state_id ≡ none
    → Chosen new_id
        (lookup "x-correlation-id" request.headers)
        (lookup "x-request-id" request.headers)
        (correlation_id_of new_id request)
unfolding correlation_id_of
correlation_id_of-Chosen new_id request fresh =
    let first = lookup "x-correlation-id" request.headers in
    let second = lookup "x-request-id" request.headers in
    rw fresh (elim (or_id-sanitize first (or_id (sanitize_correlation_id second) new_id)) [
      | inl usable ↦ inl usable
      | inr (unusable, e) ↦ inr (unusable, rw e (or_id-sanitize second new_id))
    ])

-- A response carries the identifier in both of its headers.
abbrev pub Carries : String → Response → Type 0
Carries id response =
    (lookup "x-correlation-id" response.headers ≡ some id)
    × (lookup "x-request-id" response.headers ≡ some id)

with_identifier-Carries :
    (server_error : String → Response) (id duration : String) (answer : Answer)
    → Carries id (with_identifier server_error id duration answer)
unfolding with_identifier
with_identifier-Carries server_error id duration (returned response) =
    (simp lookup-insert, simp lookup-insert)
with_identifier-Carries server_error id duration (raised message) =
    (simp lookup-insert, simp lookup-insert)

-- Every response, also that to an exception, carries one identifier in both headers. If the request's
-- state had none, it is the value of the first header, if that is safe, or else the value of the
-- second, if that is safe, or else the new one. Safe is one to 128 characters of the pattern.
pub correlation_id_middleware-safe :
    (server_error : String → Response) (call_next : String → Request → Answer)
    (new_id duration : String) (request : Request)
    → request.state_id ≡ none
    → (id : String) × Carries id
        (correlation_id_middleware server_error call_next new_id duration request)
      × Chosen new_id
          (lookup "x-correlation-id" request.headers)
          (lookup "x-request-id" request.headers)
          id
unfolding correlation_id_middleware
correlation_id_middleware-safe server_error call_next new_id duration request fresh =
    let id = correlation_id_of new_id request in
    (
      id,
      with_identifier-Carries server_error id duration
          (call_next id (record request { state_id = some id })),
      correlation_id_of-Chosen new_id request fresh,
    )
