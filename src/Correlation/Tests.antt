-- ===== src/Correlation/Tests.antt =====
-- Tests of sql_query_api/middlewares/correlation_middleware.py with a header that is refused and an
-- application that raises.
use secure_db_access_gateway.Prelude.{String, none, some, [], ◌∷◌, ◌≡◌, refl}
use secure_db_access_gateway.Prelude.Dict.{lookup, string_eq}
use secure_db_access_gateway.Prelude.Text.{code_eq}
use secure_db_access_gateway.Tenant.{id_char, every_char}
use secure_db_access_gateway.Correlation.{
  sanitize_correlation_id, Request, Response, Answer, raised, correlation_id_of,
  correlation_id_middleware,
}
use secure_db_access_gateway.Correlation.Identifier.{
  Carries, Chosen, correlation_id_middleware-safe,
}

abbrev request : Request
request = record {
  state_id = none;
  headers = ("x-correlation-id", "a b") ∷ ("x-request-id", "req-7.x") ∷ [];
}

abbrev server_error : String → Response
server_error message = record { status = "500"; headers = [] }

abbrev call_next : String → Request → Answer
call_next id r = raised "boom"

second_header : correlation_id_of "new" request ≡ "req-7.x"
unfolding correlation_id_of sanitize_correlation_id lookup every_char id_char code_eq
second_header = refl

correlation_id_middleware-safe_example :
    (id : String) × Carries id
      (correlation_id_middleware server_error call_next "new" "0.1s" request)
    × Chosen "new" (some "a b") (some "req-7.x") id
unfolding lookup
correlation_id_middleware-safe_example =
    correlation_id_middleware-safe server_error call_next "new" "0.1s" request refl
