-- ===== src/RateLimit/Tests.antt =====
-- Tests of `RateLimitMiddleware` (sql_query_api/middlewares/rate_limit_middleware.py) on small
-- histories.
use secure_db_access_gateway.Prelude.{
  ℕ, ◌≤◌, String, none, some, List, [], ◌∷◌, ◌≡◌, refl, false, ◌&&◌, arith, eq_iff,
}
use secure_db_access_gateway.RateLimit.{
  State, Limits, Keys, Request, reject, allow_request, call, get_rate_limit_keys,
}
use secure_db_access_gateway.RateLimit.Window.{live, run, window_bound}
use secure_db_access_gateway.RateLimit.Admission.{room, allow_request-room, all_limits_off_refuses}

abbrev empty : State
empty = record {
  ip_requests = [];
  principal_requests = [];
  tenant_requests = [];
  database_requests = [];
  legacy_requests = [];
}

abbrev limits : ℕ → Limits
limits ip = record {
  window_seconds = 60;
  trust_proxy = false;
  legacy_max = 0;
  ip_max_requests = ip;
  principal_max_requests = 0;
  tenant_max_requests = 0;
  database_max_requests = 5;
}

abbrev all_off : Limits
all_off = record (limits 0) { database_max_requests = 0 }

abbrev request : Request
request = record {
  kind = "http";
  path = "/graphql";
  method = "POST";
  principal = none;
  forwarded_for = none;
  client_host = some "10.0.0.1";
}

abbrev history : List (String × ℕ)
history = ("a", 1) ∷ ("b", 2) ∷ ("a", 3) ∷ ("a", 4) ∷ []

window_bound_example : live 60 5 (run 60 2 "a" history [] []) ≤ 2
window_bound_example =
    window_bound 60 1 "a" history 5
      (omega arith, (omega arith, (omega arith, (omega arith, omega arith))))

abbrev ip_only : Keys
ip_only = get_rate_limit_keys (limits 2) request

allow_request-room_example : (allow_request (limits 2) ip_only empty 7).0.0 ≡ (
    room 60 ip_only.ip 2 [] 7
    && (room 60 ip_only.principal 0 [] 7
        && (room 60 ip_only.tenant 0 [] 7 && room 60 ip_only.database 5 [] 7)))
allow_request-room_example = allow_request-room (limits 2) ip_only empty 7

all_limits_off_refuses_example : (call all_off request empty 7).0 ≡ reject 429 60
all_limits_off_refuses_example =
    all_limits_off_refuses all_off request empty 7 refl refl refl refl refl refl refl
      (λ e. ground (arith, eq_iff "POST" "OPTIONS"))
