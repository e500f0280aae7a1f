-- ===== src/RateLimit/Admission.antt =====
-- Which requests `RateLimitMiddleware` (sql_query_api/middlewares/rate_limit_middleware.py) lets by.
use secure_db_access_gateway.Prelude.{
  ℕ, zero, suc, String, Option, none, some, Bool, true, false, not, ◌&&◌, ◌||◌, ltb, leb, length,
  ◌≡◌, arith, eq_iff, refl, ◌≢◌, starts_with,
}
use secure_db_access_gateway.Prelude.Text.{is_set}
use secure_db_access_gateway.RateLimit.{
  Storage, State, Limits, Keys, Request, reject, current, check_limit, check_key, allow_request,
  allow_legacy_request, layered_mode, call, get_client_ip, get_rate_limit_keys, get_rate_limit_key,
  extract_database_id,
}

-- A dimension that does not stand in the way: no key, no limit, or fewer requests than the limit
-- in the window.
abbrev pub room : ℕ → Option String → ℕ → Storage → ℕ → Bool
room window none max s now = true
room window (some key) max s now =
    not (is_set key) || leb max 0 || ltb (length (current window now s key)) max

check_limit-room :
    (window : ℕ) (key : String) (max : ℕ) (s : Storage) (now : ℕ)
    → (check_limit window key max s now).0
      ≡ (leb max 0 || ltb (length (current window now s key)) max)
unfolding check_limit
check_limit-room window key zero s now = ground arith
check_limit-room window key (suc m) s now = ground arith

check_key-room :
    (window : ℕ) (k : Option String) (max : ℕ) (s : Storage) (now : ℕ)
    → (check_key window k max s now).0 ≡ room window k max s now
unfolding check_key
check_key-room window none max s now = refl
check_key-room window (some key) max s now = ground (arith, check_limit-room window key max s now)

-- A request passes the layered limits exactly when none of its four dimensions is exhausted: a
-- check of one dimension never changes the room of another.
pub allow_request-room :
    (l : Limits) (k : Keys) (s : State) (now : ℕ)
    → (allow_request l k s now).0.0 ≡ (
        room l.window_seconds k.ip l.ip_max_requests s.ip_requests now
        && (room l.window_seconds k.principal l.principal_max_requests s.principal_requests now
            && (room l.window_seconds k.tenant l.tenant_max_requests s.tenant_requests now
                && room l.window_seconds k.database l.database_max_requests s.database_requests
                    now)))
unfolding allow_request
allow_request-room l k s now = ground (
  arith,
  check_key-room l.window_seconds k.ip l.ip_max_requests s.ip_requests now,
  check_key-room l.window_seconds k.principal l.principal_max_requests s.principal_requests now,
  check_key-room l.window_seconds k.tenant l.tenant_max_requests s.tenant_requests now,
  check_key-room l.window_seconds k.database l.database_max_requests s.database_requests now,
)

-- With the keys that the middleware derives, the exceeded dimension is never the database, and the
-- database limit makes no difference to the answer.
pub database_never_exceeded :
    (l : Limits) (r : Request) (s : State) (now max : ℕ)
    → ((allow_request l (get_rate_limit_keys l r) s now).0.1 ≢ "database")
      × ((allow_request l (get_rate_limit_keys l r) s now).0
          ≡ (allow_request
              (record l { database_max_requests = max })
              (get_rate_limit_keys l r)
              s
              now).0)
unfolding allow_request get_rate_limit_keys extract_database_id check_key
database_never_exceeded l r s now max = (
  ground (
    arith,
    eq_iff "ip" "database",
    eq_iff "principal" "database",
    eq_iff "tenant" "database",
    eq_iff "" "database",
  ),
  ground arith,
)

-- With the four limits of the dimensions and the legacy limit at 0, each GraphQL request that is no
-- OPTIONS request is refused.
pub all_limits_off_refuses :
    (l : Limits) (r : Request) (s : State) (now : ℕ)
    → l.legacy_max ≡ 0
    → l.ip_max_requests ≡ 0
    → l.principal_max_requests ≡ 0
    → l.tenant_max_requests ≡ 0
    → l.database_max_requests ≡ 0
    → r.kind ≡ "http"
    → starts_with r.path "/graphql" ≡ true
    → r.method ≢ "OPTIONS"
    → (call l r s now).0 ≡ reject 429 l.window_seconds
unfolding call allow_legacy_request layered_mode
all_limits_off_refuses l r s now zero_max ip principal tenant database http path method =
    ground (arith, eq_iff r.kind "http", eq_iff r.method "OPTIONS")

abbrev pub with_forwarded_for : Option String → Request → Request
with_forwarded_for header r = record r { forwarded_for = header }

client_ip_untrusted :
    (l : Limits) (r : Request) (header : Option String)
    → l.trust_proxy ≡ false
    → get_client_ip l r ≡ get_client_ip l (with_forwarded_for header r)
unfolding get_client_ip
client_ip_untrusted l r header h = ground arith

keys_untrusted :
    (l : Limits) (r : Request) (header : Option String)
    → l.trust_proxy ≡ false
    → get_rate_limit_keys l r ≡ get_rate_limit_keys l (with_forwarded_for header r)
unfolding get_rate_limit_keys extract_database_id
keys_untrusted l r header h = rw (client_ip_untrusted l r header h)

key_untrusted :
    (l : Limits) (r : Request) (header : Option String)
    → l.trust_proxy ≡ false
    → get_rate_limit_key l r ≡ get_rate_limit_key l (with_forwarded_for header r)
unfolding get_rate_limit_key
key_untrusted l r header h = ground (arith, client_ip_untrusted l r header h)

-- Unless the proxy is trusted, the `x-forwarded-for` header of a request changes nothing: neither
-- the answer nor the budgets that are charged.
pub forwarded_for_untrusted :
    (l : Limits) (r : Request) (s : State) (now : ℕ) (header : Option String)
    → l.trust_proxy ≡ false
    → call l r s now ≡ call l (with_forwarded_for header r) s now
unfolding call
forwarded_for_untrusted l r s now header h =
    rw (keys_untrusted l r header h, key_untrusted l r header h)
