-- ===== src/RateLimit.antt =====
-- sql_query_api/middlewares/rate_limit_middleware.py: sliding-window budgets for GraphQL requests.
-- Times are natural numbers of some clock tick, as `time.monotonic()` only ever grows. A limit
-- of 0 of a dimension stands for the values <= 0, which the code treats alike; the legacy limit is
-- not negative. Each request runs under the lock, so a
-- history is a sequence of calls.
pub mod Window
pub mod Admission
mod Tests
use secure_db_access_gateway.Prelude.{
  ℕ, zero, suc, ◌+◌, String, Option, none, some, List, [], ◌∷◌, ◌++◌, Bool, true, false, not, ◌&&◌,
  ◌||◌, ◌==◌, ltb, leb, length, if◌then◌else◌, starts_with,
}
use secure_db_access_gateway.Prelude.Text
use secure_db_access_gateway.Prelude.Text.{strip, is_set, before_first}
use secure_db_access_gateway.Prelude.Dict.{lookup, insert, string_eq}
use secure_db_access_gateway.Auth.{Principal}

-- defaultdict(deque): the times of the admitted requests of each key, oldest first
abbrev pub Storage : Type 0
Storage = List (String × List ℕ)

abbrev pub times : Option (List ℕ) → List ℕ
times none = []
times (some ts) = ts

-- `while requests and requests[0] <= cutoff: requests.popleft()`, with cutoff = now - window
unfoldable pub evict : ℕ → ℕ → List ℕ → List ℕ
evict window now [] = []
evict window now (t ∷ ts) =
    let rest = evict window now ts in if leb (t + window) now then rest else t ∷ ts

-- The deque of a key, after the eviction.
unfoldable pub current : ℕ → ℕ → Storage → String → List ℕ
current window now s key = evict window now (times (lookup key s))

-- RateLimitMiddleware._check_limit
unfoldable pub check_limit : ℕ → String → ℕ → Storage → ℕ → Bool × Storage
check_limit window key zero s now = (true, s)
check_limit window key (suc m) s now =
    let requests = current window now s key in
    if leb (suc m) (length requests)
    then (false, insert key requests s)
    else (true, insert key (requests ++ now ∷ []) s)

-- RateLimitMiddleware._allow_legacy_request, which has no exception for a limit of 0
unfoldable pub allow_legacy_request : ℕ → ℕ → String → Storage → ℕ → Bool × Storage
allow_legacy_request window max key s now =
    let requests = current window now s key in
    if leb max (length requests)
    then (false, insert key requests s)
    else (true, insert key (requests ++ now ∷ []) s)

pub record Limits : Type 0 where
  pub window_seconds : ℕ
  pub trust_proxy : Bool
  pub legacy_max : ℕ
  pub ip_max_requests : ℕ
  pub principal_max_requests : ℕ
  pub tenant_max_requests : ℕ
  pub database_max_requests : ℕ

unfoldable pub layered_mode : Limits → Bool
layered_mode l =
    leb l.legacy_max 0
    && (ltb 0 l.ip_max_requests
        || ltb 0 l.principal_max_requests
        || ltb 0 l.tenant_max_requests
        || ltb 0 l.database_max_requests)

pub record State : Type 0 where
  pub ip_requests : Storage
  pub principal_requests : Storage
  pub tenant_requests : Storage
  pub database_requests : Storage
  pub legacy_requests : Storage

pub record Keys : Type 0 where
  pub ip : Option String
  pub principal : Option String
  pub tenant : Option String
  pub database : Option String

-- A dimension with no key, or an empty one, is not checked.
unfoldable pub check_key : ℕ → Option String → ℕ → Storage → ℕ → Bool × Storage
check_key window none max s now = (true, s)
check_key window (some key) max s now =
    if is_set key then check_limit window key max s now else (true, s)

-- RateLimitMiddleware._allow_request; the text is the exceeded dimension
unfoldable pub allow_request : Limits → Keys → State → ℕ → (Bool × String) × State
allow_request l k s now =
    let (ip_ok, ips) = check_key l.window_seconds k.ip l.ip_max_requests s.ip_requests now in
    let s1 = record s { ip_requests = ips } in
    if not ip_ok
    then ((false, "ip"), s1)
    else let (principal_ok, ps) =
        check_key l.window_seconds k.principal l.principal_max_requests s.principal_requests now in
      let s2 = record s1 { principal_requests = ps } in
      if not principal_ok
      then ((false, "principal"), s2)
      else let (tenant_ok, ts) =
          check_key l.window_seconds k.tenant l.tenant_max_requests s.tenant_requests now in
        let s3 = record s2 { tenant_requests = ts } in
        if not tenant_ok
        then ((false, "tenant"), s3)
        else let (database_ok, ds) =
            check_key l.window_seconds k.database l.database_max_requests s.database_requests now in
          let s4 = record s3 { database_requests = ds } in
          if not database_ok then ((false, "database"), s4) else ((true, ""), s4)

-- What the middleware reads of a request. `forwarded_for` is the `x-forwarded-for` header.
pub record Request : Type 0 where
  pub kind : String
  pub path : String
  pub method : String
  pub principal : Option Principal
  pub forwarded_for : Option String
  pub client_host : Option String

abbrev host_or_unknown : Option String → String
host_or_unknown none = "unknown"
host_or_unknown (some h) = h

-- RateLimitMiddleware._get_client_ip
unfoldable pub get_client_ip : Limits → Request → String
get_client_ip l r = elim r.forwarded_for [
  | none ↦ host_or_unknown r.client_host
  | some f ↦
      if l.trust_proxy && is_set f
      then strip (before_first b',' f)
      else host_or_unknown r.client_host
]

-- `principal is not None and getattr(principal, name, None)`, as a key
abbrev id_key : (Principal → String) → Option Principal → Option String
id_key f none = none
id_key f (some p) = if is_set (f p) then some (f p) else none

-- RateLimitMiddleware._extract_database_id
unfoldable pub extract_database_id : Request → Option String
extract_database_id r = none

-- RateLimitMiddleware._get_rate_limit_keys
unfoldable pub get_rate_limit_keys : Limits → Request → Keys
get_rate_limit_keys l r = record {
  ip = some (get_client_ip l r);
  principal = id_key (λ p. p.user_id) r.principal;
  tenant = id_key (λ p. p.org_id) r.principal;
  database = extract_database_id r;
}

-- RateLimitMiddleware._get_rate_limit_key
unfoldable pub get_rate_limit_key : Limits → Request → String
get_rate_limit_key l r = elim (id_key (λ p. p.user_id) r.principal) [
  | some user ↦ Text.concat "user:" user
  | none ↦ get_client_ip l r
]

pub data Outcome : Type 0 where
  forward : Outcome
  reject : (status retry_after : ℕ) → Outcome

abbrev answered : Limits → Bool × State → Outcome × State
answered l (allowed, s) = (if allowed then forward else reject 429 l.window_seconds, s)

abbrev layered_answer : (Bool × String) × State → Bool × State
layered_answer ((allowed, exceeded), s) = (allowed, s)

abbrev legacy_answer : State → Bool × Storage → Bool × State
legacy_answer s (allowed, ls) = (allowed, record s { legacy_requests = ls })

-- RateLimitMiddleware.__call__
unfoldable pub call : Limits → Request → State → ℕ → Outcome × State
call l r s now =
    if not (r.kind == "http")
    then (forward, s)
    else if starts_with r.path "/graphql" && not (r.method == "OPTIONS")
    then answered l (
        if layered_mode l
        then layered_answer (allow_request l (get_rate_limit_keys l r) s now)
        else legacy_answer s (
            allow_legacy_request l.window_seconds l.legacy_max (get_rate_limit_key l r)
              s.legacy_requests now))
    else (forward, s)
