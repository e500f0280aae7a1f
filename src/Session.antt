-- ===== src/Session.antt =====
-- auth0_api/app/auth/session_store.py: server-side sessions, in Redis when a URL is set and else in
-- the memory of the process. The Redis client is the interface `Redis`; `dumps` and `loads` are
-- `json.dumps` and `json.loads`, `none` where decoding fails. Tokens from `secrets.token_urlsafe` and
-- the clock are arguments; times are natural numbers of some tick.
pub mod Lifetime
mod Tests
use secure_db_access_gateway.Prelude.{
  ℕ, ◌+◌, ◌<◌, String, Option, none, some, List, [], ◌∷◌, Bool, true, false, not, ◌&&◌, ◌≡◌, leb,
  if◌then◌else◌, Result, ok, raise, Exception, runtime_error, attribute_error,
}
use secure_db_access_gateway.Prelude.Text
use secure_db_access_gateway.Prelude.Text.{strip, is_set}
use secure_db_access_gateway.Prelude.Dict.{lookup, insert, remove, string_eq}
use secure_db_access_gateway.Prelude.Json.{
  Json, null, bool, num, str, arr, obj, Fields, end, field, get,
}
use secure_db_access_gateway.Secrets.{or_default, is_environment_production}

-- The client over the state `R` of the server, with what its documentation says: a value set with a
-- time to live is there until then, and a deleted one is not.
pub record Redis (R : Type 0) : Type 0 where
  pub setex : String → ℕ → String → ℕ → R → R
  pub read : String → ℕ → R → Option String
  pub delete : String → R → R
  pub read-setex :
      (k v : String) (ttl now later : ℕ) (r : R)
      → later < now + ttl
      → read k later (setex k ttl v now r) ≡ some v
  pub read-delete : (k : String) (now : ℕ) (r : R) → read k now (delete k r) ≡ none

pub record Payload : Type 0 where
  pub user : Json
  pub access_token : String
  pub csrf_token : String
  pub expires_at : ℕ

abbrev pub document : Payload → Fields
document p = field "user" p.user (
    field "access_token" (str p.access_token)
      (field "csrf_token" (str p.csrf_token) (field "expires_at" (num p.expires_at) end)))

pub record Store (R : Type 0) : Type 0 where
  pub sessions : List (String × Payload)
  pub redis : R

-- _redis_key
abbrev pub redis_key : String → String
redis_key session_id = Text.concat "gateway:session:" session_id

-- An `expires_at` that is an `int`, as `True` and `False` are too.
unfoldable pub stamp : Json → Option ℕ
stamp (num n) = some n
stamp (bool b) = some (if b then 1 else 0)
stamp _ = none

abbrev pub is_past : ℕ → Option ℕ → Bool
is_past now none = false
is_past now (some n) = leb n now

-- validate_session_store, for an environment with the Redis library
unfoldable pub validate_session_store : (String → Option String) → Result (Unit {0})
validate_session_store env =
    if is_environment_production env && not (is_set (strip (or_default "" (env "REDIS_URL"))))
    then raise (
        runtime_error
          "REDIS_URL is required in production for shared session storage. Set REDIS_URL=redis://redis:6379/0 (Docker Compose provides `redis` service) or set ENVIRONMENT=dev for single-process local dev.")
    else ok tt

module _ {R : Type 0} (client : Redis R) (dumps : Json → String) (loads : String → Option Json)
    (connected : Bool) where
  abbrev pub payload_of : Json → String → String → ℕ → ℕ → Payload
  payload_of user access_token csrf_token ttl now = record {
    user = user;
    access_token = access_token;
    csrf_token = csrf_token;
    expires_at = now + ttl;
  }

  -- create_session, whose result is the identifier that it is given here
  unfoldable pub create_session : String → String → Json → String → ℕ → ℕ → Store R → Store R
  create_session session_id csrf_token user access_token ttl now st =
      let payload = payload_of user access_token csrf_token ttl now in
      if connected
      then record st {
        redis =
            client.setex (redis_key session_id) ttl (dumps (obj (document payload))) now st.redis;
      }
      else record st { sessions = insert session_id payload st.sessions }

  abbrev dropped : String → Store R → Store R
  dropped session_id st = record st { redis = client.delete (redis_key session_id) st.redis }

  -- The decoded value of the key.
  unfoldable pub decoded : String → ℕ → Store R → Option Json → Result (Option Fields) × Store R
  decoded session_id now st none = (ok none, dropped session_id st)
  decoded session_id now st (some (obj data_)) =
      if is_past now (stamp (get "expires_at" data_))
      then (ok none, dropped session_id st)
      else (ok (some data_), st)
  decoded session_id now st (some v) = (raise (attribute_error "object has no attribute 'get'"), st)

  unfoldable pub from_redis :
      String → ℕ → Store R → Option String → Result (Option Fields) × Store R
  unfolding decoded
  from_redis session_id now st none = (ok none, st)
  from_redis session_id now st (some raw) = decoded session_id now st (loads raw)

  unfoldable pub from_memory :
      String → ℕ → Store R → Option Payload → Result (Option Fields) × Store R
  from_memory session_id now st none =
      (ok none, record st { sessions = remove session_id st.sessions })
  from_memory session_id now st (some p) =
      if leb p.expires_at now
      then (ok none, record st { sessions = remove session_id st.sessions })
      else (ok (some (document p)), st)

  -- get_session
  unfoldable pub get_session : Option String → ℕ → Store R → Result (Option Fields) × Store R
  unfolding from_redis from_memory
  get_session none now st = (ok none, st)
  get_session (some session_id) now st =
      if not (is_set session_id)
      then (ok none, st)
      else if connected
      then from_redis session_id now st (client.read (redis_key session_id) now st.redis)
      else from_memory session_id now st (lookup session_id st.sessions)

  -- revoke_session
  unfoldable pub revoke_session : Option String → Store R → Store R
  revoke_session none st = st
  revoke_session (some session_id) st = if not (is_set session_id) then st else record st {
    sessions = remove session_id st.sessions;
    redis = if connected then client.delete (redis_key session_id) st.redis else st.redis;
  }
