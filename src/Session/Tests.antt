-- ===== src/Session/Tests.antt =====
-- Tests of auth0_api/app/auth/session_store.py with a dictionary of values and expiries for Redis.
use secure_db_access_gateway.Prelude.{
  ℕ, ◌+◌, ◌<◌, String, Option, none, some, List, [], true, false, ltb, if◌then◌else◌, ok, ◌≡◌,
  arith, refl, eq_refl,
}
use secure_db_access_gateway.Prelude.Dict.{
  lookup, insert, remove, string_eq, lookup-insert, lookup-remove,
}
use secure_db_access_gateway.Prelude.Json.{Json, null, num, str, obj, Fields, end, field, get}
use secure_db_access_gateway.Session.{
  Redis, Store, stamp, create_session, from_memory, get_session, revoke_session,
}
use secure_db_access_gateway.Session.Lifetime.{
  get_session-revoke_session, get_session-fresh, get_session-create_session,
}

abbrev Server : Type 0
Server = List (String × (String × ℕ))

live_value : ℕ → Option (String × ℕ) → Option String
live_value now none = none
live_value now (some (v, until)) = if ltb now until then some v else none

read_setex :
    (k v : String) (ttl now later : ℕ) (r : Server)
    → later < now + ttl
    → live_value later (lookup k (insert k (v, now + ttl) r)) ≡ some v
unfolding live_value
read_setex k v ttl now later r h = ground (arith, lookup-insert k k (v, now + ttl) r, eq_refl k)

read_delete : (k : String) (now : ℕ) (r : Server) → live_value now (lookup k (remove k r)) ≡ none
unfolding live_value
read_delete k now r = ground (arith, lookup-remove k k r, eq_refl k)

abbrev client : Redis Server
client = record {
  setex = λ k ttl v now r. insert k (v, now + ttl) r;
  read = λ k now r. live_value now (lookup k r);
  delete = λ k r. remove k r;
  read-setex = read_setex;
  read-delete = read_delete;
}

abbrev s1_document : Fields
s1_document = field "user" null (
    field "access_token" (str "jwt")
      (field "csrf_token" (str "t0k3n") (field "expires_at" (num 70) end)))

-- One text stands for one document.
abbrev dumps : Json → String
dumps v = "{}"

abbrev loads : String → Option Json
loads s = some (obj s1_document)

abbrev fresh : Store Server
fresh = record { sessions = []; redis = [] }

abbrev opened : Store Server
opened = create_session client dumps loads false "s1" "t0k3n" null "jwt" 60 10 fresh

s1_read : (get_session client dumps loads false (some "s1") 20 opened).0 ≡ ok (some s1_document)
unfolding get_session create_session from_memory lookup insert
s1_read = refl

get_session-revoke_session_example :
    (get_session client dumps loads false
      (some "s1")
      20
      (revoke_session client dumps loads false (some "s1") opened)).0
    ≡ ok none
get_session-revoke_session_example =
    get_session-revoke_session client dumps loads false (some "s1") 20 opened

get_session-fresh_example : 20 < 70
unfolding stamp get
get_session-fresh_example =
    get_session-fresh client dumps loads false (some "s1") 20 70 opened s1_document s1_read refl

get_session-create_session_example :
    (get_session client dumps loads true
      (some "s1")
      20
      (create_session client dumps loads true "s1" "t0k3n" null "jwt" 60 10 fresh)).0
    ≡ ok (some s1_document)
get_session-create_session_example =
    get_session-create_session client dumps loads true "s1" "t0k3n" null "jwt" 60 10 20 fresh refl
      refl (omega arith)
