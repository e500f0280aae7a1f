-- ===== src/Incident/Tests.antt =====
-- Tests of sql_query_api/services/incident_response.py with a dictionary of values and expiries for
-- Redis.
use secure_db_access_gateway.Prelude.{
  ℕ, ◌+◌, String, Option, none, some, List, [], ◌∷◌, Bool, true, false, ◌&&◌, ltb, if◌then◌else◌,
  ◌==◌, starts_with, ◌≡◌, In, filter, map, arith, refl, eq_iff, sym,
}
use text.Mathlib.TextEquality.{starts_with_iff}
use secure_db_access_gateway.Prelude.Member.{filter-In}
use secure_db_access_gateway.Prelude.Text.{concat, rstrip_chars, code_eq}
use secure_db_access_gateway.Prelude.Dict.{
  lookup, insert, remove, string_eq, lookup-insert, lookup-remove,
}
use secure_db_access_gateway.Incident.{
  is_there, Client, BlockedIp, RevokedSession, IncidentResponseConfig, Incidents, Action, unblock,
  revoke_all, isolate, restore, perform_all, is_ip_blocked, is_session_revoked, is_tenant_isolated,
  revoke_session, revoke_all_user_sessions, isolate_tenant,
}
use secure_db_access_gateway.Incident.State.{
  AllSpare, is_session_revoked-revoke_all_user_sessions, is_tenant_isolated-perform_all,
}

-- A value, and until when it is there; `none` is for good.
abbrev Server : Type 0
Server = List (String × (String × Option ℕ))

in_time : ℕ → String → Option ℕ → Option String
in_time now v none = some v
in_time now v (some until) = if ltb now until then some v else none

live_value : ℕ → Option (String × Option ℕ) → Option String
live_value now none = none
live_value now (some (v, until)) = in_time now v until

abbrev read : String → ℕ → Server → Option String
read k now r = live_value now (lookup k r)

abbrev revoked_prefix : String
revoked_prefix = "security:revoked_sessions:"

is_match : String → ℕ → Server → String → Bool
is_match pattern now r k =
    starts_with k revoked_prefix
    && (starts_with k (rstrip_chars (b'*' ∷ []) pattern) && is_there (read k now r))

abbrev keys : String → ℕ → Server → List String
keys pattern now r = filter (is_match pattern now r) (map (λ e. e.0) r)

read_set :
    (k j v : String) (now : ℕ) (r : Server)
    → read j now (insert k (v, none) r) ≡ (if k == j then some v else read j now r)
unfolding live_value in_time
read_set k j v now r = ground (arith, lookup-insert k j (v, none) r)

read_setex :
    (k j v : String) (ttl at now : ℕ) (r : Server)
    → read j now (insert k (v, some (at + ttl)) r)
      ≡ (if k == j then (if ltb now (at + ttl) then some v else none) else read j now r)
unfolding live_value in_time
read_setex k j v ttl at now r = ground (arith, lookup-insert k j (v, some (at + ttl)) r)

read_delete :
    (k j : String) (now : ℕ) (r : Server)
    → read j now (remove k r) ≡ (if k == j then none else read j now r)
unfolding live_value
read_delete k j now r = ground (arith, lookup-remove k j r)

keys_there :
    (pattern k : String) (now : ℕ) (r : Server)
    → In k (keys pattern now r)
    → is_there (read k now r) ≡ true
unfolding is_match
keys_there pattern k now r i =
    let m = (filter-In (is_match pattern now r) (map (λ e. e.0) r) i).1 in ground arith

keys_revoked :
    (pattern k : String) (now : ℕ) (r : Server)
    → In k (keys (concat "security:revoked_sessions:" pattern) now r)
    → (rest : String) × (k ≡ concat "security:revoked_sessions:" rest)
unfolding is_match
keys_revoked pattern k now r i =
    let m = (filter-In (is_match (concat revoked_prefix pattern) now r) (map (λ e. e.0) r) i).1 in
    let (rest, e) = (starts_with_iff k revoked_prefix).0 (ground arith) in (rest, sym e)

abbrev client : Client Server
client = record {
  read = read;
  set = λ k v r. insert k (v, none) r;
  setex = λ k ttl v now r. insert k (v, some (now + ttl)) r;
  delete = λ k r. remove k r;
  keys = keys;
  read-set = read_set;
  read-setex = read_setex;
  read-delete = read_delete;
  keys-there = keys_there;
  keys-revoked = keys_revoked;
}

abbrev config : IncidentResponseConfig
config = record { session_ttl = 1800; block_duration = 3600 }

abbrev repr_blocked : BlockedIp → String
repr_blocked b = b.ip

abbrev repr_revoked : RevokedSession → String
repr_revoked v = v.session_id

abbrev decimal : ℕ → String
decimal n = "7"

abbrev empty_server : Incidents Server
empty_server = record { redis = []; audit = [] }

abbrev one_revoked : Incidents Server
one_revoked =
    (revoke_session client config repr_blocked repr_revoked decimal "u1:s1" "u1" "theft" "admin" 10
      empty_server).1

one_key :
    (revoke_all_user_sessions client config repr_blocked repr_revoked decimal "u1" "theft" "admin"
      20 one_revoked).0
    ≡ 1
unfolding revoke_all_user_sessions revoke_session lookup insert live_value in_time is_match
    rstrip_chars code_eq
one_key = refl

-- The user's other session, which nobody revoked, stays as it was.
is_session_revoked-revoke_all_user_sessions_example :
    is_session_revoked client config repr_blocked repr_revoked decimal "u1:s2" 20
      (revoke_all_user_sessions client config repr_blocked repr_revoked decimal "u1" "theft" "admin"
        20 one_revoked).1
    ≡ is_session_revoked client config repr_blocked repr_revoked decimal "u1:s2" 20 one_revoked
is_session_revoked-revoke_all_user_sessions_example =
    is_session_revoked-revoke_all_user_sessions client config repr_blocked repr_revoked decimal "u1"
      "theft" "admin" "u1:s2" 20 one_revoked (omega arith)

not_blocked :
    is_ip_blocked client config repr_blocked repr_revoked decimal "10.0.0.9" 20 one_revoked ≡ false
unfolding is_ip_blocked revoke_session lookup insert live_value
not_blocked = refl

abbrev calls : List (Action × ℕ)
calls =
    (restore "org-b" "admin", 30)
    ∷ (unblock "10.0.0.9" "admin", 31)
    ∷ (revoke_all "u1" "theft" "admin", 32)
    ∷ (isolate "org-b" "breach" "admin", 33)
    ∷ []

calls-AllSpare : AllSpare "org-a" calls
calls-AllSpare = (λ e. ground (arith, eq_iff "org-b" "org-a"), (tt, (tt, (tt, tt))))

is_tenant_isolated-perform_all_example :
    is_tenant_isolated client config repr_blocked repr_revoked decimal "org-a" 99999 (
      perform_all client config repr_blocked repr_revoked decimal calls
        (isolate_tenant client config repr_blocked repr_revoked decimal "org-a" "breach" "admin" 25
          one_revoked).1)
    ≡ true
is_tenant_isolated-perform_all_example =
    is_tenant_isolated-perform_all client config repr_blocked repr_revoked decimal calls "org-a"
      "breach" "admin" 25 99999 one_revoked calls-AllSpare
