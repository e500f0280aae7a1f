-- ===== src/Incident.antt =====
-- sql_query_api/services/incident_response.py: blocked addresses, revoked sessions and isolated
-- tenants, kept in Redis. The client is the interface `Client`; `repr` writes a record, `decimal` a
-- time. Times are natural numbers. The keys are those of the default configuration, which the
-- manager uses; logging is left out.
pub mod State
mod Tests
use secure_db_access_gateway.Prelude.{
  ℕ, zero, suc, ◌+◌, ◌<◌, String, Option, none, some, List, [], ◌∷◌, ◌++◌, Bool, true, false, not,
  ◌==◌, ltb, length, if◌then◌else◌, ◌≡◌, In,
}
use secure_db_access_gateway.Prelude.Text.{is_set, concat}

abbrev pub is_there : Option String → Bool
is_there none = false
is_there (some v) = true

-- The client over the state `R` of the server, with what its documentation says of the values that
-- can be read at a time: SET sets a value for good, SETEX one for a while, DEL removes it, and KEYS
-- lists keys that are there and begin as the pattern does, up to its first special character.
pub record Client (R : Type 0) : Type 0 where
  pub read : String → ℕ → R → Option String
  pub set : String → String → R → R
  pub setex : String → ℕ → String → ℕ → R → R
  pub delete : String → R → R
  pub keys : String → ℕ → R → List String
  pub read-set :
      (k j v : String) (now : ℕ) (r : R)
      → read j now (set k v r) ≡ (if k == j then some v else read j now r)
  pub read-setex :
      (k j v : String) (ttl at now : ℕ) (r : R)
      → read j now (setex k ttl v at r)
        ≡ (if k == j then (if ltb now (at + ttl) then some v else none) else read j now r)
  pub read-delete :
      (k j : String) (now : ℕ) (r : R)
      → read j now (delete k r) ≡ (if k == j then none else read j now r)
  pub keys-there :
      (pattern k : String) (now : ℕ) (r : R)
      → In k (keys pattern now r)
      → is_there (read k now r) ≡ true
  pub keys-revoked :
      (pattern k : String) (now : ℕ) (r : R)
      → In k (keys (concat "security:revoked_sessions:" pattern) now r)
      → (rest : String) × (k ≡ concat "security:revoked_sessions:" rest)

pub record BlockedIp : Type 0 where
  pub ip : String
  pub reason : String
  pub blocked_at : ℕ
  pub expires_at : ℕ
  pub blocked_by : String

pub record RevokedSession : Type 0 where
  pub session_id : String
  pub user_id : String
  pub reason : String
  pub revoked_at : ℕ
  pub revoked_by : String

pub record IncidentResponseConfig : Type 0 where
  pub session_ttl : ℕ
  pub block_duration : ℕ

abbrev pub block_key : String → String
block_key ip = concat "security:blocklist:ip:" ip

abbrev pub revoked_key : String → String
revoked_key session_id = concat "security:revoked_sessions:" session_id

abbrev pub isolation_key : String → String
isolation_key org_id = concat "security:tenant_isolation:" org_id

-- The audit events of the manager.
pub data Event : Type 0 where
  ip_blocked : (ip reason blocked_by : String) → (duration expires_at : ℕ) → Event
  ip_unblocked : (ip unblocked_by : String) → Event
  session_revoked : (session_id user_id reason revoked_by : String) → Event
  user_sessions_revoked : (user_id : String) → ℕ → (reason revoked_by : String) → Event
  tenant_isolated : (org_id reason isolated_by : String) → Event
  tenant_restored : (org_id restored_by : String) → Event

-- The server and the events written so far.
pub record Incidents (R : Type 0) : Type 0 where
  pub redis : R
  pub audit : List Event

-- The module's functions over the one manager, as values.
pub data Action : Type 0 where
  block : (ip reason blocked_by : String) → Option ℕ → Action
  unblock : (ip unblocked_by : String) → Action
  revoke : (session_id user_id reason revoked_by : String) → Action
  revoke_all : (user_id reason revoked_by : String) → Action
  isolate : (org_id reason isolated_by : String) → Action
  restore : (org_id restored_by : String) → Action

-- duration or default
abbrev or_default : Option ℕ → ℕ → ℕ
or_default none d = d
or_default (some zero) d = d
or_default (some (suc n)) d = suc n

abbrev is_truthy : Option String → Bool
is_truthy none = false
is_truthy (some v) = is_set v

module _ {R : Type 0} (client : Client R) (config : IncidentResponseConfig)
    (repr_blocked : BlockedIp → String) (repr_revoked : RevokedSession → String)
    (decimal : ℕ → String) where
  -- is_ip_blocked, is_session_revoked, is_tenant_isolated
  unfoldable pub is_ip_blocked : String → ℕ → Incidents R → Bool
  is_ip_blocked ip now s = is_there (client.read (block_key ip) now s.redis)

  unfoldable pub is_session_revoked : String → ℕ → Incidents R → Bool
  is_session_revoked session_id now s = is_there (client.read (revoked_key session_id) now s.redis)

  unfoldable pub is_tenant_isolated : String → ℕ → Incidents R → Bool
  is_tenant_isolated org_id now s = is_there (client.read (isolation_key org_id) now s.redis)

  -- block_ip
  unfoldable pub block_ip :
      String → String → String → Option ℕ → ℕ → Incidents R → Bool × Incidents R
  block_ip ip reason blocked_by duration now s =
      let lasts = or_default duration config.block_duration in
      let blocked : BlockedIp = record {
        ip = ip;
        reason = reason;
        blocked_at = now;
        expires_at = now + lasts;
        blocked_by = blocked_by;
      } in
      if is_truthy (client.read (block_key ip) now s.redis) then (false, s) else (
        true,
        record {
          redis = client.setex (block_key ip) lasts (repr_blocked blocked) now s.redis;
          audit = s.audit ++ ip_blocked ip reason blocked_by lasts (now + lasts) ∷ [];
        },
      )

  -- unblock_ip; DEL tells whether the key was there
  unfoldable pub unblock_ip : String → String → ℕ → Incidents R → Bool × Incidents R
  unblock_ip ip unblocked_by now s =
      let redis = client.delete (block_key ip) s.redis in
      if is_there (client.read (block_key ip) now s.redis)
      then (true, record { redis = redis; audit = s.audit ++ ip_unblocked ip unblocked_by ∷ [] })
      else (false, record s { redis = redis })

  -- revoke_session
  unfoldable pub revoke_session :
      String → String → String → String → ℕ → Incidents R → Bool × Incidents R
  revoke_session session_id user_id reason revoked_by now s =
      let revoked : RevokedSession = record {
        session_id = session_id;
        user_id = user_id;
        reason = reason;
        revoked_at = now;
        revoked_by = revoked_by;
      } in
      (
        true,
        record {
          redis =
              client.setex (revoked_key session_id) config.session_ttl (repr_revoked revoked) now
                s.redis;
          audit = s.audit ++ session_revoked session_id user_id reason revoked_by ∷ [];
        },
      )

  -- The loop over the keys that match.
  unfoldable pub revoke_keys : String → ℕ → List String → R → R
  revoke_keys value now [] r = r
  revoke_keys value now (k ∷ ks) r =
      revoke_keys value now ks (client.setex k config.session_ttl value now r)

  -- revoke_all_user_sessions
  unfoldable pub revoke_all_user_sessions :
      String → String → String → ℕ → Incidents R → ℕ × Incidents R
  revoke_all_user_sessions user_id reason revoked_by now s =
      let ks =
        client.keys (concat "security:revoked_sessions:" (concat user_id ":*")) now s.redis in
      let value = concat "revoked:" (concat reason (concat ":" revoked_by)) in
      (
        length ks,
        record {
          redis = revoke_keys value now ks s.redis;
          audit =
              if ltb 0 (length ks)
              then s.audit ++ user_sessions_revoked user_id (length ks) reason revoked_by ∷ []
              else s.audit;
        },
      )

  -- isolate_tenant
  unfoldable pub isolate_tenant : String → String → String → ℕ → Incidents R → Bool × Incidents R
  isolate_tenant org_id reason isolated_by now s =
      let value = concat reason (concat ":" (concat isolated_by (concat ":" (decimal now)))) in
      (
        true,
        record {
          redis = client.set (isolation_key org_id) value s.redis;
          audit = s.audit ++ tenant_isolated org_id reason isolated_by ∷ [];
        },
      )

  -- restore_tenant
  unfoldable pub restore_tenant : String → String → ℕ → Incidents R → Bool × Incidents R
  restore_tenant org_id restored_by now s =
      let redis = client.delete (isolation_key org_id) s.redis in
      if is_there (client.read (isolation_key org_id) now s.redis)
      then (
        true,
        record { redis = redis; audit = s.audit ++ tenant_restored org_id restored_by ∷ [] },
      )
      else (false, record s { redis = redis })

  -- One call of a module function.
  unfoldable pub perform : Action → ℕ → Incidents R → Incidents R
  perform (block ip reason blocked_by duration) now s =
      (block_ip ip reason blocked_by duration now s).1
  perform (unblock ip unblocked_by) now s = (unblock_ip ip unblocked_by now s).1
  perform (revoke session_id user_id reason revoked_by) now s =
      (revoke_session session_id user_id reason revoked_by now s).1
  perform (revoke_all user_id reason revoked_by) now s =
      (revoke_all_user_sessions user_id reason revoked_by now s).1
  perform (isolate org_id reason isolated_by) now s =
      (isolate_tenant org_id reason isolated_by now s).1
  perform (restore org_id restored_by) now s = (restore_tenant org_id restored_by now s).1

  -- The calls made one after another, each at its time.
  unfoldable pub perform_all : List (Action × ℕ) → Incidents R → Incidents R
  perform_all [] s = s
  perform_all ((a, now) ∷ rest) s = perform_all rest (perform a now s)
