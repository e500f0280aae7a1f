-- ===== src/Incident/State.antt =====
-- What the operations of sql_query_api/services/incident_response.py do to the three sets.
use secure_db_access_gateway.Prelude.{
  ℕ, ◌+◌, ◌<◌, String, Option, List, [], ◌∷◌, true, false, ◌==◌, ltb, ◌≡◌, ◌≢◌, arith, In, here,
  there, inl, inr, Bool-cases, eq_iff, eq_refl, refl, ap, sym, ◌∙◌,
}
use Prim.Native.String.{len, slice}
use text.Mathlib.TextPositions.{slice-append_left}
use text.Mathlib.TextLemmas.{append_assoc, append_cancel_left}
use secure_db_access_gateway.Prelude.Text.{concat}
use secure_db_access_gateway.Incident.{
  Client, is_there, or_default, BlockedIp, RevokedSession, IncidentResponseConfig, Incidents,
  block_key, revoked_key, isolation_key, is_ip_blocked, is_session_revoked, is_tenant_isolated,
  block_ip, unblock_ip, revoke_session, revoke_keys, revoke_all_user_sessions, isolate_tenant,
  restore_tenant, Action, perform, perform_all, block, unblock, revoke, revoke_all, isolate,
  restore,
}

-- Texts that begin with different words of one length are different.
apart : (p q s t : String) → len p ≡ len q → p ≢ q → concat p s ≢ concat q t
apart p q s t same differ h = differ (
    sym (slice-append_left p s)
    ∙ ap (λ u. slice u 0 (len p)) h
    ∙ ap (slice (concat q t) 0) same
    ∙ slice-append_left q t)

-- The keys of two of the sets differ in the letter after `security:`.
keys_apart :
    (p q s t u v : String)
    → len p ≡ len q
    → p ≢ q
    → (concat (concat p s) u == concat (concat q t) v) ≡ false
keys_apart p q s t u v same differ =
    elim (Bool-cases (concat (concat p s) u == concat (concat q t) v)) [
      | inl e ↦ absurd (
          apart p q (concat s u) (concat t v) same differ (
            sym (append_assoc p s u)
            ∙ (eq_iff (concat (concat p s) u) (concat (concat q t) v)).0 e
            ∙ append_assoc q t v))
      | inr e ↦ e
    ]

block_key-ne-isolation_key : (ip org_id : String) → (block_key ip == isolation_key org_id) ≡ false
block_key-ne-isolation_key ip org_id =
    keys_apart "security:b" "security:t" "locklist:ip:" "enant_isolation:" ip org_id refl
      (λ e. ground (arith, eq_iff "security:b" "security:t"))

revoked_key-ne-isolation_key :
    (session_id org_id : String) → (revoked_key session_id == isolation_key org_id) ≡ false
revoked_key-ne-isolation_key session_id org_id =
    keys_apart "security:r" "security:t" "evoked_sessions:" "enant_isolation:" session_id org_id
      refl (λ e. ground (arith, eq_iff "security:r" "security:t"))

isolation_key-eq :
    (org_id other : String) → org_id ≢ other → (isolation_key org_id == isolation_key other) ≡ false
isolation_key-eq org_id other differ =
    elim (Bool-cases (isolation_key org_id == isolation_key other)) [
      | inl e ↦ absurd (
          differ (
            append_cancel_left "security:tenant_isolation:" org_id other
              ((eq_iff (isolation_key org_id) (isolation_key other)).0 e)))
      | inr e ↦ e
    ]

-- The calls that restore the tenant are not among these.
abbrev pub Spares : String → Action → Type 0
Spares org_id (restore other restored_by) = other ≢ org_id
Spares org_id a = Unit {0}

abbrev pub AllSpare : String → List (Action × ℕ) → Type 0
AllSpare org_id [] = Unit {0}
AllSpare org_id ((a, now) ∷ rest) = Spares org_id a × AllSpare org_id rest

module _ {R : Type 0} (client : Client R) (config : IncidentResponseConfig)
    (repr_blocked : BlockedIp → String) (repr_revoked : RevokedSession → String)
    (decimal : ℕ → String) where
  -- Setting a key that is there leaves what is there.
  same_keys :
      (k j value : String) (now : ℕ) (r : R)
      → 0 < config.session_ttl
      → is_there (client.read k now r) ≡ true
      → is_there (client.read j now (client.setex k config.session_ttl value now r))
        ≡ is_there (client.read j now r)
  same_keys k j value now r pos h = elim (Bool-cases (k == j)) [
    | inl e ↦
        let p : k ≡ j = (eq_iff k j).0 e in
        rw (← p)
          (ground (arith, client.read-setex k k value config.session_ttl now now r, eq_refl k))
    | inr e ↦ ground (arith, client.read-setex k j value config.session_ttl now now r)
  ]

  is_there-revoke_keys :
      (value : String) (now : ℕ) (j : String) (ks : List String) (r : R)
      → 0 < config.session_ttl
      → ((k : String) → In k ks → is_there (client.read k now r) ≡ true)
      → is_there (
          client.read j now
            (revoke_keys client config repr_blocked repr_revoked decimal value now ks r))
        ≡ is_there (client.read j now r)
  unfolding revoke_keys
  is_there-revoke_keys value now j [] r pos all = refl
  is_there-revoke_keys value now j (k ∷ ks) r pos all =
      let k_there = all k (here refl) in
      is_there-revoke_keys value now j ks (client.setex k config.session_ttl value now r) pos
        (λ k' i. same_keys k k' value now r pos k_there ∙ all k' (there i))
      ∙ same_keys k j value now r pos k_there

  -- Revoking all the sessions of a user revokes none that was not revoked already: whatever is
  -- revoked at that time was so before, and the other way round.
  pub is_session_revoked-revoke_all_user_sessions :
      (user_id reason revoked_by session_id : String) (now : ℕ) (s : Incidents R)
      → 0 < config.session_ttl
      → is_session_revoked client config repr_blocked repr_revoked decimal session_id now
          (revoke_all_user_sessions client config repr_blocked repr_revoked decimal user_id reason
            revoked_by now s).1
        ≡ is_session_revoked client config repr_blocked repr_revoked decimal session_id now s
  unfolding is_session_revoked revoke_all_user_sessions
  is_session_revoked-revoke_all_user_sessions user_id reason revoked_by session_id now s pos =
      let pattern = concat "security:revoked_sessions:" (concat user_id ":*") in
      is_there-revoke_keys (concat "revoked:" (concat reason (concat ":" revoked_by))) now
        (revoked_key session_id) (client.keys pattern now s.redis) s.redis pos
        (λ k i. client.keys-there pattern k now s.redis i)

  -- An address that was not blocked is blocked from now on for the duration, and no longer.
  pub is_ip_blocked-block_ip :
      (ip reason blocked_by : String) (duration : Option ℕ) (now later : ℕ) (s : Incidents R)
      → is_ip_blocked client config repr_blocked repr_revoked decimal ip now s ≡ false
      → is_ip_blocked client config repr_blocked repr_revoked decimal ip later
          (block_ip client config repr_blocked repr_revoked decimal ip reason blocked_by duration
            now s).1
        ≡ ltb later (now + or_default duration config.block_duration)
  unfolding is_ip_blocked block_ip
  is_ip_blocked-block_ip ip reason blocked_by duration now later s h = ground (
    arith,
    client.read-setex (block_key ip) (block_key ip)
        (repr_blocked (record {
          ip = ip;
          reason = reason;
          blocked_at = now;
          expires_at = now + or_default duration config.block_duration;
          blocked_by = blocked_by;
        }))
        (or_default duration config.block_duration) now later s.redis,
    eq_refl (block_key ip),
  )

  is_there-revoke_keys_other :
      (value j : String) (now later : ℕ) (ks : List String) (r : R)
      → ((k : String) → In k ks → (k == j) ≡ false)
      → client.read j later
          (revoke_keys client config repr_blocked repr_revoked decimal value now ks r)
        ≡ client.read j later r
  unfolding revoke_keys
  is_there-revoke_keys_other value j now later [] r others = refl
  is_there-revoke_keys_other value j now later (k ∷ ks) r others =
      is_there-revoke_keys_other value j now later ks
        (client.setex k config.session_ttl value now r) (λ k' i. others k' (there i))
      ∙ ground
          (arith, client.read-setex k j value config.session_ttl now later r, others k (here refl))

  revoked_keys_apart :
      (pattern org_id : String) (now : ℕ) (r : R) (k : String)
      → In k (client.keys (concat "security:revoked_sessions:" pattern) now r)
      → (k == isolation_key org_id) ≡ false
  revoked_keys_apart pattern org_id now r k i =
      let (rest, p) = client.keys-revoked pattern k now r i in
      rw p (revoked_key-ne-isolation_key rest org_id)

  is_tenant_isolated-perform :
      (a : Action) (org_id : String) (now later : ℕ) (s : Incidents R)
      → Spares org_id a
      → is_tenant_isolated client config repr_blocked repr_revoked decimal org_id later s ≡ true
      → is_tenant_isolated client config repr_blocked repr_revoked decimal org_id later
          (perform client config repr_blocked repr_revoked decimal a now s)
        ≡ true
  unfolding is_tenant_isolated perform block_ip unblock_ip revoke_session revoke_all_user_sessions
      isolate_tenant restore_tenant
  is_tenant_isolated-perform (block ip reason blocked_by duration) org_id now later s spares h =
      let d = or_default duration config.block_duration in
      let record_ : BlockedIp = record {
        ip = ip;
        reason = reason;
        blocked_at = now;
        expires_at = now + d;
        blocked_by = blocked_by;
      } in
      ground (
        arith,
        client.read-setex (block_key ip) (isolation_key org_id) (repr_blocked record_) d now later
            s.redis,
        block_key-ne-isolation_key ip org_id,
      )
  is_tenant_isolated-perform (unblock ip unblocked_by) org_id now later s spares h = ground (
    arith,
    client.read-delete (block_key ip) (isolation_key org_id) later s.redis,
    block_key-ne-isolation_key ip org_id,
  )
  is_tenant_isolated-perform (revoke session_id user_id reason revoked_by) org_id now later s spares
        h =
      let record_ : RevokedSession = record {
        session_id = session_id;
        user_id = user_id;
        reason = reason;
        revoked_at = now;
        revoked_by = revoked_by;
      } in
      ground (
        arith,
        client.read-setex (revoked_key session_id) (isolation_key org_id) (repr_revoked record_)
            config.session_ttl now later s.redis,
        revoked_key-ne-isolation_key session_id org_id,
      )
  is_tenant_isolated-perform (revoke_all user_id reason revoked_by) org_id now later s spares h =
      let pattern = concat user_id ":*" in
      ap is_there (
        is_there-revoke_keys_other (concat "revoked:" (concat reason (concat ":" revoked_by)))
          (isolation_key org_id) now later
          (client.keys (concat "security:revoked_sessions:" pattern) now s.redis) s.redis
          (revoked_keys_apart pattern org_id now s.redis))
      ∙ h
  is_tenant_isolated-perform (isolate other reason isolated_by) org_id now later s spares h =
      let value = concat reason (concat ":" (concat isolated_by (concat ":" (decimal now)))) in
      ground
        (arith, client.read-set (isolation_key other) (isolation_key org_id) value later s.redis)
  is_tenant_isolated-perform (restore other restored_by) org_id now later s spares h = ground (
    arith,
    client.read-delete (isolation_key other) (isolation_key org_id) later s.redis,
    isolation_key-eq other org_id spares,
  )

  just_isolated :
      (org_id reason isolated_by : String) (now later : ℕ) (s : Incidents R)
      → is_tenant_isolated client config repr_blocked repr_revoked decimal org_id later
          (isolate_tenant client config repr_blocked repr_revoked decimal org_id reason isolated_by
            now s).1
        ≡ true
  unfolding is_tenant_isolated isolate_tenant
  just_isolated org_id reason isolated_by now later s =
      let value = concat reason (concat ":" (concat isolated_by (concat ":" (decimal now)))) in
      ground (
        arith,
        client.read-set (isolation_key org_id) (isolation_key org_id) value later s.redis,
        eq_refl (isolation_key org_id),
      )

  still_isolated :
      (calls : List (Action × ℕ)) (org_id : String) (later : ℕ) (s : Incidents R)
      → AllSpare org_id calls
      → is_tenant_isolated client config repr_blocked repr_revoked decimal org_id later s ≡ true
      → is_tenant_isolated client config repr_blocked repr_revoked decimal org_id later
          (perform_all client config repr_blocked repr_revoked decimal calls s)
        ≡ true
  unfolding perform_all
  still_isolated [] org_id later s spare h = h
  still_isolated ((a, now) ∷ rest) org_id later s spare h =
      still_isolated rest org_id later
        (perform client config repr_blocked repr_revoked decimal a now s) spare.1
        (is_tenant_isolated-perform a org_id now later s spare.0 h)

  -- An isolated tenant stays isolated, at every time, through all calls that do not restore it.
  pub is_tenant_isolated-perform_all :
      (calls : List (Action × ℕ)) (org_id reason isolated_by : String) (now later : ℕ)
      (s : Incidents R)
      → AllSpare org_id calls
      → is_tenant_isolated client config repr_blocked repr_revoked decimal org_id later (
          perform_all client config repr_blocked repr_revoked decimal calls
            (isolate_tenant client config repr_blocked repr_revoked decimal org_id reason
              isolated_by now s).1)
        ≡ true
  is_tenant_isolated-perform_all calls org_id reason isolated_by now later s spare =
      still_isolated calls org_id later
        (isolate_tenant client config repr_blocked repr_revoked decimal org_id reason isolated_by
          now s).1
        spare (just_isolated org_id reason isolated_by now later s)
