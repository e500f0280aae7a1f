-- ===== src/Gateway/Limits.antt =====
-- The per-tenant quota of sql_query_api/services/query_gateway.py: the counter of the requests that
-- are queued or running, and the semaphore's value. `asyncio.Semaphore` counts down on `acquire`,
-- which waits at 0, and up on `release`.
use secure_db_access_gateway.Prelude.{
  ℕ, zero, suc, ◌+◌, ◌-◌, Bool, leb, Option, none, some, if◌then◌else◌,
}

pub record Quota : Type 0 where
  pub available : ℕ
  pub max_concurrent : ℕ
  pub queue_limit : ℕ
  pub current_queued : ℕ

-- GovernedQueryGateway._get_tenant_quota, for a key that is not there yet
unfoldable pub new_quota : ℕ → ℕ → Quota
new_quota concurrent queue = record {
  available = concurrent;
  max_concurrent = concurrent;
  queue_limit = queue;
  current_queued = 0;
}

-- The check of the queue limit under the lock; `none` is the refusal.
unfoldable pub admit : Quota → Option Quota
admit q =
    if leb q.queue_limit q.current_queued
    then none
    else some (record q { current_queued = q.current_queued + 1 })

take : ℕ → Quota → Option Quota
take zero q = none
take (suc n) q = some (record q { available = n })

-- semaphore.acquire(), `none` while it waits
unfoldable pub acquire : Quota → Option Quota
unfolding take
acquire q = take q.available q

-- The `finally` block: the semaphore is released if it was acquired, and the counter goes down.
unfoldable pub leave : Bool → Quota → Quota
leave acquired q = record q {
  available = if acquired then q.available + 1 else q.available;
  current_queued = q.current_queued - 1;
}
