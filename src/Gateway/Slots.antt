-- ===== src/Gateway/Slots.antt =====
-- Any interleaving of requests on one tenant quota of sql_query_api/services/query_gateway.py: how
-- many run, how many queue, and that none leaves a slot behind.
use secure_db_access_gateway.Prelude.{ℕ, suc, ◌+◌, ◌≤◌, ◌≡◌, true, false, some, arith, refl}
use secure_db_access_gateway.Gateway.Limits.{Quota, new_quota, admit, acquire, leave}

-- The quota with the requests that wait for the semaphore and those that hold it.
pub record System : Type 0 where
  pub quota : Quota
  pub waiting : ℕ
  pub running : ℕ

-- A request enters the queue, takes the semaphore, gives up waiting (timeout or cancellation), or
-- ends, whether by a result or an exception.
pub data Step (s : System) : System → Type 0 where
  enter :
      {q : Quota}
      → admit s.quota ≡ some q
      → Step s (record { quota = q; waiting = s.waiting + 1; running = s.running })
  start :
      {q : Quota} {w : ℕ}
      → s.waiting ≡ suc w
      → acquire s.quota ≡ some q
      → Step s (record { quota = q; waiting = w; running = s.running + 1 })
  give_up :
      {w : ℕ}
      → s.waiting ≡ suc w
      → Step s (record { quota = leave false s.quota; waiting = w; running = s.running })
  finish :
      {r : ℕ}
      → s.running ≡ suc r
      → Step s (record { quota = leave true s.quota; waiting = s.waiting; running = r })

abbrev pub initial : ℕ → ℕ → System
initial concurrent queue = record { quota = new_quota concurrent queue; waiting = 0; running = 0 }

pub data Reach (concurrent queue : ℕ) : System → Type 0 where
  here : Reach concurrent queue (initial concurrent queue)
  next : {s t : System} → Reach concurrent queue s → Step s t → Reach concurrent queue t

pub record IsBalanced (concurrent queue : ℕ) (s : System) : Type 0 where
  pub limit : s.quota.queue_limit ≡ queue
  pub most : s.quota.max_concurrent ≡ concurrent
  pub slots : s.quota.available + s.running ≡ concurrent
  pub counted : s.quota.current_queued ≡ s.waiting + s.running
  pub queued : s.quota.current_queued ≤ queue

Step-IsBalanced :
    {concurrent queue : ℕ} {s t : System}
    → Step s t
    → IsBalanced concurrent queue s
    → IsBalanced concurrent queue t
unfolding admit acquire leave
Step-IsBalanced (enter e) b = ground arith
Step-IsBalanced (start w e) b = ground arith
Step-IsBalanced (give_up w) b = ground arith
Step-IsBalanced (finish r) b = ground arith

Reach-IsBalanced :
    {concurrent queue : ℕ} {s : System} → Reach concurrent queue s → IsBalanced concurrent queue s
unfolding new_quota
Reach-IsBalanced here = record {
  limit = refl;
  most = refl;
  slots = ground arith;
  counted = ground arith;
  queued = ground arith;
}
Reach-IsBalanced (next r st) = Step-IsBalanced st (Reach-IsBalanced r)

-- In every reachable state the requests that run are at most the concurrency limit, those that run
-- or wait at most the queue limit, and the counter is exact.
pub Reach-bounded :
    {concurrent queue : ℕ} {s : System}
    → Reach concurrent queue s
    → (s.running ≤ concurrent)
      × (s.waiting + s.running ≤ queue)
      × (s.quota.current_queued ≡ s.waiting + s.running)
Reach-bounded r =
    let b = Reach-IsBalanced r in
    (omega (arith, b.slots), omega (arith, b.counted, b.queued), b.counted)

-- No slot leaks: once no request waits or runs, the quota is as it was created, whichever of the
-- requests before gave up or failed.
pub Reach-no_leak :
    {concurrent queue : ℕ} {s : System}
    → Reach concurrent queue s
    → s.waiting ≡ 0
    → s.running ≡ 0
    → s.quota ≡ new_quota concurrent queue
unfolding new_quota
Reach-no_leak r w n =
    let b = Reach-IsBalanced r in ground (arith, b.limit, b.most, b.slots, b.counted)
