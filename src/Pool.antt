-- ===== src/Pool.antt =====
-- src/syncing/pool.rs: connections to the daemon that the handlers of the filesystem process share.
-- A critical section of the mutex is one step. None of them panics, so the mutex is never poisoned.
pub mod Threads
pub mod Invariant
pub mod Balance
use coding_agent_sandbox.Common.{ℕ, ◌+◌, ◌-◌, List, [], ◌∷◌, Eq, ltb, if◌then◌else◌}
use native.Mathlib.Decide.{ℕ_discrete}

-- A client is known by the descriptor of its stream.
pub record SyncClient : Type 0 where
  pub stream : ℕ

client_discrete : Discrete SyncClient
client_discrete = hlevel ℕ_discrete

instance unfoldable pub client_eq : Eq SyncClient
unfolding client_discrete ℕ_discrete
client_eq = record { dec = client_discrete }

-- `idle` from its last element, which `pop` takes first.
pub record PoolState : Type 0 where
  pub idle : List SyncClient
  pub total : ℕ

abbrev pub new : PoolState
new = record { idle = []; total = 0 }

-- `max_size.max(1)`
unfoldable pub max_size_of : ℕ → ℕ
max_size_of max_size = if ltb max_size 1 then 1 else max_size

-- What a turn of the loop of `checkout` does under the lock: it takes an idle client, or reserves
-- a place and goes to connect, or goes to wait.
pub data Turn : Type 0 where
  popped : SyncClient → Turn
  reserved : Turn
  full : Turn

unfoldable pub turn_at : ℕ → ℕ → List SyncClient → Turn × PoolState
turn_at max_size n (client ∷ idle) = (Turn.popped client, record { idle = idle; total = n })
turn_at max_size n [] =
    if ltb n max_size
    then (Turn.reserved, record { idle = []; total = n + 1 })
    else (Turn.full, record { idle = []; total = n })

unfoldable pub checkout_turn : ℕ → PoolState → Turn × PoolState
unfolding turn_at
checkout_turn max_size p = turn_at max_size p.total p.idle

-- After `connect` has failed: `saturating_sub` is the subtraction of ℕ.
unfoldable pub rollback : PoolState → PoolState
rollback p = record p { total = p.total - 1 }

-- `drop` of a `PooledSyncClient`
unfoldable pub give_back : SyncClient → PoolState → PoolState
give_back client p = record p { idle = client ∷ p.idle }
