-- ===== src/Shm.antt =====
-- src/shm/state.rs and src/shm/mutex.rs: what the runs and the daemons of a sandbox share. Each
-- operation is under the mutex.
pub mod Region
use coding_agent_sandbox.Common.{ℕ, ◌+◌, ◌%◌, ◌^◌, Bool, ◌==◌, nat_eq, if◌then◌else◌}

-- `ShmStateLayout`, its counters as `u32`
pub record ShmState : Type 0 where
  pub running_count : ℕ
  pub socket_ready : ℕ

abbrev pub new : ShmState
new = record { running_count = 0; socket_ready = 0 }

unfoldable pub is_socket_ready : ShmState → Bool
is_socket_ready s = s.socket_ready == 1

unfoldable pub set_socket_ready : Bool → ShmState → ShmState
set_socket_ready ready s = record s { socket_ready = if ready then 1 else 0 }

-- `fetch_add` returns the previous value and wraps.
unfoldable pub increment : ShmState → ℕ × ShmState
increment s = (s.running_count, record s { running_count = (s.running_count + 1) % 2 ^ 32 })

-- `fetch_sub` wraps.
unfoldable pub decrement : ShmState → ShmState
decrement s = record s { running_count = (s.running_count + 4294967295) % 2 ^ 32 }
