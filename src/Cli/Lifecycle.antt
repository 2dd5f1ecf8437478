-- ===== src/Cli/Lifecycle.antt =====
-- src/cli/run.rs: the life of a run and of its daemon, with fork_and_run and the end of run_async of
-- src/syncing/server.rs. Runs and daemons are processes of one sandbox, interleaved in any order; a
-- process that is killed is not modelled.
pub mod Invariant
pub mod Races
pub mod Steps
use coding_agent_sandbox.Common.{
  ℕ, ◌≡◌, Bool, true, false, List, [], ◌∷◌, ◌++◌, ◌==◌, nat_eq, if◌then◌else◌,
}
use coding_agent_sandbox.Shm
use coding_agent_sandbox.Shm.{ShmState, is_socket_ready, set_socket_ready, increment, decrement}

-- The first critical section of `enter_run_lifecycle`: whether it is to start a daemon.
unfoldable pub entered : ℕ × ShmState → Bool × ShmState
entered (previous, s) = if previous == 0 then (true, set_socket_ready false s) else (false, s)

unfoldable pub enter_section : ShmState → Bool × ShmState
unfolding entered
enter_section s = entered (increment s)

-- The critical section of `poll_shutdown`: whether the daemon is to end.
unfoldable pub poll_section : ShmState → Bool × ShmState
poll_section s = if s.running_count == 0 then (true, set_socket_ready false s) else (false, s)

-- Where a run is.
pub data Run : Type 0 where
  starting : Run
  -- It holds the mutex and waits for its child's signal; `true` once that is sent.
  forking : Bool → Run
  -- `wait_for_daemon_ready`
  waiting : Run
  running : Run
  -- An error drops the lease, which is armed.
  rolling_back : Run
  finished : Run

-- Where a daemon is; `booting true` while its parent waits for it.
pub data Daemon : Type 0 where
  booting : Bool → Daemon
  serving : Daemon
  -- It has shut down, and flushes a second time, without the mutex.
  closing : Daemon
  gone : Daemon

-- `socket`: whether the socket's file is there.
pub record System : Type 0 where
  pub shm : ShmState
  pub locked : Bool
  pub socket : Bool
  pub runs : List Run
  pub daemons : List Daemon

-- What a run does after its first critical section, and the daemon that it forks.
unfoldable pub run_after : Bool → Run
run_after true = Run.forking false
run_after false = Run.waiting

unfoldable pub forked : Bool → List Daemon
forked true = Daemon.booting true ∷ []
forked false = []

-- What is left of a child whose parent stops to wait: it has died, or it goes on. After the signal
-- it goes on.
pub data GivenUp : Bool → List Daemon → List Daemon → Type 0 where
  after_signal : (ds : List Daemon) → GivenUp true ds ds
  died :
      (ds es : List Daemon)
      → GivenUp false (ds ++ Daemon.booting true ∷ es) (ds ++ Daemon.gone ∷ es)
  orphaned :
      (ds es : List Daemon)
      → GivenUp false (ds ++ Daemon.booting true ∷ es) (ds ++ Daemon.booting false ∷ es)
