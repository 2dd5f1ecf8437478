-- ===== src/Cli/Lifecycle/Steps.antt =====
-- src/cli/run.rs and src/syncing/server.rs: the steps of runs and daemons, and the states that they reach.
use coding_agent_sandbox.Common.{◌≡◌, Bool, true, false, List, [], ◌∷◌, ◌++◌, nat_eq}
use coding_agent_sandbox.Shm
use coding_agent_sandbox.Shm.{ShmState, is_socket_ready, set_socket_ready, increment, decrement}
use coding_agent_sandbox.Cli.Lifecycle.{
  enter_section, poll_section, Run, Daemon, System, run_after, forked, GivenUp,
}

-- One process moves; `us`, `vs` and `ds`, `es` are the others. A step that takes the mutex needs it free.
pub data Step : System → System → Type 0 where
  enter :
      (shm : ShmState) (socket : Bool) (us vs : List Run) (ds : List Daemon)
      → Step
          (record {
            shm = shm;
            locked = false;
            socket = socket;
            runs = us ++ Run.starting ∷ vs;
            daemons = ds;
          })
          (record {
            shm = (enter_section shm).1;
            locked = (enter_section shm).0;
            socket = socket;
            runs = us ++ run_after (enter_section shm).0 ∷ vs;
            daemons = forked (enter_section shm).0 ++ ds;
          })
  fork_failed :
      (shm : ShmState) (socket : Bool) (us vs : List Run) (ds : List Daemon)
      → (enter_section shm).0 ≡ true
      → Step
          (record {
            shm = shm;
            locked = false;
            socket = socket;
            runs = us ++ Run.starting ∷ vs;
            daemons = ds;
          })
          (record {
            shm = (enter_section shm).1;
            locked = false;
            socket = socket;
            runs = us ++ Run.rolling_back ∷ vs;
            daemons = ds;
          })
  -- The daemon binds its socket and sends the signal.
  signalled :
      (shm : ShmState) (locked socket : Bool) (us vs : List Run) (ds es : List Daemon)
      → Step
          (record {
            shm = shm;
            locked = locked;
            socket = socket;
            runs = us ++ Run.forking false ∷ vs;
            daemons = ds ++ Daemon.booting true ∷ es;
          })
          (record {
            shm = shm;
            locked = locked;
            socket = true;
            runs = us ++ Run.forking true ∷ vs;
            daemons = ds ++ Daemon.serving ∷ es;
          })
  bound_alone :
      (shm : ShmState) (locked socket : Bool) (us : List Run) (ds es : List Daemon)
      → Step
          (record {
            shm = shm;
            locked = locked;
            socket = socket;
            runs = us;
            daemons = ds ++ Daemon.booting false ∷ es;
          })
          (record {
            shm = shm;
            locked = locked;
            socket = true;
            runs = us;
            daemons = ds ++ Daemon.serving ∷ es;
          })
  orphan_died :
      (shm : ShmState) (locked socket : Bool) (us : List Run) (ds es : List Daemon)
      → Step
          (record {
            shm = shm;
            locked = locked;
            socket = socket;
            runs = us;
            daemons = ds ++ Daemon.booting false ∷ es;
          })
          (record {
            shm = shm;
            locked = locked;
            socket = socket;
            runs = us;
            daemons = ds ++ Daemon.gone ∷ es;
          })
  -- `on_ready`
  committed :
      (shm : ShmState) (locked socket : Bool) (us vs : List Run) (ds : List Daemon)
      → Step
          (record {
            shm = shm;
            locked = locked;
            socket = socket;
            runs = us ++ Run.forking true ∷ vs;
            daemons = ds;
          })
          (record {
            shm = set_socket_ready true shm;
            locked = false;
            socket = socket;
            runs = us ++ Run.waiting ∷ vs;
            daemons = ds;
          })
  gave_up :
      (shm : ShmState) (locked socket sent : Bool) (us vs : List Run) (ds es : List Daemon)
      → GivenUp sent ds es
      → Step
          (record {
            shm = shm;
            locked = locked;
            socket = socket;
            runs = us ++ Run.forking sent ∷ vs;
            daemons = ds;
          })
          (record {
            shm = shm;
            locked = false;
            socket = socket;
            runs = us ++ Run.rolling_back ∷ vs;
            daemons = es;
          })
  saw_ready :
      (shm : ShmState) (socket : Bool) (us vs : List Run) (ds : List Daemon)
      → is_socket_ready shm ≡ true
      → Step
          (record {
            shm = shm;
            locked = false;
            socket = socket;
            runs = us ++ Run.waiting ∷ vs;
            daemons = ds;
          })
          (record {
            shm = shm;
            locked = false;
            socket = socket;
            runs = us ++ Run.running ∷ vs;
            daemons = ds;
          })
  failed :
      (shm : ShmState) (locked socket : Bool) (us vs : List Run) (ds : List Daemon)
      → Step
          (record {
            shm = shm;
            locked = locked;
            socket = socket;
            runs = us ++ Run.running ∷ vs;
            daemons = ds;
          })
          (record {
            shm = shm;
            locked = locked;
            socket = socket;
            runs = us ++ Run.rolling_back ∷ vs;
            daemons = ds;
          })
  -- `leave_run_lifecycle`
  left :
      (shm : ShmState) (socket : Bool) (us vs : List Run) (ds : List Daemon)
      → Step
          (record {
            shm = shm;
            locked = false;
            socket = socket;
            runs = us ++ Run.running ∷ vs;
            daemons = ds;
          })
          (record {
            shm = decrement shm;
            locked = false;
            socket = socket;
            runs = us ++ Run.finished ∷ vs;
            daemons = ds;
          })
  -- The drop of the lease.
  rolled_back :
      (shm : ShmState) (socket : Bool) (us vs : List Run) (ds : List Daemon)
      → Step
          (record {
            shm = shm;
            locked = false;
            socket = socket;
            runs = us ++ Run.rolling_back ∷ vs;
            daemons = ds;
          })
          (record {
            shm = decrement shm;
            locked = false;
            socket = socket;
            runs = us ++ Run.finished ∷ vs;
            daemons = ds;
          })
  -- A poll that ends the daemon flushes and removes the socket under the mutex.
  polled :
      (shm : ShmState) (socket : Bool) (us : List Run) (ds es : List Daemon)
      → (poll_section shm).0 ≡ true
      → Step
          (record {
            shm = shm;
            locked = false;
            socket = socket;
            runs = us;
            daemons = ds ++ Daemon.serving ∷ es;
          })
          (record {
            shm = (poll_section shm).1;
            locked = false;
            socket = false;
            runs = us;
            daemons = ds ++ Daemon.closing ∷ es;
          })
  -- The second flush, after the loop.
  ended :
      (shm : ShmState) (locked socket : Bool) (us : List Run) (ds es : List Daemon)
      → Step
          (record {
            shm = shm;
            locked = locked;
            socket = socket;
            runs = us;
            daemons = ds ++ Daemon.closing ∷ es;
          })
          (record {
            shm = shm;
            locked = locked;
            socket = false;
            runs = us;
            daemons = ds ++ Daemon.gone ∷ es;
          })

abbrev pub AreStarting : List Run → Type 0
AreStarting [] = Unit
AreStarting (r ∷ rs) = (r ≡ Run.starting) × AreStarting rs

abbrev pub start : List Run → System
start rs = record { shm = Shm.new; locked = false; socket = false; runs = rs; daemons = [] }

pub data Reach : System → Type 0 where
  init : (rs : List Run) → AreStarting rs → Reach (start rs)
  later : (s t : System) → Reach s → Step s t → Reach t
