-- ===== src/Cli/Lifecycle/Races.antt =====
-- Proof: what may happen where a run starts while an earlier daemon still serves, or still closes.
use coding_agent_sandbox.Common.{ℕ, nat_eq, refl, Bool, true, false, List, [], ◌∷◌, ◌++◌}
use coding_agent_sandbox.Shm.{ShmState, is_socket_ready, set_socket_ready, increment}
use coding_agent_sandbox.Cli.Lifecycle.{
  entered, enter_section, Run, Daemon, System, run_after, forked,
}
use coding_agent_sandbox.Cli.Lifecycle.Steps.{Step, Reach}

-- No run is counted.
abbrev quiet : ℕ → ShmState
quiet ready = record { running_count = 0; socket_ready = ready }

abbrev one_ready : ShmState
one_ready = record { running_count = 1; socket_ready = 1 }

module _ (ready : ℕ) (socket : Bool) (us vs : List Run) (ds : List Daemon) where
  abbrev pub Quiet : System
  Quiet = record {
    shm = quiet ready;
    locked = false;
    socket = socket;
    runs = us ++ Run.starting ∷ vs;
    daemons = ds;
  }

  abbrev pub Started : System
  Started = record {
    shm = one_ready;
    locked = false;
    socket = true;
    runs = us ++ Run.running ∷ vs;
    daemons = Daemon.serving ∷ ds;
  }

  -- A run that finds nobody counted starts another daemon, whatever daemons there are.
  pub starts_another : Reach Quiet → Reach Started
  unfolding enter_section entered increment set_socket_ready is_socket_ready run_after forked nat_eq
  starts_another r =
      Reach.later _ _
        (Reach.later _ _
          (Reach.later _ _ (Reach.later _ _ r (Step.enter (quiet ready) socket us vs ds)) (
            Step.signalled (record { running_count = 1; socket_ready = 0 }) true socket us vs []
              ds))
          (Step.committed (record { running_count = 1; socket_ready = 0 }) true true us vs
            (Daemon.serving ∷ ds)))
        (Step.saw_ready one_ready true us vs (Daemon.serving ∷ ds) refl)

module _ (ready : ℕ) (socket : Bool) (us vs : List Run) (ds es : List Daemon) where
  -- From any reachable state with the mutex free, no run counted, a run that is about to enter and
  -- a daemon that has shut down but not ended, a state can be reached where a new daemon serves
  -- and a run has gone on to its command, and the second flush of the old daemon has removed the
  -- socket's file.
  pub late_flush :
      Reach (Quiet ready socket us vs (ds ++ Daemon.closing ∷ es))
      → Reach (record (Started ready socket us vs (ds ++ Daemon.gone ∷ es)) { socket = false })
  late_flush r =
      Reach.later _ _ (starts_another ready socket us vs (ds ++ Daemon.closing ∷ es) r)
        (Step.ended one_ready false true (us ++ Run.running ∷ vs) (Daemon.serving ∷ ds) es)
