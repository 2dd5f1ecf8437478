-- ===== src/Cli/Lifecycle/Invariant.antt =====
-- Proof: the running count is the number of the runs that are counted, one run at most starts a daemon,
-- and a daemon serves while a command runs.
pub mod Moves
use coding_agent_sandbox.Common.{
  ℕ, ◌+◌, ◌^◌, ◌≤◌, ◌<◌, ◌≡◌, refl, ap, Bool, true, false, bit, Bool-cases, inl, inr, List, [], ◌∷◌,
  ◌++◌, length, length-append, sum, sum-at, arith, ◌==◌, nat_eq,
}
use coding_agent_sandbox.Shm.{ShmState, is_socket_ready, set_socket_ready, increment, decrement}
use coding_agent_sandbox.Cli.Lifecycle.{
  entered, enter_section, poll_section, Run, Daemon, System, run_after, forked, GivenUp,
}
use coding_agent_sandbox.Cli.Lifecycle.Steps.{Step, AreStarting, Reach}
use coding_agent_sandbox.Cli.Lifecycle.Invariant.Moves.{
  counts, forks, sent, runs_command, serves, IsSound, counts-le, moved, served-at, GivenUp-serves,
  forks-bit, enter-IsSound, fork_failed-IsSound, polled-IsSound, aside-IsSound, decrement-IsSound,
}

pub Step-IsSound : {s t : System} → Step s t → IsSound s → IsSound t
unfolding decrement set_socket_ready is_socket_ready
Step-IsSound (Step.enter shm socket us vs ds) i = enter-IsSound us vs ds socket shm i
Step-IsSound (Step.fork_failed shm socket us vs ds starts) i =
    fork_failed-IsSound us vs ds socket shm starts i
Step-IsSound (Step.signalled shm locked socket us vs ds es) i =
    let m = moved us vs (Run.forking false) (Run.forking true) in
    let d = served-at ds es (Daemon.booting true) Daemon.serving in
    record {
      few = omega (arith, m.size, i.few);
      counted = ground (arith, m.count, i.counted);
      exclusive = ground (arith, m.fork, i.exclusive);
      ready = λ h. omega (arith, d);
      sent_served = λ h. omega (arith, d);
      served = λ h. omega (arith, d);
    }
Step-IsSound (Step.bound_alone shm locked socket us ds es) i =
    let d = served-at ds es (Daemon.booting false) Daemon.serving in
    record {
      few = i.few;
      counted = i.counted;
      exclusive = i.exclusive;
      ready = λ h. omega (arith, d);
      sent_served = λ h. omega (arith, d);
      served = λ h. omega (arith, d);
    }
Step-IsSound (Step.orphan_died shm locked socket us ds es) i =
    aside-IsSound shm locked socket _ us ds es (Daemon.booting false) Daemon.gone refl refl i
Step-IsSound (Step.committed shm locked socket us vs ds) i =
    let m = moved us vs (Run.forking true) Run.waiting in
    record {
      few = omega (arith, m.size, i.few);
      counted = ground (arith, m.count, i.counted);
      exclusive = ground (arith, m.fork, i.exclusive, forks-bit locked);
      ready = λ h. i.sent_served (omega (arith, m.send, sum-at sent us vs (Run.forking true)));
      sent_served = λ h. i.sent_served (ground (arith, m.send));
      served = λ h. i.served (ground (arith, m.command));
    }
Step-IsSound (Step.gave_up shm locked socket sent us vs ds es g) i =
    let m = moved us vs (Run.forking sent) Run.rolling_back in
    record {
      few = omega (arith, m.size, i.few);
      counted = ground (arith, m.count, i.counted);
      exclusive = ground (arith, m.fork, i.exclusive, forks-bit locked);
      ready = λ h. omega (arith, GivenUp-serves g, i.ready h);
      sent_served = λ h. ground (arith, GivenUp-serves g, i.sent_served, m.send, h);
      served = λ h. ground (arith, GivenUp-serves g, i.served, m.command, h);
    }
Step-IsSound (Step.saw_ready shm socket us vs ds seen) i =
    let m = moved us vs Run.waiting Run.running in
    record {
      few = omega (arith, m.size, i.few);
      counted = ground (arith, m.count, i.counted);
      exclusive = ground (arith, m.fork, i.exclusive);
      ready = λ h. i.ready h;
      sent_served = λ h. i.sent_served (ground (arith, m.send));
      served = λ h. i.ready (ground (arith, seen));
    }
Step-IsSound (Step.failed shm locked socket us vs ds) i =
    let m = moved us vs Run.running Run.rolling_back in
    record {
      few = omega (arith, m.size, i.few);
      counted = ground (arith, m.count, i.counted);
      exclusive = ground (arith, m.fork, i.exclusive);
      ready = λ h. i.ready h;
      sent_served = λ h. i.sent_served (ground (arith, m.send));
      served = λ h. i.served (ground (arith, m.command));
    }
Step-IsSound (Step.left shm socket us vs ds) i =
    decrement-IsSound shm socket us vs ds Run.running refl refl refl i
Step-IsSound (Step.rolled_back shm socket us vs ds) i =
    decrement-IsSound shm socket us vs ds Run.rolling_back refl refl refl i
Step-IsSound (Step.polled shm socket us ds es ends) i = polled-IsSound shm socket us ds es ends i
Step-IsSound (Step.ended shm locked socket us ds es) i =
    aside-IsSound shm locked socket _ us ds es Daemon.closing Daemon.gone refl refl i

start-sum : (f : Run → ℕ) (rs : List Run) → f Run.starting ≡ 0 → AreStarting rs → sum f rs ≡ 0
unfolding sum
start-sum f [] zero_at _ = refl
start-sum f (r ∷ rs) zero_at (eq, rest) = ground (arith, ap f eq, start-sum f rs zero_at rest)

Step-length : {s t : System} → Step s t → length t.runs ≡ length s.runs
Step-length (Step.enter shm socket us vs ds) = (moved us vs _ _).size
Step-length (Step.fork_failed shm socket us vs ds _) = (moved us vs _ _).size
Step-length (Step.signalled shm locked socket us vs ds es) = (moved us vs _ _).size
Step-length (Step.committed shm locked socket us vs ds) = (moved us vs _ _).size
Step-length (Step.gave_up shm locked socket sent us vs ds es _) = (moved us vs _ _).size
Step-length (Step.saw_ready shm socket us vs ds _) = (moved us vs _ _).size
Step-length (Step.failed shm locked socket us vs ds) = (moved us vs _ _).size
Step-length (Step.left shm socket us vs ds) = (moved us vs _ _).size
Step-length (Step.rolled_back shm socket us vs ds) = (moved us vs _ _).size
Step-length _ = refl

-- In every state that runs and daemons of one sandbox reach by steps in any order, with fewer than
-- 2 ^ 32 runs: the running count is the number of runs that have entered and not left, at most one
-- run holds the mutex to start a daemon, and where the ready flag is set, a start has been
-- signalled or a command runs, some daemon serves.
pub Reach-IsSound : {s : System} → Reach s → length s.runs < 2 ^ 32 → IsSound s
Reach-IsSound (Reach.init rs starting) few = record {
  few = few;
  counted = ground (arith, start-sum counts rs refl starting);
  exclusive = ground (arith, start-sum forks rs refl starting);
  ready = λ h. absurd (omega (arith, h));
  sent_served = λ h. absurd (omega (arith, h, start-sum sent rs refl starting));
  served = λ h. absurd (omega (arith, h, start-sum runs_command rs refl starting));
}
Reach-IsSound (Reach.later s t r step) few =
    Step-IsSound step (Reach-IsSound r (omega (arith, few, Step-length step)))
