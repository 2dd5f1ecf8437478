-- ===== src/Cli/Lifecycle/Invariant/Moves.antt =====
-- Proof: the sums over the runs and the daemons when one moves, and the steps that need a case split.
use coding_agent_sandbox.Common.{
  ℕ, ◌+◌, ◌^◌, ◌≤◌, ◌<◌, ◌≡◌, refl, Bool, true, false, bit, Bool-cases, inl, inr, List, [], ◌∷◌,
  ◌++◌, length, length-append, sum, sum-at, arith, ◌==◌, nat_eq,
}
use coding_agent_sandbox.Shm.{ShmState, set_socket_ready, increment, decrement}
use coding_agent_sandbox.Cli.Lifecycle.{
  entered, enter_section, poll_section, Run, Daemon, System, run_after, forked, GivenUp,
}

-- The runs between their increment and their decrement.
abbrev pub counts : Run → ℕ
counts Run.starting = 0
counts Run.finished = 0
counts _ = 1

abbrev pub forks : Run → ℕ
forks (Run.forking _) = 1
forks _ = 0

abbrev pub sent : Run → ℕ
sent (Run.forking true) = 1
sent _ = 0

abbrev pub runs_command : Run → ℕ
runs_command Run.running = 1
runs_command _ = 0

abbrev pub serves : Daemon → ℕ
serves Daemon.serving = 1
serves _ = 0

pub record IsSound (s : System) : Type 0 where
  pub few : length s.runs < 2 ^ 32
  pub counted : s.shm.running_count ≡ sum counts s.runs
  pub exclusive : sum forks s.runs ≡ bit s.locked
  pub ready : s.shm.socket_ready ≡ 1 → 0 < sum serves s.daemons
  pub sent_served : 0 < sum sent s.runs → 0 < sum serves s.daemons
  pub served : 0 < sum runs_command s.runs → 0 < sum serves s.daemons

sum-le-length : (f : Run → ℕ) → ((r : Run) → f r ≤ 1) → (rs : List Run) → sum f rs ≤ length rs
unfolding sum
sum-le-length f le [] = omega arith
sum-le-length f le (r ∷ rs) = omega (arith, le r, sum-le-length f le rs)

pub counts-le : (rs : List Run) → sum counts rs ≤ length rs
counts-le rs = sum-le-length counts (λ r. ground arith) rs

le-sum : (f g : Run → ℕ) → ((r : Run) → f r ≤ g r) → (rs : List Run) → sum f rs ≤ sum g rs
unfolding sum
le-sum f g le [] = omega arith
le-sum f g le (r ∷ rs) = omega (arith, le r, le-sum f g le rs)

runs_command-le : (rs : List Run) → sum runs_command rs ≤ sum counts rs
runs_command-le rs = le-sum runs_command counts (λ r. ground arith) rs

sent-le : (rs : List Run) → sum sent rs ≤ sum forks rs
sent-le rs = le-sum sent forks (λ r. ground arith) rs

module _ (us vs : List Run) (r u : Run) where
  pub record Moved : Type 0 where
    pub size : length (us ++ u ∷ vs) ≡ length (us ++ r ∷ vs)
    pub count : sum counts (us ++ u ∷ vs) + counts r ≡ sum counts (us ++ r ∷ vs) + counts u
    pub fork : sum forks (us ++ u ∷ vs) + forks r ≡ sum forks (us ++ r ∷ vs) + forks u
    pub send : sum sent (us ++ u ∷ vs) + sent r ≡ sum sent (us ++ r ∷ vs) + sent u
    pub command :
        sum runs_command (us ++ u ∷ vs) + runs_command r
        ≡ sum runs_command (us ++ r ∷ vs) + runs_command u

  -- The sums before and after a run moves from `r` to `u`.
  pub moved : Moved
  moved = record {
    size = omega (arith, length-append us (r ∷ vs), length-append us (u ∷ vs));
    count = omega (arith, sum-at counts us vs r, sum-at counts us vs u);
    fork = omega (arith, sum-at forks us vs r, sum-at forks us vs u);
    send = omega (arith, sum-at sent us vs r, sum-at sent us vs u);
    command = omega (arith, sum-at runs_command us vs r, sum-at runs_command us vs u);
  }

pub served-at :
    (ds es : List Daemon) (d e : Daemon)
    → sum serves (ds ++ e ∷ es) + serves d ≡ sum serves (ds ++ d ∷ es) + serves e
served-at ds es d e = omega (arith, sum-at serves ds es d, sum-at serves ds es e)

pub GivenUp-serves :
    {sent : Bool} {ds es : List Daemon} → GivenUp sent ds es → sum serves es ≡ sum serves ds
GivenUp-serves (GivenUp.after_signal ds) = refl
GivenUp-serves (GivenUp.died ds es) =
    ground (arith, served-at ds es (Daemon.booting true) Daemon.gone)
GivenUp-serves (GivenUp.orphaned ds es) =
    ground (arith, served-at ds es (Daemon.booting true) (Daemon.booting false))

pub forks-bit : (b : Bool) → bit b ≤ 1
forks-bit b = ground arith

module _ (us vs : List Run) (ds : List Daemon) (socket : Bool) (shm : ShmState) where
  abbrev Before : Type 0
  Before = IsSound (record {
    shm = shm;
    locked = false;
    socket = socket;
    runs = us ++ Run.starting ∷ vs;
    daemons = ds;
  })

  pub enter-IsSound :
      Before
      → IsSound (record {
        shm = (enter_section shm).1;
        locked = (enter_section shm).0;
        socket = socket;
        runs = us ++ run_after (enter_section shm).0 ∷ vs;
        daemons = forked (enter_section shm).0 ++ ds;
      })
  unfolding enter_section entered increment run_after forked set_socket_ready sum
  enter-IsSound i = elim (Bool-cases (shm.running_count == 0)) [
    | inl first ↦
        let m = moved us vs Run.starting (Run.forking false) in
        rw (first, entered)
          record {
            few = omega (arith, m.size, i.few);
            counted =
                ground (arith, m.count, i.counted, i.few, counts-le (us ++ Run.starting ∷ vs));
            exclusive = ground (arith, m.fork, i.exclusive);
            ready = λ h. absurd (omega (arith, h));
            sent_served = λ h. ground (arith, i.sent_served, m.send, h);
            served = λ h. ground (arith, i.served, m.command, h);
          }
    | inr more ↦
        let m = moved us vs Run.starting Run.waiting in
        rw (more, entered)
          record {
            few = omega (arith, m.size, i.few);
            counted =
                ground
                  (arith, m.count, i.counted, i.few, m.size, counts-le (us ++ Run.waiting ∷ vs));
            exclusive = ground (arith, m.fork, i.exclusive);
            ready = λ h. i.ready h;
            sent_served = λ h. ground (arith, i.sent_served, m.send, h);
            served = λ h. ground (arith, i.served, m.command, h);
          }
  ]

  pub fork_failed-IsSound :
      (enter_section shm).0 ≡ true
      → Before
      → IsSound (record {
        shm = (enter_section shm).1;
        locked = false;
        socket = socket;
        runs = us ++ Run.rolling_back ∷ vs;
        daemons = ds;
      })
  unfolding enter_section entered increment set_socket_ready
  fork_failed-IsSound starts i = elim (Bool-cases (shm.running_count == 0)) [
    | inl first ↦
        let m = moved us vs Run.starting Run.rolling_back in
        rw (first, entered)
          record {
            few = omega (arith, m.size, i.few);
            counted =
                ground (arith, m.count, i.counted, i.few, counts-le (us ++ Run.starting ∷ vs));
            exclusive = ground (arith, m.fork, i.exclusive);
            ready = λ h. absurd (omega (arith, h));
            sent_served = λ h. ground (arith, i.sent_served, m.send, h);
            served = λ h. ground (arith, i.served, m.command, h);
          }
    | inr more ↦ absurd (ground arith)
  ]

-- No run is counted where the poll of a daemon ends it.
pub polled-IsSound :
    (shm : ShmState) (socket : Bool) (us : List Run) (ds es : List Daemon)
    → (poll_section shm).0 ≡ true
    → IsSound (record {
      shm = shm;
      locked = false;
      socket = socket;
      runs = us;
      daemons = ds ++ Daemon.serving ∷ es;
    })
    → IsSound (record {
      shm = (poll_section shm).1;
      locked = false;
      socket = false;
      runs = us;
      daemons = ds ++ Daemon.closing ∷ es;
    })
unfolding poll_section set_socket_ready
polled-IsSound shm socket us ds es ends i = elim (Bool-cases (shm.running_count == 0)) [
  | inl none_runs ↦
      rw (none_runs, poll_section)
        record {
          few = i.few;
          counted = i.counted;
          exclusive = i.exclusive;
          ready = λ h. absurd (omega (arith, h));
          sent_served = λ h. absurd (ground (arith, h, sent-le us, i.exclusive));
          served = λ h. absurd (ground (arith, h, runs_command-le us, i.counted));
        }
  | inr some_run ↦ absurd (ground arith)
]

-- A daemon that does not serve goes on to another such state.
pub aside-IsSound :
    (shm : ShmState) (locked socket sock' : Bool) (us : List Run) (ds es : List Daemon)
    (d e : Daemon)
    → serves d ≡ 0
    → serves e ≡ 0
    → IsSound
        (record { shm = shm; locked = locked; socket = socket; runs = us; daemons = ds ++ d ∷ es })
    → IsSound
        (record { shm = shm; locked = locked; socket = sock'; runs = us; daemons = ds ++ e ∷ es })
aside-IsSound shm locked socket sock' us ds es d e before after i =
    let at = served-at ds es d e in
    record {
      few = i.few;
      counted = i.counted;
      exclusive = i.exclusive;
      ready = λ h. omega (arith, at, before, after, i.ready h);
      sent_served = λ h. omega (arith, at, before, after, i.sent_served h);
      served = λ h. omega (arith, at, before, after, i.served h);
    }

-- The decrement of a run that starts no daemon.
pub decrement-IsSound :
    (shm : ShmState) (socket : Bool) (us vs : List Run) (ds : List Daemon) (r : Run)
    → counts r ≡ 1
    → forks r ≡ 0
    → sent r ≡ 0
    → IsSound
        (record { shm = shm; locked = false; socket = socket; runs = us ++ r ∷ vs; daemons = ds })
    → IsSound (record {
      shm = decrement shm;
      locked = false;
      socket = socket;
      runs = us ++ Run.finished ∷ vs;
      daemons = ds;
    })
unfolding decrement
decrement-IsSound shm socket us vs ds r counted not_forking not_sent i =
    let m = moved us vs r Run.finished in
    record {
      few = omega (arith, m.size, i.few);
      counted =
          ground (
            arith,
            counted,
            m.count,
            i.counted,
            i.few,
            m.size,
            counts-le (us ++ Run.finished ∷ vs),
          );
      exclusive = ground (arith, not_forking, m.fork, i.exclusive);
      ready = λ h. i.ready h;
      sent_served = λ h. i.sent_served (ground (arith, not_sent, m.send));
      served = λ h. i.served (ground (arith, m.command));
    }
