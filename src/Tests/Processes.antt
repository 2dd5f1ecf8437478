-- ===== src/Tests/Processes.antt =====
-- The pool of connections, the runs and daemons of a sandbox, and the process that becomes its command.
use coding_agent_sandbox.Common.{
  ℕ, ◌≡◌, refl, true, false, none, some, Option, List, [], ◌∷◌, ◌++◌, length, ◌+◌, arith, nat_eq,
  member, count, codes, ◌==◌, list_eq, if◌then◌else◌,
}
use coding_agent_sandbox.FilePath.{Name, parent}
use coding_agent_sandbox.Files.{Bytes}
use coding_agent_sandbox.Common.Dict.{is_some}
use coding_agent_sandbox.Sys
use coding_agent_sandbox.Isolate.Stage1
use coding_agent_sandbox.Isolate.Stage2
use coding_agent_sandbox.Isolate.Seccomp
use coding_agent_sandbox.Isolate.Syscalls.{allow_syscalls}
use coding_agent_sandbox.Cli.{RunError}
use coding_agent_sandbox.Cli.Setup
use coding_agent_sandbox.Cli.Terminal
use coding_agent_sandbox.Cli.Terminal.{WriteAnswer, write_all_fd, Turn, Relay, turn, relay}
use coding_agent_sandbox.Cli.Terminal.Copies.{OnGo, IsDraining, Copied, turn-Copied, relay-stdout}
use coding_agent_sandbox.Shm.Region.{open_or_create}
use coding_agent_sandbox.Shm.Region.Held.{Ends, Owns, open_or_create-Owns}
use coding_agent_sandbox.Sys.{
  ok, err, ForkResult, WaitStatus, SysCall, Kernel, run, Process, Result, Errno,
}
use coding_agent_sandbox.Sys.Always.{Always}
use coding_agent_sandbox.Isolate.Confines.{OnExec}
use coding_agent_sandbox.Cli.Setup.{SetupPayload, Ended, wait_for_fuse_ready, run_setup_stage1}
use coding_agent_sandbox.Cli.Setup.Exec.{Any}
use coding_agent_sandbox.Cli.Setup.Confined.{IsConfined, run_setup_stage1-Confined}
use coding_agent_sandbox.Cli.Setup.Waiting.{IsTimely, wait_for_fuse_ready-Ends}
use coding_agent_sandbox.Tests.Tree.{path_a, path_ab, path_c}
use coding_agent_sandbox.Pool
use coding_agent_sandbox.Pool.{SyncClient, max_size_of, turn_at, checkout_turn}
use coding_agent_sandbox.Pool.Threads.{Thread, waits, after, Step}
use coding_agent_sandbox.Pool.Threads
use coding_agent_sandbox.Pool.Invariant.{IsBalanced, Reach-IsBalanced}
use coding_agent_sandbox.Shm
use coding_agent_sandbox.Cli.Lifecycle.{enter_section, Run, Daemon}
use coding_agent_sandbox.Cli.Lifecycle.Steps.{start, AreStarting}
use coding_agent_sandbox.Cli.Lifecycle.Steps
use coding_agent_sandbox.Cli.Lifecycle
use coding_agent_sandbox.Cli.Lifecycle.Invariant.Moves.{IsSound}
use coding_agent_sandbox.Cli.Lifecycle.Invariant.{Reach-IsSound}
use coding_agent_sandbox.Cli.Lifecycle.Races.{Quiet, Started, late_flush}
use coding_agent_sandbox.Pool.Balance.{copies, Reach-copies}

-- Two threads and a pool of one client.
abbrev client : SyncClient
client = record { stream = 5 }

abbrev empty_pool : Pool.PoolState
empty_pool = Pool.new

abbrev taken : Pool.PoolState
taken = record { idle = []; total = 1 }

abbrev state : Pool.PoolState → Thread → Thread → Threads.System
state p t u = record { pool = p; threads = t ∷ u ∷ [] }

abbrev contended : Threads.System
contended = state taken (Thread.working (client ∷ [])) (Thread.waiting [])

-- One thread has the client, the other waits for it.
waits_for_client : Threads.Reach 1 (client ∷ []) contended
unfolding max_size_of turn_at checkout_turn after
waits_for_client =
    Threads.Reach.later _ [] _ _
      (Threads.Reach.later _ [] _ _
        (Threads.Reach.later _ (client ∷ []) _ _
          (Threads.Reach.later _ [] _ _
            (Threads.Reach.later _ [] _ _
              (Threads.Reach.start (Thread.working [] ∷ Thread.working [] ∷ []) (refl, (refl, tt)))
              (Step.enter empty_pool [] (Thread.working [] ∷ []) []))
            (Step.turn empty_pool [] (Thread.working [] ∷ []) []))
          (Step.connected client taken [] (Thread.working [] ∷ []) []))
        (Step.enter taken (Thread.working (client ∷ []) ∷ []) [] []))
      (Step.turn taken (Thread.working (client ∷ []) ∷ []) [] [])

Reach-IsBalanced_example : IsBalanced (max_size_of 1) contended
Reach-IsBalanced_example = Reach-IsBalanced waits_for_client

Reach-copies_example : copies client contended ≡ 1
unfolding count Pool.client_eq
Reach-copies_example = Reach-copies client waits_for_client

abbrev half : Shm.ShmState
half = record { running_count = 1; socket_ready = 0 }

two_runs : Steps.Reach (Quiet 0 false [] (Run.starting ∷ []) [])
two_runs = Steps.Reach.init (Run.starting ∷ Run.starting ∷ []) (refl, (refl, tt))

started : Steps.Reach (Started 0 false [] (Run.starting ∷ []) [])
unfolding enter_section Lifecycle.run_after Lifecycle.forked nat_eq Shm.increment
    Shm.set_socket_ready Shm.is_socket_ready
started =
    Steps.Reach.later _ _
      (Steps.Reach.later _ _
        (Steps.Reach.later _ _
          (Steps.Reach.later _ _ two_runs
            (Steps.Step.enter Shm.new false [] (Run.starting ∷ []) []))
          (Steps.Step.signalled half true false [] (Run.starting ∷ []) [] []))
        (Steps.Step.committed half true true [] (Run.starting ∷ []) (Daemon.serving ∷ [])))
      (Steps.Step.saw_ready (record { running_count = 1; socket_ready = 1 }) true []
        (Run.starting ∷ []) (Daemon.serving ∷ []) refl)

Reach-IsSound_example : IsSound (Started 0 false [] (Run.starting ∷ []) [])
Reach-IsSound_example = Reach-IsSound started (omega arith)

-- The first run has left, and its daemon has shut down and not yet flushed for the second time.
abbrev closing : Lifecycle.System
closing = Quiet 0 false (Run.finished ∷ []) [] ([] ++ Daemon.closing ∷ [])

after_first : Steps.Reach closing
unfolding enter_section Shm.decrement Shm.set_socket_ready Lifecycle.poll_section nat_eq
after_first =
    Steps.Reach.later _ _
      (Steps.Reach.later _ _ started (
        Steps.Step.left (record { running_count = 1; socket_ready = 1 }) true [] (Run.starting ∷ [])
          (Daemon.serving ∷ [])))
      (Steps.Step.polled (record { running_count = 0; socket_ready = 1 }) true
        (Run.finished ∷ Run.starting ∷ []) [] [] refl)

late_flush_example :
    Steps.Reach
      (record (Started 0 false (Run.finished ∷ []) [] ([] ++ Daemon.gone ∷ [])) { socket = false })
late_flush_example = late_flush 0 false (Run.finished ∷ []) [] [] [] after_first

abbrev payload : SetupPayload
payload = record {
  rootfs = path_a;
  mountpoint = path_ab;
  cwd = path_c;
  daemon_socket = path_c;
  cmd_argv = codes "ls" ∷ codes "-l" ∷ [];
  pty_slave = none;
}

-- `read` alone has a number.
abbrev numbers : Name → Option ℕ
numbers name = if name == codes "read" then some 0 else none

-- A sleep takes its time, and no other call takes any.
abbrev clock : List SysCall → ℕ
clock [] = 0
clock (SysCall.sleep d ∷ h) = clock h + d
clock (_ ∷ h) = clock h

-- Every call succeeds, the user is 1000, and the mountpoint is on a device of its own.
abbrev friendly : Kernel
friendly h SysCall.getuid = 1000
friendly h SysCall.getgid = 1000
friendly h SysCall.now = clock h
friendly h (SysCall.sleep _) = tt
friendly h SysCall.fork = ok (ForkResult.parent 7)
friendly h (SysCall.waitpid _ _) = ok WaitStatus.still_alive
friendly h (SysCall.device _) = ok (length h)
friendly h (SysCall.open_file _) = ok 3
friendly h SysCall.setsid = ok tt
friendly h (SysCall.unshare _) = ok tt
friendly h (SysCall.write_file _ _) = ok tt
friendly h (SysCall.create_dir_all _) = ok tt
friendly h (SysCall.create_file _) = ok tt
friendly h (SysCall.chroot _) = ok tt
friendly h (SysCall.chdir _) = ok tt
friendly h (SysCall.mount _) = ok tt
friendly h SysCall.filter_new = ok tt
friendly h SysCall.filter_load = ok tt
friendly h (SysCall.filter_add_rule _) = ok tt
friendly h (SysCall.cap_drop _ _) = err 1
friendly h (SysCall.fuse_run _ _) = ok tt
friendly h (SysCall.set_controlling_tty _) = ok tt
friendly h (SysCall.close _) = ok tt
friendly h (SysCall.dup2 _ _) = ok tt
friendly h (SysCall.execvp _ _) = ok tt
friendly h (SysCall.shm_open _ _) = ok 3
friendly h (SysCall.ftruncate _ _) = ok tt
friendly h (SysCall.mmap _ _) = ok 4096
friendly h (SysCall.munmap _) = ok tt
friendly h (SysCall.shm_unlink _) = ok tt
friendly h SysCall.mutexattr_init = 0
friendly h SysCall.mutexattr_setpshared = 0
friendly h SysCall.mutexattr_destroy = 0
friendly h SysCall.mutex_init = 0
friendly h SysCall.mutex_destroy = 0

-- The mountpoint stays on the device of its parent.
abbrev unmounted : Kernel
unmounted h (SysCall.device _) = ok 0
unmounted h c = friendly h c

run_setup_stage1-Confined_example :
    Always (OnExec (IsConfined numbers 9 payload)) Any [] (run_setup_stage1 numbers 9 payload)
run_setup_stage1-Confined_example = run_setup_stage1-Confined numbers 9 payload

unmounted-IsTimely : IsTimely unmounted
unmounted-IsTimely = record { kept = λ h c. ground arith; slept = λ h d. omega arith }

wait_for_fuse_ready-Ends_example :
    is_some (run unmounted [] (wait_for_fuse_ready 202 path_ab 7)) ≡ true
wait_for_fuse_ready-Ends_example =
    wait_for_fuse_ready-Ends unmounted unmounted-IsTimely 202 [] path_ab 7 (omega arith)

-- The timeout is reached, and not with less fuel.
times_out :
    run unmounted [] (wait_for_fuse_ready 202 path_ab 7)
    ≡ some (err (RunError.fuse_mount_failed (codes "fuse")))
unfolding run wait_for_fuse_ready Setup.wait_turns Setup.after_wait Setup.after_deadline
    Setup.is_mounted Setup.parent_device Setup.dev_or_max Sys.chain parent nat_eq
times_out = refl

needs_fuel : run unmounted [] (wait_for_fuse_ready 201 path_ab 7) ≡ none
unfolding run wait_for_fuse_ready Setup.wait_turns Setup.after_wait Setup.after_deadline
    Setup.is_mounted Setup.parent_device Setup.dev_or_max Sys.chain parent nat_eq
needs_fuel = refl

-- The command is reached.
runs_command : run friendly [] (run_setup_stage1 numbers 1 payload) ≡ Ended.replaced
unfolding run run_setup_stage1 Setup.◌!!◌ Setup.or_exit Setup.after_fork Setup.run_setup_stage2
    Setup.confine Setup.or_unfinished Setup.wait_for_fuse_ready Setup.wait_turns Setup.after_wait
    Setup.is_mounted Setup.parent_device Setup.dev_or_max Setup.exec_command Setup.take_tty
    Setup.cstring Setup.cstrings Stage1.create_user_ns Stage1.enter Stage1.write_id_map
    Stage2.create_mount_ns Stage2.prepare_chroot Stage2.create_placeholders Stage2.bind_mount_fuse
    Stage2.bind_mount_proc Stage2.bind_mount_dev Stage2.bind_devices Stage2.bind_tty
    Stage2.bind_mount_tmpfs Stage2.mounted Stage2.drop_capabilities Stage2.drop_each
    Seccomp.apply_seccomp_filter Seccomp.allow_core_syscalls Seccomp.allow_each
    Seccomp.add_syscall_allow Seccomp.add_resolved allow_syscalls Sys.chain Sys.or_return Sys.◌>>=◌
    Sys.◌>>◌ parent member nat_eq list_eq
runs_command = refl

open_or_create-Owns_example :
    Ends
      (Owns (record { fds = 1 ∷ []; maps = [] }))
      (record { fds = 1 ∷ []; maps = [] })
      (open_or_create (codes "shm"))
open_or_create-Owns_example = open_or_create-Owns (record { fds = 1 ∷ []; maps = [] }) (codes "shm")

-- Every call takes two bytes.
abbrev two_by_two : ℕ → WriteAnswer
two_by_two n = WriteAnswer.accepted 2

written_whole : (write_all_fd 3 two_by_two 0 (1 ∷ 2 ∷ 3 ∷ [])).1 ≡ some (ok tt)
unfolding write_all_fd Terminal.on_write Terminal.before
written_whole = refl

-- The reply of a terminal to OSC 11, a palette reply.
abbrev palette_reply : Bytes
palette_reply = 27 ∷ 93 ∷ codes "11;rgb:0/0/0" ++ 7 ∷ []

-- The command prints `3 4` while the reply is on the input.
abbrev busy : Turn
busy = record {
  poll_error = none;
  status = ok WaitStatus.still_alive;
  from_master = some (ok (3 ∷ 4 ∷ []));
  from_stdin = some (ok palette_reply);
  to_stdout = two_by_two;
  to_master = two_by_two;
  resized = false;
  resize_error = none;
  last_status = ok (WaitStatus.exited 0);
  at_exit = 0;
  at_end = 0;
}

start-IsDraining : IsDraining Terminal.start
start-IsDraining = record { has_deadline = refl; stdin_closed = λ gone. ground (arith, gone) }

turn-Copied_example : OnGo (Copied busy Terminal.start) (turn 9 busy Terminal.start)
turn-Copied_example = turn-Copied 9 busy Terminal.start start-IsDraining

relay-stdout_example :
    OnGo (λ s. s.stdout ≡ 3 ∷ 4 ∷ 3 ∷ 4 ∷ []) (relay 9 (busy ∷ busy ∷ []) Terminal.start)
relay-stdout_example = relay-stdout 9 (busy ∷ busy ∷ []) Terminal.start start-IsDraining

-- Both turns go on, and the replies reach the command.
relayed :
    relay 9 (busy ∷ busy ∷ []) Terminal.start
    ≡ Terminal.Outcome.goes_on (record Terminal.start {
      stdout = 3 ∷ 4 ∷ 3 ∷ 4 ∷ [];
      master = palette_reply ++ palette_reply;
    })
unfolding relay turn Terminal.continue Terminal.polled Terminal.reap Terminal.read_master
    Terminal.read_stdin Terminal.resize Terminal.drained Terminal.after_write write_all_fd
    Terminal.on_write Terminal.before
relayed = refl
