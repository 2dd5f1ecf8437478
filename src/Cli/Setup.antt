-- ===== src/Cli/Setup.antt =====
-- src/cli/sandbox.rs: the processes that set the sandbox up and become the command.
pub mod Waiting
pub mod Exec
pub mod Confined
use coding_agent_sandbox.Common.{
  ℕ, zero, suc, ◌+◌, Bool, true, false, ◌==◌, not, Option, none, some, List, [], ◌∷◌, codes, ltb,
  member, is_empty, nat_eq, if◌then◌else◌,
}
use coding_agent_sandbox.Common.Dict.{is_some}
use coding_agent_sandbox.FilePath.{FilePath, Name, join, parent}
use coding_agent_sandbox.Sys.{
  Errno, Result, ok, err, ForkResult, WaitStatus, SysCall, Process, done, invoke, chain, Try, ◌>>=◌,
  ◌>>◌, pure, map_err, call,
}
use coding_agent_sandbox.Isolate.Stage1.{Stage1Error, UserNs, create_user_ns}
use coding_agent_sandbox.Isolate.Stage2.{
  Stage2Error, create_mount_ns, prepare_chroot, drop_capabilities, root_path,
}
use coding_agent_sandbox.Isolate.Seccomp.{SeccompError, apply_seccomp_filter}
use coding_agent_sandbox.Cli
use coding_agent_sandbox.Cli.{RunError}

-- The policy is an argument of the filesystem process (Fuse/Policy) and not of the set-up.
pub record SetupPayload : Type 0 where
  pub rootfs : FilePath
  pub mountpoint : FilePath
  pub cwd : FilePath
  pub daemon_socket : FilePath
  pub cmd_argv : List Name
  pub pty_slave : Option FilePath

-- How a process ends: it exits, becomes the command, or is still waiting where the fuel ends.
pub data Ended : Type 0 where
  exited : ℕ → Ended
  replaced : Ended
  unfinished : Ended

-- In nanoseconds.
abbrev pub fuse_ready_timeout : ℕ
fuse_ready_timeout = 10000000000

-- `Duration::from_millis(50)`
abbrev pub fuse_poll_interval : ℕ
fuse_poll_interval = 50000000

abbrev u64_max : ℕ
u64_max = 18446744073709551615

abbrev fuse_failed : RunError
fuse_failed = RunError.fuse_mount_failed (codes "fuse")

-- `none` where the fuel ends.
abbrev pub Wait : Type 0
Wait = Process (Option (Result RunError (Unit {0})))

-- What a turn of the loop does after the test of the mountpoint: `again` is the next turn.
unfoldable pub after_deadline : ℕ → ℕ → Wait → Wait
after_deadline deadline now again =
    if ltb deadline now
    then done (some (err fuse_failed))
    else invoke (SysCall.sleep fuse_poll_interval) λ _. again

unfoldable pub after_wait : ℕ → Wait → Result Errno WaitStatus → Wait
unfolding after_deadline
after_wait deadline again (ok WaitStatus.still_alive) =
    invoke SysCall.now λ now. after_deadline deadline now again
after_wait deadline again _ = done (some (err fuse_failed))

unfoldable pub is_mounted : ℕ → Result Errno ℕ → Bool
is_mounted parent_dev (ok dev) = not (dev == parent_dev)
is_mounted parent_dev (err e) = false

unfoldable pub wait_turns : ℕ → FilePath → ℕ → ℕ → ℕ → Wait
unfolding after_wait is_mounted
wait_turns zero mountpoint parent_dev deadline fuse_child = done none
wait_turns (suc fuel) mountpoint parent_dev deadline fuse_child =
    let again = wait_turns fuel mountpoint parent_dev deadline fuse_child in
    invoke (SysCall.device mountpoint) λ dev.
      if is_mounted parent_dev dev
      then done (some (ok tt))
      else invoke (SysCall.waitpid fuse_child true) λ status. after_wait deadline again status

unfoldable pub dev_or_max : Result Errno ℕ → ℕ
dev_or_max (ok dev) = dev
dev_or_max (err e) = u64_max

-- The device of the mountpoint's parent.
unfoldable pub parent_device : Option FilePath → Process ℕ
unfolding dev_or_max
parent_device none = done u64_max
parent_device (some p) = invoke (SysCall.device p) λ dev. done (dev_or_max dev)

unfoldable pub wait_for_fuse_ready : ℕ → FilePath → ℕ → Wait
unfolding parent_device wait_turns
wait_for_fuse_ready fuel mountpoint fuse_child =
    chain (parent_device (parent mountpoint)) λ parent_dev.
      invoke SysCall.now
        λ start. wait_turns fuel mountpoint parent_dev (start + fuse_ready_timeout) fuse_child

-- `CString::new`, which refuses a NUL byte
unfoldable pub cstring : Name → Result RunError Name
cstring s = if member 0 s then err RunError.invalid_command_arg else ok s

unfoldable pub cstrings : List Name → Try RunError (List Name)
unfolding cstring
cstrings [] = pure []
cstrings (arg ∷ args) = do c ← done (cstring arg); cs ← cstrings args; pure (c ∷ cs)

abbrev pty_failed : {A : Type 0} → Name → Result RunError A
pty_failed what = err (RunError.pty what)

unfoldable pub close_after : {A : Type 0} → ℕ → Result RunError A → Try RunError A
close_after fd r = invoke (SysCall.close fd) λ _. done r

-- `if rc < 0 { close; return Err(..) }`
unfoldable pub or_close :
    ℕ → Name → Try RunError (Unit {0}) → Result Errno (Unit {0}) → Try RunError (Unit {0})
unfolding close_after
or_close fd what next (ok _) = next
or_close fd what next (err e) = close_after fd (pty_failed what)

abbrev pub stdio : List ℕ
stdio = 0 ∷ 1 ∷ 2 ∷ []

unfoldable pub dup_each : ℕ → List ℕ → Try RunError (Unit {0})
unfolding or_close close_after
dup_each slave_fd [] = close_after slave_fd (ok tt)
dup_each slave_fd (fd ∷ fds) =
    let rest = dup_each slave_fd fds in
    invoke (SysCall.dup2 slave_fd fd) λ r. or_close slave_fd (codes "dup2") rest r

unfoldable pub with_tty : Result Errno ℕ → Try RunError (Unit {0})
unfolding or_close dup_each
with_tty (ok slave_fd) =
    invoke (SysCall.set_controlling_tty slave_fd)
      λ r. or_close slave_fd (codes "TIOCSCTTY") (dup_each slave_fd stdio) r
with_tty (err e) = done (pty_failed (codes "open /dev/tty"))

-- The terminal of the command, where it has one.
unfoldable pub take_tty : Bool → Try RunError (Unit {0})
unfolding with_tty
take_tty false = pure tt
take_tty true = do
  call SysCall.setsid (map_err λ e. RunError.pty (codes "setsid"))
  invoke (SysCall.open_file (join (join root_path (codes "dev")) (codes "tty"))) with_tty

-- `ok` where the process has become the command.
unfoldable pub exec_command : List Name → Bool → Try RunError (Unit {0})
unfolding take_tty cstring cstrings
exec_command [] use_pty = done (err RunError.no_command)
exec_command (program ∷ rest) use_pty = do
  take_tty use_pty
  c ← done (cstring program)
  args ← cstrings (program ∷ rest)
  call (SysCall.execvp c args) (map_err RunError.io)

-- `if let Err(e) = m { exit(1) }`
unfoldable pub or_exit : {E A : Type 0} → (A → Process Ended) → Result E A → Process Ended
or_exit next (ok a) = next a
or_exit next (err e) = done (Ended.exited 1)

infixl 5 ◌!!◌
unfoldable pub ◌!!◌ : {E A : Type 0} → Try E A → (A → Process Ended) → Process Ended
unfolding or_exit
m !! next = chain m (or_exit next)

unfoldable pub or_unfinished : Process Ended → Option (Result RunError (Unit {0})) → Process Ended
unfolding or_exit
or_unfinished next none = done Ended.unfinished
or_unfinished next (some r) = or_exit (λ _. next) r

-- What a process returns or how it ends.
pub data Spawned : Type 0 where
  returned : Result RunError ℕ → Spawned
  ended : Ended → Spawned

module _ (from_name : Name → Option ℕ) (fuel : ℕ) where
  -- What follows once the filesystem is mounted.
  unfoldable pub confine : SetupPayload → Process Ended
  unfolding ◌!!◌
  confine payload =
      prepare_chroot payload.rootfs payload.mountpoint payload.cwd payload.pty_slave !! λ _.
      apply_seccomp_filter from_name !! λ _. drop_capabilities !! λ _.
      exec_command payload.cmd_argv (is_some payload.pty_slave) !! λ _. done Ended.replaced

  unfoldable pub run_setup_stage2 : SetupPayload → ℕ → Process Ended
  unfolding confine or_unfinished
  run_setup_stage2 payload fuse_child =
      chain (wait_for_fuse_ready fuel payload.mountpoint fuse_child)
        (or_unfinished (confine payload))

  unfoldable pub run_fuse_daemon : FilePath → FilePath → Process Ended
  unfolding ◌!!◌
  run_fuse_daemon mountpoint daemon_socket =
      call (SysCall.fuse_run mountpoint daemon_socket) (map_err RunError.io) !! λ _.
      done (Ended.exited 0)

  unfoldable pub after_fork : SetupPayload → ForkResult → Process Ended
  unfolding run_fuse_daemon run_setup_stage2
  after_fork payload ForkResult.child = run_fuse_daemon payload.mountpoint payload.daemon_socket
  after_fork payload (ForkResult.parent fuse_child) = run_setup_stage2 payload fuse_child

  unfoldable pub run_setup_stage1 : SetupPayload → Process Ended
  unfolding ◌!!◌ after_fork
  run_setup_stage1 payload = create_user_ns !! λ _.
      create_mount_ns !! λ _. invoke SysCall.fork (or_exit (after_fork payload))

  unfoldable pub spawned : SetupPayload → Result Errno ForkResult → Process Spawned
  unfolding run_setup_stage1
  spawned payload (ok (ForkResult.parent pid)) = done (Spawned.returned (ok pid))
  spawned payload (ok ForkResult.child) =
      chain (run_setup_stage1 payload) λ e. done (Spawned.ended e)
  spawned payload (err e) = done (Spawned.returned (err (RunError.fork e)))

  unfoldable pub spawn_setup_process : SetupPayload → Process Spawned
  unfolding spawned
  spawn_setup_process payload = invoke SysCall.fork (spawned payload)

unfoldable pub exit_code : Result Errno WaitStatus → ℕ
exit_code (ok (WaitStatus.exited code)) = code
exit_code (ok (WaitStatus.signaled _)) = 1
exit_code (ok _) = 0
exit_code (err e) = 1

unfoldable pub wait_setup_exit : ℕ → Process ℕ
unfolding exit_code
wait_setup_exit child_pid = invoke (SysCall.waitpid child_pid false) λ r. done (exit_code r)
