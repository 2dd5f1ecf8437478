-- ===== src/Isolate/Seccomp.antt =====
-- src/isolate/seccomp.rs: the filter, which allows a list of system calls and kills the process at
-- any other. `ScmpSyscall::from_name` is a parameter.
use coding_agent_sandbox.Common.{ℕ, Option, none, some, List, [], ◌∷◌}
use coding_agent_sandbox.FilePath.{Name}
use coding_agent_sandbox.Sys.{Errno, SysCall, Try, ◌>>◌, pure, map_err, call}
use coding_agent_sandbox.Isolate.Syscalls.{allow_syscalls}

pub data SeccompError : Type 0 where
  init add_syscall load : Errno → SeccompError

module _ (from_name : Name → Option ℕ) where
  unfoldable pub add_resolved : Option ℕ → Try SeccompError (Unit {0})
  add_resolved none = pure tt
  add_resolved (some syscall) =
      call (SysCall.filter_add_rule syscall) (map_err SeccompError.add_syscall)

  unfoldable pub add_syscall_allow : Name → Try SeccompError (Unit {0})
  unfolding add_resolved
  add_syscall_allow name = add_resolved (from_name name)

  unfoldable pub allow_each : List Name → Try SeccompError (Unit {0})
  unfolding add_syscall_allow
  allow_each [] = pure tt
  allow_each (name ∷ names) = add_syscall_allow name >> allow_each names

  unfoldable pub allow_core_syscalls : Try SeccompError (Unit {0})
  unfolding allow_each
  allow_core_syscalls = allow_each allow_syscalls

  unfoldable pub apply_seccomp_filter : Try SeccompError (Unit {0})
  unfolding allow_core_syscalls
  apply_seccomp_filter = do
    call SysCall.filter_new (map_err SeccompError.init)
    allow_core_syscalls
    call SysCall.filter_load (map_err SeccompError.load)
    pure tt
