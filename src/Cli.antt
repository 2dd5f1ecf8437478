-- ===== src/Cli.antt =====
-- src/cli: the commands; their errors are `RunError` of src/cli/run.rs.
pub mod Setup
pub mod Lifecycle
pub mod Terminal
use coding_agent_sandbox.FilePath.{Name}
use coding_agent_sandbox.Sys.{Errno}
use coding_agent_sandbox.Disk
use coding_agent_sandbox.Isolate.Stage1.{Stage1Error}
use coding_agent_sandbox.Isolate.Stage2.{Stage2Error}
use coding_agent_sandbox.Isolate.Seccomp.{SeccompError}

-- A text is a name of what failed.
pub data RunError : Type 0 where
  not_initialized no_command invalid_command_arg : RunError
  policy daemon_not_ready fuse_mount_failed pty : Name → RunError
  meta config shm fork io : Errno → RunError
  stage1 : Stage1Error → RunError
  stage2 : Stage2Error → RunError
  seccomp : SeccompError → RunError
