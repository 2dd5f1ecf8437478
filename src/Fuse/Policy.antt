-- ===== src/Fuse/Policy.antt =====
-- src/fuse/policy.rs: how a path is handled.
use coding_agent_sandbox.Common.{Bool, Eq}
use coding_agent_sandbox.FilePath.{FilePath}

pub data AccessMode : Type 0 where
  passthrough fuse_only copy_on_write : AccessMode

mode_discrete : Discrete AccessMode
mode_discrete = hlevel

instance unfoldable pub mode_eq : Eq AccessMode
unfolding mode_discrete
mode_eq = record { dec = mode_discrete }

-- The trait `Policy`.
pub record Policy : Type 0 where
  pub classify : FilePath → AccessMode
  pub should_log : FilePath → Bool
