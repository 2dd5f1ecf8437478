-- ===== src/Fuse/Decision/Isolation.antt =====
-- The decisions that change a path (Fuse/Decision.antt), by the mode of the path.
use coding_agent_sandbox.Common.{Bool, true, false, ◌&&◌, ◌≡◌, arith}
use coding_agent_sandbox.Proto.{entry_type_eq}
use coding_agent_sandbox.Fuse.Policy.{AccessMode, passthrough}
use coding_agent_sandbox.Fuse.State.{
  CreateState, UnlinkState, RmdirState, MkdirState, RenameState, SetattrState,
}
use coding_agent_sandbox.Fuse.Decision.{
  CreateDecision, UnlinkDecision, RmdirDecision, MkdirDecision, RenameDecision, SetattrDecision,
  decide_create, decide_unlink, decide_rmdir, decide_mkdir, decide_rename, decide_setattr,
}

-- Everything a process can ask that changes a path.
pub data Change : Type 0 where
  create : CreateState → Change
  unlink : UnlinkState → Change
  rmdir : RmdirState → Change
  mkdir : MkdirState → Change
  rename : RenameState → Change
  setattr : SetattrState → Change

abbrev pub mode_of : Change → AccessMode
mode_of (create s) = s.access_mode
mode_of (unlink s) = s.access_mode
mode_of (rmdir s) = s.access_mode
mode_of (mkdir s) = s.access_mode
mode_of (rename s) = s.access_mode
mode_of (setattr s) = s.access_mode

-- The change goes to the file behind a handle that is open already.
abbrev pub on_handle : Change → Bool
on_handle (setattr s) = s.fh_present && s.has_open_handle
on_handle _ = false

create_is_real : CreateDecision → Bool
create_is_real CreateDecision.create_real = true
create_is_real _ = false

unlink_is_real : UnlinkDecision → Bool
unlink_is_real UnlinkDecision.remove_real = true
unlink_is_real _ = false

rmdir_is_real : RmdirDecision → Bool
rmdir_is_real RmdirDecision.remove_real = true
rmdir_is_real _ = false

mkdir_is_real : MkdirDecision → Bool
mkdir_is_real MkdirDecision.create_real = true
mkdir_is_real _ = false

rename_is_real : RenameDecision → Bool
rename_is_real RenameDecision.rename_real = true
rename_is_real _ = false

setattr_is_real : SetattrDecision → Bool
setattr_is_real SetattrDecision.update_real_fs = true
setattr_is_real _ = false

-- The decision calls the host's filesystem by the path.
unfoldable pub is_real : Change → Bool
unfolding create_is_real unlink_is_real rmdir_is_real mkdir_is_real rename_is_real setattr_is_real
is_real (create s) = create_is_real (decide_create s)
is_real (unlink s) = unlink_is_real (decide_unlink s)
is_real (rmdir s) = rmdir_is_real (decide_rmdir s)
is_real (mkdir s) = mkdir_is_real (decide_mkdir s)
is_real (rename s) = rename_is_real (decide_rename s)
is_real (setattr s) = setattr_is_real (decide_setattr s)

abbrev pub is_passthrough : AccessMode → Bool
is_passthrough passthrough = true
is_passthrough _ = false

-- A create, unlink, rmdir, mkdir, rename or setattr that is not made to an open handle is decided
-- to go to the host's filesystem by its path exactly where the mode of the (old) path is
-- passthrough.
pub change_isolated : (c : Change) → on_handle c ≡ false → is_real c ≡ is_passthrough (mode_of c)
unfolding decide_create decide_unlink decide_rmdir decide_mkdir decide_rename decide_setattr is_real
    create_is_real unlink_is_real rmdir_is_real mkdir_is_real rename_is_real setattr_is_real
change_isolated (create s) h = ground arith
change_isolated (unlink s) h = ground arith
change_isolated (rmdir s) h = ground arith
change_isolated (mkdir s) h = ground arith
change_isolated (rename s) h = ground arith
change_isolated (setattr s) h = ground arith
