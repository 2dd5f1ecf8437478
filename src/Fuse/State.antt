-- ===== src/Fuse/State.antt =====
-- src/fuse/state.rs: what the filesystem process knows when it decides. A field that no decision
-- reads is kept where the source has it.
use coding_agent_sandbox.Common.{ℕ, Bool, Option}
use coding_agent_sandbox.Common.Dict.{Dict}
use coding_agent_sandbox.FilePath.{FilePath, Name}
use coding_agent_sandbox.Proto.{EntryType, FuseEntry}
use coding_agent_sandbox.Fuse.Policy.{AccessMode}

-- `fuser::FileType`, the kinds that the program uses.
pub data FileType : Type 0 where
  directory regular_file symlink : FileType

pub record StatState : Type 0 where
  pub access_mode : AccessMode
  pub real_exists : Bool
  pub fuse_entry : Option FuseEntry

pub record RealChild : Type 0 where
  pub kind : FileType
  pub path : FilePath

pub record FuseChild : Type 0 where
  pub entry_type : EntryType
  pub path : FilePath

pub record ReaddirChildState : Type 0 where
  pub real : Option RealChild
  pub fuse : Option FuseChild

pub record ReaddirState : Type 0 where
  pub access_mode : AccessMode
  pub children : Dict Name ReaddirChildState

pub record OpenState : Type 0 where
  pub access_mode : AccessMode
  pub path : FilePath
  pub need_write : Bool
  pub truncate_requested : Bool
  pub real_exists : Bool
  pub fuse_entry : Option FuseEntry
  pub object_path : Option FilePath

-- `CreateState`, `UnlinkState`, `RmdirState` and `MkdirState` have the same two fields.
pub record CreateState : Type 0 where
  pub access_mode : AccessMode
  pub path : FilePath

pub record UnlinkState : Type 0 where
  pub access_mode : AccessMode
  pub path : FilePath

pub record RmdirState : Type 0 where
  pub access_mode : AccessMode
  pub path : FilePath

pub record MkdirState : Type 0 where
  pub access_mode : AccessMode
  pub path : FilePath

pub record RenameState : Type 0 where
  pub access_mode : AccessMode
  pub from : FilePath
  pub to : FilePath
  pub from_entry : Option FuseEntry

pub record SetattrState : Type 0 where
  pub access_mode : AccessMode
  pub path : FilePath
  pub fh_present : Bool
  pub has_open_handle : Bool
  pub mode : Option ℕ
  pub uid : Option ℕ
  pub gid : Option ℕ
  pub size : Option ℕ

pub record ReadlinkState : Type 0 where
  pub access_mode : AccessMode
  pub path : FilePath
  pub fuse_entry : Option FuseEntry
