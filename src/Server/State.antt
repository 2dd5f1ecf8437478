-- ===== src/Server/State.antt =====
-- The state of src/syncing/server.rs, and the insertion of one entry.
use coding_agent_sandbox.Common.{ℕ, none, some}
use coding_agent_sandbox.Common.Dict
use coding_agent_sandbox.Common.Dict.{Dict, is_some}
use coding_agent_sandbox.FilePath.{Name, FilePath, path_eq}
use coding_agent_sandbox.Files.{Bytes, Files, WriteOutcome}
use coding_agent_sandbox.PathTree
use coding_agent_sandbox.PathTree.{PathTree, children_of, descendants_of, subtree_paths}
use coding_agent_sandbox.ObjectStore.{ObjectStore, CopyOutcome}
use coding_agent_sandbox.Disk.{SandboxMeta, FuseMap, FlushOutcome}
use coding_agent_sandbox.Proto.{
  FileMetadata, FuseEntry, entry_type_eq, file, dir, symlink, whiteout,
}

pub record ServerState : Type 0 where
  pub objects : ObjectStore
  pub fuse_map : FuseMap
  pub path_tree : PathTree
  pub sandbox_dir : FilePath
  pub shm_name : Name
  pub abi_version : ℕ

-- The daemon's state and the real filesystem.
pub record World : Type 0 where
  pub server : ServerState
  pub files : Files

-- What the kernel answers to the file operations of a request.
pub record Io : Type 0 where
  pub write : WriteOutcome
  pub copy : CopyOutcome
  pub flush : FlushOutcome

unfoldable pub snapshot_meta : ServerState → SandboxMeta
snapshot_meta s = record {
  shm_name = s.shm_name;
  abi_version = s.abi_version;
  next_id = s.objects.next_id;
}

-- `fuse_map.insert` and `upsert_tree`
unfoldable pub put_entry : FilePath → FuseEntry → ServerState → ServerState
put_entry path entry s = record s {
  fuse_map = Dict.insert path entry s.fuse_map;
  path_tree = PathTree.insert s.path_tree path;
}

abbrev pub file_entry : ℕ → FileMetadata → FuseEntry
file_entry id meta = record {
  entry_type = file;
  metadata = meta;
  object_id = some id;
  symlink_target = none;
}

abbrev pub dir_entry : FileMetadata → FuseEntry
dir_entry meta = record {
  entry_type = dir;
  metadata = meta;
  object_id = none;
  symlink_target = none;
}

abbrev pub symlink_entry : Bytes → FileMetadata → FuseEntry
symlink_entry target meta = record {
  entry_type = symlink;
  metadata = meta;
  object_id = none;
  symlink_target = some target;
}

abbrev pub no_metadata : FileMetadata
no_metadata = record { size = 0; mode = 0; uid = 0; gid = 0; mtime = 0; atime = 0; ctime = 0 }

abbrev pub whiteout_entry : FuseEntry
whiteout_entry = record {
  entry_type = whiteout;
  metadata = no_metadata;
  object_id = none;
  symlink_target = none;
}
