-- ===== src/Fuse/StateLoader.antt =====
-- src/fuse/state_loader.rs: what an operation loads before it decides.
pub mod Listing
pub mod Renaming
use coding_agent_sandbox.Common.{
  ℕ, Bool, true, false, Option, none, some, List, [], ◌∷◌, nat_eq, list_eq,
}
use coding_agent_sandbox.Common.Dict
use coding_agent_sandbox.Common.Dict.{Dict}
use coding_agent_sandbox.FilePath.{FilePath, Name, path_eq, file_name, join}
use coding_agent_sandbox.Proto.{FuseEntry}
use coding_agent_sandbox.Host.{HostCall}
use coding_agent_sandbox.Prog.{
  Error, Result, ok, err, Prog, done, Try, ◌>>=◌, ◌>>◌, pure, call, attempt, ignore, to_option,
  is_ok,
}
use coding_agent_sandbox.Client
use coding_agent_sandbox.Fuse.Policy.{Policy}
use coding_agent_sandbox.Fuse.State.{
  FileType, StatState, RealChild, FuseChild, ReaddirChildState, ReaddirState, OpenState,
  CreateState, UnlinkState, RmdirState, MkdirState, RenameState, SetattrState, ReadlinkState,
}
use coding_agent_sandbox.Fuse.Decision.{is_whiteout_entry}

-- `children.entry(name).or_default()`
unfoldable pub slot : Name → Dict Name ReaddirChildState → ReaddirChildState
slot name children = elim (Dict.lookup name children) [
  | none ↦ record { real = none; fuse = none }
  | some child ↦ child
]

-- The first loop of `load_readdir_state`, over the real directory at `path`.
unfoldable pub add_real :
    FilePath → List (Name × FileType) → Dict Name ReaddirChildState → Dict Name ReaddirChildState
add_real path [] children = children
add_real path ((name, kind) ∷ ents) children = add_real path ents (
    Dict.insert name
      (record (slot name children) { real = some (record { kind = kind; path = join path name }) })
      children)

-- The second loop, over the daemon's entries: one without a file name is passed over.
unfoldable pub add_fuse :
    List (FilePath × FuseEntry) → Dict Name ReaddirChildState → Dict Name ReaddirChildState
add_fuse [] children = children
add_fuse ((child_path, entry) ∷ entries) children = add_fuse entries (elim (file_name child_path) [
  | none ↦ children
  | some name ↦
      Dict.insert name
        (record (slot name children) {
          fuse = some (record { entry_type = entry.entry_type; path = child_path });
        })
        children
])

-- The entries of a directory, none where it cannot be read.
abbrev listed : Result Error (List (Name × FileType)) → List (Name × FileType)
listed (ok ents) = ents
listed (err e) = []

-- `client.get_object_path(id).ok()`
unfoldable pub object_path_of_id : Option ℕ → Try (Option FilePath)
object_path_of_id none = pure none
object_path_of_id (some id) = attempt (Client.get_object_path id) >>= λ r. pure (to_option r)

-- Of the entry's object
unfoldable pub object_path_of : Option FuseEntry → Try (Option FilePath)
object_path_of none = pure none
object_path_of (some e) = object_path_of_id e.object_id

module _ (policy : Policy) where
  unfoldable pub load_stat_state : FilePath → Try StatState
  load_stat_state path = do
    real ← attempt (call (HostCall.symlink_metadata path))
    entry ← Client.get_entry path
    pure (record {
      access_mode = policy.classify path;
      real_exists = is_ok real;
      fuse_entry = entry;
    })

  unfoldable pub load_readdir_state : FilePath → Try ReaddirState
  load_readdir_state path = do
    ents ← attempt (call (HostCall.read_dir path))
    entries ← Client.read_dir_all path
    pure (record {
      access_mode = policy.classify path;
      children = add_fuse entries (add_real path (listed ents) []);
    })

  unfoldable pub load_open_state : FilePath → Bool → Bool → Try OpenState
  load_open_state path need_write truncate_requested = do
    entry ← Client.get_entry path
    object ← object_path_of entry
    real ← attempt (call (HostCall.metadata path))
    pure (record {
      access_mode = policy.classify path;
      path = path;
      need_write = need_write;
      truncate_requested = truncate_requested;
      real_exists = is_ok real;
      fuse_entry = entry;
      object_path = object;
    })

  unfoldable pub load_create_state : FilePath → CreateState
  load_create_state path = record { access_mode = policy.classify path; path = path }

  unfoldable pub load_unlink_state : FilePath → Try UnlinkState
  load_unlink_state path = do
    ignore (call (HostCall.symlink_metadata path))
    pure (record { access_mode = policy.classify path; path = path })

  unfoldable pub load_rmdir_state : FilePath → Try RmdirState
  load_rmdir_state path = do
    ignore (call (HostCall.symlink_metadata path))
    pure (record { access_mode = policy.classify path; path = path })

  unfoldable pub load_setattr_state :
      FilePath → Bool → Bool → Option ℕ → Option ℕ → Option ℕ → Option ℕ → SetattrState
  load_setattr_state path fh_present has_open_handle mode uid gid size = record {
    access_mode = policy.classify path;
    path = path;
    fh_present = fh_present;
    has_open_handle = has_open_handle;
    mode = mode;
    uid = uid;
    gid = gid;
    size = size;
  }

  unfoldable pub load_readlink_state : FilePath → Try ReadlinkState
  load_readlink_state path = do
    entry ← Client.get_entry path
    pure (record { access_mode = policy.classify path; path = path; fuse_entry = entry })

  unfoldable pub load_mkdir_state : FilePath → MkdirState
  load_mkdir_state path = record { access_mode = policy.classify path; path = path }

  -- The answer for `to` is not used, but its error is returned.
  unfoldable pub load_rename_state : FilePath → FilePath → Try RenameState
  load_rename_state from to = do
    from_entry ← Client.get_entry from
    to_entry ← Client.get_entry to
    pure (record {
      access_mode = policy.classify from;
      from = from;
      to = to;
      from_entry = from_entry;
    })

-- `fuse_entry_is_whiteout`
unfoldable pub fuse_entry_is_whiteout : Option FuseEntry → Bool
fuse_entry_is_whiteout entry = is_whiteout_entry entry
