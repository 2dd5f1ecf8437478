-- ===== src/Fuse/Executor.antt =====
-- src/fuse/executor.rs: what is done once it is decided.
pub mod Create
pub mod Removed
pub mod Setattr
pub mod Contained
pub mod Attributes
use coding_agent_sandbox.Common.{
  ℕ, ◌+◌, ◌%◌, Bool, true, false, Option, none, some, List, [], ◌∷◌, if◌then◌else◌,
}
use coding_agent_sandbox.FilePath.{FilePath}
use coding_agent_sandbox.Files.{Bytes}
use coding_agent_sandbox.Proto.{FileMetadata, FuseEntry}
use coding_agent_sandbox.Host.{HostCall, OpenOptions, File}
use coding_agent_sandbox.Prog.{
  Error, Result, ok, err, Prog, done, Try, ◌>>=◌, ◌>>◌, pure, throw, call, ignore, attempt, when,
}
use coding_agent_sandbox.Client
use coding_agent_sandbox.Fuse.Policy.{AccessMode, passthrough, fuse_only, copy_on_write}
use coding_agent_sandbox.Fuse.Decision.{
  CreateDecision, MkdirDecision, OpenDecision, OpenObject, ReadlinkDecision, RenameDecision,
  RmdirDecision, UnlinkDecision,
}
use coding_agent_sandbox.Fuse.OpenFile.{
  OpenFile, passthrough_real, passthrough_object, OpenFlags, options_of, open_with,
}

-- `ENOENT`, `EIO`
abbrev pub enoent : ℕ
enoent = 2

abbrev pub eio : ℕ
eio = 5

abbrev pub errno : {A : Type 0} → ℕ → Try A
errno n = throw (Error.io (some n))

pub record OpenExecResult : Type 0 where
  pub file : File
  pub object_id : Option ℕ

-- The number and the path of the object that is opened.
unfoldable pub object_for : OpenObject → FilePath → FileMetadata → Try (ℕ × FilePath)
object_for o path meta =
    if o.needs_ensure
    then if o.copy_up_from_real
      then Client.ensure_file_object_from_real path meta
      else Client.ensure_file_object path meta
    else elim o.existing_object_id [
      | none ↦ errno eio
      | some oid ↦ do op ← Client.get_object_path oid; pure (oid, op)
    ]

unfoldable pub execute_open :
    OpenDecision → FilePath → OpenFlags → FileMetadata → Try OpenExecResult
execute_open OpenDecision.not_found path flags meta = errno enoent
execute_open OpenDecision.error path flags meta = errno eio
execute_open OpenDecision.open_real path flags meta = do
  file ← open_with (options_of flags) path
  pure (record { file = file; object_id = none })
execute_open (OpenDecision.open_object o) path flags meta = do
  (oid, object_path) ← object_for o path meta
  when o.copy_up_from_real (ignore (call (HostCall.copy path object_path)))
  when o.delete_whiteout (ignore (Client.delete_whiteout path))
  file ← open_with (options_of flags) object_path
  pure (record { file = file; object_id = some oid })

-- `create(true)`; the mode of a new file has no part in its contents.
unfoldable pub create_options : OpenFlags → OpenOptions
create_options flags = record (options_of flags) { create = true }

unfoldable pub execute_create : CreateDecision → FilePath → OpenFlags → FileMetadata → Try OpenFile
execute_create CreateDecision.create_real path flags meta = do
  file ← open_with (create_options flags) path
  pure (passthrough_real file)
execute_create CreateDecision.create_object path flags meta = do
  (oid, object_path) ← Client.ensure_file_object path meta
  ignore (Client.delete_whiteout path)
  file ← open_with (create_options flags) object_path
  pure (passthrough_object file oid)

unfoldable pub execute_unlink : UnlinkDecision → FilePath → Try (Unit {0})
execute_unlink UnlinkDecision.remove_real path = call (HostCall.remove_file path)
execute_unlink UnlinkDecision.whiteout_path path = do
  ignore (Client.delete_file path)
  Client.put_whiteout path

-- `for p in descendants { let _ = client.put_whiteout(p); }`
unfoldable pub put_whiteouts : List FilePath → Try (Unit {0})
put_whiteouts [] = pure tt
put_whiteouts (p ∷ ps) = ignore (Client.put_whiteout p) >> put_whiteouts ps

unfoldable pub execute_rmdir : RmdirDecision → FilePath → List FilePath → Try (Unit {0})
execute_rmdir RmdirDecision.remove_real path descendants = call (HostCall.remove_dir path)
execute_rmdir RmdirDecision.whiteout_recursive path descendants = do
  ignore (Client.delete_file path)
  Client.put_whiteout path
  put_whiteouts descendants

unfoldable pub execute_rename : RenameDecision → FilePath → FilePath → Try (Unit {0})
execute_rename RenameDecision.rename_real from to = call (HostCall.rename from to)
execute_rename RenameDecision.rename_fuse_file_or_symlink from to = do
  Client.rename_file from to
  ignore (Client.delete_whiteout to)
execute_rename RenameDecision.rename_fuse_tree from to = do
  Client.rename_tree from to
  ignore (Client.delete_whiteout to)

unfoldable pub execute_symlink : AccessMode → FilePath → Bytes → FileMetadata → Try (Unit {0})
execute_symlink passthrough path target meta = call (HostCall.symlink target path)
execute_symlink fuse_only path target meta =
    Client.put_symlink path target meta >> ignore (Client.delete_whiteout path)
execute_symlink copy_on_write path target meta =
    Client.put_symlink path target meta >> ignore (Client.delete_whiteout path)

-- `entry.and_then(|e| e.symlink_target).unwrap_or_default()`
unfoldable pub link_target : Option FuseEntry → Bytes
link_target none = []
link_target (some e) = elim e.symlink_target [ none ↦ [] | some target ↦ target ]

unfoldable pub execute_readlink : ReadlinkDecision → FilePath → Try Bytes
execute_readlink ReadlinkDecision.use_fuse path = do
  entry ← Client.get_entry path
  pure (link_target entry)
execute_readlink ReadlinkDecision.use_real path = call (HostCall.read_link path)
execute_readlink ReadlinkDecision.not_found path = errno enoent

-- `now_unix()`: a clock before the epoch reads 0
unfoldable pub now_unix : Try ℕ
now_unix = attempt (call HostCall.now) >>= λ r. pure (elim r [ ok t ↦ t | err _ ↦ 0 ])

-- `libc::S_IFDIR | (mode & 0o7777)`
abbrev pub s_ifdir : ℕ
s_ifdir = 16384

unfoldable pub execute_mkdir : MkdirDecision → FilePath → ℕ → ℕ → ℕ → Try (Unit {0})
execute_mkdir MkdirDecision.create_real path mode uid gid = do
  call (HostCall.create_dir path)
  call (HostCall.set_permissions path (mode % 4096))
execute_mkdir MkdirDecision.create_daemon path mode uid gid = do
  mtime ← now_unix
  atime ← now_unix
  ctime ← now_unix
  Client.put_dir path (record {
    size = 0;
    mode = s_ifdir + mode % 4096;
    uid = uid;
    gid = gid;
    mtime = mtime;
    atime = atime;
    ctime = ctime;
  })
  ignore (Client.delete_whiteout path)
