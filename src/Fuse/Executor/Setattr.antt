-- ===== src/Fuse/Executor/Setattr.antt =====
-- The parts of src/fuse/executor.rs and of `setattr` in src/fuse/fs.rs that change attributes.
use coding_agent_sandbox.Common.{ℕ, ◌+◌, ◌*◌, ◌/◌, ◌%◌, Bool, true, false, ◌||◌, Option, none, some}
use coding_agent_sandbox.Common.Dict.{is_some}
use coding_agent_sandbox.FilePath.{FilePath}
use coding_agent_sandbox.Proto.{FileMetadata}
use coding_agent_sandbox.Host.{HostCall, Metadata}
use coding_agent_sandbox.Prog.{Try, ◌>>=◌, ◌>>◌, pure, call, ignore, when}
use coding_agent_sandbox.Client
use coding_agent_sandbox.Fuse.OpenFile.{OpenFile, file_of, open_with}
use coding_agent_sandbox.Fuse.Executor.{now_unix}

-- The attributes that a request changes.
pub record Changes : Type 0 where
  pub mode : Option ℕ
  pub uid : Option ℕ
  pub gid : Option ℕ
  pub size : Option ℕ

-- `mode.is_some() || uid.is_some() || gid.is_some()`
unfoldable pub changes_owner : Changes → Bool
changes_owner c = is_some c.mode || (is_some c.uid || is_some c.gid)

abbrev pub unless_none : Option ℕ → (ℕ → Try (Unit {0})) → Try (Unit {0})
unless_none none f = pure tt
unless_none (some n) f = f n

-- `v.unwrap_or(old)`
abbrev or_old : Option ℕ → ℕ → ℕ
or_old none old = old
or_old (some v) old = v

-- `(m.mode & !0o7777) | (v & 0o7777)`
unfoldable pub with_permissions : ℕ → Option ℕ → ℕ
with_permissions mode none = mode
with_permissions mode (some v) = mode / 4096 * 4096 + v % 4096

-- The entry's metadata after the change, at a time.
unfoldable pub changed_meta : Changes → ℕ → FileMetadata → FileMetadata
changed_meta c time m = record m {
  mode = with_permissions m.mode c.mode;
  uid = or_old c.uid m.uid;
  gid = or_old c.gid m.gid;
  size = or_old c.size m.size;
  ctime = time;
}

-- The branch `UpdateOpenHandle` of `setattr`, on the open file.
unfoldable pub update_open_handle : OpenFile → Changes → Try (Unit {0})
update_open_handle f c = do
  unless_none c.size (λ n. call (HostCall.set_len (file_of f) n))
  when (changes_owner c) (do
    perms ← call (HostCall.file_metadata (file_of f))
    unless_none c.mode (λ m. ignore (call (HostCall.set_file_permissions (file_of f) (m % 4096))))
    ignore (call (HostCall.fchown (file_of f) c.uid c.gid)))

-- The branch `UpdateRealFs` of `setattr`.
unfoldable pub update_real_fs : FilePath → Changes → Try (Unit {0})
update_real_fs path c = do
  unless_none c.size (λ n. (do
    f ← open_with (record { read = false; write = true; append = false; create = false }) path
    call (HostCall.set_len f n)))
  when (changes_owner c) (do
    unless_none c.mode (λ m. ignore (call (HostCall.set_permissions path (m % 4096))))
    ignore (call (HostCall.chown path c.uid c.gid)))

unfoldable pub put_changed : FilePath → Changes → Option FileMetadata → Try (Unit {0})
put_changed path c none = pure tt
put_changed path c (some m) = do time ← now_unix; Client.put_file_meta path (changed_meta c time m)

-- `execute_setattr_meta_update`
unfoldable pub execute_setattr_meta_update : FilePath → Changes → Try (Unit {0})
execute_setattr_meta_update path c = do meta ← Client.get_file_meta path; put_changed path c meta

-- The branch `UpdateDaemonMeta` of `setattr`: the errors are dropped.
unfoldable pub update_daemon_meta : FilePath → Changes → Try (Unit {0})
update_daemon_meta path c = ignore (execute_setattr_meta_update path c)

-- The metadata of the open file, with the time read for each stamp.
unfoldable pub metadata_now : Metadata → Try FileMetadata
metadata_now meta = do
  mtime ← now_unix
  atime ← now_unix
  ctime ← now_unix
  pure (record {
    size = meta.size;
    mode = meta.mode;
    uid = meta.uid;
    gid = meta.gid;
    mtime = mtime;
    atime = atime;
    ctime = ctime;
  })

-- `execute_setattr_on_open_handle`
unfoldable pub execute_setattr_on_open_handle : FilePath → OpenFile → Changes → Try OpenFile
execute_setattr_on_open_handle path f c = do
  unless_none c.size (λ n. call (HostCall.set_len (file_of f) n))
  when (changes_owner c) (do
    perms ← call (HostCall.file_metadata (file_of f))
    unless_none c.mode (λ m. call (HostCall.set_file_permissions (file_of f) (m % 4096)))
    ignore (call (HostCall.fchown (file_of f) c.uid c.gid)))
  ignore (do
    meta ← call (HostCall.file_metadata (file_of f))
    fmeta ← metadata_now meta
    Client.put_file_meta path fmeta)
  pure f
