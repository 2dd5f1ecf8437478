-- ===== src/Fuse/Fs/Attributes.antt =====
-- src/fuse/fs.rs: the handlers that read and change attributes.
use coding_agent_sandbox.Common.{ℕ, ◌%◌, ◌^◌, Option, none, some}
use coding_agent_sandbox.Common.Dict.{is_some}
use coding_agent_sandbox.FilePath.{FilePath, Name}
use coding_agent_sandbox.Host.{HostCall, Statvfs}
use coding_agent_sandbox.Prog.{Error, Result, ok, err, attempt, call}
use coding_agent_sandbox.Fuse.Decision.{SetattrDecision, decide_setattr, decide_readlink}
use coding_agent_sandbox.Fuse.StateLoader.{load_setattr_state, load_readlink_state}
use coding_agent_sandbox.Fuse.OpenFile.{OpenFile}
use coding_agent_sandbox.Fuse.Executor.{eio, execute_readlink}
use coding_agent_sandbox.Fuse.Executor.Setattr.{
  Changes, update_open_handle, update_real_fs, update_daemon_meta,
}
use coding_agent_sandbox.Fuse.Handler.{Handler, ◌>>=◌, ◌>>◌, reply, fail, lift, or_errno, open_file}
use coding_agent_sandbox.Fuse.Fs.{Mount, Reply, get_path, get_child, connect, reply_stat}

-- `fh.and_then(|fh| self.open_files.get(&fh.0))`
unfoldable pub handle : Option ℕ → Handler ℕ (Option OpenFile)
handle none = reply none
handle (some fh) = open_file fh

unfoldable pub set_attributes :
    SetattrDecision → FilePath → Option OpenFile → Changes → Handler ℕ (Unit {0})
set_attributes SetattrDecision.update_open_handle path none c = reply tt
set_attributes SetattrDecision.update_open_handle path (some f) c =
    or_errno (lift (update_open_handle f c))
set_attributes SetattrDecision.update_real_fs path file c = or_errno (lift (update_real_fs path c))
set_attributes SetattrDecision.update_daemon_meta path file c =
    or_errno (lift (update_daemon_meta path c))

-- `EIO` whatever the error
unfoldable pub reply_statfs : Result Error Statvfs → Handler ℕ Reply
reply_statfs (ok stat) = reply (
    Reply.statfs (record stat {
      bsize = stat.bsize % 2 ^ 32;
      namelen = stat.namelen % 2 ^ 32;
      frsize = stat.frsize % 2 ^ 32;
    }))
reply_statfs (err e) = fail eio

unfoldable pub statfs : Handler ℕ Reply
statfs = or_errno (lift (attempt (call HostCall.statvfs))) >>= reply_statfs

unfoldable pub access : ℕ → Handler ℕ Reply
access ino = get_path ino >>= λ path. reply Reply.done

-- `raw_os_error().unwrap_or(EIO)` is what `err_to_errno` gives.
unfoldable pub fsyncdir : ℕ → Handler ℕ Reply
fsyncdir ino = do
  path ← get_path ino
  or_errno (lift (call (HostCall.sync_dir path)))
  reply Reply.done

unfoldable pub getxattr : Handler ℕ Reply
getxattr = reply (Reply.xattr_size 0)

module _ (M : Mount) where
  unfoldable pub lookup : ℕ → Name → Handler ℕ Reply
  lookup parent component = get_child parent component >>= reply_stat M Reply.entry

  unfoldable pub getattr : ℕ → Handler ℕ Reply
  getattr ino = get_path ino >>= reply_stat M Reply.attr

  unfoldable pub setattr : ℕ → Changes → Option ℕ → Handler ℕ Reply
  setattr ino c fh = do
    path ← get_path ino
    connect
    file ← handle fh
    set_attributes
        (decide_setattr
          (load_setattr_state M.policy path (is_some fh) (is_some file) c.mode c.uid c.gid c.size))
        path file c
    reply_stat M Reply.attr path

  unfoldable pub readlink : ℕ → Handler ℕ Reply
  readlink ino = do
    path ← get_path ino
    connect
    state ← or_errno (lift (load_readlink_state M.policy path))
    target ← or_errno (lift (execute_readlink (decide_readlink state) path))
    reply (Reply.data_read target)
