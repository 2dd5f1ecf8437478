-- ===== src/Fuse/Fs/Entries.antt =====
-- src/fuse/fs.rs: the handlers that add, remove and move entries of directories.
use coding_agent_sandbox.Common.{ℕ, Option, none, some, List, length}
use coding_agent_sandbox.FilePath.{FilePath, Name}
use coding_agent_sandbox.Files.{Bytes}
use coding_agent_sandbox.Prog.{Error, Result, ok, err}
use coding_agent_sandbox.Fuse.State.{FileType, directory}
use coding_agent_sandbox.Fuse.Decision.{
  RmdirDecision, decide_mkdir, decide_unlink, decide_rmdir, decide_rename,
}
use coding_agent_sandbox.Fuse.StateLoader.{
  load_mkdir_state, load_unlink_state, load_rmdir_state, load_rename_state,
}
use coding_agent_sandbox.Fuse.Walk.{recursive_real_descendants}
use coding_agent_sandbox.Fuse.Attr.{FileAttr}
use coding_agent_sandbox.Fuse.Executor.{
  execute_mkdir, execute_unlink, execute_rmdir, execute_rename, execute_symlink,
}
use coding_agent_sandbox.Fuse.Handler.{
  Handler, ◌>>=◌, ◌>>◌, reply, fail, lift, or_errno, outcome, get_or_insert,
}
use coding_agent_sandbox.Fuse.Inner.{file_meta_with_now}
use coding_agent_sandbox.Fuse.Fs.{
  Mount, Caller, Reply, get_child, connect, time_now, default_attr, stat_path, reply_stat,
}

-- `libc::S_IFLNK | 0o777`
abbrev link_mode : ℕ
link_mode = 41471

-- `EPERM`, for every hard link
unfoldable pub link : Handler ℕ Reply
link = fail 1

-- `execute_rmdir` with the walk's paths
unfoldable pub remove_found : RmdirDecision → FilePath → Option (List FilePath) → Handler ℕ Reply
remove_found decision path none = reply Reply.unfinished
remove_found decision path (some descendants) = do
  or_errno (lift (execute_rmdir decision path descendants))
  reply Reply.done

module _ (M : Mount) (caller : Caller) where
  -- `stat_path`, and an attribute of its own where that fails.
  unfoldable pub made_attr :
      FileType → ℕ → ℕ → Result Error (FileType × FileAttr) → Handler ℕ FileAttr
  made_attr kind mode ino (ok (_, attr)) = reply attr
  made_attr kind mode ino (err e) =
      time_now >>= λ now. reply (default_attr ino kind mode caller now)

  unfoldable pub mkdir : ℕ → Name → ℕ → Handler ℕ Reply
  mkdir parent name mode = do
    path ← get_child parent name
    connect
    or_errno (
        lift (
          execute_mkdir (decide_mkdir (load_mkdir_state M.policy path)) path mode caller.uid
            caller.gid))
    ino ← get_or_insert path
    found ← outcome (stat_path M path)
    attr ← made_attr directory mode ino found
    reply (Reply.entry attr)

  unfoldable pub unlink : ℕ → Name → Handler ℕ Reply
  unlink parent name = do
    path ← get_child parent name
    connect
    state ← or_errno (lift (load_unlink_state M.policy path))
    or_errno (lift (execute_unlink (decide_unlink state) path))
    reply Reply.done

  unfoldable pub rmdir : ℕ → Name → Handler ℕ Reply
  rmdir parent component = do
    path ← get_child parent component
    connect
    state ← or_errno (lift (load_rmdir_state M.policy path))
    found ← or_errno (lift (recursive_real_descendants M.fuel path))
    remove_found (decide_rmdir state) path found

  unfoldable pub rename : ℕ → Name → ℕ → Name → Handler ℕ Reply
  rename parent name newparent newname = do
    from ← get_child parent name
    to ← get_child newparent newname
    connect
    state ← or_errno (lift (load_rename_state M.policy from to))
    or_errno (lift (execute_rename (decide_rename state) from to))
    reply Reply.done

  unfoldable pub symlink : ℕ → Name → Bytes → Handler ℕ Reply
  symlink parent name target = do
    path ← get_child parent name
    connect
    meta ← or_errno (file_meta_with_now (length target) link_mode caller.uid caller.gid)
    or_errno (lift (execute_symlink (M.policy.classify path) path target meta))
    reply_stat M Reply.entry path
