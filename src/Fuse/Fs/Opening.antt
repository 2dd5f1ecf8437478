-- ===== src/Fuse/Fs/Opening.antt =====
-- src/fuse/fs.rs: the handlers that open, create and release files.
use coding_agent_sandbox.Common.{
  ℕ, ◌+◌, ◌%◌, Bool, true, false, Option, none, some, [], ◌∷◌, if◌then◌else◌,
}
use coding_agent_sandbox.FilePath.{FilePath, Name}
use coding_agent_sandbox.Files.{Bytes}
use coding_agent_sandbox.Host.{HostCall}
use coding_agent_sandbox.Prog.{Error, Result, ok, err, attempt, call, is_ok}
use coding_agent_sandbox.Fuse.State.{FileType, regular_file}
use coding_agent_sandbox.Fuse.Attr.{FileAttr}
use coding_agent_sandbox.Fuse.Decision.{OpenDecision, decide_create, decide_open}
use coding_agent_sandbox.Fuse.StateLoader.{load_create_state, load_open_state}
use coding_agent_sandbox.Fuse.OpenFile.{
  OpenFile, passthrough_real, passthrough_object, file_of, OpenFlags, need_write, flush_to_daemon,
}
use coding_agent_sandbox.Fuse.Executor.{OpenExecResult, enoent, eio, execute_open, execute_create}
use coding_agent_sandbox.Fuse.Handler.{
  Handler, ◌>>=◌, ◌>>◌, reply, fail, lift, or_errno, outcome, open_file, alloc_fh, insert_file,
  remove_file, get_or_insert,
}
use coding_agent_sandbox.Fuse.Inner.{file_meta_with_now}
use coding_agent_sandbox.Fuse.Fs.{
  Mount, Caller, Reply, get_path, get_child, connect, req_start, stat_path, is_sqlite_wal_file,
  time_now, default_attr, is_sqlite_sidecar_file,
}

unfoldable pub opened_file : OpenExecResult → OpenFile
opened_file r = elim r.object_id [
  | some id ↦ passthrough_object r.file id
  | none ↦ passthrough_real r.file
]

-- `libc::S_IFREG`, and with `0o644`
abbrev s_ifreg : ℕ
s_ifreg = 32768

-- `"open"`
abbrev open_word : Bytes
open_word = 111 ∷ 112 ∷ 101 ∷ 110 ∷ []

module _ (M : Mount) where
  -- Whether the kernel takes the file as a backing file, which no SQLite sidecar is offered for.
  unfoldable pub backing : FilePath → OpenFile → Handler ℕ Bool
  backing path f =
      if is_sqlite_sidecar_file M path
      then reply false
      else (or_errno (lift (attempt (call (HostCall.open_backing (file_of f))))) >>= λ r.
          reply (is_ok r))

  unfoldable pub open_handle : Caller → OpenDecision → FilePath → OpenFlags → Handler ℕ Reply
  open_handle caller decision path flags = do
    meta ← or_errno (file_meta_with_now 0 (s_ifreg + 420) caller.uid caller.gid)
    opened ← or_errno (lift (execute_open decision path flags meta))
    fh ← alloc_fh
    passed ← backing path (opened_file opened)
    insert_file fh (opened_file opened)
    reply (Reply.opened fh passed (is_sqlite_wal_file M path))

  -- The two early returns, before the time is read.
  unfoldable pub open_decided : Caller → OpenDecision → FilePath → OpenFlags → Handler ℕ Reply
  open_decided caller OpenDecision.not_found path flags = fail enoent
  open_decided caller OpenDecision.error path flags = fail eio
  open_decided caller decision path flags = open_handle caller decision path flags

  unfoldable pub open_path : Caller → ℕ → OpenFlags → Handler ℕ Reply
  open_path caller ino flags = do
    path ← get_path ino
    req_start M caller open_word path
    connect
    state ←
        or_errno (lift (load_open_state M.policy path (need_write flags.acc_mode) flags.truncate))
    open_decided caller (decide_open state) path flags

  unfoldable pub created_attr :
      Caller → FilePath → ℕ → Result Error (FileType × FileAttr) → Handler ℕ FileAttr
  created_attr caller path mode (ok (_, attr)) = reply attr
  created_attr caller path mode (err e) = do
    now ← time_now
    ino ← get_or_insert path
    reply (default_attr ino regular_file mode caller now)

  unfoldable pub create : Caller → ℕ → Name → ℕ → OpenFlags → Handler ℕ Reply
  create caller parent name mode flags = do
    path ← get_child parent name
    connect
    meta ← or_errno (file_meta_with_now 0 (s_ifreg + mode % 4096) caller.uid caller.gid)
    f ←
        or_errno
          (lift (execute_create (decide_create (load_create_state M.policy path)) path flags meta))
    fh ← alloc_fh
    passed ← backing path f
    insert_file fh f
    found ← outcome (stat_path M path)
    attr ← created_attr caller path mode found
    reply (Reply.created attr fh passed (is_sqlite_wal_file M path))

unfoldable pub flush_opened : Option OpenFile → Handler ℕ (Unit {0})
flush_opened none = reply tt
flush_opened (some f) = outcome (lift (flush_to_daemon f)) >>= λ r. reply tt

-- `if flush { .. }`
unfoldable pub flush_first : ℕ → Bool → Handler ℕ (Unit {0})
flush_first fh false = reply tt
flush_first fh true = connect >> (open_file fh >>= flush_opened)

unfoldable pub release : ℕ → Bool → Handler ℕ Reply
release fh flush = flush_first fh flush >> remove_file fh >> reply Reply.done
