-- ===== src/Fuse/Fs.antt =====
-- src/fuse/fs.rs, the trait `Filesystem` of the mount: what its handlers share. The handlers are in
-- Fuse/Fs/Attributes.antt, Fuse/Fs/Entries.antt, Fuse/Fs/Opening.antt, Fuse/Fs/Data.antt,
-- Fuse/Fs/Locks.antt and Fuse/Fs/Directory.antt.
pub mod Attributes
pub mod Entries
pub mod Opening
pub mod Data
pub mod Locks
pub mod Directory
pub mod Contained
pub mod Serve
use coding_agent_sandbox.Common.{
  ℕ, ◌%◌, Bool, true, false, ◌||◌, Option, none, some, List, [], ◌∷◌, ◌==◌, nat_eq, list_eq,
  if◌then◌else◌,
}
use coding_agent_sandbox.FilePath.{FilePath, Name, join, pop, file_name}
use coding_agent_sandbox.Files.{Bytes}
use coding_agent_sandbox.Proto.{FileMetadata}
use coding_agent_sandbox.Host.{HostCall, Statvfs, Flock, pos}
use coding_agent_sandbox.Prog.{Error, Result, ok, err, attempt, call}
use coding_agent_sandbox.Client
use coding_agent_sandbox.Fuse.Policy.{Policy}
use coding_agent_sandbox.Fuse.State.{FileType}
use coding_agent_sandbox.Fuse.Decision.{StatDecision, decide_stat}
use coding_agent_sandbox.Fuse.StateLoader.{load_stat_state}
use coding_agent_sandbox.Fuse.Attr.{SystemTime, FileAttr, unix_epoch}
use coding_agent_sandbox.Fuse.OpenFile.{OpenFile}
use coding_agent_sandbox.Fuse.Executor.{enoent}
use coding_agent_sandbox.Fuse.Handler.{
  Handler, ◌>>=◌, ◌>>◌, reply, fail, lift, or_errno, outcome, path_of, open_file,
}
use coding_agent_sandbox.Fuse.Inner.{connect_daemon, stat_real_path, stat_fuse_path}

-- A row of a listing: its inode, the offset after it, its kind and its name.
pub record DirRow : Type 0 where
  pub ino : ℕ
  pub offset : ℕ
  pub kind : FileType
  pub name : Name

-- `CasFuseFs` without its state: the policy, `OsStr::to_str` as a test, whether a row fits in the
-- buffer of a listing after others, and the fuel of the walk of `rmdir`.
pub record Mount : Type 0 where
  pub policy : Policy
  pub is_utf8 : Name → Bool
  pub fits : List DirRow → DirRow → Bool
  pub fuel : ℕ

-- `fuser::Request`
pub record Caller : Type 0 where
  pub uid : ℕ
  pub gid : ℕ
  pub pid : ℕ

-- What a handler replies where it does not reply an error. `unfinished` stands for a walk that did
-- not end within its fuel.
pub data Reply : Type 0 where
  entry attr : FileAttr → Reply
  data_read : Bytes → Reply
  done unfinished : Reply
  -- the handle, whether the kernel passes reads and writes through, and whether it caches
  opened : ℕ → Bool → Bool → Reply
  created : FileAttr → ℕ → Bool → Bool → Reply
  written offset xattr_size : ℕ → Reply
  rows : List DirRow → Reply
  statfs : Statvfs → Reply
  lock : Flock → Reply
  poll_in_out : Reply

-- `ENOENT` where the inode has no path.
abbrev pub or_enoent : {A : Type 0} → Option A → Handler ℕ A
or_enoent none = fail enoent
or_enoent (some a) = reply a

-- `EBADF`
abbrev pub ebadf : ℕ
ebadf = 9

abbrev pub or_ebadf : Option OpenFile → Handler ℕ OpenFile
or_ebadf none = fail ebadf
or_ebadf (some f) = reply f

-- `get_path!` of an inode
unfoldable pub get_path : ℕ → Handler ℕ FilePath
get_path ino = path_of ino >>= or_enoent

unfoldable pub get_file : ℕ → Handler ℕ OpenFile
get_file fh = open_file fh >>= or_ebadf

abbrev dot : Name
dot = 46 ∷ []

unfoldable pub check_export_component : Name → Bool
unfolding list_eq nat_eq
check_export_component component = component == dot || component == (46 ∷ dot)

-- `get_path!` of a name in a directory: `pop` of the root is the root.
unfoldable pub child_of : Name → FilePath → FilePath
unfolding list_eq nat_eq
child_of comp path =
    if comp == dot then path else if check_export_component comp then pop path else join path comp

unfoldable pub get_child : ℕ → Name → Handler ℕ FilePath
get_child parent comp = get_path parent >>= λ path. reply (child_of comp path)

unfoldable pub ends_with : Name → Name → Bool
unfolding list_eq nat_eq
ends_with suffix [] = suffix == []
ends_with suffix (c ∷ name) = suffix == (c ∷ name) || ends_with suffix name

-- `-wal`, `-shm`
abbrev wal : Name
wal = 45 ∷ 119 ∷ 97 ∷ 108 ∷ []

abbrev shm : Name
shm = 45 ∷ 115 ∷ 104 ∷ 109 ∷ []

-- `map_err(|err| err_to_errno(&err))` of the connection
unfoldable pub connect : Handler ℕ (Unit {0})
connect = or_errno connect_daemon

unfoldable pub time_now : Handler ℕ SystemTime
time_now = or_errno (lift (attempt (call HostCall.now))) >>= λ r.
    reply (elim r [ ok t ↦ pos t | err _ ↦ unix_epoch ])

-- An attribute for a path that cannot be found again after it was made.
unfoldable pub default_attr : ℕ → FileType → ℕ → Caller → SystemTime → FileAttr
default_attr ino kind mode caller now = record {
  ino = ino;
  size = 0;
  blocks = 0;
  atime = now;
  mtime = now;
  ctime = now;
  crtime = now;
  kind = kind;
  perm = mode % 4096;
  nlink = 1;
  uid = caller.uid;
  gid = caller.gid;
  rdev = 0;
  blksize = 4096;
  flags = 0;
}

unfoldable pub stat_decided : StatDecision → FilePath → Handler Error (FileType × FileAttr)
stat_decided StatDecision.use_real path = stat_real_path path
stat_decided StatDecision.use_fuse path = stat_fuse_path path
stat_decided StatDecision.not_found path = fail (Error.io (some enoent))

module _ (M : Mount) where
  unfoldable pub is_sqlite_wal_file : FilePath → Bool
  is_sqlite_wal_file path = elim (file_name path) [
    | none ↦ false
    | some n ↦ if M.is_utf8 n then ends_with wal n else false
  ]

  unfoldable pub is_sqlite_sidecar_file : FilePath → Bool
  is_sqlite_sidecar_file path = elim (file_name path) [
    | none ↦ false
    | some n ↦ if M.is_utf8 n then ends_with wal n || ends_with shm n else false
  ]

  -- `req_start`: the log of the access, whose errors are dropped.
  unfoldable pub req_start : Caller → Bytes → FilePath → Handler ℕ (Unit {0})
  req_start caller op path =
      if M.policy.should_log path
      then (outcome (connect_daemon >> lift (Client.log_access path op caller.pid)) >>= λ r.
          reply tt)
      else reply tt

  -- `CasFuseFs::stat_path`
  unfoldable pub stat_path : FilePath → Handler Error (FileType × FileAttr)
  stat_path path = do
    connect_daemon
    state ← lift (load_stat_state M.policy path)
    stat_decided (decide_stat state) path

  -- `match self.stat_path(&path)`
  unfoldable pub reply_stat : (FileAttr → Reply) → FilePath → Handler ℕ Reply
  reply_stat make path = or_errno (stat_path path) >>= λ (kind, a). reply (make a)
