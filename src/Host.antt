-- ===== src/Host.antt =====
-- The host's filesystem as the filesystem process calls it (`std::fs`, `nix` and `libc`): the calls,
-- the type of what each returns, and the regular files whose contents each may change. What a call
-- returns and does within that is the kernel's, an argument of a run (Prog/Run.antt).
use coding_agent_sandbox.Common.{ℕ, Bool, false, ◌&&◌, ◌||◌, ◌==◌, Option, List, bool_eq}
use coding_agent_sandbox.FilePath.{FilePath, Name, path_eq}
use coding_agent_sandbox.FilePath.Laws.{under}
use coding_agent_sandbox.Files.{Bytes}
use coding_agent_sandbox.Fuse.State.{FileType}

-- Seconds before or after the epoch, an `i64`.
pub data ℤ : Type 0 where
  pos negsuc : ℕ → ℤ

-- `std::fs::Metadata`, the fields that the program reads.
pub record Metadata : Type 0 where
  pub kind : FileType
  pub size : ℕ
  pub blocks : ℕ
  pub mode : ℕ
  pub uid : ℕ
  pub gid : ℕ
  pub nlink : ℕ
  pub rdev : ℕ
  pub blksize : ℕ
  pub mtime : ℤ
  pub atime : ℤ
  pub ctime : ℤ

-- `std::fs::OpenOptions`, the options that the program sets; `create` holds the mode.
pub record OpenOptions : Type 0 where
  pub read : Bool
  pub write : Bool
  pub append : Bool
  pub create : Bool

-- `std::fs::File`: the path that it was opened at, and whether it was opened for writing.
pub record File : Type 0 where
  pub path : FilePath
  pub writable : Bool

-- The place of a seek.
pub data SeekFrom : Type 0 where
  start : ℕ → SeekFrom
  current end : ℤ → SeekFrom

-- The arguments of a record lock.
pub record Flock : Type 0 where
  pub l_type : ℕ
  pub l_start : ℕ
  pub l_len : ℕ
  pub l_pid : ℕ

pub data HostCall : Type 0 where
  symlink_metadata metadata read_dir read_link : FilePath → HostCall
  open_file : FilePath → OpenOptions → HostCall
  copy rename : FilePath → FilePath → HostCall
  symlink : Bytes → FilePath → HostCall
  remove_file remove_dir create_dir sync_dir : FilePath → HostCall
  set_permissions : FilePath → ℕ → HostCall
  chown : FilePath → Option ℕ → Option ℕ → HostCall
  set_len : File → ℕ → HostCall
  file_metadata sync_data open_backing : File → HostCall
  set_file_permissions : File → ℕ → HostCall
  fchown : File → Option ℕ → Option ℕ → HostCall
  -- one `seek` to an offset and one `read` of a number of bytes
  read_at : File → ℕ → ℕ → HostCall
  -- one `seek` to an offset and `write_all`
  write_all_at : File → ℕ → Bytes → HostCall
  seek : File → SeekFrom → HostCall
  fallocate : File → ℕ → ℕ → ℕ → HostCall
  set_lock : File → Flock → Bool → HostCall
  get_lock : File → Flock → HostCall
  -- `connect` is a connection to the daemon's socket.
  statvfs last_errno now connect : HostCall

pub record Statvfs : Type 0 where
  pub blocks : ℕ
  pub bfree : ℕ
  pub bavail : ℕ
  pub files : ℕ
  pub ffree : ℕ
  pub bsize : ℕ
  pub namelen : ℕ
  pub frsize : ℕ

-- What a call returns where it succeeds.
abbrev pub Value : HostCall → Type 0
Value (HostCall.symlink_metadata _) = Metadata
Value (HostCall.metadata _) = Metadata
Value (HostCall.read_dir _) = List (Name × FileType)
Value (HostCall.read_link _) = Bytes
Value (HostCall.file_metadata _) = Metadata
Value (HostCall.read_at _ _ _) = Bytes
Value (HostCall.seek _ _) = ℕ
Value (HostCall.get_lock _ _) = Flock
Value HostCall.statvfs = Statvfs
Value HostCall.last_errno = ℕ
Value HostCall.now = ℕ
Value _ = Unit {0}

-- A file descriptor changes its file only if it was opened for writing.
unfoldable pub writes : File → FilePath → Bool
writes f q = f.writable && q == f.path

-- The regular files whose contents the call may change.
unfoldable pub touches : HostCall → FilePath → Bool
touches (HostCall.open_file p o) q = o.create && q == p
touches (HostCall.copy _ to) q = q == to
touches (HostCall.rename from to) q = under from q || under to q
touches (HostCall.symlink _ p) q = q == p
touches (HostCall.remove_file p) q = q == p
touches (HostCall.set_len f _) q = writes f q
touches (HostCall.write_all_at f _ _) q = writes f q
touches (HostCall.fallocate f _ _ _) q = writes f q
touches _ q = false
