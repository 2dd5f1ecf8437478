-- ===== src/Fuse/Attr.antt =====
-- src/fuse/attr.rs: the attributes that the mount reports.
use coding_agent_sandbox.Common.{
  ℕ, ◌+◌, ◌/◌, ◌%◌, ◌^◌, Bool, ◌||◌, ◌==◌, nat_eq, ltb, leb, if◌then◌else◌,
}
use coding_agent_sandbox.Proto.{FileMetadata}
use coding_agent_sandbox.Fuse.State.{FileType, directory, regular_file}
use coding_agent_sandbox.Host.{ℤ, pos, negsuc, Metadata}

-- `SystemTime`: seconds from the epoch. It holds the seconds of an `i64`.
abbrev pub SystemTime : Type 0
SystemTime = ℤ

abbrev pub unix_epoch : SystemTime
unix_epoch = pos 0

-- `checked_add(..).unwrap_or(UNIX_EPOCH)`
unfoldable pub system_time_from_unix_u64 : ℕ → SystemTime
system_time_from_unix_u64 secs = if ltb secs (2 ^ 63) then pos secs else unix_epoch

-- Of an `i64`: the sum and the difference are in range.
unfoldable pub system_time_from_unix_i64 : ℤ → SystemTime
system_time_from_unix_i64 (pos secs) = system_time_from_unix_u64 secs
system_time_from_unix_i64 (negsuc n) = negsuc n

-- `fuser::FileAttr`
pub record FileAttr : Type 0 where
  pub ino : ℕ
  pub size : ℕ
  pub blocks : ℕ
  pub atime : SystemTime
  pub mtime : SystemTime
  pub ctime : SystemTime
  pub crtime : SystemTime
  pub kind : FileType
  pub perm : ℕ
  pub nlink : ℕ
  pub uid : ℕ
  pub gid : ℕ
  pub rdev : ℕ
  pub blksize : ℕ
  pub flags : ℕ

unfoldable pub map_nobody : ℕ → ℕ
map_nobody uid = if leb 65534 uid then 0 else uid

unfoldable pub attr_from_meta : ℕ → Metadata → FileAttr
attr_from_meta ino meta = record {
  ino = ino;
  size = meta.size;
  blocks = meta.blocks;
  atime = system_time_from_unix_i64 meta.atime;
  mtime = system_time_from_unix_i64 meta.mtime;
  ctime = system_time_from_unix_i64 meta.ctime;
  crtime = system_time_from_unix_i64 meta.ctime;
  kind = meta.kind;
  perm = meta.mode % 4096;
  nlink = meta.nlink % 2 ^ 32;
  uid = map_nobody meta.uid;
  gid = map_nobody meta.gid;
  rdev = meta.rdev % 2 ^ 32;
  blksize = meta.blksize % 2 ^ 32;
  flags = 0;
}

-- `mode & S_IFDIR != 0`: bit 14
unfoldable pub has_dir_bit : ℕ → Bool
has_dir_bit mode = (mode / 16384) % 2 == 1

-- `mode & S_IFLNK != 0`: bit 13 or bit 15
unfoldable pub has_link_bits : ℕ → Bool
has_link_bits mode = (mode / 8192) % 2 == 1 || (mode / 32768) % 2 == 1

unfoldable pub kind_from_mode : ℕ → FileType
unfolding has_dir_bit has_link_bits
kind_from_mode mode =
    if has_dir_bit mode
    then directory
    else if has_link_bits mode
    then FileType.symlink
    else regular_file

-- `libc::stat` has the fields of `Metadata`, and no kind of its own.
unfoldable pub attr_from_nix_stat : ℕ → Metadata → FileAttr
unfolding kind_from_mode
attr_from_nix_stat ino meta = record {
  ino = ino;
  size = meta.size;
  blocks = meta.blocks;
  atime = system_time_from_unix_i64 meta.atime;
  mtime = system_time_from_unix_i64 meta.mtime;
  ctime = system_time_from_unix_i64 meta.ctime;
  crtime = system_time_from_unix_i64 meta.ctime;
  kind = kind_from_mode meta.mode;
  perm = meta.mode % 4096;
  nlink = meta.nlink % 2 ^ 32;
  uid = meta.uid;
  gid = meta.gid;
  rdev = meta.rdev % 2 ^ 32;
  blksize = 4096;
  flags = 0;
}

unfoldable pub attr_from_daemon : ℕ → FileMetadata → FileType → FileAttr
attr_from_daemon ino meta kind = record {
  ino = ino;
  size = meta.size;
  blocks = (meta.size + 511) / 512;
  atime = system_time_from_unix_u64 meta.atime;
  mtime = system_time_from_unix_u64 meta.mtime;
  ctime = system_time_from_unix_u64 meta.ctime;
  crtime = system_time_from_unix_u64 meta.ctime;
  kind = kind;
  perm = meta.mode % 4096;
  nlink = 1;
  uid = meta.uid;
  gid = meta.gid;
  rdev = 0;
  blksize = 4096;
  flags = 0;
}
