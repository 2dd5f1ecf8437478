-- ===== src/Fuse/Inner.antt =====
-- src/fuse/inner.rs: helpers of the mount, and the attributes of a path.
use coding_agent_sandbox.Common.{
  ℕ, ◌/◌, ◌%◌, Bool, true, false, Option, none, some, List, [], ◌∷◌, ◌==◌, nat_eq, option_eq,
  if◌then◌else◌,
}
use coding_agent_sandbox.FilePath.{FilePath, Name, join, pop}
use coding_agent_sandbox.Proto.{FileMetadata, FuseEntry, file, dir, symlink, whiteout}
use coding_agent_sandbox.Host.{HostCall, ℤ, pos, negsuc}
use coding_agent_sandbox.Prog.{
  ClientError, Error, Result, ok, err, Prog, done, step, Try, bind, call, Call,
}
use coding_agent_sandbox.Client
use coding_agent_sandbox.Fuse.Policy.{AccessMode, passthrough, fuse_only, copy_on_write}
use coding_agent_sandbox.Fuse.State.{FileType, directory, regular_file}
use coding_agent_sandbox.Fuse.Attr.{FileAttr, attr_from_meta, attr_from_daemon}
use coding_agent_sandbox.Fuse.Executor.{enoent, now_unix}
use coding_agent_sandbox.Fuse.Handler.{Handler, Inner, ◌>>=◌, reply, fail, lift, get_or_insert}

unfoldable pub file_meta_with_now : ℕ → ℕ → ℕ → ℕ → Handler Error FileMetadata
file_meta_with_now size mode uid gid = do
  now ← lift now_unix
  reply (record {
    size = size;
    mode = mode;
    uid = uid;
    gid = gid;
    mtime = now;
    atime = now;
    ctime = now;
  })

unfoldable pub unix_i64_to_u64_saturating : ℤ → ℕ
unix_i64_to_u64_saturating (negsuc n) = 0
unix_i64_to_u64_saturating (pos secs) = secs

-- `mode & S_IFMT`: `S_IFLNK` is 10 and `S_IFDIR` is 4 in its bits.
unfoldable pub kind_of_mode : ℕ → FileType
kind_of_mode mode =
    if (mode / 4096) % 16 == 10
    then FileType.symlink
    else if (mode / 4096) % 16 == 4
    then directory
    else regular_file

unfoldable pub kind_from_entry : FuseEntry → Option FileType
unfolding kind_of_mode
kind_from_entry e = elim e.entry_type [
  | whiteout ↦ none
  | dir ↦ some directory
  | symlink ↦ some FileType.symlink
  | file ↦ some (kind_of_mode e.metadata.mode)
]

-- `std::path::Component`; there is no prefix on Unix.
pub data Component : Type 0 where
  root_dir cur_dir parent_dir : Component
  normal : Name → Component

-- One turn of the loop: `pop` leaves `/` as it is.
unfoldable pub push_component : FilePath → Component → FilePath
push_component out root_dir = out
push_component out cur_dir = out
push_component out parent_dir = pop out
push_component out (normal name) = join out name

unfoldable pub push_components : FilePath → List Component → FilePath
push_components out [] = out
push_components out (c ∷ comps) = push_components (push_component out c) comps

unfoldable pub normalize_abs : List Component → FilePath
normalize_abs comps = push_components (record { absolute = true; names = [] }) comps

-- The answer says whether there is a connection.
abbrev pub connected : Result ℕ (Unit {0}) → Result Error (Unit {0})
connected (ok c) = ok c
connected (err e) = err (Error.syncing_client (ClientError.io e))

-- `self.daemon_pool.checkout().map_err(Error::from)`
unfoldable pub checkout : Try (Unit {0})
checkout = step (Call.host HostCall.connect) (λ a. done (connected a))

unfoldable pub connect_daemon : Handler Error (Unit {0})
connect_daemon = lift checkout

unfoldable pub stat_real_path : FilePath → Handler Error (FileType × FileAttr)
stat_real_path path = do
  meta ← lift (call (HostCall.symlink_metadata path))
  ino ← get_or_insert path
  reply (meta.kind, attr_from_meta ino meta)

unfoldable pub attr_of_kind :
    FilePath → FuseEntry → Option FileType → Handler Error (FileType × FileAttr)
attr_of_kind path entry none = fail (Error.io (some enoent))
attr_of_kind path entry (some kind) = do
  ino ← get_or_insert path
  reply (kind, attr_from_daemon ino entry.metadata kind)

unfoldable pub attr_of_entry : FilePath → Option FuseEntry → Handler Error (FileType × FileAttr)
attr_of_entry path none = fail (Error.io (some enoent))
attr_of_entry path (some entry) = attr_of_kind path entry (kind_from_entry entry)

unfoldable pub stat_fuse_path : FilePath → Handler Error (FileType × FileAttr)
stat_fuse_path path = lift (Client.get_entry path) >>= attr_of_entry path

unfoldable pub is_enoent : Error → Bool
unfolding option_eq nat_eq
is_enoent (Error.io e) = e == some enoent
is_enoent (Error.syncing_client _) = false

unfoldable pub or_real :
    FilePath
    → Result Error (FileType × FileAttr) × Inner
    → Prog (Result Error (FileType × FileAttr) × Inner)
or_real path (ok found, s) = done (ok found, s)
or_real path (err e, s) = if is_enoent e then stat_real_path path s else done (err e, s)

-- `Inner::stat_path`
unfoldable pub stat_path : FilePath → AccessMode → Handler Error (FileType × FileAttr)
stat_path path passthrough = stat_real_path path
stat_path path fuse_only = stat_fuse_path path
stat_path path copy_on_write = λ s. bind (stat_fuse_path path s) (or_real path)
