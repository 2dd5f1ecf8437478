-- ===== src/ObjectStore.antt =====
-- src/syncing/object.rs: numbered objects, each a file in one of 256 shard directories.
pub mod Paths
pub mod Laws
use coding_agent_sandbox.Common.{
  ℕ, zero, suc, ◌+◌, ◌/◌, ◌%◌, ◌^◌, Bool, Option, none, some, List, [], ◌∷◌, ◌++◌, ltb,
  if◌then◌else◌, take, drop,
}
use coding_agent_sandbox.Common.Dict
use coding_agent_sandbox.Common.Dict.{is_some}
use coding_agent_sandbox.FilePath.{Name, FilePath, path_eq, join}
use coding_agent_sandbox.Files.{Bytes, Files, IoError, WriteOutcome, write_file}

pub data ObjectError : Type 0 where
  io : IoError → ObjectError
  not_found : ℕ → ObjectError

pub data Result {ℓ} (A : Type ℓ) : Type ℓ where
  ok : A → Result A
  err : ObjectError → Result A

-- `next_id` is an `AtomicU64`.
pub record ObjectStore : Type 0 where
  pub dir : FilePath
  pub next_id : ℕ

pub hex_digit : ℕ → ℕ
hex_digit d = if ltb d 10 then 48 + d else 87 + d

-- `format!("{:0w$x}", n)`, for `n` below `16 ^ w`
pub hex : ℕ → ℕ → Name
unfolding hex_digit
hex zero n = []
hex (suc w) n = hex w (n / 16) ++ (hex_digit (n % 16) ∷ [])

-- `id & 0xff` is `id % 256`.
unfoldable pub object_path : ObjectStore → ℕ → FilePath
unfolding hex join
object_path s id = join (join s.dir (hex 2 (id % 256))) (hex 16 id)

-- `fetch_add(1)`: the next number, and the store after it
unfoldable pub alloc : ObjectStore → ObjectStore
alloc s = record s { next_id = (s.next_id + 1) % 2 ^ 64 }

put_result : ℕ → Option IoError → Result ℕ
put_result id none = ok id
put_result id (some e) = err (io e)

-- The number is used up also where the write fails.
unfoldable pub put : ObjectStore → Bytes → WriteOutcome → Files → Result ℕ × ObjectStore × Files
unfolding write_file alloc put_result
put s bytes outcome files =
    let w = write_file (object_path s s.next_id) bytes outcome files in
    (put_result s.next_id w.0, alloc s, w.1)

unfoldable pub alloc_empty : ObjectStore → WriteOutcome → Files → Result ℕ × ObjectStore × Files
unfolding put
alloc_empty s outcome files = put s [] outcome files

-- What becomes of `create_dir_all`, `fs::copy` and `sync_all`. After a failure the code removes
-- the copy and ignores the answer: the last argument is what is left at the path.
pub data CopyOutcome : Type 0 where
  copied : CopyOutcome
  mkdir_fails : IoError → CopyOutcome
  copy_fails : IoError → Option Bytes → CopyOutcome

leave : FilePath → Option Bytes → Files → Files
unfolding Dict.insert Dict.erase
leave path none files = Dict.erase path files
leave path (some bytes) files = Dict.insert path bytes files

-- `ENOENT`, for a source that is not there
abbrev pub enoent : IoError
enoent = 2

copy_source : ObjectStore → Option Bytes → Files → Result ℕ × ObjectStore × Files
unfolding alloc Dict.insert Dict.erase
copy_source s (some bytes) files =
    (ok s.next_id, alloc s, Dict.insert (object_path s s.next_id) bytes files)
copy_source s none files = (err (io enoent), alloc s, Dict.erase (object_path s s.next_id) files)

unfoldable pub put_copy_from :
    ObjectStore → FilePath → CopyOutcome → Files → Result ℕ × ObjectStore × Files
unfolding alloc leave copy_source Dict.lookup
put_copy_from s source copied files = copy_source s (Dict.lookup source files) files
put_copy_from s source (mkdir_fails e) files = (err (io e), alloc s, files)
put_copy_from s source (copy_fails e left) files =
    (err (io e), alloc s, leave (object_path s s.next_id) left files)

unfoldable pub exists_object : ObjectStore → ℕ → Files → Bool
unfolding Dict.lookup
exists_object s id files = is_some (Dict.lookup (object_path s id) files)

read_result : ℕ → Option IoError → Option Bytes → Result Bytes
read_result id failure none = err (not_found id)
read_result id none (some bytes) = ok bytes
read_result id (some e) (some bytes) = err (io e)

-- The last but one argument is the error of opening or reading, if there is one.
unfoldable pub get : ObjectStore → ℕ → Option IoError → Files → Result Bytes
unfolding Dict.lookup read_result
get s id failure files = read_result id failure (Dict.lookup (object_path s id) files)

clip : ℕ → ℕ → Result Bytes → Result Bytes
clip offset len (ok bytes) = ok (take len (drop offset bytes))
clip offset len (err e) = err e

-- One `read` of a regular file fills the buffer as far as the file goes.
unfoldable pub get_range : ObjectStore → ℕ → ℕ → ℕ → Option IoError → Files → Result Bytes
unfolding get clip
get_range s id offset len failure files = clip offset len (get s id failure files)
