-- ===== src/Disk.antt =====
-- src/syncing/disk.rs: what the daemon writes to `.sandbox/data` and reads at its start. The
-- encoding is the library postcard's, a parameter.
pub mod Laws
use coding_agent_sandbox.Common.{
  ℕ, ◌≡◌, Bool, true, false, Option, none, some, List, [], ◌∷◌, ◌==◌, nat_eq, if◌then◌else◌, codes,
}
use coding_agent_sandbox.Common.Dict
use coding_agent_sandbox.Common.Dict.{Dict, keys}
use coding_agent_sandbox.FilePath.{Name, FilePath, path_eq, join}
use coding_agent_sandbox.Files.{Bytes, Files, IoError, WriteOutcome, write_file}
use coding_agent_sandbox.PathTree
use coding_agent_sandbox.PathTree.{PathTree, Entry, rows, from_rows, from_paths}
use coding_agent_sandbox.Proto.{FuseEntry}

abbrev pub supported_abi_version : ℕ
supported_abi_version = 3

-- The variant `Object` is never made.
pub data DiskError : Type 0 where
  io : IoError → DiskError
  serialize : DiskError
  abi_mismatch : ℕ → ℕ → DiskError

pub data Result {ℓ} (A : Type ℓ) : Type ℓ where
  ok : A → Result A
  err : DiskError → Result A

pub record SandboxMeta : Type 0 where
  pub shm_name : Name
  pub abi_version : ℕ
  pub next_id : ℕ

abbrev pub FuseMap : Type 0
FuseMap = Dict FilePath FuseEntry

-- The rows that `PathTree` is serialized as.
abbrev pub TreeRows : Type 0
TreeRows = List (FilePath × Entry)

-- `postcard::to_allocvec` and `from_bytes` at the types of the two files: the metadata, the state
-- and the map alone, which an older version wrote.
pub record Codec : Type 0 where
  pub encode_meta : SandboxMeta → Option Bytes
  pub decode_meta : Bytes → Option SandboxMeta
  pub encode_state : FuseMap → TreeRows → Option Bytes
  pub decode_state : Bytes → Option (FuseMap × TreeRows)
  pub decode_map : Bytes → Option FuseMap

-- What postcard documents: what it encodes, it decodes to the same value.
pub record IsLawful (C : Codec) : Type 0 where
  pub meta_back :
      (m : SandboxMeta) (b : Bytes) → C.encode_meta m ≡ some b → C.decode_meta b ≡ some m
  pub state_back :
      (m : FuseMap) (r : TreeRows) (b : Bytes)
      → C.encode_state m r ≡ some b
      → C.decode_state b ≡ some (m, r)

data_dir : FilePath → FilePath
unfolding join
data_dir sandbox_dir = join (join sandbox_dir (codes ".sandbox")) (codes "data")

unfoldable pub meta_path : FilePath → FilePath
unfolding data_dir join
meta_path sandbox_dir = join (data_dir sandbox_dir) (codes "metadata.bin")

unfoldable pub map_path : FilePath → FilePath
unfolding data_dir join
map_path sandbox_dir = join (data_dir sandbox_dir) (codes "data.bin")

-- What the kernel answers to the two writes of `flush`.
pub record FlushOutcome : Type 0 where
  pub meta_write : WriteOutcome
  pub map_write : WriteOutcome

-- `to_allocvec(v)?`, then the write of one file: the error, if there is one, and the files
save : FilePath → Option Bytes → WriteOutcome → Files → Option DiskError × Files
unfolding write_file
save path none outcome files = (some serialize, files)
save path (some bytes) outcome files =
    let w = write_file path bytes outcome files in
    (elim w.0 [ none ↦ none | some e ↦ some (io e) ], w.1)

and_then : Option DiskError × Files → (Files → Option DiskError × Files) → Option DiskError × Files
and_then (none, files) next = next files
and_then (some e, files) next = (some e, files)

-- The errors of opening and reading the two files, where there are any.
pub record LoadFailure : Type 0 where
  pub meta_read : Option IoError
  pub map_read : Option IoError

module _ (C : Codec) where
  unfoldable pub flush :
      FilePath → SandboxMeta → FuseMap → PathTree → FlushOutcome → Files → Option DiskError × Files
  unfolding save and_then
  flush sandbox_dir meta fuse_map tree outcome files =
      and_then (save (meta_path sandbox_dir) (C.encode_meta meta) outcome.meta_write files)
        (save (map_path sandbox_dir) (C.encode_state fuse_map (rows tree)) outcome.map_write)

  check_abi : Option SandboxMeta → Result SandboxMeta
  check_abi none = err serialize
  check_abi (some meta) =
      if meta.abi_version == supported_abi_version
      then ok meta
      else err (abi_mismatch meta.abi_version supported_abi_version)

  load_meta : Option Bytes → Option IoError → Result SandboxMeta
  unfolding check_abi
  load_meta none failure =
      ok (record { shm_name = []; abi_version = supported_abi_version; next_id = 1 })
  load_meta (some bytes) (some e) = err (io e)
  load_meta (some bytes) none = check_abi (C.decode_meta bytes)

  -- The old format: the tree is built from the paths.
  old_map : Option FuseMap → Result (FuseMap × PathTree)
  unfolding from_paths keys
  old_map none = err serialize
  old_map (some m) = ok (m, from_paths (keys m))

  decode_map_file : Option (FuseMap × TreeRows) → Bytes → Result (FuseMap × PathTree)
  unfolding old_map from_rows
  decode_map_file (some (m, tree_rows)) bytes = ok (m, from_rows tree_rows)
  decode_map_file none bytes = old_map (C.decode_map bytes)

  load_map : Option Bytes → Option IoError → Result (FuseMap × PathTree)
  unfolding decode_map_file
  load_map none failure = ok ([], PathTree.empty)
  load_map (some bytes) (some e) = err (io e)
  load_map (some bytes) none = decode_map_file (C.decode_state bytes) bytes

  both :
      Result SandboxMeta → Result (FuseMap × PathTree) → Result (SandboxMeta × FuseMap × PathTree)
  both (err e) map = err e
  both (ok meta) (err e) = err e
  both (ok meta) (ok (m, tree)) = ok (meta, m, tree)

  unfoldable pub load : FilePath → LoadFailure → Files → Result (SandboxMeta × FuseMap × PathTree)
  unfolding load_meta load_map both Dict.lookup
  load sandbox_dir failure files =
      both (load_meta (Dict.lookup (meta_path sandbox_dir) files) failure.meta_read)
        (load_map (Dict.lookup (map_path sandbox_dir) files) failure.map_read)

  -- The directories that `init_sandbox` makes first are not in `Files`.
  unfoldable pub init_sandbox : FilePath → Name → FlushOutcome → Files → Option DiskError × Files
  unfolding flush
  init_sandbox sandbox_dir shm_name outcome files =
      flush sandbox_dir
        (record { shm_name = shm_name; abi_version = supported_abi_version; next_id = 1 }) []
        PathTree.empty outcome files
