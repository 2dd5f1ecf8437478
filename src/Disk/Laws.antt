-- ===== src/Disk/Laws.antt =====
-- `flush` and `load` of Disk.antt: what the next daemon starts from.
use coding_agent_sandbox.Common.{◌≡◌, ◌≢◌, refl, ap, Option, none, some, arith}
use coding_agent_sandbox.Common.Dict
use coding_agent_sandbox.FilePath.{FilePath, path_eq, file_name, join}
use coding_agent_sandbox.Files.{
  Bytes, Files, IoError, WriteOutcome, written, create_fails, write_fails, sync_fails, write_file,
}
use coding_agent_sandbox.PathTree.{PathTree, rows, from_rows}
use coding_agent_sandbox.Disk.{
  Codec, IsLawful, DiskError, SandboxMeta, FuseMap, ok, err, abi_mismatch, supported_abi_version,
  FlushOutcome, LoadFailure, meta_path, map_path, save, and_then, flush, load, TreeRows, load_meta,
  load_map, decode_map_file, both,
}

abbrev pub readable : LoadFailure
readable = record { meta_read = none; map_read = none }

paths_differ : (dir : FilePath) → meta_path dir ≢ map_path dir
unfolding meta_path map_path join
paths_differ dir e = ground (arith, ap file_name e)

-- A `save` that reports no error has written the encoding.
save-none :
    (p : FilePath) (o : Option Bytes) (io : WriteOutcome) (files : Files)
    → (save p o io files).0 ≡ none
    → (b : Bytes) × (o ≡ some b) × ((save p o io files).1 ≡ Dict.insert p b files)
unfolding save write_file
save-none p none io files h = ground arith
save-none p (some b) written files h = (b, refl, refl)
save-none p (some b) (create_fails e) files h = ground arith
save-none p (some b) (write_fails e n) files h = ground arith
save-none p (some b) (sync_fails e) files h = ground arith

and_then-none :
    (r : Option DiskError × Files) (next : Files → Option DiskError × Files)
    → (and_then r next).0 ≡ none
    → (r.0 ≡ none) × (and_then r next ≡ next r.1)
unfolding and_then
and_then-none (none, files) next h = (refl, refl)
and_then-none (some e, files) next h = ground arith

module _ (C : Codec) (b : Bytes) where
  load_meta_current :
      {meta : SandboxMeta}
      → C.decode_meta b ≡ some meta
      → meta.abi_version ≡ supported_abi_version
      → load_meta C (some b) none ≡ ok meta
  unfolding load_meta
  load_meta_current d v = ground (arith, d, v)

  load_meta_other :
      {meta : SandboxMeta}
      → C.decode_meta b ≡ some meta
      → meta.abi_version ≢ supported_abi_version
      → load_meta C (some b) none ≡ err (abi_mismatch meta.abi_version supported_abi_version)
  unfolding load_meta
  load_meta_other d v = ground (arith, d, v)

  load_map_current :
      {m : FuseMap} {r : TreeRows}
      → C.decode_state b ≡ some (m, r)
      → load_map C (some b) none ≡ ok (m, from_rows r)
  unfolding load_map
  load_map_current d = rw (d, decode_map_file)

load_lem :
    (C : Codec) (dir : FilePath) (failure : LoadFailure) (files : Files)
    → load C dir failure files
      ≡ both C
          (load_meta C (Dict.lookup (meta_path dir) files) failure.meta_read)
          (load_map C (Dict.lookup (map_path dir) files) failure.map_read)
unfolding load
load_lem C dir failure files = refl

-- The two files after a flush that reports no error.
record Flushed (C : Codec) (dir : FilePath) (meta : SandboxMeta) (m : FuseMap) (tree : PathTree)
    (files : Files) : Type 0 where
  meta_bytes : Bytes
  map_bytes : Bytes
  encoded_meta : C.encode_meta meta ≡ some meta_bytes
  encoded_state : C.encode_state m (rows tree) ≡ some map_bytes
  meta_stored : Dict.lookup (meta_path dir) files ≡ some meta_bytes
  map_stored : Dict.lookup (map_path dir) files ≡ some map_bytes

module _ (C : Codec) (dir : FilePath) (meta : SandboxMeta) (m : FuseMap) (tree : PathTree) where
  flush_lem :
      (outcome : FlushOutcome) (files : Files)
      → flush C dir meta m tree outcome files
        ≡ and_then
            (save (meta_path dir) (C.encode_meta meta) outcome.meta_write files)
            (save (map_path dir) (C.encode_state m (rows tree)) outcome.map_write)
  unfolding flush
  flush_lem outcome files = refl

  flush-Flushed :
      (outcome : FlushOutcome) (files : Files)
      → (flush C dir meta m tree outcome files).0 ≡ none
      → Flushed C dir meta m tree (flush C dir meta m tree outcome files).1
  flush-Flushed outcome files h =
      let second = save (map_path dir) (C.encode_state m (rows tree)) outcome.map_write in
      let first = save (meta_path dir) (C.encode_meta meta) outcome.meta_write files in
      let (p, q) = and_then-none first second (rw flush_lem at h) in
      let (b, e, f) = save-none (meta_path dir) (C.encode_meta meta) outcome.meta_write files p in
      let (c, e', f') =
        save-none (map_path dir) (C.encode_state m (rows tree)) outcome.map_write first.1
          (cc (flush_lem outcome files)) in
      record {
        meta_bytes = b;
        map_bytes = c;
        encoded_meta = e;
        encoded_state = e';
        meta_stored = ground (
          arith,
          flush_lem outcome files,
          Dict.lookup-insert (meta_path dir) (map_path dir) c first.1,
          Dict.lookup-insert (meta_path dir) (meta_path dir) b files,
          paths_differ dir,
        );
        map_stored = ground (
          arith,
          flush_lem outcome files,
          Dict.lookup-insert (map_path dir) (map_path dir) c first.1,
        );
      }

  -- If the encoding decodes what it encoded, and a flush of state with the supported version
  -- reports no error, a load without read errors gives the flushed metadata and map, and the tree
  -- that the flushed rows rebuild.
  pub load-flush :
      (outcome : FlushOutcome) (files : Files)
      → IsLawful C
      → meta.abi_version ≡ supported_abi_version
      → (flush C dir meta m tree outcome files).0 ≡ none
      → load C dir readable (flush C dir meta m tree outcome files).1
        ≡ ok (meta, m, from_rows (rows tree))
  load-flush outcome files law v h =
      let f = flush-Flushed outcome files h in
      loaded f.meta_bytes f.map_bytes (law.meta_back meta f.meta_bytes f.encoded_meta)
        (law.state_back m (rows tree) f.map_bytes f.encoded_state) f.meta_stored f.map_stored
    where
      loaded :
          (b c : Bytes)
          → C.decode_meta b ≡ some meta
          → C.decode_state c ≡ some (m, rows tree)
          → Dict.lookup (meta_path dir) (flush C dir meta m tree outcome files).1 ≡ some b
          → Dict.lookup (map_path dir) (flush C dir meta m tree outcome files).1 ≡ some c
          → load C dir readable (flush C dir meta m tree outcome files).1
            ≡ ok (meta, m, from_rows (rows tree))
      loaded b c p q x y =
          rw (load_lem, x, y, load_meta_current C b p v, load_map_current C c q)
            (unfold both in refl)

-- A readable metadata file of another version is refused with both versions, whatever the map file
-- holds.
pub load-abi_mismatch :
    (C : Codec) (dir : FilePath) (files : Files) (map_read : Option IoError) {bytes : Bytes}
    {meta : SandboxMeta}
    → Dict.lookup (meta_path dir) files ≡ some bytes
    → C.decode_meta bytes ≡ some meta
    → meta.abi_version ≢ supported_abi_version
    → load C dir (record { meta_read = none; map_read = map_read }) files
      ≡ err (abi_mismatch meta.abi_version supported_abi_version)
load-abi_mismatch C dir files map_read {bytes} h d ne =
    rw (load_lem, h, load_meta_other C bytes d ne) (unfold both in refl)
