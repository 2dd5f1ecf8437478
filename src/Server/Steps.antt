-- ===== src/Server/Steps.antt =====
-- `dispatch` keeps the daemon's path tree in step with its map, from the start on.
use coding_agent_sandbox.Common.{ℕ, ◌≡◌, false, arith, Option-cases, inl, inr}
use coding_agent_sandbox.Common.Dict
use coding_agent_sandbox.FilePath.{FilePath, path_eq, is_blank}
use coding_agent_sandbox.Files.{Files}
use coding_agent_sandbox.ObjectStore
use coding_agent_sandbox.ObjectStore.{ObjectStore, alloc_empty, put_copy_from}
use coding_agent_sandbox.Proto.{FileMetadata, Request}
use coding_agent_sandbox.Disk.{Codec}
use coding_agent_sandbox.Server.State.{ServerState, World, Io, file_entry}
use coding_agent_sandbox.Server.Objects.{
  ensured, allocated, reusable, ensure_file_object, ensure_file_object_from_real,
}
use coding_agent_sandbox.Server.Dispatch.{put_meta, renamed, dispatch}
use coding_agent_sandbox.Server.Indexed.{
  IsIndexed, IsPlain, IsBare, put_entry-IsIndexed, delete_file-IsIndexed, delete_whiteout-IsIndexed,
}
use coding_agent_sandbox.Server.Renames.{HasRoom, rename_file-IsIndexed, rename_tree-IsIndexed}

-- What a request must respect: paths that the table can hold, and no entry of the map below a
-- path that is deleted or renamed alone.
abbrev pub IsAdmissible : Request → ServerState → Type 0
IsAdmissible (Request.ensure_file_object path _) s = IsPlain path
IsAdmissible (Request.ensure_file_object_from_real path _) s = IsPlain path
IsAdmissible (Request.upsert_file_entry path _ _) s = IsPlain path
IsAdmissible (Request.put_dir path _) s = IsPlain path
IsAdmissible (Request.put_symlink path _ _) s = IsPlain path
IsAdmissible (Request.put_whiteout path) s = IsPlain path
IsAdmissible (Request.delete_file path) s = IsBare path s.fuse_map
IsAdmissible (Request.rename_file from to) s =
    (is_blank to ≡ false) × HasRoom from to s.path_tree × IsBare from s.fuse_map
IsAdmissible (Request.rename_tree from to) s = (is_blank to ≡ false) × HasRoom from to s.path_tree
IsAdmissible _ s = Unit

ensured-IsIndexed :
    (path : FilePath) (meta : FileMetadata) (id : ℕ) (w : World)
    → IsPlain path
    → IsIndexed w.server
    → IsIndexed (ensured path meta id w).1.server
unfolding ensured
ensured-IsIndexed path meta id w plain i =
    put_entry-IsIndexed path (file_entry id meta) w.server plain i

allocated-IsIndexed :
    (path : FilePath) (meta : FileMetadata) (s : ServerState)
    (a : ObjectStore.Result ℕ × ObjectStore × Files)
    → IsPlain path
    → IsIndexed s
    → IsIndexed (allocated path meta s a).1.server
unfolding allocated ensured
allocated-IsIndexed path meta s (ObjectStore.ok id, objects, files) plain i =
    put_entry-IsIndexed path (file_entry id meta) (record s { objects = objects }) plain
      (record { table = i.table; listed = i.listed })
allocated-IsIndexed path meta s (ObjectStore.err e, objects, files) plain i = record {
  table = i.table;
  listed = i.listed;
}

ensure_file_object-IsIndexed :
    (path : FilePath) (meta : FileMetadata) (io : Io) (w : World)
    → IsPlain path
    → IsIndexed w.server
    → IsIndexed (ensure_file_object path meta io w).1.server
unfolding ensure_file_object
ensure_file_object-IsIndexed path meta io w plain i =
    elim (Option-cases (reusable (Dict.lookup path w.server.fuse_map))) [
      | inr (id, found) ↦ rw (found, ensure_file_object) (ensured-IsIndexed path meta id w plain i)
      | inl gone ↦
          rw (gone, ensure_file_object)
            (allocated-IsIndexed path meta w.server (alloc_empty w.server.objects io.write w.files)
              plain i)
    ]

ensure_file_object_from_real-IsIndexed :
    (path : FilePath) (meta : FileMetadata) (io : Io) (w : World)
    → IsPlain path
    → IsIndexed w.server
    → IsIndexed (ensure_file_object_from_real path meta io w).1.server
unfolding ensure_file_object_from_real
ensure_file_object_from_real-IsIndexed path meta io w plain i =
    elim (Option-cases (reusable (Dict.lookup path w.server.fuse_map))) [
      | inr (id, found) ↦
          rw (found, ensure_file_object_from_real) (ensured-IsIndexed path meta id w plain i)
      | inl gone ↦
          rw (gone, ensure_file_object_from_real)
            (allocated-IsIndexed path meta w.server
              (put_copy_from w.server.objects path io.copy w.files) plain i)
    ]

put_meta-IsIndexed :
    (path : FilePath) (meta : FileMetadata) (s : ServerState)
    → IsIndexed s
    → IsIndexed (put_meta path meta (Dict.lookup path s.fuse_map) s).1
unfolding put_meta
put_meta-IsIndexed path meta s i = elim (Option-cases (Dict.lookup path s.fuse_map)) [
  | inl gone ↦ rw gone i
  | inr (e, found) ↦ rw found (record {
    table = i.table;
    listed = λ q f h. ground (
      arith,
      Dict.lookup-insert q path (record e { metadata = meta }) s.fuse_map,
      i.listed q f,
      i.listed path e,
    );
  })
]

renamed-IsIndexed :
    (from to : FilePath) (s : ServerState)
    → IsAdmissible (Request.rename_file from to) s
    → IsIndexed s
    → IsIndexed (renamed from to (Dict.lookup from s.fuse_map) s).1
unfolding renamed
renamed-IsIndexed from to s (solid, room, bare) i =
    elim (Option-cases (Dict.lookup from s.fuse_map)) [
      | inl gone ↦ rw gone i
      | inr (e, found) ↦ rw found (rename_file-IsIndexed from to s e solid room bare found i)
    ]

module _ (C : Codec) where
  -- If the path tree is the exact closure table of its paths and every path of the map is in it,
  -- the same holds after any request that respects it (IsAdmissible), whatever the kernel answers
  -- to the request's file operations.
  pub dispatch-IsIndexed :
      (r : Request) (io : Io) (w : World)
      → IsAdmissible r w.server
      → IsIndexed w.server
      → IsIndexed (dispatch C r io w).1.server
  unfolding dispatch
  dispatch-IsIndexed (Request.ensure_file_object path meta) io w a i =
      ensure_file_object-IsIndexed path meta io w a i
  dispatch-IsIndexed (Request.ensure_file_object_from_real path meta) io w a i =
      ensure_file_object_from_real-IsIndexed path meta io w a i
  dispatch-IsIndexed (Request.upsert_file_entry path id meta) io w a i =
      put_entry-IsIndexed path _ w.server a i
  dispatch-IsIndexed (Request.put_file_meta path meta) io w a i =
      put_meta-IsIndexed path meta w.server i
  dispatch-IsIndexed (Request.delete_file path) io w a i = delete_file-IsIndexed path w.server a i
  dispatch-IsIndexed (Request.rename_file from to) io w a i = renamed-IsIndexed from to w.server a i
  dispatch-IsIndexed (Request.put_dir path meta) io w a i = put_entry-IsIndexed path _ w.server a i
  dispatch-IsIndexed (Request.put_symlink path target meta) io w a i =
      put_entry-IsIndexed path _ w.server a i
  dispatch-IsIndexed (Request.put_whiteout path) io w a i = put_entry-IsIndexed path _ w.server a i
  dispatch-IsIndexed (Request.delete_whiteout path) io w a i =
      delete_whiteout-IsIndexed path w.server i
  dispatch-IsIndexed (Request.rename_tree from to) io w (solid, room) i =
      rename_tree-IsIndexed from to w.server solid room i
  dispatch-IsIndexed _ io w a i = i
