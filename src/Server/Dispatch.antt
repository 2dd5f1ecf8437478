-- ===== src/Server/Dispatch.antt =====
-- `dispatch` and `build_server_state` of src/syncing/server.rs. A request is one step: those of
-- several connections are taken one after the other.
use coding_agent_sandbox.Common.{Option, none, some, if◌then◌else◌, codes}
use coding_agent_sandbox.Common.Dict
use coding_agent_sandbox.Common.Dict.{Dict, is_some}
use coding_agent_sandbox.FilePath.{FilePath, path_eq, join}
use coding_agent_sandbox.Files.{Files}
use coding_agent_sandbox.PathTree.{PathTree}
use coding_agent_sandbox.ObjectStore.{object_path, exists_object}
use coding_agent_sandbox.Disk
use coding_agent_sandbox.Disk.{Codec, DiskError, SandboxMeta, FuseMap, FlushOutcome}
use coding_agent_sandbox.Proto.{
  FileMetadata, FuseEntry, entry_type_eq, Request, Response, Message, file_not_found,
  source_not_found, log_access_not_implemented,
}
use mathlib.Core.Option
use coding_agent_sandbox.Server.State.{
  ServerState, World, Io, put_entry, file_entry, dir_entry, symlink_entry, whiteout_entry,
  snapshot_meta,
}
use coding_agent_sandbox.Server.Objects.{ensure_file_object, ensure_file_object_from_real}
use coding_agent_sandbox.Server.Entries.{
  read_dir_all, list_whiteout_under, rename_file, rename_tree, delete_file, delete_whiteout,
}

unfoldable pub disk_message : DiskError → Message
disk_message (DiskError.io e) = Message.io e
disk_message DiskError.serialize = Message.serialize
disk_message (DiskError.abi_mismatch found expected) = Message.abi_mismatch found expected

unfoldable pub put_meta :
    FilePath → FileMetadata → Option FuseEntry → ServerState → Response × ServerState
put_meta path meta none s = (Response.error file_not_found, s)
put_meta path meta (some entry) s = (
  Response.put_file_meta,
  record s { fuse_map = Dict.insert path (record entry { metadata = meta }) s.fuse_map },
)

unfoldable pub renamed :
    FilePath → FilePath → Option FuseEntry → ServerState → Response × ServerState
renamed from to none s = (Response.error source_not_found, s)
renamed from to (some entry) s = (Response.rename_file, rename_file s from to entry)

unfoldable pub flushed : Option DiskError → Response
unfolding disk_message
flushed none = Response.flush
flushed (some e) = Response.error (disk_message e)

-- A response, and the state that the request leaves; the files stay.
abbrev reply : World → Response × ServerState → Response × World
reply w (response, s) = (response, record w { server = s })

unfoldable pub objects_dir : FilePath → FilePath
objects_dir sandbox_dir =
    join (join (join sandbox_dir (codes ".sandbox")) (codes "data")) (codes "objects")

unfoldable pub server_of :
    FilePath → Disk.Result (SandboxMeta × FuseMap × PathTree) → Disk.Result ServerState
unfolding objects_dir
server_of sandbox_dir (Disk.err e) = Disk.err e
server_of sandbox_dir (Disk.ok (meta, m, tree)) = Disk.ok (record {
  objects = record { dir = objects_dir sandbox_dir; next_id = meta.next_id };
  fuse_map = m;
  path_tree = tree;
  sandbox_dir = sandbox_dir;
  shm_name = meta.shm_name;
  abi_version = meta.abi_version;
})

module _ (C : Codec) where
  unfoldable pub dispatch : Request → Io → World → Response × World
  unfolding put_meta renamed flushed
  dispatch (Request.ensure_file_object path meta) io w = ensure_file_object path meta io w
  dispatch (Request.ensure_file_object_from_real path meta) io w =
      ensure_file_object_from_real path meta io w
  dispatch (Request.get_object_path id) io w = (
    if exists_object w.server.objects id w.files
        then Response.get_object_path (object_path w.server.objects id)
        else Response.not_found,
    w,
  )
  dispatch (Request.upsert_file_entry path id meta) io w =
      reply w (Response.upsert_file_entry, put_entry path (file_entry id meta) w.server)
  dispatch (Request.put_file_meta path meta) io w =
      reply w (put_meta path meta (Dict.lookup path w.server.fuse_map) w.server)
  dispatch (Request.get_file_meta path) io w = (
    Response.get_file_meta
        (Option.map (λ (e : FuseEntry). e.metadata) (Dict.lookup path w.server.fuse_map)),
    w,
  )
  dispatch (Request.get_entry path) io w =
      (Response.get_entry (Dict.lookup path w.server.fuse_map), w)
  dispatch (Request.delete_file path) io w =
      reply w (Response.delete_file, delete_file w.server path)
  dispatch (Request.rename_file from to) io w =
      reply w (renamed from to (Dict.lookup from w.server.fuse_map) w.server)
  dispatch (Request.put_dir path meta) io w =
      reply w (Response.put_dir, put_entry path (dir_entry meta) w.server)
  dispatch (Request.put_symlink path target meta) io w =
      reply w (Response.put_symlink, put_entry path (symlink_entry target meta) w.server)
  dispatch (Request.put_whiteout path) io w =
      reply w (Response.put_whiteout, put_entry path whiteout_entry w.server)
  dispatch (Request.delete_whiteout path) io w =
      reply w (Response.delete_whiteout, delete_whiteout w.server path)
  dispatch (Request.read_dir_all path) io w = (Response.dir_entries (read_dir_all w.server path), w)
  dispatch (Request.list_whiteout_under path) io w =
      (Response.whiteout_paths (list_whiteout_under w.server path), w)
  dispatch (Request.rename_tree from to) io w =
      reply w (Response.rename_tree, rename_tree w.server from to)
  dispatch (Request.log_access path operation pid) io w =
      (Response.error log_access_not_implemented, w)
  dispatch Request.flush io w =
      let f =
        Disk.flush C w.server.sandbox_dir (snapshot_meta w.server) w.server.fuse_map
          w.server.path_tree io.flush w.files in
      (flushed f.0, record w { files = f.1 })

  -- `build_server_state`, from what `load` returns
  unfoldable pub build_server_state : FilePath → Disk.LoadFailure → Files → Disk.Result ServerState
  build_server_state sandbox_dir failure files =
      server_of sandbox_dir (Disk.load C sandbox_dir failure files)
