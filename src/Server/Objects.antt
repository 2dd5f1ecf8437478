-- ===== src/Server/Objects.antt =====
-- `EnsureFileObject` and `EnsureFileObjectFromReal` of src/syncing/server.rs.
use coding_agent_sandbox.Common.{ℕ, ◌&&◌, not, Option, none, some, ◌==◌, if◌then◌else◌}
use coding_agent_sandbox.Common.Dict
use coding_agent_sandbox.Common.Dict.{Dict, is_some}
use coding_agent_sandbox.FilePath.{FilePath, path_eq}
use coding_agent_sandbox.Files.{Files}
use coding_agent_sandbox.ObjectStore
use coding_agent_sandbox.ObjectStore.{
  ObjectStore, ObjectError, CopyOutcome, object_path, put_copy_from, alloc_empty, exists_object,
}
use coding_agent_sandbox.Proto.{FileMetadata, FuseEntry, entry_type_eq, file, Response, Message}
use coding_agent_sandbox.Server.State.{ServerState, World, Io, put_entry, file_entry}

-- The object that `EnsureFileObject` keeps: that of a file entry with no link target.
unfoldable pub reusable : Option FuseEntry → Option ℕ
reusable none = none
reusable (some e) =
    if e.entry_type == file && not (is_some e.symlink_target) then e.object_id else none

unfoldable pub object_message : ObjectError → Message
object_message (ObjectError.io e) = Message.io e
object_message (ObjectError.not_found id) = Message.object_not_found id

-- The entry and the response for an object that is there.
unfoldable pub ensured : FilePath → FileMetadata → ℕ → World → Response × World
ensured path meta id w = (
  Response.ensure_file_object id (object_path w.server.objects id),
  record w { server = put_entry path (file_entry id meta) w.server },
)

-- The same for what an allocation returned.
unfoldable pub allocated :
    FilePath
    → FileMetadata
    → ServerState
    → ObjectStore.Result ℕ × ObjectStore × Files
    → Response × World
allocated path meta s (ObjectStore.ok id, objects, files) =
    ensured path meta id (record { server = record s { objects = objects }; files = files })
allocated path meta s (ObjectStore.err e, objects, files) = (
  Response.error (object_message e),
  record { server = record s { objects = objects }; files = files },
)

unfoldable pub ensure_file_object : FilePath → FileMetadata → Io → World → Response × World
ensure_file_object path meta io w = elim (reusable (Dict.lookup path w.server.fuse_map)) [
  | some id ↦ ensured path meta id w
  | none ↦ allocated path meta w.server (alloc_empty w.server.objects io.write w.files)
]

unfoldable pub ensure_file_object_from_real :
    FilePath → FileMetadata → Io → World → Response × World
ensure_file_object_from_real path meta io w = elim (reusable (Dict.lookup path w.server.fuse_map)) [
  | some id ↦ ensured path meta id w
  | none ↦ allocated path meta w.server (put_copy_from w.server.objects path io.copy w.files)
]
