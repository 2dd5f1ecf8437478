-- ===== src/Client.antt =====
-- src/syncing/client.rs: one request and its response each. The framing over the socket is in the
-- answer of a request (Prog/Run.antt). `map_err(Error::from)`, which every caller adds, is part of
-- each method here.
use coding_agent_sandbox.Common.{ℕ, Bool, true, false, Option, List, if◌then◌else◌}
use coding_agent_sandbox.FilePath.{FilePath}
use coding_agent_sandbox.Files.{Bytes}
use coding_agent_sandbox.Proto.{FileMetadata, FuseEntry, Request, Response}
use coding_agent_sandbox.Prog.{ClientError, Error, Result, ok, err, Call, done, step, Try}

abbrev pub Decoder : Type 0 → Type 0
Decoder A = Response → Result ClientError A

-- `Response::Error(msg)` and the responses that are not for the request
unfoldable pub refused : {A : Type 0} → Response → Result ClientError A
refused (Response.error msg) = err (ClientError.server msg)
refused _ = err ClientError.unexpected_response

unfoldable pub ensured : Decoder (ℕ × FilePath)
unfolding refused
ensured (Response.ensure_file_object id path) = ok (id, path)
ensured r = refused r

unfoldable pub object_path_found : Decoder FilePath
unfolding refused
object_path_found (Response.get_object_path path) = ok path
object_path_found Response.not_found = err ClientError.not_found
object_path_found r = refused r

unfoldable pub file_meta_found : Decoder (Option FileMetadata)
unfolding refused
file_meta_found (Response.get_file_meta meta) = ok meta
file_meta_found r = refused r

unfoldable pub entry_found : Decoder (Option FuseEntry)
unfolding refused
entry_found (Response.get_entry entry) = ok entry
entry_found r = refused r

unfoldable pub dir_entries_found : Decoder (List (FilePath × FuseEntry))
unfolding refused
dir_entries_found (Response.dir_entries entries) = ok entries
dir_entries_found r = refused r

unfoldable pub whiteouts_found : Decoder (List FilePath)
unfolding refused
whiteouts_found (Response.whiteout_paths paths) = ok paths
whiteouts_found r = refused r

abbrev is_upserted : Response → Bool
is_upserted Response.upsert_file_entry = true
is_upserted _ = false

abbrev is_meta_put : Response → Bool
is_meta_put Response.put_file_meta = true
is_meta_put _ = false

abbrev is_deleted : Response → Bool
is_deleted Response.delete_file = true
is_deleted _ = false

abbrev is_file_renamed : Response → Bool
is_file_renamed Response.rename_file = true
is_file_renamed _ = false

abbrev is_dir_put : Response → Bool
is_dir_put Response.put_dir = true
is_dir_put _ = false

abbrev is_symlink_put : Response → Bool
is_symlink_put Response.put_symlink = true
is_symlink_put _ = false

abbrev is_whiteout_put : Response → Bool
is_whiteout_put Response.put_whiteout = true
is_whiteout_put _ = false

abbrev is_whiteout_deleted : Response → Bool
is_whiteout_deleted Response.delete_whiteout = true
is_whiteout_deleted _ = false

abbrev is_tree_renamed : Response → Bool
is_tree_renamed Response.rename_tree = true
is_tree_renamed _ = false

abbrev is_logged : Response → Bool
is_logged Response.log_access = true
is_logged _ = false

abbrev is_flushed : Response → Bool
is_flushed Response.flush = true
is_flushed _ = false

-- The requests whose response says no more than that it is done.
unfoldable pub only : (Response → Bool) → Decoder (Unit {0})
unfolding refused
only is_done r = if is_done r then ok tt else refused r

unfoldable pub decoded : {A : Type 0} → Decoder A → Result ClientError Response → Result Error A
decoded decode (err e) = err (Error.syncing_client e)
decoded decode (ok r) = elim (decode r) [ ok a ↦ ok a | err e ↦ err (Error.syncing_client e) ]

-- `send_request(request)?` and the match on the response
unfoldable pub send : {A : Type 0} → Request → Decoder A → Try A
send request decode = step (Call.request request) (λ a. done (decoded decode a))

abbrev pub ensure_file_object : FilePath → FileMetadata → Try (ℕ × FilePath)
ensure_file_object path meta = send (Request.ensure_file_object path meta) ensured

abbrev pub ensure_file_object_from_real : FilePath → FileMetadata → Try (ℕ × FilePath)
ensure_file_object_from_real path meta =
    send (Request.ensure_file_object_from_real path meta) ensured

abbrev pub get_object_path : ℕ → Try FilePath
get_object_path id = send (Request.get_object_path id) object_path_found

abbrev pub upsert_file_entry : FilePath → ℕ → FileMetadata → Try (Unit {0})
upsert_file_entry path object_id meta =
    send (Request.upsert_file_entry path object_id meta) (only is_upserted)

abbrev pub put_file_meta : FilePath → FileMetadata → Try (Unit {0})
put_file_meta path meta = send (Request.put_file_meta path meta) (only is_meta_put)

abbrev pub get_file_meta : FilePath → Try (Option FileMetadata)
get_file_meta path = send (Request.get_file_meta path) file_meta_found

abbrev pub get_entry : FilePath → Try (Option FuseEntry)
get_entry path = send (Request.get_entry path) entry_found

abbrev pub delete_file : FilePath → Try (Unit {0})
delete_file path = send (Request.delete_file path) (only is_deleted)

abbrev pub rename_file : FilePath → FilePath → Try (Unit {0})
rename_file from to = send (Request.rename_file from to) (only is_file_renamed)

abbrev pub put_dir : FilePath → FileMetadata → Try (Unit {0})
put_dir path meta = send (Request.put_dir path meta) (only is_dir_put)

abbrev pub put_symlink : FilePath → Bytes → FileMetadata → Try (Unit {0})
put_symlink path target meta = send (Request.put_symlink path target meta) (only is_symlink_put)

abbrev pub put_whiteout : FilePath → Try (Unit {0})
put_whiteout path = send (Request.put_whiteout path) (only is_whiteout_put)

abbrev pub delete_whiteout : FilePath → Try (Unit {0})
delete_whiteout path = send (Request.delete_whiteout path) (only is_whiteout_deleted)

abbrev pub read_dir_all : FilePath → Try (List (FilePath × FuseEntry))
read_dir_all path = send (Request.read_dir_all path) dir_entries_found

abbrev pub list_whiteout_under : FilePath → Try (List FilePath)
list_whiteout_under path = send (Request.list_whiteout_under path) whiteouts_found

abbrev pub rename_tree : FilePath → FilePath → Try (Unit {0})
rename_tree from to = send (Request.rename_tree from to) (only is_tree_renamed)

abbrev pub log_access : FilePath → Bytes → ℕ → Try (Unit {0})
log_access path operation pid = send (Request.log_access path operation pid) (only is_logged)

abbrev pub flush : Try (Unit {0})
flush = send (Request.flush) (only is_flushed)
