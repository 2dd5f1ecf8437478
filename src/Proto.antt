-- ===== src/Proto.antt =====
-- src/syncing/proto.rs: the requests of the filesystem process, the daemon's responses, and the
-- entries that the daemon keeps.
use coding_agent_sandbox.Common.{ℕ, Bool, Option, List, ◌==◌, Eq, nat_eq, list_eq, option_eq}
use coding_agent_sandbox.FilePath.{FilePath, path_eq}
use coding_agent_sandbox.Files.{Bytes, IoError}

pub record FileMetadata : Type 0 where
  pub size : ℕ
  pub mode : ℕ
  pub uid : ℕ
  pub gid : ℕ
  pub mtime : ℕ
  pub atime : ℕ
  pub ctime : ℕ

pub data EntryType : Type 0 where
  file dir symlink whiteout : EntryType

entry_type_discrete : Discrete EntryType
entry_type_discrete = hlevel

instance unfoldable pub entry_type_eq : Eq EntryType
unfolding entry_type_discrete
entry_type_eq = record { dec = entry_type_discrete }

pub record FuseEntry : Type 0 where
  pub entry_type : EntryType
  pub metadata : FileMetadata
  pub object_id : Option ℕ
  pub symlink_target : Option Bytes

abbrev pub is_whiteout : FuseEntry → Bool
is_whiteout e = e.entry_type == whiteout

abbrev pub is_file : FuseEntry → Bool
is_file e = e.entry_type == file

abbrev pub is_dir : FuseEntry → Bool
is_dir e = e.entry_type == dir

abbrev pub is_symlink : FuseEntry → Bool
is_symlink e = e.entry_type == symlink

pub data Request : Type 0 where
  ensure_file_object : FilePath → FileMetadata → Request
  ensure_file_object_from_real : FilePath → FileMetadata → Request
  get_object_path : ℕ → Request
  upsert_file_entry : FilePath → ℕ → FileMetadata → Request
  put_file_meta : FilePath → FileMetadata → Request
  get_file_meta : FilePath → Request
  get_entry : FilePath → Request
  delete_file : FilePath → Request
  rename_file : FilePath → FilePath → Request
  put_dir : FilePath → FileMetadata → Request
  put_symlink : FilePath → Bytes → FileMetadata → Request
  put_whiteout : FilePath → Request
  delete_whiteout : FilePath → Request
  read_dir_all : FilePath → Request
  list_whiteout_under : FilePath → Request
  rename_tree : FilePath → FilePath → Request
  log_access : FilePath → Bytes → ℕ → Request
  flush : Request

-- What the text of `Response::Error` says.
pub data Message : Type 0 where
  io : IoError → Message
  serialize : Message
  abi_mismatch : ℕ → ℕ → Message
  object_not_found : ℕ → Message
  file_not_found : Message
  source_not_found : Message
  log_access_not_implemented : Message

-- The program sends no `Response::Ok`, and no response that is not here.
pub data Response : Type 0 where
  ensure_file_object : ℕ → FilePath → Response
  get_object_path : FilePath → Response
  upsert_file_entry : Response
  put_file_meta : Response
  get_file_meta : Option FileMetadata → Response
  get_entry : Option FuseEntry → Response
  delete_file : Response
  rename_file : Response
  put_dir : Response
  put_symlink : Response
  put_whiteout : Response
  delete_whiteout : Response
  dir_entries : List (FilePath × FuseEntry) → Response
  whiteout_paths : List FilePath → Response
  rename_tree : Response
  log_access : Response
  flush : Response
  ok : Response
  not_found : Response
  error : Message → Response
