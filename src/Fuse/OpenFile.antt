-- ===== src/Fuse/OpenFile.antt =====
-- src/fuse/open_file.rs: an open file of the mount, a real one or an object.
use coding_agent_sandbox.Common.{ℕ, Bool, true, false, ◌||◌, ◌&&◌, not, some, if◌then◌else◌, length}
use coding_agent_sandbox.FilePath.{FilePath}
use coding_agent_sandbox.Files.{Bytes}
use coding_agent_sandbox.Host.{HostCall, OpenOptions, File}
use coding_agent_sandbox.Prog.{Error, Try, ◌>>=◌, pure, throw, call, ignore}

pub data OpenFile : Type 0 where
  passthrough_real : File → OpenFile
  passthrough_object : File → ℕ → OpenFile

-- `as_ref` and `as_mut`
abbrev pub file_of : OpenFile → File
file_of (passthrough_real file) = file
file_of (passthrough_object file _) = file

-- `fuser::OpenFlags`, the bits that the program reads.
pub data OpenAccMode : Type 0 where
  rdonly wronly rdwr : OpenAccMode

pub record OpenFlags : Type 0 where
  pub acc_mode : OpenAccMode
  pub append : Bool
  pub truncate : Bool

abbrev pub need_write : OpenAccMode → Bool
need_write OpenAccMode.rdonly = false
need_write _ = true

-- The options that `execute_open` and `execute_create` set from the flags.
unfoldable pub options_of : OpenFlags → OpenOptions
options_of flags = record {
  read = true;
  write = need_write flags.acc_mode;
  append = flags.append;
  create = false;
}

-- `EINVAL`
abbrev pub einval : ℕ
einval = 22

abbrev pub is_writable : OpenOptions → Bool
is_writable o = o.write || o.append

-- `OpenOptions::open`: the standard library refuses to create a file that is not opened for
-- writing, before it calls the host.
unfoldable pub open_with : OpenOptions → FilePath → Try File
open_with options path =
    if options.create && not (is_writable options)
    then throw (Error.io (some einval))
    else call (HostCall.open_file path options) >>= λ _.
        pure (record { path = path; writable = is_writable options })

unfoldable pub flush_to_daemon : OpenFile → Try (Unit {0})
flush_to_daemon f = call (HostCall.sync_data (file_of f))

-- `copy_from` is the same, of a length that is not limited to 32 bits.
unfoldable pub read_at : OpenFile → ℕ → ℕ → Try Bytes
read_at f offset size = call (HostCall.read_at (file_of f) offset size)

unfoldable pub copy_from : OpenFile → ℕ → ℕ → Try Bytes
copy_from f offset len = call (HostCall.read_at (file_of f) offset len)

unfoldable pub write_all_at : File → ℕ → Bytes → Try ℕ
write_all_at file offset bytes =
    call (HostCall.write_all_at file offset bytes) >>= λ _. pure (length bytes)

unfoldable pub write_at : OpenFile → ℕ → Bytes → Try ℕ
write_at f offset bytes = write_all_at (file_of f) offset bytes

unfoldable pub set_ranged_size : OpenFile → ℕ → Try (Unit {0})
set_ranged_size f size = ignore (call (HostCall.set_len (file_of f) size))
