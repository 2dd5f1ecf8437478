-- ===== src/Fuse/Fs/Data.antt =====
-- src/fuse/fs.rs: the handlers that read and write through an open file.
use coding_agent_sandbox.Common.{ℕ, zero, suc, ◌-◌, ◌%◌, ◌^◌, ltb, if◌then◌else◌}
use coding_agent_sandbox.Files.{Bytes}
use coding_agent_sandbox.Host.{HostCall, ℤ, pos, negsuc, SeekFrom}
use coding_agent_sandbox.Prog.{call}
use coding_agent_sandbox.Fuse.OpenFile.{
  file_of, einval, read_at, copy_from, write_at, flush_to_daemon,
}
use coding_agent_sandbox.Fuse.Handler.{Handler, ◌>>=◌, ◌>>◌, reply, fail, lift, or_errno}
use coding_agent_sandbox.Fuse.Fs.{Reply, get_path, get_file, connect}

unfoldable pub read : ℕ → ℕ → ℕ → ℕ → Handler ℕ Reply
read ino fh offset size = do
  connect
  path ← get_path ino
  f ← get_file fh
  bytes ← or_errno (lift (read_at f offset size))
  reply (Reply.data_read bytes)

unfoldable pub write : ℕ → ℕ → ℕ → Bytes → Handler ℕ Reply
write ino fh offset bytes = do
  connect
  path ← get_path ino
  f ← get_file fh
  n ← or_errno (lift (write_at f offset bytes))
  reply (Reply.written (n % 2 ^ 32))

unfoldable pub copy_file_range : ℕ → ℕ → ℕ → ℕ → ℕ → ℕ → ℕ → Handler ℕ Reply
copy_file_range ino_in fh_in offset_in ino_out fh_out offset_out len = do
  path_in ← get_path ino_in
  path_out ← get_path ino_out
  connect
  f ← get_file fh_in
  bytes ← or_errno (lift (copy_from f offset_in len))
  g ← get_file fh_out
  n ← or_errno (lift (write_at g offset_out bytes))
  reply (Reply.written (n % 2 ^ 32))

unfoldable pub flush : ℕ → Handler ℕ Reply
flush fh = do connect; f ← get_file fh; or_errno (lift (flush_to_daemon f)); reply Reply.done

-- It does the same.
unfoldable pub fsync : ℕ → Handler ℕ Reply
fsync fh = do connect; f ← get_file fh; or_errno (lift (flush_to_daemon f)); reply Reply.done

-- `offset.max(0) as u64`
abbrev at_least_0 : ℤ → ℕ
at_least_0 (pos n) = n
at_least_0 (negsuc n) = 0

-- `SEEK_SET`, `SEEK_CUR` and `SEEK_END`
unfoldable pub seek_from : ℤ → ℕ → Handler ℕ SeekFrom
seek_from offset zero = reply (SeekFrom.start (at_least_0 offset))
seek_from offset (suc zero) = reply (SeekFrom.current offset)
seek_from offset (suc (suc zero)) = reply (SeekFrom.end offset)
seek_from offset _ = fail einval

-- `pos.min(i64::MAX as u64)`
abbrev at_most_max : ℕ → ℕ
at_most_max n = if ltb n (2 ^ 63 - 1) then n else 2 ^ 63 - 1

unfoldable pub lseek : ℕ → ℤ → ℕ → Handler ℕ Reply
lseek fh offset whence = do
  place ← seek_from offset whence
  f ← get_file fh
  n ← or_errno (lift (call (HostCall.seek (file_of f) place)))
  reply (Reply.offset (at_most_max n))
