-- ===== src/Fuse/Fs/Serve.antt =====
-- src/fuse/fs.rs: the requests of the kernel, and the handler that each is given to.
pub mod Isolated
use coding_agent_sandbox.Common.{ℕ, Bool, Option, List, [], ◌∷◌}
use coding_agent_sandbox.FilePath.{FilePath, Name}
use coding_agent_sandbox.Files.{Bytes}
use coding_agent_sandbox.Host.{ℤ}
use coding_agent_sandbox.Prog.{Prog, Result, done, bind}
use coding_agent_sandbox.Fuse.OpenFile.{OpenFlags}
use coding_agent_sandbox.Fuse.Executor.Setattr.{Changes}
use coding_agent_sandbox.Fuse.Handler.{Handler, Inner}
use coding_agent_sandbox.Fuse.Fs.{Mount, Caller, Reply}
use coding_agent_sandbox.Fuse.Fs.Attributes
use coding_agent_sandbox.Fuse.Fs.Entries
use coding_agent_sandbox.Fuse.Fs.Opening
use coding_agent_sandbox.Fuse.Fs.Data
use coding_agent_sandbox.Fuse.Fs.Locks
use coding_agent_sandbox.Fuse.Fs.Directory

-- The methods of `Filesystem` that the mount has, with the arguments that it reads.
pub data Operation : Type 0 where
  lookup : ℕ → Name → Operation
  getattr : ℕ → Operation
  getxattr : Operation
  setattr : ℕ → Changes → Option ℕ → Operation
  readlink : ℕ → Operation
  mkdir : ℕ → Name → ℕ → Operation
  unlink rmdir : ℕ → Name → Operation
  rename : ℕ → Name → ℕ → Name → Operation
  symlink : ℕ → Name → Bytes → Operation
  link : Operation
  open_path : ℕ → OpenFlags → Operation
  create : ℕ → Name → ℕ → OpenFlags → Operation
  read : ℕ → ℕ → ℕ → ℕ → Operation
  write : ℕ → ℕ → ℕ → Bytes → Operation
  copy_file_range : ℕ → ℕ → ℕ → ℕ → ℕ → ℕ → ℕ → Operation
  flush fsync : ℕ → Operation
  release : ℕ → Bool → Operation
  lseek : ℕ → ℤ → ℕ → Operation
  opendir : ℕ → Operation
  readdir : ℕ → ℕ → Operation
  releasedir : Operation
  statfs : Operation
  access : ℕ → Operation
  ioctl : Operation
  fallocate : ℕ → ℕ → ℕ → ℕ → Operation
  fsyncdir : ℕ → Operation
  poll : Operation
  setlk : ℕ → ℕ → ℕ → ℕ → Bool → Operation
  getlk : ℕ → ℕ → ℕ → ℕ → ℕ → Operation

module _ (M : Mount) where
  unfoldable pub serve : Caller → Operation → Handler ℕ Reply
  serve caller (Operation.lookup parent name) = Attributes.lookup M parent name
  serve caller (Operation.getattr ino) = Attributes.getattr M ino
  serve caller Operation.getxattr = Attributes.getxattr
  serve caller (Operation.setattr ino c fh) = Attributes.setattr M ino c fh
  serve caller (Operation.readlink ino) = Attributes.readlink M ino
  serve caller (Operation.mkdir parent name mode) = Entries.mkdir M caller parent name mode
  serve caller (Operation.unlink parent name) = Entries.unlink M caller parent name
  serve caller (Operation.rmdir parent name) = Entries.rmdir M caller parent name
  serve caller (Operation.rename parent name newparent newname) =
      Entries.rename M caller parent name newparent newname
  serve caller (Operation.symlink parent name target) = Entries.symlink M caller parent name target
  serve caller Operation.link = Entries.link
  serve caller (Operation.open_path ino flags) = Opening.open_path M caller ino flags
  serve caller (Operation.create parent name mode flags) =
      Opening.create M caller parent name mode flags
  serve caller (Operation.read ino fh offset size) = Data.read ino fh offset size
  serve caller (Operation.write ino fh offset bytes) = Data.write ino fh offset bytes
  serve caller (Operation.copy_file_range i fh offset j gh to len) =
      Data.copy_file_range i fh offset j gh to len
  serve caller (Operation.flush fh) = Data.flush fh
  serve caller (Operation.fsync fh) = Data.fsync fh
  serve caller (Operation.release fh flushed) = Opening.release fh flushed
  serve caller (Operation.lseek fh offset whence) = Data.lseek fh offset whence
  serve caller (Operation.opendir ino) = Directory.opendir ino
  serve caller (Operation.readdir ino offset) = Directory.readdir M ino offset
  serve caller Operation.releasedir = Directory.releasedir
  serve caller Operation.statfs = Attributes.statfs
  serve caller (Operation.access ino) = Attributes.access ino
  serve caller Operation.ioctl = Locks.ioctl
  serve caller (Operation.fallocate fh offset len mode) = Locks.fallocate fh offset len mode
  serve caller (Operation.fsyncdir ino) = Attributes.fsyncdir ino
  serve caller Operation.poll = Locks.poll
  serve caller (Operation.setlk fh start end type sleep) = Locks.setlk fh start end type sleep
  serve caller (Operation.getlk fh start end type pid) = Locks.getlk fh start end type pid

  -- One request after another, with all that was replied, the last request first.
  unfoldable pub serve_all :
      List (Caller × Operation)
      → List (Result ℕ Reply)
      → Inner
      → Prog (List (Result ℕ Reply) × Inner)
  serve_all [] replies s = done (replies, s)
  serve_all ((caller, op) ∷ ops) replies s =
      bind (serve caller op s) (λ (r, s'). serve_all ops (r ∷ replies) s')
