-- ===== src/Fuse/Handler.antt =====
-- Code of the mount that reads and changes the state of the filesystem process: src/fuse/inner.rs,
-- the state, and `err_to_errno` of src/fuse/fs.rs.
pub mod Contained
use coding_agent_sandbox.Common.{ℕ, ◌+◌, ◌%◌, ◌^◌, Bool, true, Option, none, some, [], nat_eq}
use coding_agent_sandbox.Common.Dict
use coding_agent_sandbox.Common.Dict.{Dict}
use coding_agent_sandbox.FilePath.{FilePath}
use coding_agent_sandbox.Prog.{ClientError, Error, Result, ok, err, Prog, done, bind, Try}
use coding_agent_sandbox.Fuse.Inode
use coding_agent_sandbox.Fuse.Inode.{InodeTable}
use coding_agent_sandbox.Fuse.OpenFile.{OpenFile}
use coding_agent_sandbox.Fuse.Executor.{eio}

-- `Inner`; the connections of its pool are calls of the host.
pub record Inner : Type 0 where
  pub inodes : InodeTable
  pub open_files : Dict ℕ OpenFile
  pub next_fh : ℕ
  pub mount_uid : ℕ
  pub mount_gid : ℕ

-- `Inner::new`, for the user and the group of the process
unfoldable pub new : ℕ → ℕ → Inner
new uid gid = record {
  inodes = Inode.init (record { absolute = true; names = [] });
  open_files = [];
  next_fh = 1;
  mount_uid = uid;
  mount_gid = gid;
}

-- A method that fails with an `E`.
abbrev pub Handler : Type 0 → Type 0 → Type 0
Handler E A = Inner → Prog (Result E A × Inner)

unfoldable pub continue :
    {E A B : Type 0} → (A → Handler E B) → Result E A × Inner → Prog (Result E B × Inner)
continue f (ok a, s) = f a s
continue f (err e, s) = done (err e, s)

infixl 5 ◌>>=◌ ◌>>◌
unfoldable pub ◌>>=◌ : {E A B : Type 0} → Handler E A → (A → Handler E B) → Handler E B
m >>= f = λ s. bind (m s) (continue f)

unfoldable pub ◌>>◌ : {E B : Type 0} → Handler E (Unit {0}) → Handler E B → Handler E B
m >> k = m >>= λ _. k

unfoldable pub reply : {E A : Type 0} → A → Handler E A
reply a = λ s. done (ok a, s)

unfoldable pub fail : {E A : Type 0} → E → Handler E A
fail e = λ s. done (err e, s)

-- Calls, with the result as they return it.
unfoldable pub lift : {A : Type 0} → Try A → Handler Error A
lift m = λ s. bind m (λ r. done (r, s))

unfoldable pub errno_of : Option ℕ → ℕ
errno_of none = eio
errno_of (some n) = n

unfoldable pub err_to_errno : Error → ℕ
unfolding errno_of
err_to_errno (Error.io e) = errno_of e
err_to_errno (Error.syncing_client ClientError.not_found) = 2
err_to_errno (Error.syncing_client (ClientError.io e)) = e
err_to_errno (Error.syncing_client ClientError.serialize) = eio
err_to_errno (Error.syncing_client (ClientError.server _)) = eio
err_to_errno (Error.syncing_client ClientError.unexpected_response) = eio

abbrev pub replied : {A : Type 0} → Result Error A → Result ℕ A
replied (ok a) = ok a
replied (err e) = err (err_to_errno e)

-- `map_err(|err| err_to_errno(&err))`
unfoldable pub or_errno : {A : Type 0} → Handler Error A → Handler ℕ A
or_errno m = λ s. bind (m s) (λ (r, s'). done (replied r, s'))

-- The result as a value.
unfoldable pub outcome : {A : Type 0} → Handler Error A → Handler ℕ (Result Error A)
outcome m = λ s. bind (m s) (λ (r, s'). done (ok r, s'))

unfoldable pub path_of : {E : Type 0} → ℕ → Handler E (Option FilePath)
path_of ino = λ s. done (ok (Inode.get_path s.inodes ino), s)

unfoldable pub get_or_insert : {E : Type 0} → FilePath → Handler E ℕ
get_or_insert path = λ s.
    let (ino, inodes) = Inode.get_or_insert s.inodes path in
    done (ok ino, record s { inodes = inodes })

-- `fetch_add` on an `AtomicU64`
unfoldable pub alloc_fh : {E : Type 0} → Handler E ℕ
alloc_fh = λ s. done (ok s.next_fh, record s { next_fh = (s.next_fh + 1) % 2 ^ 64 })

unfoldable pub open_file : {E : Type 0} → ℕ → Handler E (Option OpenFile)
open_file fh = λ s. done (ok (Dict.lookup fh s.open_files), s)

unfoldable pub insert_file : {E : Type 0} → ℕ → OpenFile → Handler E (Unit {0})
insert_file fh f = λ s. done (ok tt, record s { open_files = Dict.insert fh f s.open_files })

unfoldable pub remove_file : {E : Type 0} → ℕ → Handler E (Unit {0})
remove_file fh = λ s. done (ok tt, record s { open_files = Dict.erase fh s.open_files })
