-- ===== src/Sys.antt =====
-- The process set-up as calls of the system (`nix`, `libc`, `std::fs`, `libseccomp`, `caps`), and a
-- process as a tree of them with one branch for every answer.
pub mod Always
use coding_agent_sandbox.Common.{
  ℕ, ◌+◌, Bool, true, false, Option, none, some, List, [], ◌∷◌, codes,
}
use coding_agent_sandbox.FilePath.{FilePath, Name}

pub data Result (E A : Type 0) : Type 0 where
  ok : A → Result E A
  err : E → Result E A

abbrev pub Errno : Type 0
Errno = ℕ

pub data Namespace : Type 0 where
  user mount : Namespace

pub data MountFlag : Type 0 where
  ms_bind ms_rec ms_private ms_nosuid ms_noexec ms_nodev : MountFlag

-- The arguments of `mount`; a source such as "tmpfs" is a relative path.
pub record Mount : Type 0 where
  pub source : Option FilePath
  pub target : FilePath
  pub fstype : Option Name
  pub flags : List MountFlag
  pub options : Option Name

pub data ForkResult : Type 0 where
  parent : ℕ → ForkResult
  child : ForkResult

pub data WaitStatus : Type 0 where
  exited signaled : ℕ → WaitStatus
  still_alive other : WaitStatus

pub data CapSet : Type 0 where
  effective permitted inheritable : CapSet

pub data SysCall : Type 0 where
  getuid getgid now setsid : SysCall
  -- of nanoseconds
  sleep : ℕ → SysCall
  unshare : Namespace → SysCall
  write_file : FilePath → Name → SysCall
  create_dir_all create_file chroot chdir : FilePath → SysCall
  mount : Mount → SysCall
  filter_new filter_load : SysCall
  filter_add_rule : ℕ → SysCall
  cap_drop : CapSet → Name → SysCall
  fork : SysCall
  -- `true` for `WNOHANG`
  waitpid : ℕ → Bool → SysCall
  -- the device of the file, `metadata(path)` and `dev()`
  device : FilePath → SysCall
  fuse_run : FilePath → FilePath → SysCall
  open_file : FilePath → SysCall
  -- `TIOCSCTTY`
  set_controlling_tty close : ℕ → SysCall
  dup2 : ℕ → ℕ → SysCall
  execvp : Name → List Name → SysCall
  -- `true` to create the object
  shm_open : Bool → Name → SysCall
  ftruncate mmap : ℕ → ℕ → SysCall
  munmap : ℕ → SysCall
  shm_unlink : Name → SysCall
  mutexattr_init mutexattr_setpshared mutexattr_destroy mutex_init mutex_destroy : SysCall

-- A call of `pthread` answers 0 or an error number.
-- `execvp` returns where it fails, and answers `ok` here where the process is replaced.
abbrev pub Answer : SysCall → Type 0
Answer SysCall.getuid = ℕ
Answer SysCall.getgid = ℕ
Answer SysCall.now = ℕ
Answer (SysCall.sleep _) = Unit
Answer SysCall.fork = Result Errno ForkResult
Answer (SysCall.waitpid _ _) = Result Errno WaitStatus
Answer (SysCall.device _) = Result Errno ℕ
Answer (SysCall.open_file _) = Result Errno ℕ
Answer (SysCall.shm_open _ _) = Result Errno ℕ
Answer (SysCall.mmap _ _) = Result Errno ℕ
Answer SysCall.mutexattr_init = ℕ
Answer SysCall.mutexattr_setpshared = ℕ
Answer SysCall.mutexattr_destroy = ℕ
Answer SysCall.mutex_init = ℕ
Answer SysCall.mutex_destroy = ℕ
Answer _ = Result Errno Unit

pub data Process (A : Type 0) : Type 0 where
  done : A → Process A
  invoke : (c : SysCall) → (Answer c → Process A) → Process A

unfoldable pub chain : {A B : Type 0} → Process A → (A → Process B) → Process B
chain (done a) f = f a
chain (invoke c k) f = invoke c (λ a. chain (k a) f)

abbrev pub Try : Type 0 → Type 0 → Type 0
Try E A = Process (Result E A)

unfoldable pub or_return : {E A B : Type 0} → (A → Try E B) → Result E A → Try E B
or_return f (ok a) = f a
or_return f (err e) = done (err e)

-- `?`
infixl 5 ◌>>=◌ ◌>>◌
unfoldable pub ◌>>=◌ : {E A B : Type 0} → Try E A → (A → Try E B) → Try E B
m >>= f = chain m (or_return f)

unfoldable pub ◌>>◌ : {E B : Type 0} → Try E (Unit {0}) → Try E B → Try E B
m >> k = m >>= λ _. k

abbrev pub pure : {E A : Type 0} → A → Try E A
pure a = done (ok a)

-- `map_err(f)`
abbrev pub map_err : {D E A : Type 0} → (D → E) → Result D A → Result E A
map_err f (ok a) = ok a
map_err f (err e) = err (f e)

abbrev pub call : {E : Type 0} → (c : SysCall) → (Answer c → Result E (Unit {0})) → Try E (Unit {0})
call c f = invoke c (λ a. done (f a))

-- What the kernel answers to a call after the calls of a history, the last one first.
abbrev pub Kernel : Type 0
Kernel = (history : List SysCall) → (c : SysCall) → Answer c

unfoldable pub run : {A : Type 0} → Kernel → List SysCall → Process A → A
run k history (done a) = a
run k history (invoke c f) = run k (c ∷ history) (f (k history c))
