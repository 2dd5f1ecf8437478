-- ===== src/Fuse/Executor/Create.antt =====
-- A file that is created read-only (src/fuse/executor.rs).
use coding_agent_sandbox.Common.{ℕ, ◌≡◌, ◌≢◌, refl, true, false, arith}
use coding_agent_sandbox.FilePath.{FilePath}
use coding_agent_sandbox.Proto.{FileMetadata}
use coding_agent_sandbox.Disk.{Codec}
use coding_agent_sandbox.Server.State.{World}
use coding_agent_sandbox.Host.{OpenOptions}
use coding_agent_sandbox.Prog.{ok}
use coding_agent_sandbox.Prog.Run.{Oracle, run}
use coding_agent_sandbox.Prog.Post.{
  Post, PostTry, PostTry->>=, PostTry-after, PostTry-then, run-PostTry,
}
use coding_agent_sandbox.Fuse.Decision.{CreateDecision}
use coding_agent_sandbox.Fuse.OpenFile.{
  OpenFile, OpenFlags, OpenAccMode, options_of, is_writable, open_with,
}
use coding_agent_sandbox.Fuse.Executor.{create_options, execute_create}

abbrev Never : {A : Type 0} → A → Type 0
Never a = ⊥

open_with-refuses :
    (options : OpenOptions) (path : FilePath)
    → options.create ≡ true
    → is_writable options ≡ false
    → PostTry Never (open_with options path)
unfolding open_with Post
open_with-refuses options path c w = rw (c, w) tt

refused :
    (flags : OpenFlags) (path : FilePath)
    → flags.acc_mode ≡ OpenAccMode.rdonly
    → flags.append ≡ false
    → PostTry Never (open_with (create_options flags) path)
unfolding create_options options_of
refused flags path r a = open_with-refuses _ path refl (ground (arith, r, a))

execute_create-Never :
    (decision : CreateDecision) (path : FilePath) (flags : OpenFlags) (meta : FileMetadata)
    → flags.acc_mode ≡ OpenAccMode.rdonly
    → flags.append ≡ false
    → PostTry Never (execute_create decision path flags meta)
unfolding execute_create
execute_create-Never CreateDecision.create_real path flags meta r a =
    PostTry->>= Never Never _ _ (refused flags path r a) (λ f h. absurd h)
execute_create-Never CreateDecision.create_object path flags meta r a =
    PostTry-after Never _ _ (λ (oid, p).
      PostTry-then Never _ _ (PostTry->>= Never Never _ _ (refused flags p r a) (λ f h. absurd h)))

-- A create with O_RDONLY and without O_APPEND never returns an open file, whether it is decided to
-- create a real file or an object, and whatever the host and the daemon answer.
pub execute_create_read_only :
    (C : Codec) (o : Oracle) (n : ℕ) (w : World) (decision : CreateDecision) (path : FilePath)
    (flags : OpenFlags) (meta : FileMetadata) (f : OpenFile)
    → flags.acc_mode ≡ OpenAccMode.rdonly
    → flags.append ≡ false
    → (run C o n (execute_create decision path flags meta) w).0 ≢ ok f
execute_create_read_only C o n w decision path flags meta f r a h =
    run-PostTry C o Never n _ w f (execute_create-Never decision path flags meta r a) h
