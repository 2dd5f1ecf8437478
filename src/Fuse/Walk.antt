-- ===== src/Fuse/Walk.antt =====
-- src/fuse/fs.rs, `recursive_real_descendants`: everything below a directory of the host.
pub mod Ends
use coding_agent_sandbox.Common.{
  ℕ, zero, suc, Bool, true, false, Option, none, some, List, [], ◌∷◌, ◌++◌, map, if◌then◌else◌,
}
use coding_agent_sandbox.FilePath.{FilePath, Name, join}
use coding_agent_sandbox.Host.{HostCall}
use coding_agent_sandbox.Prog.{Error, Result, ok, err, Try, ◌>>=◌, attempt, call, pure}
use coding_agent_sandbox.Fuse.State.{FileType, directory}

-- What `read_dir` gives; a directory that cannot be read is passed over.
unfoldable pub items_of : Result Error (List (Name × FileType)) → List (Name × FileType)
items_of (ok items) = items
items_of (err e) = []

unfoldable pub is_directory : FileType → Bool
is_directory directory = true
is_directory _ = false

-- `stack.push` of the items that are directories: the last one is on top.
unfoldable pub push_directories : FilePath → List (Name × FileType) → List FilePath → List FilePath
unfolding is_directory
push_directories path [] stack = stack
push_directories path ((name, kind) ∷ items) stack =
    push_directories path items (if is_directory kind then join path name ∷ stack else stack)

unfoldable pub paths_in : FilePath → List (Name × FileType) → List FilePath
paths_in path items = map (λ item. join path item.0) items

-- The loop of `recursive_real_descendants` with the top of the stack first, `none` where it does
-- not end within the fuel.
unfoldable pub walk : ℕ → List FilePath → List FilePath → Try (Option (List FilePath))
walk fuel [] out = pure (some out)
walk zero (path ∷ stack) out = pure none
walk (suc fuel) (path ∷ stack) out = attempt (call (HostCall.read_dir path)) >>= λ r.
    walk fuel (push_directories path (items_of r) stack) (out ++ paths_in path (items_of r))

unfoldable pub recursive_real_descendants : ℕ → FilePath → Try (Option (List FilePath))
recursive_real_descendants fuel path = walk fuel (path ∷ []) []
