-- ===== src/Fuse/StateLoader/Listing.antt =====
-- The listing that `load_readdir_state` makes (Fuse/StateLoader.antt).
use coding_agent_sandbox.Common.{
  ℕ, none, List, [], ◌∷◌, nat_eq, list_eq, ◌≡◌, inl, inr, Option-cases,
}
use coding_agent_sandbox.Common.Dict
use coding_agent_sandbox.Common.Dict.{Dict, NodupKeys}
use coding_agent_sandbox.FilePath.{FilePath, Name, file_name}
use coding_agent_sandbox.Proto.{FuseEntry}
use coding_agent_sandbox.Disk.{Codec}
use coding_agent_sandbox.Server.State.{World}
use coding_agent_sandbox.Prog.{ok}
use coding_agent_sandbox.Prog.Run.{Oracle, run}
use coding_agent_sandbox.Prog.Post.{Post, PostTry, PostTry-after, run-PostTry}
use coding_agent_sandbox.Fuse.Policy.{Policy}
use coding_agent_sandbox.Fuse.State.{FileType, ReaddirChildState, ReaddirState}
use coding_agent_sandbox.Fuse.Readdir.{decide_readdir, validate_readdir_decision}
use coding_agent_sandbox.Fuse.Readdir.Overlay.{validate-decide_readdir}
use coding_agent_sandbox.Fuse.StateLoader.{add_real, add_fuse, load_readdir_state}

add_real-NodupKeys :
    (path : FilePath) (ents : List (Name × FileType)) (d : Dict Name ReaddirChildState)
    → NodupKeys d
    → NodupKeys (add_real path ents d)
unfolding add_real
add_real-NodupKeys path [] d u = u
add_real-NodupKeys path ((name, kind) ∷ ents) d u =
    add_real-NodupKeys path ents _ (Dict.insert-NodupKeys name _ d u)

add_fuse-NodupKeys :
    (entries : List (FilePath × FuseEntry)) (d : Dict Name ReaddirChildState)
    → NodupKeys d
    → NodupKeys (add_fuse entries d)
unfolding add_fuse
add_fuse-NodupKeys [] d u = u
add_fuse-NodupKeys ((p, e) ∷ entries) d u = elim (Option-cases (file_name p)) [
  | inl gone ↦ rw gone (add_fuse-NodupKeys entries d u)
  | inr (name, found) ↦ rw found (add_fuse-NodupKeys entries _ (Dict.insert-NodupKeys name _ d u))
]

abbrev IsDistinct : ReaddirState → Type 0
IsDistinct s = NodupKeys s.children

load_readdir_state-Post :
    (policy : Policy) (path : FilePath) → PostTry IsDistinct (load_readdir_state policy path)
unfolding load_readdir_state Post
load_readdir_state-Post policy path = PostTry-after IsDistinct _ _ (λ ents.
    PostTry-after IsDistinct _ _
      (λ entries. add_fuse-NodupKeys entries _ (add_real-NodupKeys path _ [] tt)))

-- Whatever the host lists and the daemon answers, if a listing is loaded, the decision computed
-- from it passes the check against it.
pub load_readdir_state_valid :
    (C : Codec) (o : Oracle) (n : ℕ) (w : World) (policy : Policy) (path : FilePath)
    (s : ReaddirState)
    → (run C o n (load_readdir_state policy path) w).0 ≡ ok s
    → validate_readdir_decision s (decide_readdir s) ≡ none
load_readdir_state_valid C o n w policy path s h = validate-decide_readdir s (
    run-PostTry C o IsDistinct n (load_readdir_state policy path) w s
      (load_readdir_state-Post policy path) h)
