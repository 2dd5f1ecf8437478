-- ===== src/Fuse/StateLoader/Renaming.antt =====
-- What a rename loads (Fuse/StateLoader.antt), and what is decided from it.
use coding_agent_sandbox.Common.{ℕ, ◌≡◌, ap, ◌∙◌, refl}
use coding_agent_sandbox.FilePath.{FilePath}
use coding_agent_sandbox.Disk.{Codec}
use coding_agent_sandbox.Server.State.{World}
use coding_agent_sandbox.Prog.{ok}
use coding_agent_sandbox.Prog.Run.{Oracle, run}
use coding_agent_sandbox.Prog.Post.{Post, PostTry, PostTry-after, run-PostTry}
use coding_agent_sandbox.Fuse.Policy.{Policy}
use coding_agent_sandbox.Fuse.State.{RenameState}
use coding_agent_sandbox.Fuse.Decision.Isolation.{Change, is_real, is_passthrough, change_isolated}
use coding_agent_sandbox.Fuse.StateLoader.{load_rename_state}

module _ (policy : Policy) (from to : FilePath) where
  abbrev HasMode : RenameState → Type 0
  HasMode s = s.access_mode ≡ policy.classify from

  load_rename_state-Post : PostTry HasMode (load_rename_state policy from to)
  unfolding load_rename_state Post
  load_rename_state-Post = PostTry-after HasMode _ _ (λ e. PostTry-after HasMode _ _ (λ e'. refl))

  -- Whatever the daemon answers, a loaded rename is decided to be the host's rename exactly where
  -- the old path is passthrough, whatever the mode of the new path.
  pub load_rename_state_by_source :
      (C : Codec) (o : Oracle) (n : ℕ) (w : World) (s : RenameState)
      → (run C o n (load_rename_state policy from to) w).0 ≡ ok s
      → is_real (Change.rename s) ≡ is_passthrough (policy.classify from)
  load_rename_state_by_source C o n w s h =
      change_isolated (Change.rename s) refl
      ∙ ap is_passthrough (
          run-PostTry C o HasMode n (load_rename_state policy from to) w s load_rename_state-Post h)
