-- ===== src/Fuse/Fs/Contained/Entries.antt =====
-- The handlers that add, remove and move entries (src/fuse/fs.rs), in a zone that has the paths that
-- the policy gives to the host.
use coding_agent_sandbox.Common.{
  ℕ, zero, suc, ◌≡◌, ◌≢◌, ◌∙◌, sym, refl, Option, none, some, List, [], ◌∷◌, arith,
}
use coding_agent_sandbox.FilePath.{FilePath, Name}
use coding_agent_sandbox.Files.{Bytes}
use coding_agent_sandbox.Host.{HostCall, touches}
use coding_agent_sandbox.Prog.{Error, Result, ok, err}
use coding_agent_sandbox.Prog.Safe
use coding_agent_sandbox.Prog.Safe.{Zone, inside, Safe, SafeTry, Any}
use coding_agent_sandbox.Fuse.Policy.{passthrough}
use coding_agent_sandbox.Fuse.State.{FileType, directory, UnlinkState, RenameState}
use coding_agent_sandbox.Fuse.Decision.{
  UnlinkDecision, RmdirDecision, RenameDecision, decide_unlink, decide_rename,
}
use coding_agent_sandbox.Fuse.Attr.{FileAttr}
use coding_agent_sandbox.Fuse.Executor.Contained.{
  SafeTry-pure, SafeTry-execute_unlink, SafeTry-execute_rmdir, SafeTry-execute_rename,
  SafeTry-execute_symlink, SafeTry-execute_mkdir,
}
use coding_agent_sandbox.Fuse.Executor.Attributes.{
  SafeTry-load_unlink_state, SafeTry-load_rmdir_state, SafeTry-load_rename_state,
}
use coding_agent_sandbox.Fuse.Handler.Contained
use coding_agent_sandbox.Fuse.Handler.Contained.{SafeHandler}
use coding_agent_sandbox.Fuse.Walk.{walk, recursive_real_descendants}
use coding_agent_sandbox.Fuse.Fs.{Mount, Caller, Reply}
use coding_agent_sandbox.Fuse.Fs.Entries.{
  made_attr, mkdir, unlink, remove_found, rmdir, rename, symlink,
}
use coding_agent_sandbox.Fuse.Fs.Contained.{
  Covers, SafeHandler-try, SafeHandler-done, SafeHandler-get_child, SafeHandler-connect,
  SafeHandler-time_now, SafeHandler-file_meta_with_now, SafeHandler-stat_path,
  SafeHandler-reply_stat,
}

real_is_passthrough :
    (s : UnlinkState) → decide_unlink s ≡ UnlinkDecision.remove_real → s.access_mode ≡ passthrough
unfolding decide_unlink
real_is_passthrough s e = ground (arith, e)

rename_elsewhere :
    (s : RenameState) → s.access_mode ≢ passthrough → decide_rename s ≢ RenameDecision.rename_real
unfolding decide_rename
rename_elsewhere s h e = ground (arith, h, e)

module _ (zone : Zone) where
  SafeTry-walk : (fuel : ℕ) (stack out : List FilePath) → SafeTry zone Any (walk fuel stack out)
  unfolding walk
  SafeTry-walk fuel [] out = SafeTry-pure zone Any _ tt
  SafeTry-walk zero (p ∷ stack) out = SafeTry-pure zone Any _ tt
  SafeTry-walk (suc fuel) (p ∷ stack) out =
      Safe.SafeTry->>= zone Any Any _ _
        (Safe.SafeTry-attempt-Any zone _
          (Safe.SafeTry-call_pure zone (HostCall.read_dir p) (λ q. unfold touches in refl)))
        (λ r _. SafeTry-walk fuel _ _)

  SafeTry-recursive_real_descendants :
      (fuel : ℕ) (path : FilePath) → SafeTry zone Any (recursive_real_descendants fuel path)
  unfolding recursive_real_descendants
  SafeTry-recursive_real_descendants fuel path = SafeTry-walk fuel _ _

  SafeHandler-remove_found :
      (d : RmdirDecision) (path : FilePath) (found : Option (List FilePath))
      → SafeHandler zone Any (remove_found d path found)
  unfolding remove_found
  SafeHandler-remove_found d path none = SafeHandler-done zone _
  SafeHandler-remove_found d path (some descendants) =
      Contained.SafeHandler->> zone Any _ _
        (SafeHandler-try zone _ (SafeTry-execute_rmdir zone d path descendants))
        (SafeHandler-done zone _)

  module _ (M : Mount) (caller : Caller) where
    SafeHandler-made_attr :
        (kind : FileType) (mode ino : ℕ) (r : Result Error (FileType × FileAttr))
        → SafeHandler zone Any (made_attr M caller kind mode ino r)
    unfolding made_attr
    SafeHandler-made_attr kind mode ino (ok (k, a)) = SafeHandler-done zone a
    SafeHandler-made_attr kind mode ino (err e) =
        Contained.SafeHandler-after zone Any _ _ (SafeHandler-time_now zone)
          (λ now. SafeHandler-done zone _)

    module _ (covers : Covers zone M.policy) where
      pub SafeHandler-mkdir :
          (parent : ℕ) (name : Name) (mode : ℕ)
          → SafeHandler zone Any (mkdir M caller parent name mode)
      unfolding mkdir
      SafeHandler-mkdir parent name mode =
          Contained.SafeHandler-after zone Any _ _ (SafeHandler-get_child zone parent name) (λ p.
            Contained.SafeHandler->> zone Any _ _ (SafeHandler-connect zone) (
              Contained.SafeHandler->> zone Any _ _
                (SafeHandler-try zone _ (SafeTry-execute_mkdir zone _ p mode caller.uid caller.gid))
                (Contained.SafeHandler-after zone Any _ _
                  (Contained.SafeHandler-get_or_insert zone ℕ p)
                  (λ ino.
                    Contained.SafeHandler-after zone Any _ _
                      (Contained.SafeHandler-outcome zone _ (SafeHandler-stat_path zone M p))
                      (λ r.
                        Contained.SafeHandler-after zone Any _ _
                          (SafeHandler-made_attr directory mode ino r)
                          (λ a. SafeHandler-done zone _))))))

      pub SafeHandler-unlink :
          (parent : ℕ) (name : Name) → SafeHandler zone Any (unlink M caller parent name)
      unfolding unlink
      SafeHandler-unlink parent name =
          Contained.SafeHandler-after zone Any _ _ (SafeHandler-get_child zone parent name) (λ p.
            Contained.SafeHandler->> zone Any _ _ (SafeHandler-connect zone) (
              Contained.SafeHandler->>= zone (λ s. s.access_mode ≡ M.policy.classify p) Any _ _
                (Contained.SafeHandler-or_errno zone _ _
                  (Contained.SafeHandler-lift zone _ _ (SafeTry-load_unlink_state zone M.policy p)))
                (λ s e.
                  Contained.SafeHandler->> zone Any _ _
                    (SafeHandler-try zone _ (
                      SafeTry-execute_unlink zone _ p
                        (λ real. covers p (sym e ∙ real_is_passthrough s real))))
                    (SafeHandler-done zone _))))

      pub SafeHandler-rmdir :
          (parent : ℕ) (name : Name) → SafeHandler zone Any (rmdir M caller parent name)
      unfolding rmdir
      SafeHandler-rmdir parent name =
          Contained.SafeHandler-after zone Any _ _ (SafeHandler-get_child zone parent name) (λ p.
            Contained.SafeHandler->> zone Any _ _ (SafeHandler-connect zone) (
              Contained.SafeHandler->>= zone (λ s. s.access_mode ≡ M.policy.classify p) Any _ _
                (Contained.SafeHandler-or_errno zone _ _
                  (Contained.SafeHandler-lift zone _ _ (SafeTry-load_rmdir_state zone M.policy p)))
                (λ s e.
                  Contained.SafeHandler-after zone Any _ _
                    (SafeHandler-try zone _ (SafeTry-recursive_real_descendants M.fuel p))
                    (λ found. SafeHandler-remove_found _ p found))))

      pub SafeHandler-rename :
          (parent : ℕ) (name : Name) (newparent : ℕ) (newname : Name)
          → ((p : FilePath) → M.policy.classify p ≢ passthrough)
          → SafeHandler zone Any (rename M caller parent name newparent newname)
      unfolding rename
      SafeHandler-rename parent name newparent newname closed =
          Contained.SafeHandler-after zone Any _ _ (SafeHandler-get_child zone parent name) (λ p.
            Contained.SafeHandler-after zone Any _ _ (SafeHandler-get_child zone newparent newname)
              (λ p'. Contained.SafeHandler->> zone Any _ _ (SafeHandler-connect zone) (
                Contained.SafeHandler->>= zone (λ s. s.access_mode ≡ M.policy.classify p) Any _ _
                  (Contained.SafeHandler-or_errno zone _ _ (
                    Contained.SafeHandler-lift zone _ _
                      (SafeTry-load_rename_state zone M.policy p p')))
                  (λ s e.
                    Contained.SafeHandler->> zone Any _ _
                      (SafeHandler-try zone _ (
                        SafeTry-execute_rename zone _ p p'
                          (rename_elsewhere s (λ h. closed p (sym e ∙ h)))))
                      (SafeHandler-done zone _)))))

      pub SafeHandler-symlink :
          (parent : ℕ) (name : Name) (target : Bytes)
          → SafeHandler zone Any (symlink M caller parent name target)
      unfolding symlink
      SafeHandler-symlink parent name target =
          Contained.SafeHandler-after zone Any _ _ (SafeHandler-get_child zone parent name) (λ p.
            Contained.SafeHandler->> zone Any _ _ (SafeHandler-connect zone) (
              Contained.SafeHandler-after zone Any _ _
                (Contained.SafeHandler-or_errno zone Any _
                  (SafeHandler-file_meta_with_now zone _ _ caller.uid caller.gid))
                (λ meta.
                  Contained.SafeHandler->> zone Any _ _
                    (SafeHandler-try zone _
                      (SafeTry-execute_symlink zone (M.policy.classify p) p target meta (covers p)))
                    (SafeHandler-reply_stat zone M Reply.entry p))))
