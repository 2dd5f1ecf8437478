-- ===== src/Fuse/Executor/Contained.antt =====
-- What is done by a decision (src/fuse/executor.rs): no call of the host but in the zone, as
-- Prog/Safe.antt defines, where the paths that the decision gives to the host are in it.
use coding_agent_sandbox.Common.{
  ℕ, ◌%◌, ◌≡◌, ◌≢◌, refl, true, not, ◌&&◌, Option, none, some, List, [], ◌∷◌, arith, Bool-cases,
  inl, inr,
}
use coding_agent_sandbox.FilePath.{FilePath, path_eq}
use coding_agent_sandbox.Files.{Bytes}
use coding_agent_sandbox.Proto.{FileMetadata}
use coding_agent_sandbox.Host.{HostCall, OpenOptions, touches}
use coding_agent_sandbox.Prog.{Error, Try, ◌>>=◌, ◌>>◌, pure, throw, ignore}
use coding_agent_sandbox.Prog.Safe
use coding_agent_sandbox.Prog.Safe.{
  Zone, inside, stored-inside, Safe, SafeTry, Any, OnOk-Any, StoresObject, InStore,
}
use coding_agent_sandbox.Client
use coding_agent_sandbox.Fuse.Policy.{AccessMode, passthrough, fuse_only, copy_on_write}
use coding_agent_sandbox.Fuse.Decision.{
  CreateDecision, MkdirDecision, OpenDecision, OpenObject, ReadlinkDecision, RenameDecision,
  RmdirDecision, UnlinkDecision,
}
use coding_agent_sandbox.Fuse.OpenFile.{
  passthrough_real, passthrough_object, OpenFlags, options_of, is_writable, open_with,
}
use coding_agent_sandbox.Fuse.Executor.{
  OpenExecResult, object_for, errno, execute_open, create_options, execute_create, execute_unlink,
  put_whiteouts, execute_rmdir, execute_rename, execute_symlink, execute_readlink, now_unix,
  execute_mkdir,
}
use coding_agent_sandbox.Fuse.Handler.Contained.{ContainedFile, Contained}

module _ (zone : Zone) where
  opened-Contained :
      (options : OpenOptions) (path : FilePath)
      → (is_writable options ≡ true → inside zone path ≡ true)
      → ContainedFile zone (record { path = path; writable = is_writable options })
  opened-Contained options path h = ground (arith, h)

  -- A file that is opened for writing lies in the store.
  pub SafeTry-open_with :
      (options : OpenOptions) (path : FilePath)
      → (is_writable options ≡ true → inside zone path ≡ true)
      → SafeTry zone (ContainedFile zone) (open_with options path)
  unfolding open_with Safe
  SafeTry-open_with options path h =
      elim (Bool-cases (options.create && not (is_writable options))) [
        | inl refused ↦ rw (refused) tt
        | inr opens ↦ rw (opens) (
            Safe.SafeTry->>= zone Any (ContainedFile zone) _ _
              (Safe.SafeTry-call zone (HostCall.open_file path options)
                (λ q t. unfold touches in ground (arith, h, opens)))
              (λ _ _. opened-Contained options path h))
      ]

  pub SafeTry-pure : {A : Type 0} (P : A → Type 0) (a : A) → P a → SafeTry zone P (pure a)
  unfolding Safe
  SafeTry-pure P a h = h

  SafeTry-throw : {A : Type 0} (P : A → Type 0) (e : Error) → SafeTry zone P (throw e)
  unfolding Safe
  SafeTry-throw P e = tt

  SafeTry-existing :
      (id : Option ℕ)
      → SafeTry zone (StoresObject zone) (elim id [
        | none ↦ errno 5
        | some oid ↦ Client.get_object_path oid >>= λ op. pure (oid, op)
      ])
  SafeTry-existing none = SafeTry-throw (StoresObject zone) _
  SafeTry-existing (some oid) =
      Safe.SafeTry->>= zone (InStore zone) (StoresObject zone) _ _
        (Safe.SafeTry-get_object_path zone oid) (λ p h. SafeTry-pure (StoresObject zone) (oid, p) h)

  -- The object that is opened lies in the store.
  pub SafeTry-object_for :
      (o : OpenObject) (path : FilePath) (meta : FileMetadata)
      → SafeTry zone (StoresObject zone) (object_for o path meta)
  unfolding object_for
  SafeTry-object_for o path meta = elim (Bool-cases o.needs_ensure) [
    | inr existing ↦ rw (existing) (SafeTry-existing o.existing_object_id)
    | inl needed ↦ rw (needed) (elim (Bool-cases o.copy_up_from_real) [
      | inl copied ↦ rw (copied) (Safe.SafeTry-ensured zone _ refl)
      | inr fresh ↦ rw (fresh) (Safe.SafeTry-ensured zone _ refl)
    ])
  ]

  abbrev ContainedResult : OpenExecResult → Type 0
  ContainedResult r = ContainedFile zone r.file

  -- The real file is opened for writing only in the zone.
  pub SafeTry-execute_open :
      (decision : OpenDecision) (path : FilePath) (flags : OpenFlags) (meta : FileMetadata)
      → (decision ≡ OpenDecision.open_real
          → is_writable (options_of flags) ≡ true
          → inside zone path ≡ true)
      → SafeTry zone ContainedResult (execute_open decision path flags meta)
  unfolding execute_open
  SafeTry-execute_open OpenDecision.not_found path flags meta h = SafeTry-throw ContainedResult _
  SafeTry-execute_open OpenDecision.error path flags meta h = SafeTry-throw ContainedResult _
  SafeTry-execute_open OpenDecision.open_real path flags meta h =
      Safe.SafeTry->>= zone (ContainedFile zone) ContainedResult _ _
        (SafeTry-open_with (options_of flags) path (h refl))
        (λ f c. SafeTry-pure ContainedResult (record { file = f; object_id = none }) c)
  SafeTry-execute_open (OpenDecision.open_object o) path flags meta h =
      Safe.SafeTry->>= zone (StoresObject zone) ContainedResult _ _ (SafeTry-object_for o path meta)
        (λ (oid, p) stored.
          Safe.SafeTry->> zone ContainedResult _ _
            (Safe.SafeTry-when zone o.copy_up_from_real _ (
              Safe.SafeTry-ignore zone Any _ (
                Safe.SafeTry-call zone (HostCall.copy path p)
                  (λ q t. unfold touches in ground (arith, stored-inside zone p stored)))))
            (Safe.SafeTry->> zone ContainedResult _ _
              (Safe.SafeTry-when zone o.delete_whiteout _
                (Safe.SafeTry-ignore zone Any _ (Safe.SafeTry-send zone _ _ refl)))
              (Safe.SafeTry->>= zone (ContainedFile zone) ContainedResult _ _
                (SafeTry-open_with (options_of flags) p (λ w. stored-inside zone p stored))
                (λ f c.
                  SafeTry-pure ContainedResult (record { file = f; object_id = some oid }) c))))

  pub SafeTry-execute_create :
      (decision : CreateDecision) (path : FilePath) (flags : OpenFlags) (meta : FileMetadata)
      → (decision ≡ CreateDecision.create_real → inside zone path ≡ true)
      → SafeTry zone (Contained zone) (execute_create decision path flags meta)
  unfolding execute_create
  SafeTry-execute_create CreateDecision.create_real path flags meta h =
      Safe.SafeTry->>= zone (ContainedFile zone) (Contained zone) _ _
        (SafeTry-open_with (create_options flags) path (λ w. h refl))
        (λ f c. SafeTry-pure (Contained zone) (passthrough_real f) c)
  SafeTry-execute_create CreateDecision.create_object path flags meta h =
      Safe.SafeTry->>= zone (StoresObject zone) (Contained zone) _ _
        (Safe.SafeTry-ensured zone _ refl)
        (λ (oid, p) stored.
          Safe.SafeTry->> zone (Contained zone) _ _
            (Safe.SafeTry-ignore zone Any _ (Safe.SafeTry-send zone _ _ refl))
            (Safe.SafeTry->>= zone (ContainedFile zone) (Contained zone) _ _
              (SafeTry-open_with (create_options flags) p (λ w. stored-inside zone p stored))
              (λ f c. SafeTry-pure (Contained zone) (passthrough_object f oid) c)))

  -- `m?; let _ = k;` of two requests
  SafeTry-then_ignored :
      {A : Type 0} (m : Try (Unit {0})) (k : Try A)
      → SafeTry zone Any m
      → SafeTry zone Any k
      → SafeTry zone Any (m >> ignore k)
  SafeTry-then_ignored m k h t =
      Safe.SafeTry->> zone Any m (ignore k) h (Safe.SafeTry-ignore zone Any k t)

  pub SafeTry-execute_unlink :
      (decision : UnlinkDecision) (path : FilePath)
      → (decision ≡ UnlinkDecision.remove_real → inside zone path ≡ true)
      → SafeTry zone Any (execute_unlink decision path)
  unfolding execute_unlink
  SafeTry-execute_unlink UnlinkDecision.remove_real path h =
      Safe.SafeTry-call zone (HostCall.remove_file path)
        (λ q t. unfold touches in ground (arith, h refl))
  SafeTry-execute_unlink UnlinkDecision.whiteout_path path h =
      Safe.SafeTry->> zone Any _ _
        (Safe.SafeTry-ignore zone Any _ (Safe.SafeTry-send zone _ _ refl))
        (Safe.SafeTry-send zone _ _ refl)

  SafeTry-put_whiteouts : (paths : List FilePath) → SafeTry zone Any (put_whiteouts paths)
  unfolding put_whiteouts
  SafeTry-put_whiteouts [] = SafeTry-pure Any tt tt
  SafeTry-put_whiteouts (p ∷ ps) =
      Safe.SafeTry->> zone Any _ _
        (Safe.SafeTry-ignore zone Any _ (Safe.SafeTry-send zone _ _ refl))
        (SafeTry-put_whiteouts ps)

  pub SafeTry-execute_rmdir :
      (decision : RmdirDecision) (path : FilePath) (descendants : List FilePath)
      → SafeTry zone Any (execute_rmdir decision path descendants)
  unfolding execute_rmdir
  SafeTry-execute_rmdir RmdirDecision.remove_real path descendants =
      Safe.SafeTry-call_pure zone (HostCall.remove_dir path) (λ q. unfold touches in refl)
  SafeTry-execute_rmdir RmdirDecision.whiteout_recursive path descendants =
      Safe.SafeTry->> zone Any _ _
        (Safe.SafeTry-ignore zone Any _ (Safe.SafeTry-send zone _ _ refl))
        (Safe.SafeTry->> zone Any _ _ (Safe.SafeTry-send zone _ _ refl)
          (SafeTry-put_whiteouts descendants))

  pub SafeTry-execute_rename :
      (decision : RenameDecision) (from to : FilePath)
      → decision ≢ RenameDecision.rename_real
      → SafeTry zone Any (execute_rename decision from to)
  unfolding execute_rename
  SafeTry-execute_rename RenameDecision.rename_real from to h = absurd (h refl)
  SafeTry-execute_rename RenameDecision.rename_fuse_file_or_symlink from to h =
      SafeTry-then_ignored _ _ (Safe.SafeTry-send zone _ _ refl) (Safe.SafeTry-send zone _ _ refl)
  SafeTry-execute_rename RenameDecision.rename_fuse_tree from to h =
      SafeTry-then_ignored _ _ (Safe.SafeTry-send zone _ _ refl) (Safe.SafeTry-send zone _ _ refl)

  pub SafeTry-execute_symlink :
      (mode : AccessMode) (path : FilePath) (target : Bytes) (meta : FileMetadata)
      → (mode ≡ passthrough → inside zone path ≡ true)
      → SafeTry zone Any (execute_symlink mode path target meta)
  unfolding execute_symlink
  SafeTry-execute_symlink passthrough path target meta h =
      Safe.SafeTry-call zone (HostCall.symlink target path)
        (λ q t. unfold touches in ground (arith, h refl))
  SafeTry-execute_symlink fuse_only path target meta h =
      SafeTry-then_ignored _ _ (Safe.SafeTry-send zone _ _ refl) (Safe.SafeTry-send zone _ _ refl)
  SafeTry-execute_symlink copy_on_write path target meta h =
      SafeTry-then_ignored _ _ (Safe.SafeTry-send zone _ _ refl) (Safe.SafeTry-send zone _ _ refl)

  -- A link is only read, in every mode.
  pub SafeTry-execute_readlink :
      (decision : ReadlinkDecision) (path : FilePath)
      → SafeTry zone Any (execute_readlink decision path)
  unfolding execute_readlink
  SafeTry-execute_readlink ReadlinkDecision.not_found path = SafeTry-throw Any _
  SafeTry-execute_readlink ReadlinkDecision.use_real path =
      Safe.SafeTry-call_pure zone (HostCall.read_link path) (λ q. unfold touches in refl)
  SafeTry-execute_readlink ReadlinkDecision.use_fuse path =
      Safe.SafeTry->>= zone Any Any _ _ (Safe.SafeTry-send zone _ _ refl)
        (λ e _. SafeTry-pure Any _ tt)

  pub SafeTry-now_unix : SafeTry zone Any now_unix
  unfolding now_unix
  SafeTry-now_unix =
      Safe.SafeTry->>= zone _ Any _ _
        (Safe.SafeTry-attempt zone Any _
          (Safe.SafeTry-call_pure zone HostCall.now (λ q. unfold touches in refl)))
        (λ r _. SafeTry-pure Any _ tt)

  pub SafeTry-after_now :
      {A : Type 0} (f : ℕ → Try A)
      → ((t : ℕ) → SafeTry zone Any (f t))
      → SafeTry zone Any (now_unix >>= f)
  SafeTry-after_now f h = Safe.SafeTry->>= zone Any Any now_unix f SafeTry-now_unix (λ t _. h t)

  pub SafeTry-execute_mkdir :
      (decision : MkdirDecision) (path : FilePath) (mode uid gid : ℕ)
      → SafeTry zone Any (execute_mkdir decision path mode uid gid)
  unfolding execute_mkdir
  SafeTry-execute_mkdir MkdirDecision.create_real path mode uid gid =
      Safe.SafeTry->> zone Any _ _
        (Safe.SafeTry-call_pure zone (HostCall.create_dir path) (λ q. unfold touches in refl))
        (Safe.SafeTry-call_pure zone (HostCall.set_permissions path (mode % 4096))
          (λ q. unfold touches in refl))
  SafeTry-execute_mkdir MkdirDecision.create_daemon path mode uid gid =
      SafeTry-after_now _ (λ mtime. SafeTry-after_now _ (λ atime. SafeTry-after_now _ (λ ctime.
        SafeTry-then_ignored _ _ (Safe.SafeTry-send zone _ _ refl)
          (Safe.SafeTry-send zone _ _ refl))))
