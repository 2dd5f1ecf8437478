-- ===== src/Fuse/Executor/Attributes.antt =====
-- Changes of attributes, and what an operation loads (src/fuse/executor.rs,
-- src/fuse/state_loader.rs): no file outside of the zone is touched, as Prog/Safe.antt defines.
use coding_agent_sandbox.Common.{ℕ, ◌%◌, ◌≡◌, refl, Bool, true, Option, none, some, List, arith}
use coding_agent_sandbox.FilePath.{FilePath, path_eq}
use coding_agent_sandbox.Proto.{FileMetadata, FuseEntry}
use coding_agent_sandbox.Host.{HostCall, File, writes, touches}
use coding_agent_sandbox.Prog.{Try, call}
use coding_agent_sandbox.Prog.Safe
use coding_agent_sandbox.Prog.Safe.{Zone, inside, Safe, SafeTry, Any}
use coding_agent_sandbox.Fuse.Policy.{Policy}
use coding_agent_sandbox.Fuse.OpenFile.{
  OpenFile, file_of, read_at, copy_from, write_all_at, write_at, flush_to_daemon,
}
use coding_agent_sandbox.Fuse.Executor.Contained.{
  SafeTry-pure, SafeTry-open_with, SafeTry-after_now,
}
use coding_agent_sandbox.Fuse.Executor.Setattr.{
  Changes, changes_owner, unless_none, update_open_handle, update_real_fs, put_changed,
  execute_setattr_meta_update, update_daemon_meta,
}
use coding_agent_sandbox.Fuse.StateLoader.{
  object_path_of_id, object_path_of, load_stat_state, load_readdir_state, load_open_state,
  load_unlink_state, load_rmdir_state, load_readlink_state, load_rename_state,
}
use coding_agent_sandbox.Fuse.Handler.Contained.{ContainedFile, Contained}

module _ (zone : Zone) where
  -- A descriptor of a contained file writes in the store only.
  pub writes-contained :
      (f : File) → ContainedFile zone f → (q : FilePath) → writes f q ≡ true → inside zone q ≡ true
  unfolding writes
  writes-contained f c q w = ground (arith, c)

  SafeTry-unless_none :
      (o : Option ℕ) (f : ℕ → Try (Unit {0}))
      → ((n : ℕ) → SafeTry zone Any (f n))
      → SafeTry zone Any (unless_none o f)
  SafeTry-unless_none none f h = SafeTry-pure zone Any tt tt
  SafeTry-unless_none (some n) f h = h n

  SafeTry-set_len :
      (f : File) → ContainedFile zone f → (n : ℕ) → SafeTry zone Any (call (HostCall.set_len f n))
  SafeTry-set_len f c n =
      Safe.SafeTry-call zone (HostCall.set_len f n)
        (λ q t. writes-contained f c q (unfold touches in t))

  pub SafeTry-update_open_handle :
      (f : OpenFile) (c : Changes) → Contained zone f → SafeTry zone Any (update_open_handle f c)
  unfolding update_open_handle
  SafeTry-update_open_handle f c h =
      Safe.SafeTry->> zone Any _ _
        (SafeTry-unless_none c.size _ (λ n. SafeTry-set_len (file_of f) h n))
        (Safe.SafeTry-when zone (changes_owner c) _ (
          Safe.SafeTry->>= zone Any Any _ _
            (Safe.SafeTry-call_pure zone (HostCall.file_metadata (file_of f))
              (λ q. unfold touches in refl))
            (λ perms _.
              Safe.SafeTry->> zone Any _ _
                (SafeTry-unless_none c.mode _ (λ m. Safe.SafeTry-ignore zone Any _ (
                  Safe.SafeTry-call_pure zone (HostCall.set_file_permissions (file_of f) (m % 4096))
                    (λ q. unfold touches in refl))))
                (Safe.SafeTry-ignore zone Any _ (
                  Safe.SafeTry-call_pure zone (HostCall.fchown (file_of f) c.uid c.gid)
                    (λ q. unfold touches in refl))))))

  pub SafeTry-update_real_fs :
      (path : FilePath) (c : Changes)
      → inside zone path ≡ true
      → SafeTry zone Any (update_real_fs path c)
  unfolding update_real_fs
  SafeTry-update_real_fs path c h =
      Safe.SafeTry->> zone Any _ _
        (SafeTry-unless_none c.size _ (λ n.
          Safe.SafeTry->>= zone (ContainedFile zone) Any _ _
            (SafeTry-open_with zone _ path (λ w. h)) (λ f i. SafeTry-set_len f i n)))
        (Safe.SafeTry-when zone (changes_owner c) _ (
          Safe.SafeTry->> zone Any _ _
            (SafeTry-unless_none c.mode _ (λ m. Safe.SafeTry-ignore zone Any _ (
              Safe.SafeTry-call_pure zone (HostCall.set_permissions path (m % 4096))
                (λ q. unfold touches in refl))))
            (Safe.SafeTry-ignore zone Any _ (
              Safe.SafeTry-call_pure zone (HostCall.chown path c.uid c.gid)
                (λ q. unfold touches in refl)))))

  SafeTry-put_changed :
      (path : FilePath) (c : Changes) (m : Option FileMetadata)
      → SafeTry zone Any (put_changed path c m)
  unfolding put_changed
  SafeTry-put_changed path c none = SafeTry-pure zone Any tt tt
  SafeTry-put_changed path c (some m) =
      SafeTry-after_now zone _ (λ t. Safe.SafeTry-send zone _ _ refl)

  pub SafeTry-update_daemon_meta :
      (path : FilePath) (c : Changes) → SafeTry zone Any (update_daemon_meta path c)
  unfolding update_daemon_meta execute_setattr_meta_update
  SafeTry-update_daemon_meta path c = Safe.SafeTry-ignore zone Any _ (
      Safe.SafeTry->>= zone Any Any _ _ (Safe.SafeTry-send zone _ _ refl)
        (λ m _. SafeTry-put_changed path c m))

  pub SafeTry-read_at : (f : OpenFile) (offset size : ℕ) → SafeTry zone Any (read_at f offset size)
  unfolding read_at
  SafeTry-read_at f offset size =
      Safe.SafeTry-call_pure zone (HostCall.read_at (file_of f) offset size)
        (λ q. unfold touches in refl)

  pub SafeTry-copy_from :
      (f : OpenFile) (offset len : ℕ) → SafeTry zone Any (copy_from f offset len)
  unfolding copy_from
  SafeTry-copy_from f offset len =
      Safe.SafeTry-call_pure zone (HostCall.read_at (file_of f) offset len)
        (λ q. unfold touches in refl)

  pub SafeTry-flush_to_daemon : (f : OpenFile) → SafeTry zone Any (flush_to_daemon f)
  unfolding flush_to_daemon
  SafeTry-flush_to_daemon f =
      Safe.SafeTry-call_pure zone (HostCall.sync_data (file_of f)) (λ q. unfold touches in refl)

  pub SafeTry-write_at :
      (f : OpenFile) (offset : ℕ) (bytes : List ℕ)
      → Contained zone f
      → SafeTry zone Any (write_at f offset bytes)
  unfolding write_at write_all_at
  SafeTry-write_at f offset bytes c =
      Safe.SafeTry->>= zone Any Any _ _
        (Safe.SafeTry-call zone (HostCall.write_all_at (file_of f) offset bytes)
          (λ q t. writes-contained (file_of f) c q (unfold touches in t)))
        (λ _ _. SafeTry-pure zone Any _ tt)

  SafeTry-stat : (path : FilePath) → SafeTry zone Any (call (HostCall.symlink_metadata path))
  SafeTry-stat path =
      Safe.SafeTry-call_pure zone (HostCall.symlink_metadata path) (λ q. unfold touches in refl)

  SafeTry-object_path_of_id : (id : Option ℕ) → SafeTry zone Any (object_path_of_id id)
  unfolding object_path_of_id
  SafeTry-object_path_of_id none = SafeTry-pure zone Any none tt
  SafeTry-object_path_of_id (some id) =
      Safe.SafeTry->>= zone _ Any _ _
        (Safe.SafeTry-attempt zone Any _ (Safe.SafeTry-send zone _ _ refl))
        (λ r _. SafeTry-pure zone Any _ tt)

  SafeTry-object_path_of : (e : Option FuseEntry) → SafeTry zone Any (object_path_of e)
  unfolding object_path_of
  SafeTry-object_path_of none = SafeTry-pure zone Any none tt
  SafeTry-object_path_of (some e) = SafeTry-object_path_of_id e.object_id

  -- What is loaded is only read.
  module _ (policy : Policy) where
    pub SafeTry-load_stat_state : (path : FilePath) → SafeTry zone Any (load_stat_state policy path)
    unfolding load_stat_state
    SafeTry-load_stat_state path =
        Safe.SafeTry->>= zone _ Any _ _ (Safe.SafeTry-attempt zone Any _ (SafeTry-stat path))
          (λ r _.
            Safe.SafeTry->>= zone Any Any _ _ (Safe.SafeTry-send zone _ _ refl)
              (λ e _. SafeTry-pure zone Any _ tt))

    pub SafeTry-load_readdir_state :
        (path : FilePath) → SafeTry zone Any (load_readdir_state policy path)
    unfolding load_readdir_state
    SafeTry-load_readdir_state path =
        Safe.SafeTry->>= zone _ Any _ _
          (Safe.SafeTry-attempt zone Any _
            (Safe.SafeTry-call_pure zone (HostCall.read_dir path) (λ q. unfold touches in refl)))
          (λ r _.
            Safe.SafeTry->>= zone Any Any _ _ (Safe.SafeTry-send zone _ _ refl)
              (λ e _. SafeTry-pure zone Any _ tt))

    -- The loaded state is in the mode that the policy gives the path.
    pub SafeTry-load_open_state :
        (path : FilePath) (write truncate : Bool)
        → SafeTry zone
            (λ s. (s.access_mode ≡ policy.classify path) × (s.need_write ≡ write))
            (load_open_state policy path write truncate)
    unfolding load_open_state
    SafeTry-load_open_state path write truncate =
        Safe.SafeTry->>= zone Any _ _ _ (Safe.SafeTry-send zone _ _ refl) (λ e _.
          Safe.SafeTry->>= zone Any _ _ _ (SafeTry-object_path_of e) (λ o _.
            Safe.SafeTry->>= zone _ _ _ _
              (Safe.SafeTry-attempt zone Any _ (
                Safe.SafeTry-call_pure zone (HostCall.metadata path) (λ q. unfold touches in refl)))
              (λ r _. SafeTry-pure zone _ _ (refl, refl))))

    pub SafeTry-load_unlink_state :
        (path : FilePath)
        → SafeTry zone (λ s. s.access_mode ≡ policy.classify path) (load_unlink_state policy path)
    unfolding load_unlink_state
    SafeTry-load_unlink_state path =
        Safe.SafeTry->> zone _ _ _ (Safe.SafeTry-ignore zone Any _ (SafeTry-stat path))
          (SafeTry-pure zone _ _ refl)

    pub SafeTry-load_rmdir_state :
        (path : FilePath)
        → SafeTry zone (λ s. s.access_mode ≡ policy.classify path) (load_rmdir_state policy path)
    unfolding load_rmdir_state
    SafeTry-load_rmdir_state path =
        Safe.SafeTry->> zone _ _ _ (Safe.SafeTry-ignore zone Any _ (SafeTry-stat path))
          (SafeTry-pure zone _ _ refl)

    pub SafeTry-load_readlink_state :
        (path : FilePath) → SafeTry zone Any (load_readlink_state policy path)
    unfolding load_readlink_state
    SafeTry-load_readlink_state path =
        Safe.SafeTry->>= zone Any Any _ _ (Safe.SafeTry-send zone _ _ refl)
          (λ e _. SafeTry-pure zone Any _ tt)

    pub SafeTry-load_rename_state :
        (from to : FilePath)
        → SafeTry zone
            (λ s. s.access_mode ≡ policy.classify from)
            (load_rename_state policy from to)
    unfolding load_rename_state
    SafeTry-load_rename_state from to =
        Safe.SafeTry->>= zone Any _ _ _ (Safe.SafeTry-send zone _ _ refl) (λ e _.
          Safe.SafeTry->>= zone Any _ _ _ (Safe.SafeTry-send zone _ _ refl)
            (λ e' _. SafeTry-pure zone _ _ refl))
