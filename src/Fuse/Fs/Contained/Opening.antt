-- ===== src/Fuse/Fs/Contained/Opening.antt =====
-- The handlers that open, create and release files (src/fuse/fs.rs), in a zone that has
-- the paths that the policy gives to the host: a handle that can write leads into the zone.
use coding_agent_sandbox.Common.{
  ℕ, ◌≡◌, ◌≢◌, ◌⊎◌, ◌∙◌, sym, refl, Bool, true, false, not, ◌||◌, Option, none, some, arith,
  Bool-cases, inl, inr,
}
use coding_agent_sandbox.FilePath.{FilePath, Name}
use coding_agent_sandbox.Host.{HostCall, touches}
use coding_agent_sandbox.Prog.{Error, Result, ok, err, is_ok}
use coding_agent_sandbox.Prog.Safe.{Zone, inside, Any}
use coding_agent_sandbox.Fuse.Policy.{AccessMode, passthrough, fuse_only, copy_on_write}
use coding_agent_sandbox.Fuse.State.{FileType, OpenState, CreateState}
use coding_agent_sandbox.Fuse.Attr.{FileAttr}
use coding_agent_sandbox.Fuse.Decision.{OpenDecision, CreateDecision, decide_open, decide_create}
use coding_agent_sandbox.Fuse.Decision.Open.{open_write-isolated}
use coding_agent_sandbox.Fuse.StateLoader.{load_create_state}
use coding_agent_sandbox.Fuse.OpenFile.{
  OpenFile, passthrough_real, passthrough_object, file_of, OpenFlags, need_write, options_of,
  is_writable,
}
use coding_agent_sandbox.Fuse.Executor.{OpenExecResult}
use coding_agent_sandbox.Fuse.Executor.Contained.{SafeTry-execute_open, SafeTry-execute_create}
use coding_agent_sandbox.Fuse.Executor.Attributes.{SafeTry-load_open_state, SafeTry-flush_to_daemon}
use coding_agent_sandbox.Fuse.Handler.Contained
use coding_agent_sandbox.Fuse.Handler.Contained.{
  is_contained, ContainedFile, Contained, ContainedOption, SafeHandler,
}
use coding_agent_sandbox.Fuse.Fs.{Mount, Caller, is_sqlite_sidecar_file}
use coding_agent_sandbox.Fuse.Fs.Opening.{
  opened_file, backing, open_handle, open_decided, open_path, created_attr, create, flush_opened,
  flush_first, release,
}
use coding_agent_sandbox.Fuse.Fs.Contained.{
  Covers, SafeHandler-done, SafeHandler-get_path, SafeHandler-get_child, SafeHandler-connect,
  SafeHandler-req_start, SafeHandler-time_now, SafeHandler-attempt-call,
  SafeHandler-file_meta_with_now, SafeHandler-stat_path,
}

-- The flags that ask to append ask to write.
abbrev pub appends_as_writer : OpenFlags → Bool
appends_as_writer flags = not flags.append || need_write flags.acc_mode

real_is_passthrough :
    (s : CreateState) → decide_create s ≡ CreateDecision.create_real → s.access_mode ≡ passthrough
unfolding decide_create
real_is_passthrough s e = ground (arith, e)

mode-cases : (m : AccessMode) → (m ≡ passthrough) ⊎ (m ≢ passthrough)
mode-cases passthrough = inl refl
mode-cases fuse_only = inr (λ e. ground (arith, e))
mode-cases copy_on_write = inr (λ e. ground (arith, e))

module _ (zone : Zone) where
  opened_file-Contained :
      (r : OpenExecResult) → ContainedFile zone r.file → Contained zone (opened_file r)
  unfolding opened_file
  opened_file-Contained r c =
      elim r.object_id
        as (λ id.
          Contained zone
            (elim id [ some id ↦ passthrough_object r.file id | none ↦ passthrough_real r.file ])) [
              | some id ↦ c
              | none ↦ c
            ]

  SafeHandler-backing :
      (M : Mount) (path : FilePath) (f : OpenFile) → SafeHandler zone Any (backing M path f)
  unfolding backing
  SafeHandler-backing M path f = elim (Bool-cases (is_sqlite_sidecar_file M path)) [
    | inl sidecar ↦ rw (sidecar) (SafeHandler-done zone false)
    | inr plain ↦ rw (plain) (
        Contained.SafeHandler-after zone Any _ _
          (SafeHandler-attempt-call zone (HostCall.open_backing (file_of f))
            (λ q. unfold touches in refl))
          (λ r. SafeHandler-done zone (is_ok r)))
  ]

  SafeHandler-open_handle :
      (M : Mount) (caller : Caller) (d : OpenDecision) (path : FilePath) (flags : OpenFlags)
      → (d ≡ OpenDecision.open_real
          → is_writable (options_of flags) ≡ true
          → inside zone path ≡ true)
      → SafeHandler zone Any (open_handle M caller d path flags)
  unfolding open_handle
  SafeHandler-open_handle M caller d path flags h =
      Contained.SafeHandler-after zone Any _ _
        (Contained.SafeHandler-or_errno zone Any _
          (SafeHandler-file_meta_with_now zone _ _ caller.uid caller.gid))
        (λ meta.
          Contained.SafeHandler->>= zone (λ r. ContainedFile zone r.file) Any _ _
            (Contained.SafeHandler-or_errno zone _ _
              (Contained.SafeHandler-lift zone _ _ (SafeTry-execute_open zone d path flags meta h)))
            (λ r c.
              Contained.SafeHandler-after zone Any _ _ (Contained.SafeHandler-alloc_fh zone ℕ)
                (λ fh.
                  Contained.SafeHandler-after zone Any _ _
                    (SafeHandler-backing M path (opened_file r))
                    (λ passed.
                      Contained.SafeHandler->> zone Any _ _
                        (Contained.SafeHandler-insert_file zone ℕ fh _ (opened_file-Contained r c))
                        (SafeHandler-done zone _)))))

  SafeHandler-open_decided :
      (M : Mount) (caller : Caller) (d : OpenDecision) (path : FilePath) (flags : OpenFlags)
      → (d ≡ OpenDecision.open_real
          → is_writable (options_of flags) ≡ true
          → inside zone path ≡ true)
      → SafeHandler zone Any (open_decided M caller d path flags)
  unfolding open_decided
  SafeHandler-open_decided M caller OpenDecision.not_found path flags h =
      Contained.SafeHandler-fail zone Any _
  SafeHandler-open_decided M caller OpenDecision.error path flags h =
      Contained.SafeHandler-fail zone Any _
  SafeHandler-open_decided M caller OpenDecision.open_real path flags h =
      SafeHandler-open_handle M caller _ path flags h
  SafeHandler-open_decided M caller (OpenDecision.open_object o) path flags h =
      SafeHandler-open_handle M caller _ path flags h

  -- The real file is opened for writing in mode passthrough only.
  real-passthrough :
      (s : OpenState) (flags : OpenFlags)
      → s.need_write ≡ need_write flags.acc_mode
      → appends_as_writer flags ≡ true
      → decide_open s ≡ OpenDecision.open_real
      → is_writable (options_of flags) ≡ true
      → s.access_mode ≡ passthrough
  unfolding options_of
  real-passthrough s flags w append real writable = elim (mode-cases s.access_mode) [
    | inl passes ↦ passes
    | inr mode ↦ elim (Bool-cases s.need_write) [
      | inl writes ↦ absurd (open_write-isolated s mode writes real)
      | inr reads ↦ absurd (ground (arith, w, append, reads, writable))
    ]
  ]

  SafeHandler-flush_opened : (f : Option OpenFile) → SafeHandler zone Any (flush_opened f)
  unfolding flush_opened
  SafeHandler-flush_opened none = SafeHandler-done zone tt
  SafeHandler-flush_opened (some f) =
      Contained.SafeHandler-after zone Any _ _
        (Contained.SafeHandler-outcome zone _
          (Contained.SafeHandler-lift zone Any _ (SafeTry-flush_to_daemon zone f)))
        (λ r. SafeHandler-done zone tt)

  SafeHandler-flush_first : (fh : ℕ) (flush : Bool) → SafeHandler zone Any (flush_first fh flush)
  unfolding flush_first
  SafeHandler-flush_first fh false = SafeHandler-done zone tt
  SafeHandler-flush_first fh true =
      Contained.SafeHandler->> zone Any _ _ (SafeHandler-connect zone) (
        Contained.SafeHandler->>= zone (ContainedOption zone) Any _ _
          (Contained.SafeHandler-open_file zone ℕ fh) (λ f c. SafeHandler-flush_opened f))

  pub SafeHandler-release : (fh : ℕ) (flush : Bool) → SafeHandler zone Any (release fh flush)
  unfolding release
  SafeHandler-release fh flush =
      Contained.SafeHandler->> zone Any _ _
        (Contained.SafeHandler->> zone Any _ _ (SafeHandler-flush_first fh flush)
          (Contained.SafeHandler-remove_file zone ℕ fh))
        (SafeHandler-done zone _)

  module _ (M : Mount) (covers : Covers zone M.policy) where
    pub SafeHandler-open_path :
        (caller : Caller) (ino : ℕ) (flags : OpenFlags)
        → appends_as_writer flags ≡ true
        → SafeHandler zone Any (open_path M caller ino flags)
    unfolding open_path
    SafeHandler-open_path caller ino flags append =
        Contained.SafeHandler-after zone Any _ _ (SafeHandler-get_path zone ino) (λ p.
          Contained.SafeHandler->> zone Any _ _ (SafeHandler-req_start zone M caller _ p) (
            Contained.SafeHandler->> zone Any _ _ (SafeHandler-connect zone) (
              Contained.SafeHandler->>= zone
                (λ s.
                  (s.access_mode ≡ M.policy.classify p)
                  × (s.need_write ≡ need_write flags.acc_mode))
                Any _ _
                (Contained.SafeHandler-or_errno zone _ _ (
                  Contained.SafeHandler-lift zone _ _
                    (SafeTry-load_open_state zone M.policy p _ flags.truncate)))
                (λ s (mode, w). SafeHandler-open_decided M caller _ p flags (λ real writable.
                  covers p (sym mode ∙ real-passthrough s flags w append real writable))))))

    SafeHandler-created_attr :
        (caller : Caller) (path : FilePath) (mode : ℕ) (r : Result Error (FileType × FileAttr))
        → SafeHandler zone Any (created_attr M caller path mode r)
    unfolding created_attr
    SafeHandler-created_attr caller path mode (ok (k, a)) = SafeHandler-done zone a
    SafeHandler-created_attr caller path mode (err e) =
        Contained.SafeHandler-after zone Any _ _ (SafeHandler-time_now zone) (λ now.
          Contained.SafeHandler-after zone Any _ _ (Contained.SafeHandler-get_or_insert zone ℕ path)
            (λ ino. SafeHandler-done zone _))

    pub SafeHandler-create :
        (caller : Caller) (parent : ℕ) (name : Name) (mode : ℕ) (flags : OpenFlags)
        → SafeHandler zone Any (create M caller parent name mode flags)
    unfolding create
    SafeHandler-create caller parent name mode flags =
        Contained.SafeHandler-after zone Any _ _ (SafeHandler-get_child zone parent name) (λ p.
          Contained.SafeHandler->> zone Any _ _ (SafeHandler-connect zone) (
            Contained.SafeHandler-after zone Any _ _
              (Contained.SafeHandler-or_errno zone Any _
                (SafeHandler-file_meta_with_now zone _ _ caller.uid caller.gid))
              (λ meta.
                Contained.SafeHandler->>= zone (Contained zone) Any _ _
                  (Contained.SafeHandler-or_errno zone _ _ (
                    Contained.SafeHandler-lift zone _ _
                      (SafeTry-execute_create zone _ p flags meta (passed p))))
                  (λ f c.
                    Contained.SafeHandler-after zone Any _ _ (Contained.SafeHandler-alloc_fh zone ℕ)
                      (λ fh.
                        Contained.SafeHandler-after zone Any _ _ (SafeHandler-backing M p f)
                          (λ passed.
                            Contained.SafeHandler->> zone Any _ _
                              (Contained.SafeHandler-insert_file zone ℕ fh f c)
                              (Contained.SafeHandler-after zone Any _ _
                                (Contained.SafeHandler-outcome zone _
                                  (SafeHandler-stat_path zone M p))
                                (λ found.
                                  Contained.SafeHandler-after zone Any _ _
                                    (SafeHandler-created_attr caller p mode found)
                                    (λ a. SafeHandler-done zone _)))))))))
      where
        passed :
            (p : FilePath)
            → decide_create (load_create_state M.policy p) ≡ CreateDecision.create_real
            → inside zone p ≡ true
        passed p e =
            covers p
              (unfold load_create_state in real_is_passthrough (load_create_state M.policy p) e)
