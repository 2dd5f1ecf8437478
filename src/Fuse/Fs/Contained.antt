-- ===== src/Fuse/Fs/Contained.antt =====
-- What the handlers of src/fuse/fs.rs share, and the handlers of attributes, in a zone that
-- has the paths that the policy gives to the host: the rule of Fuse/Handler/Contained.antt holds for each.
pub mod Entries
pub mod Opening
pub mod Data
use coding_agent_sandbox.Common.{
  ℕ, ◌≡◌, ◌≢◌, refl, Bool, true, false, not, ◌||◌, Option, none, some, List, arith, if◌then◌else◌,
  Bool-cases, inl, inr,
}
use coding_agent_sandbox.Common.Dict.{is_some}
use coding_agent_sandbox.FilePath.{FilePath, Name}
use coding_agent_sandbox.Files.{Bytes}
use coding_agent_sandbox.Proto.{FuseEntry}
use coding_agent_sandbox.Host.{HostCall, Statvfs, touches}
use coding_agent_sandbox.Prog.{Error, Result, ok, err, Call, Try, call, attempt}
use coding_agent_sandbox.Prog.Safe
use coding_agent_sandbox.Prog.Safe.{Zone, inside, Safe, SafeTry, Any, OnOk-Any}
use coding_agent_sandbox.Fuse.Policy.{AccessMode, Policy, passthrough}
use coding_agent_sandbox.Fuse.State.{FileType}
use coding_agent_sandbox.Fuse.Decision.{
  StatDecision, SetattrDecision, decide_stat, decide_setattr, decide_readlink,
}
use coding_agent_sandbox.Fuse.StateLoader.{load_setattr_state}
use coding_agent_sandbox.Fuse.Attr.{FileAttr}
use coding_agent_sandbox.Fuse.OpenFile.{OpenFile}
use coding_agent_sandbox.Fuse.Executor.Setattr.{Changes}
use coding_agent_sandbox.Fuse.Executor.Contained.{SafeTry-now_unix, SafeTry-execute_readlink}
use coding_agent_sandbox.Fuse.Executor.Attributes.{
  SafeTry-load_stat_state, SafeTry-load_readlink_state, SafeTry-update_open_handle,
  SafeTry-update_real_fs, SafeTry-update_daemon_meta,
}
use coding_agent_sandbox.Fuse.Handler.{
  Inner, Handler, ◌>>=◌, ◌>>◌, reply, fail, lift, or_errno, outcome, path_of, open_file,
}
use coding_agent_sandbox.Fuse.Handler.Contained
use coding_agent_sandbox.Fuse.Handler.Contained.{
  Contained, ContainedOption, AllContained, SafeHandler,
}
use coding_agent_sandbox.Fuse.Inner.{
  file_meta_with_now, connected, checkout, connect_daemon, stat_real_path, attr_of_kind,
  attr_of_entry, stat_fuse_path, kind_from_entry,
}
use coding_agent_sandbox.Fuse.Fs.{
  Mount, Caller, Reply, or_enoent, or_ebadf, get_path, get_file, child_of, get_child, connect,
  time_now, req_start, stat_decided, stat_path, reply_stat,
}
use coding_agent_sandbox.Fuse.Fs.Attributes.{
  handle, set_attributes, lookup, getattr, setattr, readlink, reply_statfs, statfs, access,
  fsyncdir,
}

module _ (zone : Zone) where
  -- A call that changes no file.
  pub SafeHandler-try :
      {A : Type 0} (m : Try A) → SafeTry zone Any m → SafeHandler zone Any (or_errno (lift m))
  SafeHandler-try m h =
      Contained.SafeHandler-or_errno zone Any _ (Contained.SafeHandler-lift zone Any m h)

  pub SafeHandler-done : {A : Type 0} (a : A) → SafeHandler zone {E = ℕ} Any (reply a)
  SafeHandler-done a = Contained.SafeHandler-reply zone ℕ Any a tt

  SafeHandler-or_enoent : {A : Type 0} (o : Option A) → SafeHandler zone Any (or_enoent o)
  SafeHandler-or_enoent none = Contained.SafeHandler-fail zone Any _
  SafeHandler-or_enoent (some a) = SafeHandler-done a

  SafeHandler-or_ebadf :
      (o : Option OpenFile)
      → ContainedOption zone o
      → SafeHandler zone (Contained zone) (or_ebadf o)
  unfolding ContainedOption
  SafeHandler-or_ebadf none h = Contained.SafeHandler-fail zone (Contained zone) _
  SafeHandler-or_ebadf (some f) h = Contained.SafeHandler-reply zone ℕ (Contained zone) f h

  pub SafeHandler-get_path : (ino : ℕ) → SafeHandler zone Any (get_path ino)
  unfolding get_path
  SafeHandler-get_path ino =
      Contained.SafeHandler-after zone Any _ _ (Contained.SafeHandler-path_of zone ℕ ino)
        SafeHandler-or_enoent

  pub SafeHandler-get_file : (fh : ℕ) → SafeHandler zone (Contained zone) (get_file fh)
  unfolding get_file
  SafeHandler-get_file fh =
      Contained.SafeHandler->>= zone (ContainedOption zone) (Contained zone) _ _
        (Contained.SafeHandler-open_file zone ℕ fh) SafeHandler-or_ebadf

  pub SafeHandler-get_child :
      (parent : ℕ) (name : Name) → SafeHandler zone Any (get_child parent name)
  unfolding get_child
  SafeHandler-get_child parent name =
      Contained.SafeHandler-after zone Any _ _ (SafeHandler-get_path parent)
        (λ p. SafeHandler-done (child_of name p))

  SafeTry-checkout : SafeTry zone Any checkout
  unfolding checkout Safe touches
  SafeTry-checkout = ((λ q t. ground arith), λ a e. OnOk-Any zone (connected a))

  SafeHandler-connect_daemon : SafeHandler zone Any connect_daemon
  unfolding connect_daemon
  SafeHandler-connect_daemon = Contained.SafeHandler-lift zone Any _ SafeTry-checkout

  pub SafeHandler-connect : SafeHandler zone Any connect
  unfolding connect
  SafeHandler-connect = Contained.SafeHandler-or_errno zone Any _ SafeHandler-connect_daemon

  pub SafeHandler-file_meta_with_now :
      (size mode uid gid : ℕ) → SafeHandler zone Any (file_meta_with_now size mode uid gid)
  unfolding file_meta_with_now
  SafeHandler-file_meta_with_now size mode uid gid =
      Contained.SafeHandler-after zone Any _ _
        (Contained.SafeHandler-lift zone Any _ (SafeTry-now_unix zone))
        (λ now. Contained.SafeHandler-reply zone Error Any _ tt)

  SafeHandler-stat_real_path : (path : FilePath) → SafeHandler zone Any (stat_real_path path)
  unfolding stat_real_path
  SafeHandler-stat_real_path path =
      Contained.SafeHandler-after zone Any _ _
        (Contained.SafeHandler-lift zone Any _ (
          Safe.SafeTry-call_pure zone (HostCall.symlink_metadata path)
            (λ q. unfold touches in refl)))
        (λ meta.
          Contained.SafeHandler-after zone Any _ _
            (Contained.SafeHandler-get_or_insert zone Error path)
            (λ ino. Contained.SafeHandler-reply zone Error Any _ tt))

  SafeHandler-attr_of_kind :
      (path : FilePath) (e : FuseEntry) (kind : Option FileType)
      → SafeHandler zone Any (attr_of_kind path e kind)
  unfolding attr_of_kind
  SafeHandler-attr_of_kind path e none = Contained.SafeHandler-fail zone Any _
  SafeHandler-attr_of_kind path e (some kind) =
      Contained.SafeHandler-after zone Any _ _ (Contained.SafeHandler-get_or_insert zone Error path)
        (λ ino. Contained.SafeHandler-reply zone Error Any _ tt)

  SafeHandler-attr_of_entry :
      (path : FilePath) (e : Option FuseEntry) → SafeHandler zone Any (attr_of_entry path e)
  unfolding attr_of_entry
  SafeHandler-attr_of_entry path none = Contained.SafeHandler-fail zone Any _
  SafeHandler-attr_of_entry path (some e) = SafeHandler-attr_of_kind path e (kind_from_entry e)

  SafeHandler-stat_fuse_path : (path : FilePath) → SafeHandler zone Any (stat_fuse_path path)
  unfolding stat_fuse_path
  SafeHandler-stat_fuse_path path =
      Contained.SafeHandler-after zone Any _ _
        (Contained.SafeHandler-lift zone Any _ (Safe.SafeTry-send zone _ _ refl))
        (SafeHandler-attr_of_entry path)

  pub SafeHandler-attempt-call :
      (h : HostCall)
      → ((q : FilePath) → touches h q ≡ false)
      → SafeHandler zone Any (or_errno (lift (attempt (call h))))
  SafeHandler-attempt-call h t =
      SafeHandler-try _ (Safe.SafeTry-attempt-Any zone _ (Safe.SafeTry-call_pure zone h t))

  pub SafeHandler-time_now : SafeHandler zone Any time_now
  unfolding time_now
  SafeHandler-time_now =
      Contained.SafeHandler-after zone Any _ _
        (SafeHandler-attempt-call HostCall.now (λ q. unfold touches in refl))
        (λ r. SafeHandler-done _)

  SafeHandler-stat_decided :
      (d : StatDecision) (path : FilePath) → SafeHandler zone Any (stat_decided d path)
  unfolding stat_decided
  SafeHandler-stat_decided StatDecision.use_real path = SafeHandler-stat_real_path path
  SafeHandler-stat_decided StatDecision.use_fuse path = SafeHandler-stat_fuse_path path
  SafeHandler-stat_decided StatDecision.not_found path = Contained.SafeHandler-fail zone Any _

  pub SafeHandler-handle : (fh : Option ℕ) → SafeHandler zone (ContainedOption zone) (handle fh)
  unfolding handle ContainedOption
  SafeHandler-handle none = Contained.SafeHandler-reply zone ℕ (ContainedOption zone) none tt
  SafeHandler-handle (some fh) = Contained.SafeHandler-open_file zone ℕ fh

  -- What the policy gives to the host is in the zone.
  abbrev pub Covers : Policy → Type 0
  Covers policy = (p : FilePath) → policy.classify p ≡ passthrough → inside zone p ≡ true

  -- A change of attributes goes to the path in the zone only.
  SafeHandler-set_attributes :
      (d : SetattrDecision) (path : FilePath) (f : Option OpenFile) (c : Changes)
      → (d ≡ SetattrDecision.update_real_fs → inside zone path ≡ true)
      → ContainedOption zone f
      → SafeHandler zone Any (set_attributes d path f c)
  unfolding set_attributes ContainedOption
  SafeHandler-set_attributes SetattrDecision.update_open_handle path none c h i =
      SafeHandler-done tt
  SafeHandler-set_attributes SetattrDecision.update_open_handle path (some f) c h i =
      SafeHandler-try _ (SafeTry-update_open_handle zone f c i)
  SafeHandler-set_attributes SetattrDecision.update_real_fs path f c h i =
      SafeHandler-try _ (SafeTry-update_real_fs zone path c (h refl))
  SafeHandler-set_attributes SetattrDecision.update_daemon_meta path f c h i =
      SafeHandler-try _ (SafeTry-update_daemon_meta zone path c)

  SafeHandler-reply_statfs : (r : Result Error Statvfs) → SafeHandler zone Any (reply_statfs r)
  unfolding reply_statfs
  SafeHandler-reply_statfs (ok stat) = SafeHandler-done _
  SafeHandler-reply_statfs (err e) = Contained.SafeHandler-fail zone Any _

  pub SafeHandler-statfs : SafeHandler zone Any statfs
  unfolding statfs
  SafeHandler-statfs =
      Contained.SafeHandler-after zone Any _ _
        (SafeHandler-attempt-call HostCall.statvfs (λ q. unfold touches in refl))
        SafeHandler-reply_statfs

  pub SafeHandler-access : (ino : ℕ) → SafeHandler zone Any (access ino)
  unfolding access
  SafeHandler-access ino =
      Contained.SafeHandler-after zone Any _ _ (SafeHandler-get_path ino) (λ p. SafeHandler-done _)

  pub SafeHandler-fsyncdir : (ino : ℕ) → SafeHandler zone Any (fsyncdir ino)
  unfolding fsyncdir
  SafeHandler-fsyncdir ino =
      Contained.SafeHandler-after zone Any _ _ (SafeHandler-get_path ino) (λ p.
        Contained.SafeHandler->> zone Any _ _
          (SafeHandler-try _
            (Safe.SafeTry-call_pure zone (HostCall.sync_dir p) (λ q. unfold touches in refl)))
          (SafeHandler-done _))

  module _ (M : Mount) where
    pub SafeHandler-req_start :
        (caller : Caller) (op : Bytes) (path : FilePath)
        → SafeHandler zone Any (req_start M caller op path)
    unfolding req_start
    SafeHandler-req_start caller op path = elim (Bool-cases (M.policy.should_log path)) [
      | inl logged ↦ rw (logged) (
          Contained.SafeHandler-after zone Any _ _
            (Contained.SafeHandler-outcome zone _ (
              Contained.SafeHandler->> zone Any _ _ SafeHandler-connect_daemon
                (Contained.SafeHandler-lift zone Any _ (Safe.SafeTry-send zone _ _ refl))))
            (λ r. SafeHandler-done tt))
      | inr silent ↦ rw (silent) (SafeHandler-done tt)
    ]

    pub SafeHandler-stat_path : (path : FilePath) → SafeHandler zone Any (stat_path M path)
    unfolding stat_path
    SafeHandler-stat_path path = Contained.SafeHandler->> zone Any _ _ SafeHandler-connect_daemon (
        Contained.SafeHandler-after zone Any _ _
          (Contained.SafeHandler-lift zone Any _ (SafeTry-load_stat_state zone M.policy path))
          (λ s. SafeHandler-stat_decided (decide_stat s) path))

    pub SafeHandler-reply_stat :
        (make : FileAttr → Reply) (path : FilePath) → SafeHandler zone Any (reply_stat M make path)
    unfolding reply_stat
    SafeHandler-reply_stat make path =
        Contained.SafeHandler-after zone Any _ _
          (Contained.SafeHandler-or_errno zone Any _ (SafeHandler-stat_path path))
          (λ (kind, a). SafeHandler-done _)

    pub SafeHandler-lookup :
        (parent : ℕ) (name : Name) → SafeHandler zone Any (lookup M parent name)
    unfolding lookup
    SafeHandler-lookup parent name =
        Contained.SafeHandler-after zone Any _ _ (SafeHandler-get_child parent name)
          (SafeHandler-reply_stat Reply.entry)

    pub SafeHandler-getattr : (ino : ℕ) → SafeHandler zone Any (getattr M ino)
    unfolding getattr
    SafeHandler-getattr ino =
        Contained.SafeHandler-after zone Any _ _ (SafeHandler-get_path ino)
          (SafeHandler-reply_stat Reply.attr)

    pub SafeHandler-readlink : (ino : ℕ) → SafeHandler zone Any (readlink M ino)
    unfolding readlink
    SafeHandler-readlink ino =
        Contained.SafeHandler-after zone Any _ _ (SafeHandler-get_path ino) (λ p.
          Contained.SafeHandler->> zone Any _ _ SafeHandler-connect (
            Contained.SafeHandler-after zone Any _ _
              (SafeHandler-try _ (SafeTry-load_readlink_state zone M.policy p))
              (λ s.
                Contained.SafeHandler-after zone Any _ _
                  (SafeHandler-try _ (SafeTry-execute_readlink zone (decide_readlink s) p))
                  (λ target. SafeHandler-done _))))

    real_is_passthrough :
        (path : FilePath) (there : Bool) (found : Bool) (c : Changes)
        → decide_setattr (load_setattr_state M.policy path there found c.mode c.uid c.gid c.size)
          ≡ SetattrDecision.update_real_fs
        → M.policy.classify path ≡ passthrough
    unfolding decide_setattr load_setattr_state
    real_is_passthrough path there found c e = ground (arith, e)

    pub SafeHandler-setattr :
        (ino : ℕ) (c : Changes) (fh : Option ℕ)
        → Covers M.policy
        → SafeHandler zone Any (setattr M ino c fh)
    unfolding setattr
    SafeHandler-setattr ino c fh covers =
        Contained.SafeHandler-after zone Any _ _ (SafeHandler-get_path ino) (λ p.
          Contained.SafeHandler->> zone Any _ _ SafeHandler-connect (
            Contained.SafeHandler->>= zone (ContainedOption zone) Any _ _ (SafeHandler-handle fh)
              (λ f i.
                Contained.SafeHandler->> zone Any _ _
                  (SafeHandler-set_attributes _ p f c
                    (λ e. covers p (real_is_passthrough p (is_some fh) (is_some f) c e)) i)
                  (SafeHandler-reply_stat Reply.attr p))))
