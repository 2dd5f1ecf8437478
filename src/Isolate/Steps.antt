-- ===== src/Isolate/Steps.antt =====
-- Proof: the calls that each step of the isolation has made where it succeeds.
use coding_agent_sandbox.Common.{
  ℕ, ◌≡◌, Bool-cases, inl, inr, ◌==◌, nat_eq, Option, none, some, List, [], ◌∷◌, ◌++◌, codes, false,
}
use mathlib.Core.Path.{subst}
use mathlib.Core.List.{append-nil}
use coding_agent_sandbox.FilePath.{FilePath, Name, join}
use coding_agent_sandbox.Sys.{Result, ok, err, Namespace, SysCall, Mount}
use coding_agent_sandbox.Sys.Always.{Trace, Always, Always-weaken, OnOk}
use coding_agent_sandbox.Isolate.Stage1.{
  Stage1Error, UserNs, id_map, proc_self, write_id_map, enter, create_user_ns,
}
use coding_agent_sandbox.Isolate.Stage2.{
  Stage2Error, root_path, private_root, create_mount_ns, mounted, bind_tree, bind_one,
  bind_mount_fuse, bind_mount_proc, dev_devices, bind_devices, devpts, bind_tty, bind_mount_dev,
  tmpfs, bind_mount_tmpfs, placeholders, create_placeholders, prepare_chroot, dropped, drop_each,
  drop_capabilities,
}
use coding_agent_sandbox.Isolate.Seccomp.{
  SeccompError, add_resolved, add_syscall_allow, allow_each, allow_core_syscalls,
  apply_seccomp_filter,
}
use coding_agent_sandbox.Isolate.Syscalls.{allow_syscalls}
use coding_agent_sandbox.Isolate.Confines.{
  OnExec, Adds, Adds-then, done-Adds, unshare-Adds, mount-Adds, chroot-Adds, chdir-Adds,
  filter_add_rule-Adds, write_file-Adds, filter_load-Adds, filter_new-Adds, create_dir_all-Adds,
  create_file-Adds,
}

-- The calls of `create_user_ns`, newest first.
abbrev pub user_ns_calls : ℕ → ℕ → List SysCall
user_ns_calls uid gid =
    SysCall.write_file (proc_self (codes "gid_map")) (id_map gid)
    ∷ SysCall.write_file (proc_self (codes "uid_map")) (id_map uid)
    ∷ SysCall.write_file (proc_self (codes "setgroups")) (codes "deny\n")
    ∷ SysCall.unshare Namespace.user
    ∷ []

-- A user namespace has been entered after `t`, for a user and a group that are not 0.
abbrev pub HasUserNs : Trace → Trace → Type 0
HasUserNs u t =
    (uid : ℕ) × (gid : ℕ) × ((uid == 0) ≡ false)
    × ((gid == 0) ≡ false)
    × (u ≡ user_ns_calls uid gid ++ t)

named :
    (uid gid : ℕ) (t : Trace)
    → (uid == 0) ≡ false
    → (gid == 0) ≡ false
    → (u : Trace) (r : Result Stage1Error UserNs) → OnOk (λ u _. u ≡ user_ns_calls uid gid ++ t) u r
    → OnOk (λ u _. HasUserNs u t) u r
named uid gid t user group u (ok _) h = (uid, gid, user, group, h)
named uid gid t user group u (err _) h = tt

abbrev pub mount_ns_calls : List SysCall
mount_ns_calls = SysCall.mount private_root ∷ SysCall.unshare Namespace.mount ∷ []

abbrev pub tty_calls : FilePath → Option FilePath → List SysCall
tty_calls dev none = []
tty_calls dev (some slave) = SysCall.mount (bind_one slave (join dev (codes "tty"))) ∷ []

abbrev pub device_call : FilePath → Name → SysCall
device_call dev name =
    SysCall.mount (bind_one (join (join root_path (codes "dev")) name) (join dev name))

-- The calls of `bind_mount_dev` at `dev`.
abbrev pub dev_calls : FilePath → Option FilePath → List SysCall
dev_calls dev slave =
    tty_calls dev slave
    ++ SysCall.mount
        (bind_one (join (join dev (codes "pts")) (codes "ptmx")) (join dev (codes "ptmx")))
      ∷ SysCall.mount (devpts (join dev (codes "pts")))
      ∷ device_call dev (codes "random")
      ∷ device_call dev (codes "urandom")
      ∷ device_call dev (codes "zero")
      ∷ device_call dev (codes "null")
      ∷ []

-- The calls of `prepare_chroot`.
abbrev pub chroot_calls : FilePath → FilePath → FilePath → Option FilePath → List SysCall
chroot_calls rootfs mountpoint cwd slave =
    SysCall.mount (tmpfs (join root_path (codes "tmp")))
      ∷ SysCall.chdir cwd
      ∷ SysCall.chroot rootfs
      ∷ dev_calls (join rootfs (codes "dev")) slave
    ++ SysCall.mount (bind_tree (join root_path (codes "proc")) (join rootfs (codes "proc")))
      ∷ SysCall.mount (bind_tree mountpoint rootfs)
      ∷ []

unfoldable pub rule_of : Option ℕ → List SysCall
rule_of none = []
rule_of (some n) = SysCall.filter_add_rule n ∷ []

-- The rules for names, a name that the library does not know left out.
unfoldable pub rule_calls : (Name → Option ℕ) → List Name → List SysCall
unfolding rule_of
rule_calls from_name [] = []
rule_calls from_name (name ∷ names) = rule_calls from_name names ++ rule_of (from_name name)

-- The calls of `apply_seccomp_filter`.
abbrev pub filter_calls : (Name → Option ℕ) → List SysCall
filter_calls from_name = SysCall.filter_load ∷ rule_calls from_name allow_syscalls

module _ (R : Trace → Name → List Name → Type 0) where
  enter-Adds : (uid gid : ℕ) → Adds R (user_ns_calls uid gid) (enter uid gid)
  unfolding enter write_id_map
  enter-Adds uid gid = Adds-then R (unshare-Adds R Stage1Error.create_user_ns_err Namespace.user) (
      Adds-then R (write_file-Adds R Stage1Error.write_gid_map _ _) (
        Adds-then R (write_file-Adds R Stage1Error.write_uid_map _ _) (
          Adds-then R (write_file-Adds R Stage1Error.write_gid_map _ _)
            (done-Adds R Stage1Error _))))

  pub create_mount_ns-Adds : Adds R mount_ns_calls create_mount_ns
  unfolding create_mount_ns
  create_mount_ns-Adds =
      Adds-then R (unshare-Adds R Stage2Error.create_mount_ns_err Namespace.mount) (
        Adds-then R (mount-Adds R Stage2Error.set_mount_private private_root)
          (done-Adds R Stage2Error tt))

  mounted-Adds : (m : Mount) → Adds R (SysCall.mount m ∷ []) (mounted m)
  unfolding mounted
  mounted-Adds m = mount-Adds R (Stage2Error.mount m.source m.target) m

  bind_tty-Adds :
      (dev : FilePath) (slave : Option FilePath) → Adds R (tty_calls dev slave) (bind_tty dev slave)
  unfolding bind_tty
  bind_tty-Adds dev none = done-Adds R Stage2Error tt
  bind_tty-Adds dev (some slave) = mounted-Adds (bind_one slave (join dev (codes "tty")))

  bind_devices-Adds :
      (dev : FilePath)
      → Adds R
          (device_call dev (codes "random")
            ∷ device_call dev (codes "urandom")
            ∷ device_call dev (codes "zero")
            ∷ device_call dev (codes "null")
            ∷ [])
          (bind_devices dev dev_devices)
  unfolding bind_devices
  bind_devices-Adds dev = Adds-then R (mounted-Adds _) (
      Adds-then R (mounted-Adds _)
        (Adds-then R (mounted-Adds _) (Adds-then R (mounted-Adds _) (done-Adds R Stage2Error tt))))

  bind_mount_dev-Adds :
      (rootfs : FilePath) (slave : Option FilePath)
      → Adds R (dev_calls (join rootfs (codes "dev")) slave) (bind_mount_dev rootfs slave)
  unfolding bind_mount_dev
  bind_mount_dev-Adds rootfs none = Adds-then R (bind_devices-Adds (join rootfs (codes "dev"))) (
      Adds-then R (create_dir_all-Adds R Stage2Error.mount_io _) (
        Adds-then R (mounted-Adds _)
          (Adds-then R (mounted-Adds _) (bind_tty-Adds (join rootfs (codes "dev")) none))))
  bind_mount_dev-Adds rootfs (some slave) =
      Adds-then R (bind_devices-Adds (join rootfs (codes "dev"))) (
        Adds-then R (create_dir_all-Adds R Stage2Error.mount_io _) (
          Adds-then R (mounted-Adds _) (
            Adds-then R (mounted-Adds _) (bind_tty-Adds (join rootfs (codes "dev")) (some slave)))))

  create_placeholders-Adds :
      (rootfs : FilePath) (names : List Name) → Adds R [] (create_placeholders rootfs names)
  unfolding create_placeholders
  create_placeholders-Adds rootfs [] = done-Adds R Stage2Error tt
  create_placeholders-Adds rootfs (dev ∷ devs) =
      Adds-then R (create_file-Adds R Stage2Error.mount_io _) (create_placeholders-Adds rootfs devs)

  pub prepare_chroot-Adds :
      (rootfs mountpoint cwd : FilePath) (slave : Option FilePath)
      → Adds R
          (chroot_calls rootfs mountpoint cwd slave)
          (prepare_chroot rootfs mountpoint cwd slave)
  unfolding prepare_chroot bind_mount_fuse bind_mount_proc bind_mount_tmpfs
  prepare_chroot-Adds rootfs mountpoint cwd none =
      Adds-then R (create_dir_all-Adds R Stage2Error.mount_io _) (
        Adds-then R (create_dir_all-Adds R Stage2Error.mount_io _) (
          Adds-then R (create_placeholders-Adds rootfs placeholders) (
            Adds-then R (mounted-Adds _) (
              Adds-then R (mounted-Adds _) (
                Adds-then R (bind_mount_dev-Adds rootfs none) (
                  Adds-then R (chroot-Adds R (Stage2Error.chroot rootfs) rootfs) (
                    Adds-then R (chdir-Adds R (Stage2Error.chdir cwd) cwd)
                      (Adds-then R (mounted-Adds _) (done-Adds R Stage2Error tt)))))))))
  prepare_chroot-Adds rootfs mountpoint cwd (some slave) =
      Adds-then R (create_dir_all-Adds R Stage2Error.mount_io _) (
        Adds-then R (create_dir_all-Adds R Stage2Error.mount_io _) (
          Adds-then R (create_placeholders-Adds rootfs placeholders) (
            Adds-then R (mounted-Adds _) (
              Adds-then R (mounted-Adds _) (
                Adds-then R (bind_mount_dev-Adds rootfs (some slave)) (
                  Adds-then R (chroot-Adds R (Stage2Error.chroot rootfs) rootfs) (
                    Adds-then R (chdir-Adds R (Stage2Error.chdir cwd) cwd)
                      (Adds-then R (mounted-Adds _) (done-Adds R Stage2Error tt)))))))))

  drop_each-Adds : (caps : List Name) → Adds R [] (drop_each caps)
  unfolding drop_each Always
  drop_each-Adds [] = done-Adds R Stage2Error tt
  drop_each-Adds (cap ∷ caps) = record {
    always = λ t. (tt, λ a. (tt, λ b. (tt, λ c. (drop_each-Adds caps).always t)));
  }

  pub drop_capabilities-Adds : Adds R [] drop_capabilities
  unfolding drop_capabilities
  drop_capabilities-Adds = drop_each-Adds dropped

  -- Where it succeeds, neither the user nor the group is 0.
  pub create_user_ns-confines :
      (t : Trace) → Always (OnExec R) (OnOk (λ u _. HasUserNs u t)) t create_user_ns
  unfolding create_user_ns Always
  create_user_ns-confines t = (
    tt,
    λ uid. (
      tt,
      λ gid. elim (Bool-cases (uid == 0)) [
        | inl root ↦ rw root tt
        | inr user ↦ elim (Bool-cases (gid == 0)) [
          | inl root_group ↦ rw (user, root_group) tt
          | inr group ↦
              rw (user, group)
                (Always-weaken (OnExec R) (OnOk (λ u _. u ≡ user_ns_calls uid gid ++ t)) _ t
                  (enter uid gid) (named uid gid t user group) ((enter-Adds uid gid).always t))
        ]
      ],
    ),
  )

  module _ (from_name : Name → Option ℕ) where
    rule-Adds : (n : Option ℕ) → Adds R (rule_of n) (add_resolved from_name n)
    unfolding add_resolved rule_of
    rule-Adds none = done-Adds R SeccompError tt
    rule-Adds (some n) = filter_add_rule-Adds R SeccompError.add_syscall n

    allow_each-Adds :
        (names : List Name) → Adds R (rule_calls from_name names) (allow_each from_name names)
    unfolding allow_each add_syscall_allow rule_calls
    allow_each-Adds [] = done-Adds R SeccompError tt
    allow_each-Adds (name ∷ names) =
        Adds-then R (rule-Adds (from_name name)) (allow_each-Adds names)

    pub apply_seccomp_filter-Adds : Adds R (filter_calls from_name) (apply_seccomp_filter from_name)
    unfolding apply_seccomp_filter allow_core_syscalls
    apply_seccomp_filter-Adds =
        subst (λ rules. Adds R (SysCall.filter_load ∷ rules) (apply_seccomp_filter from_name))
          (append-nil (rule_calls from_name allow_syscalls))
          (Adds-then R (filter_new-Adds R SeccompError.init) (
            Adds-then R (allow_each-Adds allow_syscalls)
              (Adds-then R (filter_load-Adds R SeccompError.load) (done-Adds R SeccompError tt))))
