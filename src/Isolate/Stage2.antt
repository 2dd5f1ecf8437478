-- ===== src/Isolate/Stage2.antt =====
-- src/isolate/stage2.rs: the mount namespace, the root of the sandbox and the capabilities.
use coding_agent_sandbox.Common.{true, false, Option, none, some, List, [], ◌∷◌, codes}
use coding_agent_sandbox.FilePath.{FilePath, Name, join}
use coding_agent_sandbox.Sys.{
  Errno, Namespace, MountFlag, Mount, CapSet, SysCall, invoke, Try, ◌>>◌, pure, map_err, call,
}

pub data Stage2Error : Type 0 where
  create_mount_ns_err set_mount_private : Errno → Stage2Error
  mount : Option FilePath → FilePath → Errno → Stage2Error
  mount_io : Errno → Stage2Error
  chroot chdir : FilePath → Errno → Stage2Error
  drop_caps : Name → Stage2Error

abbrev pub root_path : FilePath
root_path = record { absolute = true; names = [] }

abbrev relative : Name → FilePath
relative name = record { absolute = false; names = name ∷ [] }

abbrev pub private_root : Mount
private_root = record {
  source = none;
  target = root_path;
  fstype = none;
  flags = MountFlag.ms_private ∷ MountFlag.ms_rec ∷ [];
  options = none;
}

unfoldable pub create_mount_ns : Try Stage2Error (Unit {0})
create_mount_ns = do
  call (SysCall.unshare Namespace.mount) (map_err Stage2Error.create_mount_ns_err)
  call (SysCall.mount private_root) (map_err Stage2Error.set_mount_private)
  pure tt

-- `mount(..).map_err(..)` with the error that names source and target
unfoldable pub mounted : Mount → Try Stage2Error (Unit {0})
mounted m = call (SysCall.mount m) (map_err (Stage2Error.mount m.source m.target))

-- A bind mount, of the tree below the source or of the source alone.
abbrev pub bind_tree : FilePath → FilePath → Mount
bind_tree source target = record {
  source = some source;
  target = target;
  fstype = none;
  flags = MountFlag.ms_bind ∷ MountFlag.ms_rec ∷ [];
  options = none;
}

abbrev pub bind_one : FilePath → FilePath → Mount
bind_one source target = record (bind_tree source target) { flags = MountFlag.ms_bind ∷ [] }

unfoldable pub bind_mount_fuse : FilePath → FilePath → Try Stage2Error (Unit {0})
unfolding mounted
bind_mount_fuse mountpoint rootfs = mounted (bind_tree mountpoint rootfs)

unfoldable pub bind_mount_proc : FilePath → Try Stage2Error (Unit {0})
unfolding mounted
bind_mount_proc rootfs =
    mounted (bind_tree (join root_path (codes "proc")) (join rootfs (codes "proc")))

abbrev pub dev_devices : List Name
dev_devices = codes "null" ∷ codes "zero" ∷ codes "urandom" ∷ codes "random" ∷ []

unfoldable pub bind_devices : FilePath → List Name → Try Stage2Error (Unit {0})
unfolding mounted
bind_devices dev_target [] = pure tt
bind_devices dev_target (dev ∷ devs) = do
  mounted (bind_one (join (join root_path (codes "dev")) dev) (join dev_target dev))
  bind_devices dev_target devs

abbrev pub devpts : FilePath → Mount
devpts target = record {
  source = some (relative (codes "devpts"));
  target = target;
  fstype = some (codes "devpts");
  flags = MountFlag.ms_nosuid ∷ MountFlag.ms_noexec ∷ [];
  options = some (codes "newinstance,mode=666,ptmxmode=666");
}

unfoldable pub bind_tty : FilePath → Option FilePath → Try Stage2Error (Unit {0})
unfolding mounted
bind_tty dev_target none = pure tt
bind_tty dev_target (some pty_slave) = mounted (bind_one pty_slave (join dev_target (codes "tty")))

unfoldable pub bind_mount_dev : FilePath → Option FilePath → Try Stage2Error (Unit {0})
unfolding mounted bind_devices bind_tty
bind_mount_dev rootfs pty_slave =
    let dev_target = join rootfs (codes "dev") in
    let target_pts = join dev_target (codes "pts") in
    do
      bind_devices dev_target dev_devices
      call (SysCall.create_dir_all target_pts) (map_err Stage2Error.mount_io)
      mounted (devpts target_pts)
      mounted (bind_one (join target_pts (codes "ptmx")) (join dev_target (codes "ptmx")))
      bind_tty dev_target pty_slave

abbrev pub tmpfs : FilePath → Mount
tmpfs target = record {
  source = some (relative (codes "tmpfs"));
  target = target;
  fstype = some (codes "tmpfs");
  flags = MountFlag.ms_nosuid ∷ MountFlag.ms_nodev ∷ [];
  options = none;
}

unfoldable pub bind_mount_tmpfs : FilePath → Try Stage2Error (Unit {0})
unfolding mounted
bind_mount_tmpfs target = mounted (tmpfs target)

-- The files that the device nodes are mounted on.
abbrev pub placeholders : List Name
placeholders = codes "null" ∷ codes "zero" ∷ codes "random" ∷ codes "urandom" ∷ []

unfoldable pub create_placeholders : FilePath → List Name → Try Stage2Error (Unit {0})
create_placeholders rootfs [] = pure tt
create_placeholders rootfs (dev ∷ devs) = do
  call (SysCall.create_file (join (join rootfs (codes "dev")) dev)) (map_err Stage2Error.mount_io)
  create_placeholders rootfs devs

unfoldable pub prepare_chroot :
    FilePath → FilePath → FilePath → Option FilePath → Try Stage2Error (Unit {0})
unfolding create_placeholders bind_mount_fuse bind_mount_proc bind_mount_dev bind_mount_tmpfs
prepare_chroot rootfs mountpoint cwd pty_slave = do
  call (SysCall.create_dir_all (join rootfs (codes "proc"))) (map_err Stage2Error.mount_io)
  call (SysCall.create_dir_all (join rootfs (codes "dev"))) (map_err Stage2Error.mount_io)
  create_placeholders rootfs placeholders
  bind_mount_fuse mountpoint rootfs
  bind_mount_proc rootfs
  bind_mount_dev rootfs pty_slave
  call (SysCall.chroot rootfs) (map_err (Stage2Error.chroot rootfs))
  call (SysCall.chdir cwd) (map_err (Stage2Error.chdir cwd))
  bind_mount_tmpfs (join root_path (codes "tmp"))
  pure tt

abbrev pub dropped : List Name
dropped =
    codes "CAP_CHOWN"
    ∷ codes "CAP_DAC_OVERRIDE"
    ∷ codes "CAP_DAC_READ_SEARCH"
    ∷ codes "CAP_FOWNER"
    ∷ codes "CAP_FSETID"
    ∷ codes "CAP_KILL"
    ∷ codes "CAP_SETGID"
    ∷ codes "CAP_SETUID"
    ∷ codes "CAP_SETPCAP"
    ∷ codes "CAP_LINUX_IMMUTABLE"
    ∷ codes "CAP_NET_BIND_SERVICE"
    ∷ codes "CAP_NET_BROADCAST"
    ∷ codes "CAP_NET_ADMIN"
    ∷ codes "CAP_NET_RAW"
    ∷ codes "CAP_IPC_LOCK"
    ∷ codes "CAP_IPC_OWNER"
    ∷ codes "CAP_SYS_MODULE"
    ∷ codes "CAP_SYS_RAWIO"
    ∷ codes "CAP_SYS_CHROOT"
    ∷ codes "CAP_SYS_PTRACE"
    ∷ codes "CAP_SYS_PACCT"
    ∷ codes "CAP_SYS_ADMIN"
    ∷ codes "CAP_SYS_BOOT"
    ∷ codes "CAP_SYS_NICE"
    ∷ codes "CAP_SYS_RESOURCE"
    ∷ codes "CAP_SYS_TIME"
    ∷ codes "CAP_SYS_TTY_CONFIG"
    ∷ codes "CAP_MKNOD"
    ∷ codes "CAP_LEASE"
    ∷ codes "CAP_AUDIT_WRITE"
    ∷ codes "CAP_AUDIT_CONTROL"
    ∷ codes "CAP_SETFCAP"
    ∷ []

-- `let _ = caps::drop(..)` in each set
unfoldable pub drop_each : List Name → Try Stage2Error (Unit {0})
drop_each [] = pure tt
drop_each (cap ∷ caps) = invoke (SysCall.cap_drop CapSet.effective cap) λ _.
    invoke (SysCall.cap_drop CapSet.permitted cap)
      λ _. invoke (SysCall.cap_drop CapSet.inheritable cap) λ _. drop_each caps

unfoldable pub drop_capabilities : Try Stage2Error (Unit {0})
unfolding drop_each
drop_capabilities = drop_each dropped
