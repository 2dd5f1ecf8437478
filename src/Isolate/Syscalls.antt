-- ===== src/Isolate/Syscalls.antt =====
-- src/isolate/seccomp.rs: ALLOW_SYSCALLS.
use coding_agent_sandbox.Common.{List, [], ◌∷◌, codes}
use coding_agent_sandbox.FilePath.{Name}

unfoldable pub allow_syscalls : List Name
allow_syscalls =
    codes "restart_syscall"
    ∷ codes "shutdown"
    ∷ codes "pread"
    ∷ codes "pwrite"
    ∷ codes "wait"
    ∷ codes "eventfd"
    ∷ codes "prlimit"
    ∷ codes "preadv"
    ∷ codes "preadv2"
    ∷ codes "inotify_rm_watch"
    ∷ codes "inotify_init"
    ∷ codes "fadvise"
    ∷ codes "read"
    ∷ codes "readv"
    ∷ codes "write"
    ∷ codes "writev"
    ∷ codes "pwritev"
    ∷ codes "pread64"
    ∷ codes "pwrite64"
    ∷ codes "open"
    ∷ codes "openat"
    ∷ codes "close"
    ∷ codes "close_range"
    ∷ codes "stat"
    ∷ codes "lstat"
    ∷ codes "fstat"
    ∷ codes "access"
    ∷ codes "faccessat"
    ∷ codes "readlink"
    ∷ codes "readlinkat"
    ∷ codes "getcwd"
    ∷ codes "getdents64"
    ∷ codes "mkdir"
    ∷ codes "rmdir"
    ∷ codes "unlink"
    ∷ codes "link"
    ∷ codes "symlink"
    ∷ codes "rename"
    ∷ codes "chmod"
    ∷ codes "fchmod"
    ∷ codes "chown"
    ∷ codes "fchown"
    ∷ codes "lchown"
    ∷ codes "mount"
    ∷ codes "umount"
    ∷ codes "umount2"
    ∷ codes "truncate"
    ∷ codes "ftruncate"
    ∷ codes "fallocate"
    ∷ codes "mmap"
    ∷ codes "mprotect"
    ∷ codes "munmap"
    ∷ codes "mremap"
    ∷ codes "msync"
    ∷ codes "brk"
    ∷ codes "madvise"
    ∷ codes "dup"
    ∷ codes "dup2"
    ∷ codes "dup3"
    ∷ codes "pipe"
    ∷ codes "pipe2"
    ∷ codes "select"
    ∷ codes "poll"
    ∷ codes "epoll_create"
    ∷ codes "epoll_create1"
    ∷ codes "epoll_ctl"
    ∷ codes "epoll_wait"
    ∷ codes "epoll_pwait"
    ∷ codes "epoll_pwait2"
    ∷ codes "pselect6"
    ∷ codes "ppoll"
    ∷ codes "rt_sigaction"
    ∷ codes "rt_sigprocmask"
    ∷ codes "rt_sigsuspend"
    ∷ codes "rt_sigreturn"
    ∷ codes "sigaltstack"
    ∷ codes "kill"
    ∷ codes "getsockopt"
    ∷ codes "setsockopt"
    ∷ codes "getpeername"
    ∷ codes "getsockname"
    ∷ codes "socket"
    ∷ codes "socketpair"
    ∷ codes "bind"
    ∷ codes "listen"
    ∷ codes "accept"
    ∷ codes "connect"
    ∷ codes "shmget"
    ∷ codes "shmat"
    ∷ codes "shmctl"
    ∷ codes "clock_gettime"
    ∷ codes "clock_getres"
    ∷ codes "clock_nanosleep"
    ∷ codes "gettimeofday"
    ∷ codes "time"
    ∷ codes "nanosleep"
    ∷ codes "alarm"
    ∷ codes "setitimer"
    ∷ codes "getpid"
    ∷ codes "gettid"
    ∷ codes "getppid"
    ∷ codes "getpgrp"
    ∷ codes "getsid"
    ∷ codes "getuid"
    ∷ codes "getgid"
    ∷ codes "geteuid"
    ∷ codes "getegid"
    ∷ codes "setuid"
    ∷ codes "setgid"
    ∷ codes "seteuid"
    ∷ codes "setegid"
    ∷ codes "setreuid"
    ∷ codes "setregid"
    ∷ codes "getgroups"
    ∷ codes "setgroups"
    ∷ codes "getresuid"
    ∷ codes "getresgid"
    ∷ codes "setresuid"
    ∷ codes "setresgid"
    ∷ codes "getpgid"
    ∷ codes "setpgid"
    ∷ codes "setsid"
    ∷ codes "setns"
    ∷ codes "uname"
    ∷ codes "sysinfo"
    ∷ codes "syslog"
    ∷ codes "getrlimit"
    ∷ codes "setrlimit"
    ∷ codes "getrusage"
    ∷ codes "umask"
    ∷ codes "prctl"
    ∷ codes "prlimit64"
    ∷ codes "getrandom"
    ∷ codes "execve"
    ∷ codes "vfork"
    ∷ codes "exit"
    ∷ codes "exit_group"
    ∷ codes "wait4"
    ∷ codes "waitid"
    ∷ codes "personality"
    ∷ codes "arch_prctl"
    ∷ codes "recvfrom"
    ∷ codes "sendto"
    ∷ codes "recvmsg"
    ∷ codes "sendmsg"
    ∷ codes "set_tid_address"
    ∷ codes "set_robust_list"
    ∷ codes "rseq"
    ∷ codes "futex"
    ∷ codes "futex_waitv"
    ∷ codes "clone"
    ∷ codes "clone3"
    ∷ codes "tgkill"
    ∷ codes "tkill"
    ∷ codes "ioctl"
    ∷ codes "lseek"
    ∷ codes "sendfile"
    ∷ codes "copy_file_range"
    ∷ codes "fcntl"
    ∷ codes "flock"
    ∷ codes "fadvise64"
    ∷ codes "sync"
    ∷ codes "fsync"
    ∷ codes "fdatasync"
    ∷ codes "syncfs"
    ∷ codes "newfstatat"
    ∷ codes "statx"
    ∷ codes "openat2"
    ∷ codes "mkdirat"
    ∷ codes "unlinkat"
    ∷ codes "renameat"
    ∷ codes "renameat2"
    ∷ codes "linkat"
    ∷ codes "symlinkat"
    ∷ codes "fchmodat"
    ∷ codes "fchownat"
    ∷ codes "faccessat2"
    ∷ codes "getdents"
    ∷ codes "inotify_init1"
    ∷ codes "inotify_add_watch"
    ∷ codes "eventfd2"
    ∷ codes "io_uring_setup"
    ∷ codes "io_uring_enter"
    ∷ codes "io_uring_register"
    ∷ codes "pidfd_open"
    ∷ codes "timerfd_create"
    ∷ codes "timerfd_settime"
    ∷ codes "timerfd_gettime"
    ∷ codes "signalfd4"
    ∷ codes "accept4"
    ∷ codes "recvmmsg"
    ∷ codes "sendmmsg"
    ∷ codes "setfsuid"
    ∷ codes "setfsgid"
    ∷ codes "sched_getparam"
    ∷ codes "sched_setscheduler"
    ∷ codes "sched_getscheduler"
    ∷ codes "sched_yield"
    ∷ codes "sched_getaffinity"
    ∷ codes "sched_setaffinity"
    ∷ codes "pkey_alloc"
    ∷ codes "capget"
    ∷ codes "capset"
    ∷ codes "chdir"
    ∷ codes "fchdir"
    ∷ codes "chroot"
    ∷ codes "pivot_root"
    ∷ codes "statfs"
    ∷ codes "fstatfs"
    ∷ codes "getxattr"
    ∷ codes "lgetxattr"
    ∷ codes "fgetxattr"
    ∷ codes "listxattr"
    ∷ codes "llistxattr"
    ∷ codes "flistxattr"
    ∷ codes "memfd_create"
    ∷ codes "memfd_secret"
    ∷ codes "mlock"
    ∷ codes "mlock2"
    ∷ codes "munlock"
    ∷ codes "mlockall"
    ∷ codes "munlockall"
    ∷ codes "splice"
    ∷ codes "tee"
    ∷ codes "vmsplice"
    ∷ codes "utimensat"
    ∷ codes "utimes"
    ∷ codes "utime"
    ∷ codes "clock_settime"
    ∷ codes "settimeofday"
    ∷ []
