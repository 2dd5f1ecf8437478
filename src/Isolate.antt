-- ===== src/Isolate.antt =====
-- src/isolate: the namespaces, mounts and system call filter of the sandboxed command.
pub mod Stage1
pub mod Stage2
pub mod Seccomp
pub mod Syscalls
pub mod Confines
pub mod Steps
