-- ===== src/Tests.antt =====
-- Concrete runs, and each theorem that has conditions at an instance of them.
mod Tree
mod Daemon
mod Storage
mod Mount
mod Filesystem
mod Globbing
mod Processes
mod Messages
