-- ===== src/Fuse.antt =====
-- The filesystem process (src/fuse).
pub mod Policy
pub mod State
pub mod Decision
pub mod Readdir
pub mod StateLoader
pub mod Inode
pub mod Attr
pub mod OpenFile
pub mod Executor
pub mod Handler
pub mod Inner
pub mod Walk
pub mod Fs
