-- ===== src/Server.antt =====
-- src/syncing/server.rs: the daemon. Its definitions, and what is proved of them.
pub mod Connection
pub mod State
pub mod Objects
pub mod Entries
pub mod Dispatch
pub mod Indexed
pub mod Renames
pub mod Steps
pub mod Listing
pub mod Owned
pub mod Isolation
pub mod Private
