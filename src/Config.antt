-- ===== src/Config.antt =====
-- The configuration (src/config).
pub mod Policy
