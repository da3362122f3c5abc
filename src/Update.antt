-- ===== src/Update.antt =====
-- src/update.rs: the version check and its cache.
pub mod SemVer
pub mod Index
pub mod State
pub mod Asset
