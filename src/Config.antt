-- ===== src/Config.antt =====
-- src/config.rs: the suggestion for a key that is not known.
pub mod Suggestion
