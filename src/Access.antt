-- ===== src/Access.antt =====
-- src/access.rs: the check of Cloudflare's tokens on the listener behind it.
pub mod Tokens
pub mod Keys
pub mod Guard
