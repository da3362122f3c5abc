-- ===== src/Proxy.antt =====
-- src/proxy.rs: the headers of a request that is forwarded, and the configured targets.
pub mod Cookies
pub mod Headers
