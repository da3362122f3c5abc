-- ===== src/SessionHistory.antt =====
-- src/session_history.rs: the per-session record of commands, cut out of a terminal's byte stream.
pub mod Marker
pub mod Entry
pub mod Segmenter
pub mod Cursor
pub mod Store
pub mod Page
pub mod Backward
