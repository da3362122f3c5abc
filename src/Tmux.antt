-- ===== src/Tmux.antt =====
-- src/tmux.rs: the commands that are run, and what their output is read as. Running them is left out.
pub mod Command
pub mod Args
pub mod Panes
pub mod History
