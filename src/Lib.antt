-- ===== src/Lib.antt =====
-- Verification of mobux: the record that the server keeps of a terminal session, and the parts around it
-- that decide who reaches it, what is fetched and what is run.
--
-- A tmux pane or a client's PTY gives a stream of bytes. `Segmenter` (src/session_history.rs) cuts it into
-- commands and raw output: it waits for OSC 133 markers, keeps a `CursorModel` (src/terminal_cursor.rs) to
-- know the command line that was typed and, for a pane, a `ScreenModel` (src/screen_model.rs) to tell what
-- a full-screen program drew. The entries go to `SessionHistoryStore`, which appends them to one file of
-- JSON lines for each session, trims it, and serves pages of it forward and backward by opaque cursors.
-- Text that is sent on is decoded by `Utf8Stream` (src/utf8_stream.rs). The markers come from shells whose
-- start files hold the block that src/shell_integration.rs manages.
--
-- tmux is driven by command lines, local or through ssh (src/tmux.rs). A request meets the middleware of
-- src/main.rs, which asks for a password or the session cookie, or, on the Access listener, the gate of
-- src/access.rs, which looks for a token in its headers, verifies it with keys that it caches, and takes
-- the token off, with the help of the header rewriting that the proxy (src/proxy.rs) uses as well. The
-- server asks a package index for newer versions (src/update.rs), and takes binaries and model files from
-- release archives that it verifies (src/release_asset.rs). Files of the host are served from
-- directories that a request cannot leave (src/files.rs).
--
-- The files, with what they model:
--   Prelude, Prelude/*        lists, options, results and integers over native numbers
--   External, External/Http   vte, vt100, base64, serde_json and the http crate as parameters, with what is
--                             relied on
--   Strings, Strings/*        what is called of Rust's `str`
--   Utf8, Utf8/*              `str::from_utf8`, `from_utf8_lossy` and encoding, of the standard library
--   Utf8/Stream               src/utf8_stream.rs, `Utf8Stream`
--   TerminalCursor            src/terminal_cursor.rs, `ScreenState`, its `Perform`, and `CursorModel`
--   ScreenModel/Lead          src/screen_model.rs, `Lead`, `parse_lead`, `held_tail_start`
--   ScreenModel/NewRows       src/screen_model.rs, `new_rows`
--   ScreenModel/Model         src/screen_model.rs, `ScreenModel`
--   SessionHistory/Entry      src/session_history.rs, the entries, and `floor_char_boundary`
--   SessionHistory/Marker     src/session_history.rs, `try_match_marker` and what it calls
--   SessionHistory/Segmenter  src/session_history.rs, `Segmenter`
--   SessionHistory/Store      src/session_history.rs, `SessionHistoryStore`: slots, feeders, append, trim
--   SessionHistory/Page       src/session_history.rs, `read_page` and `scan_forward`
--   SessionHistory/Backward   src/session_history.rs, `BackwardLines`, `read_tail` and `read_before`
--   SessionHistory/Cursor     src/session_history.rs, `encode_cursor` and `decode_cursor`
--   Update                    src/update.rs, `SemVer`, `latest_from_index`, `UpdateState`, and
--                             src/update_cli.rs, `decide`
--   ReleaseAsset              src/release_asset.rs, `verify`, `extract`, `download`, `fetch_into`
--   Tmux                      src/tmux.rs, the command lines and what is read of their output
--   Proxy                     src/proxy.rs, `ProxyTargets` and the rewriting of headers
--   Access                    src/access.rs, `Verifier`, `guard`; src/main.rs, `PublicPath`
--   Auth                      src/main.rs, `auth_middleware`, `build_session_cookie`
--   Files                     src/files.rs, `FileRoots`, `serve` and what it calls, `content_disposition`
--   ShellIntegration          src/shell_integration.rs, `find_block`, `install`, `uninstall`
--   Config                    src/config.rs, `unknown_field_suggestion`
--   Tests, Tests/*            concrete parsers and parameters, and each theorem at a concrete input
-- The folder of a file holds its theorems.
--
-- State is passed explicitly: a method that takes `&mut self` gives the new record and its result, and a
-- method that pushes entries gives them as a list. A file is the list of its bytes. The clock is an
-- argument, and so is what the network or a process answers. A number is a natural number without an upper
-- end, where the code has `usize`, `i64` or `u64`, except for sequence numbers, which wrap at 2^64. Numbers
-- that are read from text are bound by their width.
--
-- Parameters stand for what the program takes from elsewhere: the parsers vte and vt100, base64 and
-- serde_json, the http crate, percent-encoding, jsonwebtoken, SHA-256, the reader of tar archives, lower
-- case of Unicode, and the file system's `canonicalize` and `metadata`.
--
-- Loops that are not structural run on fuel, each with more than it needs: `segment_loop` on one more than
-- the bytes in the buffer, of which each round but the last takes one at least; `decode_loop` on the
-- length of its input; `find_end` on the offset that it searches down from; `next_line_loop` on one more
-- than the bytes not read yet; `walk` on two more than what is left of the file and the buffer;
-- `ceil_from` on the bytes of the output that are kept, behind which there is a boundary; `print_digits` on
-- one more than the number.
--
-- Not modelled: poisoned mutexes; I/O errors of writing, where no file here says otherwise; processes,
-- sockets and the forwarding of requests; the settings records and their sources; the floating-point,
-- database and speech code of the server; the web client.
pub mod Prelude
pub mod Utf8
pub mod Strings
pub mod External
pub mod Update
pub mod ReleaseAsset
pub mod Tmux
pub mod Proxy
pub mod Access
pub mod ShellIntegration
pub mod Config
pub mod Files
pub mod Auth
pub mod TerminalCursor
pub mod ScreenModel
pub mod SessionHistory
pub mod Tests
