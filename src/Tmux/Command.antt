-- ===== src/Tmux/Command.antt =====
-- src/tmux.rs: the commands that are run, here or through `ssh`.
pub mod Words
use mobux.Prelude.{
  ℕ, Bool, true, false, not, ◌&&◌, ◌||◌, List, [], ◌∷◌, ◌++◌, Option, none, some, ◌==◌, within,
  if◌then◌else◌, is_empty, map,
}
use mobux.Strings.{chars, join, split_whitespace, trim, trim_end_char, contains}
use mobux.Utf8.{Bytes, Text, from_utf8_lossy, eq_bytes}

pub record Command : Type 0 where
  pub program : Text
  pub args : List Text

-- `s.replace('\'', r"'\''")`
unfoldable pub escape_quotes : Text → Text
escape_quotes [] = []
escape_quotes (c ∷ s) =
    let rest = escape_quotes s in
    if c == b'\'' then b'\'' ∷ b'\\' ∷ b'\'' ∷ b'\'' ∷ rest else c ∷ rest

unfoldable pub shell_quote : Text → Text
unfolding escape_quotes
shell_quote s = b'\'' ∷ (escape_quotes s ++ b'\'' ∷ [])

unfoldable pub ssh_exec_command : Text → Text → Command
ssh_exec_command ssh_target remote_cmd = record {
  program = chars "ssh";
  args =
      chars "-o"
      ∷ chars "BatchMode=yes"
      ∷ chars "-o"
      ∷ chars "ConnectTimeout=3"
      ∷ ssh_target
      ∷ chars "--"
      ∷ remote_cmd
      ∷ [];
}

-- The single string that the remote shell is given.
unfoldable pub remote_tmux : List Text → Text
unfolding shell_quote join
remote_tmux tmux_args = chars "tmux " ++ join (chars " ") (map shell_quote tmux_args)

-- `-L` and the socket, where `MOBUX_TMUX_SOCKET` is set and not empty.
unfoldable pub socket_args : Option Text → List Text
socket_args none = []
socket_args (some socket) = if is_empty socket then [] else chars "-L" ∷ socket ∷ []

-- The first argument is the environment's `MOBUX_TMUX_SOCKET`.
unfoldable pub tmux_command : Option Text → Option Text → List Text → Command
unfolding socket_args
tmux_command socket none tmux_args = record {
  program = chars "tmux";
  args = socket_args socket ++ tmux_args;
}
tmux_command socket (some ssh_target) tmux_args =
    ssh_exec_command ssh_target (remote_tmux tmux_args)

abbrev is_ascii_alphanumeric : ℕ → Bool
is_ascii_alphanumeric c = within b'a' b'z' c || within b'A' b'Z' c || within b'0' b'9' c

unfoldable pub socket_tag : Text → Text
socket_tag [] = []
socket_tag (c ∷ t) = (if is_ascii_alphanumeric c then c else b'_') ∷ socket_tag t

unfoldable pub pipe_pane_fifo_path : Text → Text → Text
unfolding socket_tag
pipe_pane_fifo_path tmux_bin session =
    chars "/tmp/mobux-histpipe-" ++ socket_tag tmux_bin ++ b'-' ∷ (session ++ chars ".fifo")

unfoldable pub tmux_program_and_args : Text → Option (Text × List Text)
unfolding split_whitespace
tmux_program_and_args tmux_bin = elim (split_whitespace tmux_bin) [
  | [] ↦ none
  | program ∷ args ↦ some (program, args)
]

unfoldable pub build_write_remote_command : Text → Text → Text → Command × Text
unfolding shell_quote
build_write_remote_command ssh_target dest_dir filename =
    let dest = trim_end_char b'/' dest_dir ++ b'/' ∷ filename in
    let remote_cmd =
      chars "mkdir -p " ++ shell_quote dest_dir ++ chars " && cat > " ++ shell_quote dest in
    (ssh_exec_command ssh_target remote_cmd, dest)

-- What a command printed, and whether it succeeded.
pub record Output : Type 0 where
  pub success : Bool
  pub stdout : Bytes
  pub stderr : Bytes

-- `String::from_utf8_lossy(&output.stderr).trim()`
unfoldable pub message : Output → Text
unfolding trim from_utf8_lossy
message output = trim (from_utf8_lossy output.stderr)

unfoldable pub is_no_server_error : Text → Bool
unfolding contains
is_no_server_error msg =
    contains (chars "failed to connect to server") msg
    || contains (chars "no server running") msg
    || contains (chars "error connecting to") msg
