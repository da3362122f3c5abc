-- ===== src/Tmux/Args.antt =====
-- src/tmux.rs: the arguments of the commands that act on a session.
pub mod Literal
use mobux.Prelude.Result.{Result, ok, err}
use mobux.Prelude.{
  ℕ, Bool, true, false, not, ◌||◌, List, [], ◌∷◌, ◌++◌, Option, none, some, ◌==◌, if◌then◌else◌,
  is_empty,
}
use mobux.Strings.{chars, contains, strip_last}
use mobux.Tmux.Command.{Output, message}
use mobux.Utf8.{Text, eq_bytes, from_utf8_lossy}

-- The display of the home directory, where it is known.
unfoldable pub home_args : Option Text → List Text
home_args none = []
home_args (some home) = chars "-c" ∷ home ∷ []

unfoldable pub optional : Option Text → List Text
optional none = []
optional (some cmd) = cmd ∷ []

unfoldable pub new_session_args : Text → Option Text → Option Text → List Text
new_session_args name shell_cmd home =
    (chars "new-session" ∷ chars "-d" ∷ home_args home)
    ++ ((chars "-s" ∷ name ∷ []) ++ optional shell_cmd)

unfoldable pub exact_target : Text → Text
exact_target session = chars "=" ++ session ++ chars ":"

unfoldable pub command_args : Text → Text → Result (List Text) Text
command_args session command =
    let t = chars "-t" in
    let win_target = exact_target session in
    if eq_bytes command (chars "new-window")
    then ok (chars "new-window" ∷ t ∷ win_target ∷ [])
    else if eq_bytes command (chars "kill-window")
    then ok (chars "kill-window" ∷ t ∷ win_target ∷ [])
    else if eq_bytes command (chars "split-h")
    then ok (chars "split-window" ∷ chars "-h" ∷ t ∷ win_target ∷ [])
    else if eq_bytes command (chars "split-v")
    then ok (chars "split-window" ∷ chars "-v" ∷ t ∷ win_target ∷ [])
    else if eq_bytes command (chars "next-window")
    then ok (chars "next-window" ∷ t ∷ win_target ∷ [])
    else if eq_bytes command (chars "prev-window")
    then ok (chars "previous-window" ∷ t ∷ win_target ∷ [])
    else if eq_bytes command (chars "next-pane")
    then ok (chars "select-pane" ∷ t ∷ (chars "=" ++ session ++ chars ":+") ∷ [])
    else if eq_bytes command (chars "prev-pane")
    then ok (chars "select-pane" ∷ t ∷ (chars "=" ++ session ++ chars ":-") ∷ [])
    else if eq_bytes command (chars "kill-pane")
    then ok (chars "kill-pane" ∷ t ∷ win_target ∷ [])
    else if eq_bytes command (chars "zoom-pane")
    then ok (chars "resize-pane" ∷ chars "-Z" ∷ t ∷ win_target ∷ [])
    else err (chars "unknown command: " ++ command)

-- No error is made of closing the last pane or window, or of a session that is not there.
unfoldable pub is_graceful : Text → Bool
is_graceful msg =
    contains (chars "no remaining") msg
    || contains (chars "session not found") msg
    || contains (chars "can't find") msg
    || contains (chars "no current") msg

-- What `run_command` makes of the command's output.
unfoldable pub run_output : Text → Output → Result Text Text
run_output command output =
    if not output.success
    then (if is_graceful (message output)
        then ok (message output)
        else err (chars "tmux " ++ command ++ chars " failed: " ++ message output))
    else ok (from_utf8_lossy output.stdout)

unfoldable pub literal_argument : Text → Text
literal_argument text = elim (strip_last b';' text) [
  | some rest ↦ rest ++ chars "\\;"
  | none ↦ text
]

unfoldable pub text_args : Text → Text → List Text
text_args pane [] = []
text_args pane (c ∷ text) =
    chars "send-keys"
    ∷ chars "-l"
    ∷ chars "-t"
    ∷ pane
    ∷ chars "--"
    ∷ literal_argument (c ∷ text)
    ∷ []

-- `Enter`, behind a separator where text is sent.
unfoldable pub enter_args : Text → List Text → List Text
enter_args pane [] = chars "send-keys" ∷ chars "-t" ∷ pane ∷ chars "Enter" ∷ []
enter_args pane (a ∷ args) =
    (a ∷ args) ++ chars ";" ∷ chars "send-keys" ∷ chars "-t" ∷ pane ∷ chars "Enter" ∷ []

unfoldable pub send_text_args : Text → Text → Bool → List Text
send_text_args session text enter =
    let args = text_args (exact_target session) text in
    if enter then enter_args (exact_target session) args else args
