-- ===== src/ShellIntegration.antt =====
-- src/shell_integration.rs: the block that is put into a shell's start file, and taken out. The file's text is
-- the list of its characters; an index counts characters, and is used only to cut. Where a character of more
-- than one byte stands next to the opening fence the code can panic on the cut in front of it, which the
-- model does not follow.
pub mod Fences
pub mod Blocks
pub mod Installed
use mobux.Prelude.{
  ℕ, suc, ◌+◌, ◌-◌, Bool, true, false, not, ◌&&◌, List, [], ◌∷◌, ◌++◌, Option, none, some, leb,
  ◌==◌, if◌then◌else◌, is_empty, length, take, drop,
}
use mobux.Strings.{
  chars, contains, find, newline, parse_uint, print_u64, split_lines, starts_with, strip_last,
  strip_prefix, trim,
}
use mobux.Utf8.{Text, eq_bytes}

pub data Shell : Type 0 where
  bash zsh fish : Shell

abbrev pub fence_open : Text
fence_open = chars "# >>> mobux OSC 133 (managed) >>>"

abbrev pub fence_close : Text
fence_close = chars "# <<< mobux OSC 133 (managed) <<<"

abbrev pub current_version : ℕ
current_version = 4

unfoldable pub rc_relative : Shell → Text
rc_relative bash = chars ".bashrc"
rc_relative zsh = chars ".zshrc"
rc_relative fish = chars ".config/fish/config.fish"

abbrev pub bash_snippet : Text
bash_snippet =
    chars "if [ -n \"$TMUX\" ]; then\n"
    ++ chars "    PS0='\\ePtmux;\\e\\e]133;C\\a\\e\\\\'\n"
    ++ chars
        "    PS1='\\[\\ePtmux;\\e\\e]133;D;$?\\a\\e\\e]133;A\\a\\e\\\\\\]'\"$PS1\"'\\[\\ePtmux;\\e\\e]133;B\\a\\e\\\\\\]'\n"
    ++ chars "else\n"
    ++ chars "    PS0='\\e]133;C\\a'\n"
    ++ chars "    PS1='\\[\\e]133;D;$?\\a\\e]133;A\\a\\]'\"$PS1\"'\\[\\e]133;B\\a\\]'\n"
    ++ chars "fi"

abbrev pub zsh_snippet : Text
zsh_snippet =
    chars "if [ -n \"$TMUX\" ]; then\n"
    ++ chars "    preexec() { print -Pn '\\ePtmux;\\e\\e]133;C\\a\\e\\\\' }\n"
    ++ chars "    PROMPT=$'%{\\ePtmux;\\e\\e]133;D;%?\\a\\e\\e]133;A\\a\\e\\\\%}'\"$PROMPT\"\n"
    ++ chars "else\n"
    ++ chars "    preexec() { print -Pn '\\e]133;C\\a' }\n"
    ++ chars "    precmd()  { print -Pn '\\e]133;D;'$?'\\a\\e]133;A\\a' }\n"
    ++ chars "fi"

abbrev pub fish_snippet : Text
fish_snippet =
    chars "if test -n \"$TMUX\"\n"
    ++ chars "    function __mobux_osc133_preexec --on-event fish_preexec\n"
    ++ chars "        printf '\\ePtmux;\\e\\e]133;C\\a\\e\\\\'\n"
    ++ chars "    end\n"
    ++ chars "    function __mobux_osc133_postexec --on-event fish_postexec\n"
    ++ chars "        printf '\\ePtmux;\\e\\e]133;D;%s\\a\\e\\\\' $status\n"
    ++ chars "    end\n"
    ++ chars "    function __mobux_osc133_prompt --on-event fish_prompt\n"
    ++ chars "        printf '\\ePtmux;\\e\\e]133;A\\a\\e\\\\'\n"
    ++ chars "    end\n"
    ++ chars "else\n"
    ++ chars "    function __mobux_osc133_preexec --on-event fish_preexec\n"
    ++ chars "        printf '\\e]133;C\\a'\n"
    ++ chars "    end\n"
    ++ chars "    function __mobux_osc133_postexec --on-event fish_postexec\n"
    ++ chars "        printf '\\e]133;D;%s\\a' $status\n"
    ++ chars "    end\n"
    ++ chars "    function __mobux_osc133_prompt --on-event fish_prompt\n"
    ++ chars "        printf '\\e]133;A\\a'\n"
    ++ chars "    end\n"
    ++ chars "end"

unfoldable pub snippet : Shell → Text
snippet bash = bash_snippet
snippet zsh = zsh_snippet
snippet fish = fish_snippet

unfoldable pub parse_shell_path : Text → Shell × Text
parse_shell_path path =
    if contains (chars "zsh") path
    then (zsh, path)
    else if contains (chars "fish") path
    then (fish, path)
    else (bash, path)

-- `$SHELL`, where it is set and not empty.
unfoldable pub environment_shell : Option Text → Shell × Text
environment_shell none = (bash, chars "/bin/bash")
environment_shell (some path) =
    if not (is_empty path) then parse_shell_path path else (bash, chars "/bin/bash")

unfoldable pub detect_session_shell : Option Text → Text → Shell × Text
detect_session_shell shell configured =
    if not (is_empty configured) then parse_shell_path configured else environment_shell shell

pub record Block : Type 0 where
  pub start : ℕ
  pub end : ℕ
  pub version : ℕ
  pub leading_blank : Bool

abbrev parsed_version : Option Text → Option ℕ
parsed_version none = none
parsed_version (some v) = parse_uint 32 (trim v)

-- The first line that tells a version.
unfoldable pub version_of : List Text → ℕ
version_of [] = 0
version_of (line ∷ lines) = elim (parsed_version (strip_prefix (chars "# version:") (trim line))) [
  | some n ↦ n
  | none ↦ version_of lines
]

-- A line feed behind the block belongs to it.
abbrev pub one_newline : Text → ℕ
one_newline [] = 0
one_newline (c ∷ _) = if c == newline then 1 else 0

-- Whether an empty line stands in front.
unfoldable pub blank_before : Text → ℕ → Bool
blank_before content start =
    leb 2 start && eq_bytes (take 2 (drop (start - 2) content)) (newline ∷ newline ∷ [])

-- The block between fences at these indices; `inside` is the text between them.
unfoldable pub block_at : Text → ℕ → ℕ → Block
block_at content start close_rel =
    let after_open = start + length fence_open in
    let end = after_open + close_rel + length fence_close in
    let leading_blank = blank_before content start in
    record {
      start = if leading_blank then start - 1 else start;
      end = end + one_newline (drop end content);
      version = version_of (split_lines (take close_rel (drop after_open content)));
      leading_blank = leading_blank;
    }

unfoldable pub find_block : Text → Option Block
find_block content = elim (find fence_open content) [
  | none ↦ none
  | some start ↦ elim (find fence_close (drop (start + length fence_open) content)) [
    | none ↦ none
    | some close_rel ↦ some (block_at content start close_rel)
  ]
]

-- Between the fences.
abbrev pub inside : Text → Text
inside snippet =
    newline
    ∷ (chars "# version: " ++ (print_u64 current_version ++ newline ∷ (snippet ++ newline ∷ [])))

unfoldable pub render_block : Text → Text
render_block snippet = fence_open ++ (inside snippet ++ (fence_close ++ newline ∷ []))

pub data ShellState : Type 0 where
  not_present not_installed : ShellState
  installed outdated : ℕ → ShellState

-- The start file: not there, not readable as text, or its text.
pub data RcFile : Type 0 where
  missing unreadable : RcFile
  text : Text → RcFile

unfoldable pub block_state : Option Block → ShellState
block_state none = not_installed
block_state (some b) =
    if b.version == current_version then installed b.version else outdated b.version

unfoldable pub shell_state : RcFile → ShellState
shell_state missing = not_present
shell_state unreadable = not_present
shell_state (text content) = block_state (find_block content)

unfoldable pub ends_with_newline : Text → Bool
ends_with_newline t = elim (strip_last newline t) [ some _ ↦ true | none ↦ false ]

-- The content with its last line ended.
unfoldable pub ended_line : Text → Text
ended_line t = if not (ends_with_newline t) then t ++ newline ∷ [] else t

-- The content with an empty line behind it, where there is any.
unfoldable pub with_blank_line : Text → Text
with_blank_line [] = []
with_blank_line (c ∷ t) = ended_line (c ∷ t) ++ newline ∷ []

-- What a step writes, with the text that it backs up first; nothing, or an error.
pub data Written : Type 0 where
  unchanged : Written
  failed : Written
  created : Text → Written
  replaced : Text → Text → Written

unfoldable pub replace_block : Text → Text → Block → Written
replace_block block content existing =
    if existing.version == current_version
    then unchanged
    else replaced content (
        take existing.start content
        ++ ((if existing.leading_blank then newline ∷ [] else [])
            ++ (block ++ drop existing.end content)))

unfoldable pub install_into : Text → RcFile → Written
install_into block missing = created block
install_into block unreadable = failed
install_into block (text content) = elim (find_block content) [
  | some existing ↦ replace_block block content existing
  | none ↦ replaced content (with_blank_line content ++ block)
]

unfoldable pub install_with_home : Shell → RcFile → Written
install_with_home shell file = install_into (render_block (snippet shell)) file

unfoldable pub uninstall_with_home : RcFile → Written
uninstall_with_home missing = unchanged
uninstall_with_home unreadable = failed
uninstall_with_home (text content) = elim (find_block content) [
  | none ↦ unchanged
  | some block ↦ replaced content (take block.start content ++ drop block.end content)
]

-- The file after a step.
unfoldable pub after : RcFile → Written → RcFile
after file unchanged = file
after file failed = file
after file (created t) = text t
after file (replaced old new) = text new
