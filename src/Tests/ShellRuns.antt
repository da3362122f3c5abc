-- ===== src/Tests/ShellRuns.antt =====
-- A start file at a concrete text.
use mobux.Prelude.{◌++◌, none, ◌≡◌, refl}
use mobux.ShellIntegration.Installed.{with_final_newline, install_with_home-uninstall_with_home}
use mobux.ShellIntegration.{
  Shell, fence_open, current_version, render_block, snippet, text, after, install_with_home,
  uninstall_with_home, shell_state, installed, unchanged, with_blank_line,
}
use mobux.Strings.{chars, find, starts_with}
use mobux.Utf8.{Text, eq_bytes}

abbrev rc : Text
rc = chars "alias ll='ls -l'"

rc-no_open : find fence_open rc ≡ none
unfolding find starts_with eq_bytes
rc-no_open = refl

install_with_home-uninstall_with_home_example :
    let file = text (with_blank_line rc ++ render_block (snippet Shell.zsh)) in
    (after (text rc) (install_with_home Shell.zsh (text rc)) ≡ file)
    × (shell_state file ≡ installed current_version)
    × (install_with_home Shell.zsh file ≡ unchanged)
    × (after file (uninstall_with_home file) ≡ text (with_final_newline rc))
install_with_home-uninstall_with_home_example =
    install_with_home-uninstall_with_home Shell.zsh rc rc-no_open
