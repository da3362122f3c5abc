-- ===== src/Tests/TmuxRuns.antt =====
-- The tmux driver at concrete inputs.
use mobux.Prelude.{true, false, [], ◌∷◌, ◌++◌, none, some, ◌≡◌, refl, arith, ltb, all}
use mobux.Strings.Lines.{is_free}
use mobux.Strings.{chars, join, newline, starts_with}
use mobux.Tmux.Args.Literal.{read_commands, send_text_args-commands}
use mobux.Tmux.Args.{exact_target, send_text_args}
use mobux.Tmux.Command.Words.{between, shell_words, remote_tmux-words}
use mobux.Tmux.Command.{remote_tmux}
use mobux.Tmux.History.RoundTrip.{print_reply, parse_history_capture-print_reply}
use mobux.Tmux.History.{
  drop_partial_first_line, ends_with_newline, joins_into_screen, parse_history_capture, rfind,
}
use mobux.Tmux.Panes.RoundTrip.{
  IsPrintable, print_window, print_windows, print_status, parse_windows-print_windows,
}
use mobux.Tmux.Panes.{Pane, parse_windows}
use mobux.Utf8.{Text, eq_bytes}

remote_tmux-words_example :
    shell_words between [] (remote_tmux (chars "kill-session" ∷ chars "it's $(x)" ∷ []))
    ≡ some (chars "tmux" ∷ chars "kill-session" ∷ chars "it's $(x)" ∷ [])
remote_tmux-words_example = remote_tmux-words (chars "kill-session") (chars "it's $(x)" ∷ [])

send_text_args-commands_example :
    read_commands (send_text_args (chars "work") (chars "ls;") true)
    ≡ (chars "send-keys"
        ∷ chars "-l"
        ∷ chars "-t"
        ∷ exact_target (chars "work")
        ∷ chars "--"
        ∷ chars "ls;"
        ∷ [])
      ∷ (chars "send-keys" ∷ chars "-t" ∷ exact_target (chars "work") ∷ chars "Enter" ∷ [])
      ∷ []
send_text_args-commands_example = send_text_args-commands (chars "work") b'l' (chars "s;")

abbrev window : Pane
window = record {
  id = chars "@1";
  index = chars "0";
  title = chars "a:b";
  active = true;
  alternate_on = false;
  status_lines = 1;
  status_position = chars "top";
  tmux_session = chars "$0@17";
}

window-IsPrintable : IsPrintable window
unfolding all print_window print_status join
window-IsPrintable = record {
  id_free = refl;
  index_free = refl;
  position_free = refl;
  session_free = refl;
  status_fits = ground arith;
  printed = refl;
}

parse_windows-print_windows_example : parse_windows (print_windows (window ∷ [])) ≡ window ∷ []
parse_windows-print_windows_example =
    parse_windows-print_windows (window ∷ []) (window-IsPrintable, tt)

abbrev captured : Text
captured = chars "of a line" ++ newline ∷ chars "end-7" ++ newline ∷ []

captured_ends : ends_with_newline captured ≡ true
unfolding ends_with_newline
captured_ends = refl

one_line : is_free newline (chars "end-7") ≡ true
unfolding all
one_line = refl

not_behind : rfind (chars "end-7" ++ newline ∷ []) (chars "joined" ++ newline ∷ []) ≡ none
unfolding rfind starts_with eq_bytes
not_behind = refl

parse_history_capture-print_reply_example :
    parse_history_capture
      (print_reply 9 captured (chars "end-7") (chars "joined" ++ newline ∷ []))
      5
      (chars "end-7")
    ≡ some (record {
      text = drop_partial_first_line captured (ltb 5 9);
      continues = joins_into_screen (chars "joined" ++ newline ∷ []);
    })
parse_history_capture-print_reply_example =
    parse_history_capture-print_reply 8 5 captured (chars "end-7") (chars "joined" ++ newline ∷ [])
      (ground arith) captured_ends one_line not_behind
