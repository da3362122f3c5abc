-- ===== src/Tmux/Panes.antt =====
-- src/tmux.rs: what tmux prints of panes, sessions and windows.
pub mod RoundTrip
use mobux.Prelude.Int.{ℤ, pos}
use mobux.Prelude.Order.{is_gt}
use mobux.Prelude.Result.{Result, ok, err}
use mobux.Prelude.{
  ℕ, Bool, true, false, not, List, [], ◌∷◌, ◌++◌, Option, none, some, if◌then◌else◌, is_empty,
}
use mobux.Strings.{chars, cmp, parse_int, parse_u16, split_lines, split_whitespace, splitn, trim}
use mobux.Tmux.Command.{Output, message, is_no_server_error}
use mobux.Utf8.{Bytes, Text, from_utf8_lossy, eq_bytes}

unfoldable pub parse_pane_id : Bytes → Option Text
unfolding trim
parse_pane_id stdout =
    let id = trim (from_utf8_lossy stdout) in if is_empty id then none else some id

pub record PaneScreen : Type 0 where
  pub rows : ℕ
  pub cols : ℕ
  pub alternate : Bool

pub data PaneScreenError : Type 0 where
  unexpected_reply : Text → PaneScreenError
  pane_height : Text → PaneScreenError
  pane_width : Text → PaneScreenError

unfoldable pub read_sizes : Text → Text → Bool → Result PaneScreen PaneScreenError
read_sizes rows cols alternate = elim (parse_u16 rows) [
  | none ↦ err (pane_height rows)
  | some r ↦ elim (parse_u16 cols) [
    | none ↦ err (pane_width cols)
    | some c ↦ ok (record { rows = r; cols = c; alternate = alternate })
  ]
]

unfoldable pub read_fields : Text → List Text → Result PaneScreen PaneScreenError
unfolding read_sizes
read_fields text (rows ∷ cols ∷ alternate ∷ []) =
    read_sizes rows cols (eq_bytes alternate (chars "1"))
read_fields text _ = err (unexpected_reply text)

unfoldable pub parse_pane_screen : Bytes → Result PaneScreen PaneScreenError
unfolding read_fields
parse_pane_screen stdout =
    let text = from_utf8_lossy stdout in read_fields text (split_whitespace text)

unfoldable pub pane_still_current : Text → Option Text → Bool
pane_still_current tapped_pane none = true
pane_still_current tapped_pane (some id) = eq_bytes id tapped_pane

pub record Session : Type 0 where
  pub name : Text
  pub windows : ℤ
  pub attached : ℤ
  pub created_unix : ℤ

abbrev or_zero : Option ℤ → ℤ
or_zero none = pos 0
or_zero (some n) = n

-- One round of the loop: a line of fewer fields is passed over.
unfoldable pub session_of : List Text → Option Session
session_of (windows ∷ attached ∷ created ∷ name ∷ []) = some (record {
  name = name;
  windows = or_zero (parse_int 31 windows);
  attached = or_zero (parse_int 31 attached);
  created_unix = or_zero (parse_int 63 created);
})
session_of _ = none

-- The values that are there.
abbrev pub keep {ℓ} : {A : Type ℓ} → Option A → List A → List A
keep none rest = rest
keep (some a) rest = a ∷ rest

unfoldable pub parse_sessions : List Text → List Session
unfolding session_of
parse_sessions [] = []
parse_sessions (line ∷ lines) = keep (session_of (splitn 4 b':' line)) (parse_sessions lines)

-- `sort_by` is stable: a value goes in front of those that are not less.
unfoldable pub insert_session : Session → List Session → List Session
insert_session s [] = s ∷ []
insert_session s (t ∷ ts) =
    let rest = insert_session s ts in if is_gt (cmp s.name t.name) then t ∷ rest else s ∷ t ∷ ts

unfoldable pub sort_sessions : List Session → List Session
unfolding insert_session
sort_sessions [] = []
sort_sessions (s ∷ ss) = insert_session s (sort_sessions ss)

-- What `list_sessions` makes of the command's output.
unfoldable pub list_sessions : Output → Result (List Session) Text
unfolding sort_sessions parse_sessions
list_sessions output =
    if not output.success
    then (if is_no_server_error (message output)
        then ok []
        else err (chars "tmux list-sessions failed: " ++ message output))
    else ok (sort_sessions (parse_sessions (split_lines (from_utf8_lossy output.stdout))))

pub record Pane : Type 0 where
  pub id : Text
  pub index : Text
  pub title : Text
  pub active : Bool
  pub alternate_on : Bool
  pub status_lines : ℕ
  pub status_position : Text
  pub tmux_session : Text

abbrev or_one : Option ℕ → ℕ
or_one none = 1
or_one (some n) = n

unfoldable pub parse_status_lines : Text → ℕ
parse_status_lines status =
    if eq_bytes status (chars "on")
    then 1
    else if eq_bytes status (chars "off")
    then 0
    else or_one (parse_u16 status)

unfoldable pub window_of : List Text → Option Pane
unfolding parse_status_lines
window_of (id ∷ index ∷ active ∷ alternate_on ∷ status ∷ status_position ∷ stamp ∷ title ∷ []) =
    some (record {
      id = id;
      index = index;
      title = title;
      active = eq_bytes active (chars "1");
      alternate_on = eq_bytes alternate_on (chars "1");
      status_lines = parse_status_lines status;
      status_position = status_position;
      tmux_session = stamp;
    })
window_of _ = none

unfoldable pub read_windows : List Text → List Pane
unfolding window_of
read_windows [] = []
read_windows (line ∷ lines) = keep (window_of (splitn 8 b':' line)) (read_windows lines)

unfoldable pub parse_windows : Text → List Pane
unfolding read_windows
parse_windows stdout = read_windows (split_lines stdout)
