-- ===== src/TerminalCursor/CommandLine.antt =====
-- Which text `take_command_line` gives: the row that the shell echoed the command on, and nothing where
-- nothing was written since the last call.
use mobux.External.{Event, print, execute, csi_dispatch, other, Vte}
use mobux.Prelude.Int.{ℤ, ◌+ℤ◌, pos}
use mobux.Prelude.{
  ℕ, zero, suc, ◌+◌, ◌-◌, ◌≤◌, ◌<◌, ◌≡◌, ◌≢◌, refl, ◌∙◌, ap, ◌⊎◌, inl, inr, true, List, [], ◌∷◌,
  ◌++◌, map, none, append-nil, append_assoc, arith, length, length-append, set, take_all,
  Option-cases,
}
use mobux.TerminalCursor.Rows.{
  Sorted, has_row, or_empty, update_row-Sorted, length-update_row, has_row-update_row,
  get_row-update_row, prune_rows_small,
}
use mobux.TerminalCursor.{
  ScreenState, CursorModel, feed, take_command_line, max_tracked_rows, max_row_chars, get_row,
  put_in_row, put_char, perform_execute, csi_action, perform, perform_all, prune, prune_rows,
  resize, mark_output_boundary, take_line, forget_lines, row_text, erase_in_line, erase_in_display,
}
use mobux.Utf8.{Bytes, Text, trim_end}

-- The cursor stands at the end of row `r`, which holds `row`, and the row is not about to be pruned.
record At (r : ℤ) (row : Text) (s : ScreenState) : Type 0 where
  here : s.cursor_row ≡ r
  sorted : Sorted s.rows
  text : or_empty (get_row r s.rows) ≡ row
  column : s.cursor_col ≡ length row
  room :
      (length s.rows < max_tracked_rows)
      ⊎ ((length s.rows ≤ max_tracked_rows) × (has_row r s.rows ≡ true))

set_end : (row : Text) (c d : ℕ) → set (row ++ (d ∷ [])) (length row) c ≡ row ++ (c ∷ [])
set_end [] c d = refl
set_end (x ∷ row) c d = ap (◌∷◌ x) (set_end row c d)

put_in_row_end :
    (c : ℕ) (row : Text)
    → length row < max_row_chars
    → put_in_row c (length row) row ≡ row ++ (c ∷ [])
unfolding put_in_row
put_in_row_end c row h =
    let one : length row + 1 - length row ≡ suc zero = omega arith in
    let grown : resize row (length row + 1) ≡ row ++ (b' ' ∷ []) =
      rw (take_all (length row + 1) row (omega arith), one) refl in
    ground (arith, grown, set_end row c b' ')

put_char-At :
    (r : ℤ) (row : Text) (s : ScreenState) (c : ℕ)
    → At r row s
    → length row < max_row_chars
    → At r (row ++ (c ∷ [])) (put_char s c)
unfolding put_char
put_char-At r row s c a h = record {
  here = a.here;
  sorted = update_row-Sorted s.cursor_row (put_in_row c s.cursor_col) s.rows a.sorted;
  text = rw (← a.here) (
      rw (get_row-update_row s.cursor_row (put_in_row c s.cursor_col) s.rows a.sorted)
        (ground (arith, put_in_row_end c row h, a.text, a.column, a.here)));
  column = omega (arith, a.column, length-append row (c ∷ []));
  room = ground (
    arith,
    a.here,
    a.room,
    has_row-update_row s.cursor_row (put_in_row c s.cursor_col) s.rows,
    length-update_row s.cursor_row (put_in_row c s.cursor_col) s.rows a.sorted,
  );
}

pub perform_all-append :
    (s : ScreenState) (a b : List Event) → perform_all s (a ++ b) ≡ perform_all (perform_all s a) b
unfolding perform_all
perform_all-append s [] b = refl
perform_all-append s (e ∷ a) b = perform_all-append (perform s e) a b

prints-At :
    (r : ℤ) (row : Text) (s : ScreenState) (cs : Text)
    → At r row s
    → length row + length cs ≤ max_row_chars
    → At r (row ++ cs) (perform_all s (map print cs))
unfolding perform_all perform
prints-At r row s [] a h = rw append-nil a
prints-At r row s (c ∷ cs) a h = rw (← append_assoc row (c ∷ []) cs) (
    prints-At r (row ++ (c ∷ [])) (put_char s c) cs (put_char-At r row s c a (omega arith))
      (omega (arith, length-append row (c ∷ []))))

abbrev pub echo : Text → List Event
echo cs = map print cs ++ (execute b'\r' ∷ execute b'\n' ∷ [])

row_text-trim_end :
    (s : ScreenState) (r : ℤ) → row_text s r ≡ trim_end (or_empty (get_row r s.rows))
unfolding row_text
row_text-trim_end s r = elim (Option-cases (get_row r s.rows)) [
  | inl gone ↦ rw (gone, row_text) (unfold trim_end in refl)
  | inr (row, found) ↦ rw (found, row_text) refl
]

-- After a newline on its row, the row that was printed is the command line.
take_line-At :
    (r : ℤ) (row : Text) (s : ScreenState)
    → At r row s
    → (take_line (perform_all s (execute b'\r' ∷ execute b'\n' ∷ []))).1 ≡ trim_end row
unfolding perform_all perform take_line
take_line-At r row s a =
    let kept : prune_rows s.rows ≡ s.rows = prune_rows_small s.rows (ground (arith, a.room)) in
    let s' = record s {
      rows = prune_rows s.rows;
      cursor_row = s.cursor_row +ℤ pos 1;
      cursor_col = 0;
      last_completed_row = none;
      dirty_row = none;
    } in
    row_text-trim_end s' s.cursor_row ∙ ap trim_end (rw (kept, a.here) a.text)

-- The shell's echo of a command from column 0 of an empty row, ended by CR and LF, is what
-- `take_command_line` gives, less the whitespace at its end, if the rows are in order, one more can be kept
-- and the text fits on one.
pub take_command_line-echo :
    {vte : Vte} (m : CursorModel vte) (bytes : Bytes) (cs : Text)
    → (vte.advance m.parser bytes).1 ≡ echo cs
    → Sorted m.state.rows
    → length m.state.rows < max_tracked_rows
    → or_empty (get_row m.state.cursor_row m.state.rows) ≡ []
    → m.state.cursor_col ≡ 0
    → length cs ≤ max_row_chars
    → (take_command_line (feed m bytes)).1 ≡ trim_end cs
unfolding feed take_command_line
take_command_line-echo {vte} m bytes cs e sorted few fresh column fits =
    let s = m.state in
    let typed =
      prints-At s.cursor_row [] s cs
        (record { here = refl; sorted = sorted; text = fresh; column = column; room = inl few })
        (omega arith) in
    rw e (
      rw (perform_all-append s (map print cs) (execute b'\r' ∷ execute b'\n' ∷ []))
        (take_line-At s.cursor_row cs (perform_all s (map print cs)) typed))

-- Events that write nothing and complete no line.
abbrev pub IsQuiet : Event → Type 0
IsQuiet (print c) = ⊥
IsQuiet (execute byte) = byte ≢ b'\n'
IsQuiet (csi_dispatch _ _ _ _) = Unit
IsQuiet other = Unit

abbrev pub AllQuiet : List Event → Type 0
AllQuiet [] = Unit
AllQuiet (e ∷ es) = IsQuiet e × AllQuiet es

abbrev Untouched : ScreenState → Type 0
Untouched s = (s.last_completed_row ≡ none) × (s.dirty_row ≡ none)

csi_action-Untouched :
    (s : ScreenState) (params : List (List ℕ)) (action : ℕ)
    → Untouched s
    → Untouched (csi_action s params action)
unfolding csi_action erase_in_line erase_in_display
csi_action-Untouched s params action (a, b) = (ground arith, ground arith)

perform-Untouched :
    (s : ScreenState) (e : Event) → IsQuiet e → Untouched s → Untouched (perform s e)
unfolding perform
perform-Untouched s (print c) q u = absurd q
perform-Untouched s (execute byte) q u = unfold perform_execute in ground arith
perform-Untouched s (csi_dispatch params i g action) q u =
    unfold prune in csi_action-Untouched s params action u
perform-Untouched s other q u = u

perform_all-Untouched :
    (s : ScreenState) (es : List Event) → AllQuiet es → Untouched s → Untouched (perform_all s es)
unfolding perform_all
perform_all-Untouched s [] q u = u
perform_all-Untouched s (e ∷ es) (q, qs) u =
    perform_all-Untouched (perform s e) es qs (perform-Untouched s e q u)

take_line-Untouched : (s : ScreenState) → Untouched s → (take_line s).1 ≡ []
unfolding take_line
take_line-Untouched s (a, b) = rw (a, b) refl

take_line-forget : (s : ScreenState) → (take_line s).0 ≡ forget_lines s
unfolding take_line forget_lines
take_line-forget s = ground arith

-- Text left on a row from an earlier command is never given again: after `mark_output_boundary`, and
-- after `take_command_line`, bytes that only move the cursor or erase leave the command line empty.
pub take_command_line_stale :
    {vte : Vte} (m : CursorModel vte) (bytes : Bytes)
    → AllQuiet (vte.advance m.parser bytes).1
    → ((take_command_line (feed (mark_output_boundary m) bytes)).1 ≡ [])
      × ((take_command_line (feed (take_command_line m).0 bytes)).1 ≡ [])
unfolding feed take_command_line mark_output_boundary
take_command_line_stale {vte} m bytes q =
    let es = (vte.advance m.parser bytes).1 in
    let fresh = forget_lines m.state in
    let empty =
      take_line-Untouched (perform_all fresh es)
        (perform_all-Untouched fresh es q (unfold forget_lines in (refl, refl))) in
    (empty, rw (take_line-forget m.state) empty)
