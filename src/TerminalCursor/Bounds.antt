-- ===== src/TerminalCursor/Bounds.antt =====
-- What bounds the memory of the cursor model: how many rows it keeps, and how long one can get.
use mobux.External.{Event, print, execute, csi_dispatch, other, Vte}
use mobux.Prelude.Int.{pos, leb_ℤ, ◌+ℤ◌}
use mobux.Prelude.{ℕ, ◌+◌, ◌≤◌, ◌≡◌, ◌⊎◌, inl, true, some, List, [], ◌∷◌, arith, length}
use mobux.TerminalCursor.Rows.{
  Sorted, has_row, update_row-Sorted, length-update_row, has_row-update_row, modify_row-Sorted,
  retain-Sorted, prune_rows-Sorted, length-prune_rows,
}
use mobux.TerminalCursor.{
  ScreenState, CursorModel, feed, max_tracked_rows, put_in_row, put_char, perform_execute,
  csi_action, perform, perform_all, prune, erase_in_line, erase_in_display, csi_param,
  unwrap_or_zero,
}
use mobux.Utf8.{Bytes}

-- `prune` runs when the cursor may have moved, not when a row is added: one row over the limit can
-- stand, and then it is the cursor's.
pub record IsBounded (s : ScreenState) : Type 0 where
  pub sorted : Sorted s.rows
  pub few :
      (length s.rows ≤ max_tracked_rows)
      ⊎ ((length s.rows ≤ max_tracked_rows + 1) × (has_row s.cursor_row s.rows ≡ true))

put_char-IsBounded : (s : ScreenState) (c : ℕ) → IsBounded s → IsBounded (put_char s c)
unfolding put_char
put_char-IsBounded s c b = record {
  sorted = update_row-Sorted s.cursor_row (put_in_row c s.cursor_col) s.rows b.sorted;
  few = ground (
    arith,
    length-update_row s.cursor_row (put_in_row c s.cursor_col) s.rows b.sorted,
    has_row-update_row s.cursor_row (put_in_row c s.cursor_col) s.rows,
  );
}

prune-IsBounded : (s : ScreenState) → Sorted s.rows → IsBounded (prune s)
unfolding prune
prune-IsBounded s h = record {
  sorted = prune_rows-Sorted s.rows h;
  few = inl (length-prune_rows s.rows);
}

erase_in_line-Sorted :
    (s : ScreenState) (mode : ℕ) → Sorted s.rows → Sorted (erase_in_line s mode).rows
unfolding erase_in_line
erase_in_line-Sorted s mode h = modify_row-Sorted s.cursor_row _ s.rows h

erase_in_display-Sorted :
    (s : ScreenState) (mode : ℕ) → Sorted s.rows → Sorted (erase_in_display s mode).rows
unfolding erase_in_display
erase_in_display-Sorted s mode h = ground (
  arith,
  erase_in_line-Sorted s 0 h,
  erase_in_line-Sorted s 1 h,
  retain-Sorted (λ r. leb_ℤ r s.cursor_row) (erase_in_line s 0).rows,
  retain-Sorted (λ r. leb_ℤ s.cursor_row r) (erase_in_line s 1).rows,
)

csi_action-Sorted :
    (s : ScreenState) (params : List (List ℕ)) (action : ℕ)
    → Sorted s.rows
    → Sorted (csi_action s params action).rows
unfolding csi_action
csi_action-Sorted s params action h = ground (
  arith,
  erase_in_line-Sorted s (unwrap_or_zero (csi_param params 0)) h,
  erase_in_display-Sorted s (unwrap_or_zero (csi_param params 0)) h,
)

perform_execute-IsBounded :
    (s : ScreenState) (byte : ℕ) → IsBounded s → IsBounded (perform_execute s byte)
unfolding perform_execute
perform_execute-IsBounded s byte b = ground (
  arith,
  prune-IsBounded
      (record s { last_completed_row = some s.cursor_row; cursor_row = s.cursor_row +ℤ pos 1 })
      b.sorted,
)

perform-IsBounded : (s : ScreenState) (e : Event) → IsBounded s → IsBounded (perform s e)
unfolding perform
perform-IsBounded s (print c) b = put_char-IsBounded s c b
perform-IsBounded s (execute byte) b = perform_execute-IsBounded s byte b
perform-IsBounded s (csi_dispatch params i g action) b =
    prune-IsBounded (csi_action s params action) (csi_action-Sorted s params action b.sorted)
perform-IsBounded s other b = b

perform_all-IsBounded :
    (s : ScreenState) (es : List Event) → IsBounded s → IsBounded (perform_all s es)
unfolding perform_all
perform_all-IsBounded s [] b = b
perform_all-IsBounded s (e ∷ es) b =
    perform_all-IsBounded (perform s e) es (perform-IsBounded s e b)

-- Whatever bytes arrive, the rows stay in order, and at most 513 of them are kept, `max_tracked_rows` and
-- one more, which then is the row that the cursor stands on; if it was so before.
pub feed-IsBounded :
    {vte : Vte} (m : CursorModel vte) (bytes : Bytes)
    → IsBounded m.state
    → IsBounded (feed m bytes).state
unfolding feed
feed-IsBounded {vte} m bytes b = perform_all-IsBounded m.state (vte.advance m.parser bytes).1 b
