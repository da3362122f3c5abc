-- ===== src/TerminalCursor/Widths.antt =====
-- How long a row of the cursor model can get: `max_row_chars` caps it except where a character is
-- printed far beyond the end of a shorter row.
use mobux.External.{Event, print}
use mobux.Prelude.Int.{ℤ, ltb_ℤ, eq_ℤ}
use mobux.Prelude.{
  ℕ, ◌+◌, ◌-◌, ◌≤◌, ◌<◌, ◌≡◌, ◌∙◌, ap, ◌⊎◌, take_all, some, List, [], ◌∷◌, arith, length, none,
  if◌then◌else◌, replicate,
}
use mobux.TerminalCursor.Rows.{Sorted, get_row-update_row}
use mobux.TerminalCursor.{ScreenState, max_row_chars, put_in_row, get_row, Row, put_char, perform}
use mobux.Utf8.{Text}

abbrev pub AllWithin : ℕ → List Row → Type 0
AllWithin n [] = Unit
AllWithin n ((_, row) ∷ rest) = (length row ≤ n) × AllWithin n rest

-- A column below the cap, or a row that has reached it.
abbrev pub Placed : ℕ → Text → Type 0
Placed col row = (col < max_row_chars) ⊎ (max_row_chars ≤ length row)

-- The row with this number among rows in order; a row that is not kept is empty.
unfoldable pub row_at : ℤ → List Row → Text
row_at r [] = []
row_at r ((k, row) ∷ rest) = if ltb_ℤ k r then row_at r rest else if eq_ℤ k r then row else []

-- A character is printed below column 4096, or on a row that has reached 4096 characters.
abbrev pub IsPlaced : ScreenState → Event → Type 0
IsPlaced s (print _) = Placed s.cursor_col (row_at s.cursor_row s.rows)
IsPlaced s _ = Unit

abbrev pub AllPlaced : ScreenState → List Event → Type 0
AllPlaced s [] = Unit
AllPlaced s (e ∷ es) = IsPlaced s e × AllPlaced (perform s e) es

put_in_row_overruns :
    (c col : ℕ) → max_row_chars ≤ col → put_in_row c col [] ≡ replicate (col + 1) b' '
unfolding put_in_row
put_in_row_overruns c col h =
    let size : col + 1 - 0 ≡ col + 1 = omega arith in
    ground (arith, take_all {A = ℕ} (col + 1) [] (omega arith), size)

-- From column 4096 on the cap does not hold: a character printed on a row that is not kept yet is lost,
-- and the row that is stored for it holds one space for every column up to and with the cursor's; the rows
-- being in order.
pub put_char_overruns :
    (s : ScreenState) (c : ℕ)
    → Sorted s.rows
    → get_row s.cursor_row s.rows ≡ none
    → max_row_chars ≤ s.cursor_col
    → get_row s.cursor_row (put_char s c).rows ≡ some (replicate (s.cursor_col + 1) b' ')
unfolding put_char put_in_row
put_char_overruns s c h e l =
    get_row-update_row s.cursor_row (put_in_row c s.cursor_col) s.rows h
    ∙ rw e (ap some (put_in_row_overruns c s.cursor_col l))
