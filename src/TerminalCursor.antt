-- ===== src/TerminalCursor.antt =====
-- src/terminal_cursor.rs: `ScreenState` and `CursorModel`. The `BTreeMap` of rows is a list of rows
-- with ascending numbers. Row numbers are `i64` and columns `usize` in the code; here they are
-- unbounded, which differs only after some 2^48 cursor movements.
pub mod Rows
pub mod Bounds
pub mod Widths
pub mod CommandLine
use mobux.External.{Event, print, execute, csi_dispatch, other, Vte}
use mobux.Prelude.Int.{ℤ, pos, ◌+ℤ◌, ◌-ℤ◌, ltb_ℤ, leb_ℤ, eq_ℤ}
use mobux.Prelude.Monad.{◌>>=◌}
use mobux.Prelude.{
  ℕ, zero, suc, ◌+◌, ◌-◌, ◌*◌, ◌/◌, min, Bool, ◌||◌, List, [], ◌∷◌, ◌++◌, Option, none, some, ltb,
  leb, ◌==◌, if◌then◌else◌, length, get_elem?, set, take, drop, replicate,
}
use mobux.Utf8.{Bytes, Text, trim_end}

abbrev pub max_tracked_rows : ℕ
max_tracked_rows = 512

abbrev pub max_row_chars : ℕ
max_row_chars = 4096

abbrev pub Row : Type 0
Row = ℤ × Text

pub record ScreenState : Type 0 where
  pub rows : List Row
  pub cursor_row : ℤ
  pub cursor_col : ℕ
  pub last_completed_row : Option ℤ
  pub dirty_row : Option ℤ

unfoldable pub new_screen : ScreenState
new_screen = record {
  rows = [];
  cursor_row = pos 0;
  cursor_col = 0;
  last_completed_row = none;
  dirty_row = none;
}

-- `BTreeMap::get`
unfoldable pub get_row : ℤ → List Row → Option Text
get_row r [] = none
get_row r ((k, row) ∷ rest) = if eq_ℤ k r then some row else get_row r rest

-- `rows.entry(r).or_default()`, with the row rewritten by `f`.
unfoldable pub update_row : ℤ → (Text → Text) → List Row → List Row
update_row r f [] = (r, f []) ∷ []
update_row r f ((k, row) ∷ rest) =
    if ltb_ℤ k r
    then (k, row) ∷ update_row r f rest
    else if eq_ℤ k r
    then (k, f row) ∷ rest
    else (r, f []) ∷ (k, row) ∷ rest

-- `rows.get_mut(r)`, with the row rewritten by `f` if it is there.
unfoldable pub modify_row : ℤ → (Text → Text) → List Row → List Row
modify_row r f [] = []
modify_row r f ((k, row) ∷ rest) =
    if eq_ℤ k r then (k, f row) ∷ rest else (k, row) ∷ modify_row r f rest

-- `BTreeMap::retain`, by the row's number.
unfoldable pub retain : (ℤ → Bool) → List Row → List Row
retain keep [] = []
retain keep ((k, row) ∷ rest) =
    let rest' = retain keep rest in if keep k then (k, row) ∷ rest' else rest'

-- The loop of `prune`: the least row goes while there are too many.
unfoldable pub prune_rows : List Row → List Row
prune_rows [] = []
prune_rows (r ∷ rest) =
    let rest' = prune_rows rest in
    if ltb max_tracked_rows (length (r ∷ rest)) then rest' else r ∷ rest

unfoldable pub row_text : ScreenState → ℤ → Text
row_text s r = elim (get_row r s.rows) [ none ↦ [] | some row ↦ trim_end row ]

unfoldable pub prune : ScreenState → ScreenState
unfolding prune_rows
prune s = record s { rows = prune_rows s.rows }

-- `Vec::resize` with spaces.
abbrev pub resize : Text → ℕ → Text
resize row n = take n row ++ replicate (n - length row) b' '

-- What `put_char` does to the row at column `col`.
unfoldable pub put_in_row : ℕ → ℕ → Text → Text
put_in_row c col row =
    if ltb (length row) max_row_chars
    then (let grown = if leb (length row) col then resize row (col + 1) else row in
        if ltb col max_row_chars then set grown col c else grown)
    else row

unfoldable pub put_char : ScreenState → ℕ → ScreenState
unfolding update_row put_in_row
put_char s c = record s {
  dirty_row = some s.cursor_row;
  rows = update_row s.cursor_row (put_in_row c s.cursor_col) s.rows;
  cursor_col = s.cursor_col + 1;
}

-- What `erase_in_line` does to the row: mode 0 from the cursor on, mode 1 up to the cursor, any
-- other mode all of it.
unfoldable pub erase_in_row : ℕ → ℕ → Text → Text
erase_in_row mode col row =
    if mode == 0
    then take (min col (length row)) row
    else if mode == 1
    then (let end = min (col + 1) (length row) in replicate end b' ' ++ drop end row)
    else []

unfoldable pub erase_in_line : ScreenState → ℕ → ScreenState
unfolding modify_row erase_in_row
erase_in_line s mode = record s {
  rows = modify_row s.cursor_row (erase_in_row mode s.cursor_col) s.rows;
}

unfoldable pub erase_in_display : ScreenState → ℕ → ScreenState
unfolding erase_in_line retain
erase_in_display s mode =
    if mode == 0
    then (let s' = erase_in_line s 0 in
        record s' { rows = retain (λ r. leb_ℤ r s.cursor_row) s'.rows })
    else if mode == 1
    then (let s' = erase_in_line s 1 in
        record s' { rows = retain (λ r. leb_ℤ s.cursor_row r) s'.rows })
    else record s { rows = [] }

abbrev first : List ℕ → Option ℕ
first [] = none
first (v ∷ _) = some v

unfoldable pub csi_param : List (List ℕ) → ℕ → Option ℕ
csi_param params index = get_elem? params index >>= first

-- A count of 0, or none, means 1.
unfoldable pub csi_count : List (List ℕ) → ℕ → ℕ
unfolding csi_param
csi_count params index = elim (csi_param params index) [
  | none ↦ 1
  | some n ↦ if n == 0 then 1 else n
]

abbrev unwrap_or_zero : Option ℕ → ℕ
unwrap_or_zero none = 0
unwrap_or_zero (some n) = n

-- `Perform::execute`
unfoldable pub perform_execute : ScreenState → ℕ → ScreenState
unfolding ◌+ℤ◌
perform_execute s byte =
    if byte == b'\r'
    then record s { cursor_col = 0 }
    else if byte == b'\n'
    then prune
        (record s { last_completed_row = some s.cursor_row; cursor_row = s.cursor_row +ℤ pos 1 })
    else if byte == 0x08
    then record s { cursor_col = s.cursor_col - 1 }
    else if byte == 0x09
    then record s { cursor_col = (s.cursor_col / 8 + 1) * 8 }
    else s

-- The `match` of `Perform::csi_dispatch`; a count is at least 1.
unfoldable pub csi_action : ScreenState → List (List ℕ) → ℕ → ScreenState
unfolding csi_param csi_count ◌+ℤ◌ ◌-ℤ◌
csi_action s params action =
    if action == b'H' || action == b'f'
    then record s { cursor_row = pos (csi_count params 0 - 1); cursor_col = csi_count params 1 - 1 }
    else if action == b'A'
    then record s { cursor_row = s.cursor_row -ℤ pos (csi_count params 0) }
    else if action == b'B'
    then record s { cursor_row = s.cursor_row +ℤ pos (csi_count params 0) }
    else if action == b'C'
    then record s { cursor_col = s.cursor_col + csi_count params 0 }
    else if action == b'D'
    then record s { cursor_col = s.cursor_col - csi_count params 0 }
    else if action == b'G' || action == b'`'
    then record s { cursor_col = csi_count params 0 - 1 }
    else if action == b'd'
    then record s { cursor_row = pos (csi_count params 0 - 1) }
    else if action == b'K'
    then erase_in_line s (unwrap_or_zero (csi_param params 0))
    else if action == b'J'
    then erase_in_display s (unwrap_or_zero (csi_param params 0))
    else s

-- `impl Perform for ScreenState`
unfoldable pub perform : ScreenState → Event → ScreenState
unfolding put_char perform_execute csi_action prune erase_in_line erase_in_display
perform s (print c) = put_char s c
perform s (execute byte) = perform_execute s byte
perform s (csi_dispatch params _ _ action) = prune (csi_action s params action)
perform s other = s

unfoldable pub perform_all : ScreenState → List Event → ScreenState
unfolding perform
perform_all s [] = s
perform_all s (e ∷ es) = perform_all (perform s e) es

pub record CursorModel (vte : Vte) : Type 0 where
  pub parser : vte.Parser
  pub state : ScreenState

abbrev or_else : Option ℤ → Option ℤ → Option ℤ
or_else none o = o
or_else (some r) o = some r

-- `take_command_line` on the screen state: the row is read, and both marks are taken.
unfoldable pub take_line : ScreenState → ScreenState × Text
unfolding row_text
take_line s =
    let s' = record s { last_completed_row = none; dirty_row = none } in
    elim (or_else s.last_completed_row s.dirty_row) [
      | none ↦ (s', [])
      | some r ↦ (s', row_text s' r)
    ]

unfoldable pub forget_lines : ScreenState → ScreenState
forget_lines s = record s { last_completed_row = none; dirty_row = none }

module _ {vte : Vte} where
  unfoldable pub new : CursorModel vte
  unfolding new_screen
  new = record { parser = vte.new; state = new_screen }

  unfoldable pub feed : CursorModel vte → Bytes → CursorModel vte
  unfolding perform_all
  feed m bytes =
      let (parser, events) = vte.advance m.parser bytes in
      record { parser = parser; state = perform_all m.state events }

  unfoldable pub take_command_line : CursorModel vte → CursorModel vte × Text
  unfolding take_line
  take_command_line m = let (state, text) = take_line m.state in (record m { state = state }, text)

  unfoldable pub mark_output_boundary : CursorModel vte → CursorModel vte
  unfolding forget_lines
  mark_output_boundary m = record m { state = forget_lines m.state }
