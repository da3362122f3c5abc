-- ===== src/SessionHistory/Store/Lines.antt =====
-- The lines of a session's file, as `BufReader::lines` reads them and `writeln!` writes them.
use mobux.Prelude.{Bool, false, List, [], ◌∷◌, ◌++◌, if◌then◌else◌, is_empty}
use mobux.Strings.{newline, split_lines}
use mobux.Utf8.{Bytes, Utf8Check, valid, error, from_utf8, trim_end}

-- `lines().map_while(Result::ok)`: a line that is no UTF-8 ends the reading.
unfoldable pub valid_lines : List Bytes → List Bytes
unfolding from_utf8
valid_lines [] = []
valid_lines (l ∷ lines) =
    let rest = valid_lines lines in elim (from_utf8 l) [ valid _ ↦ l ∷ rest | error _ _ _ ↦ [] ]

abbrev pub is_blank_text : Utf8Check → Bool
is_blank_text (valid t) = is_empty (trim_end t)
is_blank_text (error _ _ _) = false

-- `line.trim().is_empty()`
unfoldable pub is_blank : Bytes → Bool
unfolding from_utf8 trim_end
is_blank l = is_blank_text (from_utf8 l)

unfoldable pub non_blank : List Bytes → List Bytes
unfolding is_blank
non_blank [] = []
non_blank (l ∷ lines) = let rest = non_blank lines in if is_blank l then rest else l ∷ rest

unfoldable pub read_lines : Bytes → List Bytes
unfolding split_lines valid_lines non_blank
read_lines file = non_blank (valid_lines (split_lines file))

-- One `writeln!` for each line.
unfoldable pub write_lines : List Bytes → Bytes
write_lines [] = []
write_lines (l ∷ lines) = l ++ newline ∷ write_lines lines
