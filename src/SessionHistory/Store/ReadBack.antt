-- ===== src/SessionHistory/Store/ReadBack.antt =====
-- Lines that are written to a file are read back.
use mobux.Prelude.{◌≡◌, refl, true, false, List, [], ◌∷◌, ◌++◌, all, append_assoc}
use mobux.SessionHistory.Store.Lines.{valid_lines, non_blank, is_blank, read_lines, write_lines}
use mobux.Strings.{newline, split_lines}
use mobux.Strings.Lines.{is_printed, split_lines-line}
use mobux.Utf8.{Bytes, Text, valid, from_utf8}

-- A line without control bytes that is UTF-8 and not blank.
pub record IsClean (line : Bytes) : Type 0 where
  pub printed : all is_printed line ≡ true
  pub text : Text
  pub is_text : from_utf8 line ≡ valid text
  pub not_blank : is_blank line ≡ false

abbrev pub AllClean : List Bytes → Type 0
AllClean [] = Unit
AllClean (l ∷ lines) = IsClean l × AllClean lines

split_lines-write_lines :
    (lines : List Bytes) → AllClean lines → split_lines (write_lines lines) ≡ lines
unfolding write_lines split_lines
split_lines-write_lines [] c = refl
split_lines-write_lines (l ∷ lines) (c, cs) =
    rw (split_lines-line l (write_lines lines) c.printed, split_lines-write_lines lines cs) refl

valid_lines-clean : (lines : List Bytes) → AllClean lines → valid_lines lines ≡ lines
unfolding valid_lines
valid_lines-clean [] c = refl
valid_lines-clean (l ∷ lines) (c, cs) =
    rw (c.is_text, valid_lines) (rw (valid_lines-clean lines cs) refl)

non_blank-clean : (lines : List Bytes) → AllClean lines → non_blank lines ≡ lines
unfolding non_blank
non_blank-clean [] c = refl
non_blank-clean (l ∷ lines) (c, cs) = rw (c.not_blank, non_blank-clean lines cs) refl

pub read_lines-write_lines :
    (lines : List Bytes) → AllClean lines → read_lines (write_lines lines) ≡ lines
unfolding read_lines
read_lines-write_lines lines c =
    rw (split_lines-write_lines lines c, valid_lines-clean lines c) (non_blank-clean lines c)

pub write_lines-append_one :
    (lines : List Bytes) (l : Bytes)
    → write_lines (lines ++ l ∷ []) ≡ write_lines lines ++ l ++ newline ∷ []
unfolding write_lines
write_lines-append_one [] l = refl
write_lines-append_one (x ∷ lines) l = rw (write_lines-append_one lines l) (
    rw
      (
        append_assoc x (newline ∷ write_lines lines) l,
        append_assoc x (newline ∷ (write_lines lines ++ l)) (newline ∷ []),
      )
      refl)
