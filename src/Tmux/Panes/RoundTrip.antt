-- ===== src/Tmux/Panes/RoundTrip.antt =====
-- The windows that tmux prints are read as they are.
use mobux.Prelude.{
  ℕ, ◌^◌, ◌<◌, Bool, true, false, List, [], ◌∷◌, ◌++◌, some, ◌≡◌, refl, ◌∙◌, ap, arith, ◌==◌,
  if◌then◌else◌, all, inl, inr, Bool-cases,
}
use mobux.Strings.Decimal.{parse_uint-print_u64, print_u64-digits}
use mobux.Strings.Lines.{
  is_printed, split_lines-line, is_free, AllFree, digits-is_free, splitn-join,
}
use mobux.Strings.{chars, is_digit, join, newline, print_u64, split_lines, splitn}
use mobux.Tmux.Panes.{Pane, parse_status_lines, window_of, read_windows, parse_windows}
use mobux.Utf8.{Text, eq_bytes}

abbrev flag : Bool → Text
flag b = if b then chars "1" else chars "0"

-- `#{status}`
unfoldable pub print_status : ℕ → Text
print_status n = if n == 0 then chars "off" else if n == 1 then chars "on" else print_u64 n

abbrev fields : Pane → List Text
fields p =
    p.id
    ∷ p.index
    ∷ flag p.active
    ∷ flag p.alternate_on
    ∷ print_status p.status_lines
    ∷ p.status_position
    ∷ p.tmux_session
    ∷ []

-- The line that `WINDOW_FORMAT` asks for.
unfoldable pub print_window : Pane → Text
print_window p = join (chars ":") (fields p ++ p.title ∷ [])

unfoldable pub print_windows : List Pane → Text
unfolding print_window
print_windows [] = []
print_windows (p ∷ ps) = print_window p ++ newline ∷ print_windows ps

-- No `:` but in the title, no control character in the line, and a status that is a `u16`.
pub record IsPrintable (p : Pane) : Type 0 where
  pub id_free : is_free b':' p.id ≡ true
  pub index_free : is_free b':' p.index ≡ true
  pub position_free : is_free b':' p.status_position ≡ true
  pub session_free : is_free b':' p.tmux_session ≡ true
  pub status_fits : p.status_lines < 2 ^ 16
  pub printed : all is_printed (print_window p) ≡ true

abbrev pub AllPrintable : List Pane → Type 0
AllPrintable [] = Unit
AllPrintable (p ∷ ps) = IsPrintable p × AllPrintable ps

print_status-is_free : (n : ℕ) → is_free b':' (print_status n) ≡ true
unfolding print_status all
print_status-is_free n = elim (Bool-cases (n == 0)) [
  | inl e ↦ rw e refl
  | inr e ↦ elim (Bool-cases (n == 1)) [
    | inl d ↦ rw (e, d) refl
    | inr d ↦ rw (e, d) (digits-is_free b':' (print_u64 n) refl (print_u64-digits n))
  ]
]

digits-no_word :
    (c : ℕ) (w ds : Text)
    → is_digit c ≡ false
    → all is_digit ds ≡ true
    → eq_bytes ds (c ∷ w) ≡ false
unfolding eq_bytes all
digits-no_word c w [] h p = refl
digits-no_word c w (d ∷ ds) h p = elim (Bool-cases (d == c)) [
  | inl e ↦ absurd (ground arith)
  | inr e ↦ rw e refl
]

parse-print_status : (n : ℕ) → n < 2 ^ 16 → parse_status_lines (print_status n) ≡ n
unfolding print_status parse_status_lines eq_bytes
parse-print_status n h = elim (Bool-cases (n == 0)) [
  | inl e ↦ rw e (ground arith)
  | inr e ↦ elim (Bool-cases (n == 1)) [
    | inl d ↦ rw (e, d) (ground arith)
    | inr d ↦
        rw (e, d)
          (rw
            (
              digits-no_word b'o' (chars "n") (print_u64 n) refl (print_u64-digits n),
              digits-no_word b'o' (chars "ff") (print_u64 n) refl (print_u64-digits n),
              parse_uint-print_u64 16 n h,
            )
            refl)
  ]
]

flag-is_free : (b : Bool) → is_free b':' (flag b) ≡ true
unfolding all
flag-is_free true = refl
flag-is_free false = refl

flag-reads : (b : Bool) → eq_bytes (flag b) (chars "1") ≡ b
unfolding eq_bytes
flag-reads true = refl
flag-reads false = refl

window_of-fields :
    (p : Pane) → p.status_lines < 2 ^ 16 → window_of (fields p ++ p.title ∷ []) ≡ some p
unfolding window_of
window_of-fields p h =
    rw (flag-reads p.active, flag-reads p.alternate_on, parse-print_status p.status_lines h) refl

read-print_window : (p : Pane) → IsPrintable p → window_of (splitn 8 b':' (print_window p)) ≡ some p
unfolding print_window
read-print_window p ok =
    let free : AllFree b':' (fields p) = (
      ok.id_free,
      (
        ok.index_free,
        (
          flag-is_free p.active,
          (
            flag-is_free p.alternate_on,
            (print_status-is_free p.status_lines, (ok.position_free, (ok.session_free, tt))),
          ),
        ),
      ),
    ) in
    ap window_of (splitn-join b':' (fields p) p.title free) ∙ window_of-fields p ok.status_fits

lines_of : List Pane → List Text
lines_of [] = []
lines_of (p ∷ ps) = print_window p ∷ lines_of ps

split_lines-print_windows :
    (ps : List Pane) → AllPrintable ps → split_lines (print_windows ps) ≡ lines_of ps
unfolding print_windows lines_of split_lines
split_lines-print_windows [] ok = refl
split_lines-print_windows (p ∷ ps) (h, ok) =
    split_lines-line (print_window p) (print_windows ps) h.printed
    ∙ ap (◌∷◌ (print_window p)) (split_lines-print_windows ps ok)

read_windows-lines_of : (ps : List Pane) → AllPrintable ps → read_windows (lines_of ps) ≡ ps
unfolding read_windows lines_of
read_windows-lines_of [] ok = refl
read_windows-lines_of (p ∷ ps) (h, ok) =
    rw (read-print_window p h) (ap (◌∷◌ p) (read_windows-lines_of ps ok))

-- Windows are read from the reply as they are, where only the title has a `:`, no control character is in
-- a line, and the status is a count of 16 bits.
pub parse_windows-print_windows :
    (ps : List Pane) → AllPrintable ps → parse_windows (print_windows ps) ≡ ps
unfolding parse_windows
parse_windows-print_windows ps ok =
    ap read_windows (split_lines-print_windows ps ok) ∙ read_windows-lines_of ps ok
