-- ===== src/Tmux/History/RoundTrip.antt =====
-- The reply of a capture is taken apart as it was put together.
use mobux.Prelude.{
  ℕ, suc, ◌+◌, ◌^◌, ◌<◌, true, false, [], ◌∷◌, ◌++◌, none, some, ◌≡◌, refl, ◌∙◌, ap, arith, ◌==◌,
  ltb, length, is_empty, all, inl, inr, Bool-cases, append_assoc, take-append_self,
  drop-append_more, drop-append_self,
}
use mobux.Strings.Decimal.{parse_uint-print_u64, print_u64-digits, trim-digits}
use mobux.Strings.Equality.{eq_bytes_self}
use mobux.Strings.Lines.{is_free, digits-is_free, split_once-free}
use mobux.Strings.{newline, print_u64, split_once, starts_with}
use mobux.Tmux.History.{
  drop_partial_first_line, joins_into_screen, ends_with_newline, rfind, read_parts, parse_rest,
  parse_history_capture,
}
use mobux.Utf8.{Text, eq_bytes}

starts_with_self : (p s : Text) → starts_with (p ++ s) p ≡ true
unfolding starts_with
starts_with_self p s = rw (take-append_self p s) (eq_bytes_self p)

-- A line feed stands where the marker has none.
starts_with_early :
    (v delim s w : Text)
    → is_free newline delim ≡ true
    → length v < length delim
    → starts_with (v ++ newline ∷ s) (delim ++ w) ≡ false
unfolding starts_with eq_bytes all
starts_with_early v [] s w free h = absurd (ground arith)
starts_with_early [] (d ∷ delim) s w free h = elim (Bool-cases (d == newline)) [
  | inl e ↦ absurd (ground (arith, rw e at free))
  | inr e ↦ let other : (newline == d) ≡ false = ground arith in rw other refl
]
starts_with_early (c ∷ v) (d ∷ delim) s w free h = elim (Bool-cases (d == newline)) [
  | inl e ↦ absurd (ground (arith, rw e at free))
  | inr e ↦ rw (starts_with_early v delim s w (rw e at free) (omega arith)) (ground arith)
]

rfind-append :
    (needle text s : Text) (i : ℕ)
    → rfind needle s ≡ some i
    → rfind needle (text ++ s) ≡ some (length text + i)
unfolding rfind
rfind-append needle [] s i h = rw h (ground arith)
rfind-append needle (c ∷ text) s i h = rw (rfind-append needle text s i h) (ground arith)

module _ (delim straddle : Text) (free : is_free newline delim ≡ true)
    (no_marker : rfind (delim ++ newline ∷ []) straddle ≡ none) where
  rfind_behind :
      (u : Text)
      → length u < length delim
      → rfind (delim ++ newline ∷ []) (u ++ newline ∷ straddle) ≡ none
  unfolding rfind
  rfind_behind [] h = rw (no_marker, starts_with_early [] delim straddle (newline ∷ []) free h) refl
  rfind_behind (c ∷ u) h =
      rw
        (
          rfind_behind u (omega arith),
          starts_with_early (c ∷ u) delim straddle (newline ∷ []) free h,
        )
        refl

rfind-here :
    (needle : Text) (c : ℕ) (s : Text)
    → rfind needle s ≡ none
    → starts_with (c ∷ s) needle ≡ true
    → rfind needle (c ∷ s) ≡ some 0
unfolding rfind
rfind-here needle c s h p = rw (h, p) refl

rfind_self :
    (delim straddle : Text)
    → is_free newline delim ≡ true
    → rfind (delim ++ newline ∷ []) straddle ≡ none
    → rfind (delim ++ newline ∷ []) ((delim ++ newline ∷ []) ++ straddle) ≡ some 0
rfind_self [] straddle free no_marker =
    rfind-here (newline ∷ []) newline straddle no_marker (starts_with_self (newline ∷ []) straddle)
rfind_self (d ∷ delim) straddle free no_marker =
    let marker = (d ∷ delim) ++ newline ∷ [] in
    let tail : (delim ++ newline ∷ []) ++ straddle ≡ delim ++ newline ∷ straddle =
      append_assoc delim (newline ∷ []) straddle in
    rfind-here marker d ((delim ++ newline ∷ []) ++ straddle)
      (ap (rfind marker) tail
        ∙ rfind_behind (d ∷ delim) straddle free no_marker delim (omega arith))
      (starts_with_self marker straddle)

-- What tmux prints for `history_capture_args`.
unfoldable pub print_reply : ℕ → Text → Text → Text → Text
print_reply size text delim straddle =
    print_u64 size ++ newline ∷ (text ++ ((delim ++ newline ∷ []) ++ straddle))

parse_rest-print :
    (size lines : ℕ) (text delim straddle : Text)
    → is_free newline delim ≡ true
    → rfind (delim ++ newline ∷ []) straddle ≡ none
    → parse_rest size lines (delim ++ newline ∷ []) (text ++ ((delim ++ newline ∷ []) ++ straddle))
      ≡ read_parts size lines text straddle
unfolding parse_rest
parse_rest-print size lines text delim straddle free no_marker =
    let marker = delim ++ newline ∷ [] in
    let found : rfind marker (text ++ (marker ++ straddle)) ≡ some (length text + 0) =
      rfind-append marker text (marker ++ straddle) 0 (rfind_self delim straddle free no_marker) in
    let at : length text + 0 ≡ length text = omega arith in
    rw (found, parse_rest, at)
      (rw
        (
          take-append_self text (marker ++ straddle),
          drop-append_more (length marker) text (marker ++ straddle),
          drop-append_self marker straddle,
        )
        refl)

split-print_reply :
    (size : ℕ) (text delim straddle : Text)
    → split_once newline (print_reply size text delim straddle)
      ≡ some (print_u64 size, text ++ ((delim ++ newline ∷ []) ++ straddle))
unfolding print_reply
split-print_reply size text delim straddle =
    split_once-free newline (print_u64 size) (text ++ ((delim ++ newline ∷ []) ++ straddle))
      (digits-is_free newline (print_u64 size) refl (print_u64-digits size))

read_parts-whole :
    (size lines : ℕ) (text straddle : Text)
    → ends_with_newline text ≡ true
    → read_parts (suc size) lines text straddle
      ≡ some (record {
        text = drop_partial_first_line text (ltb lines (suc size));
        continues = joins_into_screen straddle;
      })
unfolding read_parts
read_parts-whole size lines text straddle h = elim (Bool-cases (is_empty text)) [
  | inl e ↦ rw (e, read_parts) (ground arith)
  | inr e ↦ rw (e, read_parts) (rw h (ground arith))
]

-- The reply is taken apart into the history, whose partial first line is dropped where there is more of it
-- than was asked for, and the straddle check, whatever the history holds, also the delimiter: where there
-- is history, its capture ends a line, the delimiter is one line and is not printed behind itself.
pub parse_history_capture-print_reply :
    (size lines : ℕ) (text delim straddle : Text)
    → suc size < 2 ^ 32
    → ends_with_newline text ≡ true
    → is_free newline delim ≡ true
    → rfind (delim ++ newline ∷ []) straddle ≡ none
    → parse_history_capture (print_reply (suc size) text delim straddle) lines delim
      ≡ some (record {
        text = drop_partial_first_line text (ltb lines (suc size));
        continues = joins_into_screen straddle;
      })
unfolding parse_history_capture
parse_history_capture-print_reply size lines text delim straddle fits ended free no_marker =
    let rest = text ++ ((delim ++ newline ∷ []) ++ straddle) in
    rw
      (
        split-print_reply (suc size) text delim straddle,
        parse_history_capture,
        trim-digits (print_u64 (suc size)) (print_u64-digits (suc size)),
        parse_uint-print_u64 32 (suc size) fits,
      )
      (parse_rest-print (suc size) lines text delim straddle free no_marker
        ∙ read_parts-whole size lines text straddle ended)
