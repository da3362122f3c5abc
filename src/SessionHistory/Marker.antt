-- ===== src/SessionHistory/Marker.antt =====
-- src/session_history.rs: OSC 133 markers, bare and in tmux's DCS envelope. A function that reads the
-- buffer at an index takes the index and the bytes from there on.
pub mod Stable
pub mod Wrapped
pub mod RoundTrip
use mobux.Prelude.{
  ℕ, zero, suc, ◌+◌, ◌-◌, ◌*◌, Bool, true, false, ◌&&◌, not, List, [], ◌∷◌, ◌++◌, Option, none,
  some, ltb, ◌==◌, within, if◌then◌else◌, length, take, drop, is_empty,
}
use mobux.Strings.{is_digit, decimal, starts_with}
use mobux.Utf8.{Bytes, eq_bytes}

abbrev pub esc : ℕ
esc = 0x1B

pub data Marker : Type 0 where
  marker_a marker_b marker_c : Marker
  marker_d : Option ℕ → Marker

pub data MarkerMatch : Type 0 where
  complete : List Marker → ℕ → MarkerMatch
  incomplete : MarkerMatch
  not_a_marker : MarkerMatch

unfoldable pub build_marker : ℕ → Option ℕ → Option Marker
build_marker kind code =
    if kind == b'A'
    then some marker_a
    else if kind == b'B'
    then some marker_b
    else if kind == b'C'
    then some marker_c
    else if kind == b'D'
    then some (marker_d code)
    else none

abbrev pub bare_prefix : Bytes
bare_prefix = esc ∷ b']' ∷ b'1' ∷ b'3' ∷ b'3' ∷ b';' ∷ []

abbrev pub wrapped_prefix : Bytes
wrapped_prefix = esc ∷ b'P' ∷ b't' ∷ b'm' ∷ b'u' ∷ b'x' ∷ b';' ∷ []

-- The digits at the front, and what follows them.
unfoldable pub span_digits : Bytes → Bytes × Bytes
span_digits [] = ([], [])
span_digits (x ∷ xs) =
    let (digits, rest) = span_digits xs in if is_digit x then (x ∷ digits, rest) else ([], x ∷ xs)

-- `str::parse::<i32>` on digits: it fails on none, and on a value above `i32::MAX`.
unfoldable pub parse_i32 : Bytes → Option ℕ
unfolding decimal
parse_i32 [] = none
parse_i32 (x ∷ xs) = let n = decimal 0 (x ∷ xs) in if ltb n 2147483648 then some n else none

-- The end of `try_match_bare`, `end` being the index behind the terminator.
unfoldable pub finish_bare : ℕ → Option ℕ → ℕ → MarkerMatch
unfolding build_marker
finish_bare kind code end = elim (build_marker kind code) [
  | some marker ↦ complete (marker ∷ []) end
  | none ↦ not_a_marker
]

abbrev second_of_st : ℕ → Option ℕ → ℕ → Bytes → MarkerMatch
second_of_st kind code i [] = incomplete
second_of_st kind code i (x ∷ _) =
    if x == b'\\' then finish_bare kind code (i + 2) else not_a_marker

-- The terminator at index `i`: BEL, or ESC and a backslash.
unfoldable pub match_terminator : ℕ → Option ℕ → ℕ → Bytes → MarkerMatch
match_terminator kind code i [] = incomplete
match_terminator kind code i (x ∷ rest) =
    if x == 0x07
    then finish_bare kind code (i + 1)
    else if x == esc
    then second_of_st kind code i rest
    else not_a_marker

-- The digits of the exit code, the first at index `start`.
unfoldable pub match_code : ℕ → ℕ → Bytes → MarkerMatch
match_code kind start rest =
    let (digits, after) = span_digits rest in
    if is_empty after
    then incomplete
    else match_terminator kind (parse_i32 digits) (start + length digits) after

-- What follows the letter, from index `i`.
unfoldable pub match_after_kind : ℕ → ℕ → Bytes → MarkerMatch
match_after_kind kind i [] = incomplete
match_after_kind kind i (x ∷ rest) =
    if x == b';' then match_code kind (i + 1) rest else match_terminator kind none i (x ∷ rest)

abbrev match_kind : Bytes → MarkerMatch
match_kind [] = incomplete
match_kind (kind ∷ rest) = match_after_kind kind (length bare_prefix + 1) rest

unfoldable pub try_match_bare : Bytes → MarkerMatch
unfolding starts_with eq_bytes match_after_kind match_code span_digits parse_i32 match_terminator
    finish_bare
try_match_bare buf =
    if ltb (length buf) (length bare_prefix)
    then (if starts_with bare_prefix buf then incomplete else not_a_marker)
    else if not (eq_bytes (take (length bare_prefix) buf) bare_prefix)
    then not_a_marker
    else match_kind (drop (length bare_prefix) buf)

-- How the envelope's loop ends: at its terminator, with the payload and the index behind it, or at
-- one of the early returns.
pub data Envelope : Type 0 where
  closed : Bytes → ℕ → Envelope
  open_end : Envelope
  broken : Envelope

unfoldable pub unwrap_payload : Bytes → ℕ → Bytes → Envelope
unwrap_payload payload i [] = open_end
unwrap_payload payload i (x ∷ []) = open_end
unwrap_payload payload i (x ∷ y ∷ rest) = elim (x == esc) [
  | true ↦ elim (y == esc) [
    | true ↦ unwrap_payload (payload ++ (esc ∷ [])) (i + 2) rest
    | false ↦ if y == b'\\' then closed payload (i + 2) else broken
  ]
  | false ↦ unwrap_payload (payload ++ (x ∷ [])) (i + 1) (y ∷ rest)
]

-- `skip` bytes of a marker that was found are still to be passed over (`pos += len`).
unfoldable pub parse_markers_from : ℕ → Bytes → List Marker
unfolding try_match_bare
parse_markers_from skip [] = []
parse_markers_from (suc skip) (x ∷ rest) = parse_markers_from skip rest
parse_markers_from zero (x ∷ rest) =
    let others = parse_markers_from 0 rest in
    elim (x == esc) [
      | true ↦ elim (try_match_bare (x ∷ rest)) [
        | complete markers len ↦ markers ++ parse_markers_from (len - 1) rest
        | _ ↦ others
      ]
      | false ↦ others
    ]

unfoldable pub parse_all_bare_markers : Bytes → List Marker
unfolding parse_markers_from
parse_all_bare_markers = parse_markers_from 0

abbrev markers_or_none : List Marker → ℕ → MarkerMatch
markers_or_none [] len = not_a_marker
markers_or_none (m ∷ ms) len = complete (m ∷ ms) len

abbrev match_envelope : Envelope → MarkerMatch
match_envelope (closed payload len) = markers_or_none (parse_all_bare_markers payload) len
match_envelope open_end = incomplete
match_envelope broken = not_a_marker

unfoldable pub try_match_wrapped : Bytes → MarkerMatch
unfolding starts_with eq_bytes unwrap_payload parse_all_bare_markers
try_match_wrapped buf =
    if ltb (length buf) (length wrapped_prefix)
    then (if starts_with wrapped_prefix buf then incomplete else not_a_marker)
    else if not (eq_bytes (take (length wrapped_prefix) buf) wrapped_prefix)
    then not_a_marker
    else match_envelope
        (unwrap_payload [] (length wrapped_prefix) (drop (length wrapped_prefix) buf))

-- Called where `buf` begins with ESC.
unfoldable pub try_match_marker : Bytes → MarkerMatch
unfolding try_match_bare try_match_wrapped
try_match_marker [] = incomplete
try_match_marker (x ∷ []) = incomplete
try_match_marker (x ∷ y ∷ rest) =
    if y == b']'
    then try_match_bare (x ∷ y ∷ rest)
    else if y == b'P'
    then try_match_wrapped (x ∷ y ∷ rest)
    else not_a_marker
