-- ===== src/SessionHistory/Marker/RoundTrip.antt =====
-- The marker that a shell prints at a command's end is read back with its exit code, also from inside
-- tmux's envelope.
use mobux.Prelude.{
  ℕ, zero, suc, ◌+◌, ◌-◌, ◌≤◌, ◌<◌, ◌^◌, ◌≡◌, refl, sym, ap, ◌∙◌, true, false, [], ◌∷◌, ◌++◌, some,
  arith, inl, inr, ◌==◌, if◌then◌else◌, all, length, length-append, append_assoc, append-nil,
  is_empty, Bool-cases,
}
use mobux.Strings.Decimal.{print_u64-digits, print_digits_lem, print_u64-nonempty}
use mobux.Strings.{print_u64}
use mobux.SessionHistory.Marker.Stable.{guarded-match_prefix, match_prefix}
use mobux.SessionHistory.Marker.Wrapped.{unwrap_doubled, unwrap_plain, unwrap_end}
use mobux.SessionHistory.Marker.{
  Marker, marker_d, complete, esc, bare_prefix, wrapped_prefix, span_digits, parse_i32,
  match_terminator, match_code, match_after_kind, match_kind, finish_bare, build_marker,
  try_match_bare, unwrap_payload, closed, parse_markers_from, parse_all_bare_markers,
  match_envelope, try_match_wrapped, try_match_marker,
}
use mobux.Strings.{is_digit, decimal}
use mobux.Utf8.{Bytes}

-- `\e]133;D;<code>\a`
unfoldable pub print_end_marker : ℕ → Bytes
print_end_marker code = bare_prefix ++ b'D' ∷ b';' ∷ (print_u64 code ++ 0x07 ∷ [])

-- Every ESC twice.
unfoldable pub double_esc : Bytes → Bytes
double_esc [] = []
double_esc (x ∷ bytes) =
    let rest = double_esc bytes in if x == esc then esc ∷ esc ∷ rest else x ∷ rest

-- tmux's passthrough, `\ePtmux;<payload>\e\\`.
unfoldable pub wrap : Bytes → Bytes
unfolding double_esc
wrap payload = wrapped_prefix ++ (double_esc payload ++ esc ∷ b'\\' ∷ [])

span_digits-digits :
    (ds rest : Bytes) → all is_digit ds ≡ true → span_digits (ds ++ 0x07 ∷ rest) ≡ (ds, 0x07 ∷ rest)
unfolding span_digits all
span_digits-digits [] rest p = refl
span_digits-digits (x ∷ ds) rest p = elim (Bool-cases (is_digit x)) [
  | inl e ↦ rw e (rw (span_digits-digits ds rest (rw e at p)) refl)
  | inr e ↦ ground arith
]

parse_i32-value :
    (ds : Bytes) (n : ℕ)
    → is_empty ds ≡ false
    → decimal 0 ds ≡ n
    → n < 2 ^ 31
    → parse_i32 ds ≡ some n
unfolding parse_i32
parse_i32-value [] n p q h = ground arith
parse_i32-value (x ∷ ds) n p q h = rw q (ground arith)

parse_i32-print_u64 : (n : ℕ) → n < 2 ^ 31 → parse_i32 (print_u64 n) ≡ some n
parse_i32-print_u64 n h =
    parse_i32-value (print_u64 n) n (print_u64-nonempty n)
      (unfold print_u64 in (print_digits_lem (suc n) n (omega arith)).0) h

match_code-print_u64 :
    (n : ℕ) (rest : Bytes)
    → n < 2 ^ 31
    → match_code b'D' 8 (print_u64 n ++ 0x07 ∷ rest)
      ≡ complete (marker_d (some n) ∷ []) (8 + length (print_u64 n) + 1)
unfolding match_code match_terminator finish_bare build_marker
match_code-print_u64 n rest h =
    rw (span_digits-digits (print_u64 n) rest (print_u64-digits n))
      (rw (parse_i32-print_u64 n h) refl)

try_match_bare-prefix : (rest : Bytes) → try_match_bare (bare_prefix ++ rest) ≡ match_kind rest
unfolding try_match_bare match_prefix
try_match_bare-prefix rest =
    rw (guarded-match_prefix match_kind bare_prefix (bare_prefix ++ rest)) refl

match_kind-end :
    (code : ℕ) (rest : Bytes)
    → code < 2 ^ 31
    → match_kind (b'D' ∷ b';' ∷ (print_u64 code ++ 0x07 ∷ rest))
      ≡ complete (marker_d (some code) ∷ []) (length (print_end_marker code))
unfolding print_end_marker match_after_kind
match_kind-end code rest h =
    match_code-print_u64 code rest h
    ∙ ap (λ n. complete (marker_d (some code) ∷ []) n)
        (omega (arith, length-append (print_u64 code) (0x07 ∷ [])))

try_match_bare-end :
    (code : ℕ) (rest : Bytes)
    → code < 2 ^ 31
    → try_match_bare (print_end_marker code ++ rest)
      ≡ complete (marker_d (some code) ∷ []) (length (print_end_marker code))
try_match_bare-end code rest h =
    let tail = b'D' ∷ b';' ∷ (print_u64 code ++ 0x07 ∷ rest) in
    let same : print_end_marker code ++ rest ≡ bare_prefix ++ tail =
      unfold print_end_marker in
      ap (λ r. bare_prefix ++ b'D' ∷ b';' ∷ r) (append_assoc (print_u64 code) (0x07 ∷ []) rest) in
    ap try_match_bare same ∙ try_match_bare-prefix tail ∙ match_kind-end code rest h

unwrap_plain_tail :
    (payload : Bytes) (i x : ℕ) (tail : Bytes)
    → 1 ≤ length tail
    → (x == esc) ≡ false
    → unwrap_payload payload i (x ∷ tail) ≡ unwrap_payload (payload ++ x ∷ []) (i + 1) tail
unwrap_plain_tail payload i x [] h e = ground arith
unwrap_plain_tail payload i x (y ∷ tail) h e = unwrap_plain payload i x y tail e

-- The envelope's loop takes the doubled payload apart.
unwrap_payload-double_esc :
    (payload bytes : Bytes) (i : ℕ) (rest : Bytes)
    → unwrap_payload payload i (double_esc bytes ++ esc ∷ b'\\' ∷ rest)
      ≡ closed (payload ++ bytes) (i + length (double_esc bytes) + 2)
unfolding double_esc
unwrap_payload-double_esc payload [] i rest =
    unwrap_end payload i esc b'\\' rest refl refl
    ∙ rw (append-nil payload) (ap (λ n. closed payload n) (omega arith))
unwrap_payload-double_esc payload (x ∷ bytes) i rest =
    let tail = double_esc bytes ++ esc ∷ b'\\' ∷ rest in
    let size = length-append (double_esc bytes) (esc ∷ b'\\' ∷ rest) in
    elim (Bool-cases (x == esc)) [
      | inl e ↦
          let x_is : x ≡ esc = ground arith in
          rw e (
            unwrap_doubled payload i esc esc tail refl refl
            ∙ unwrap_payload-double_esc (payload ++ esc ∷ []) bytes (i + 2) rest
            ∙ rw (append_assoc payload (esc ∷ []) bytes, x_is)
                (ap (λ n. closed (payload ++ esc ∷ bytes) n) (omega arith)))
      | inr e ↦ rw e (
          unwrap_plain_tail payload i x tail (omega arith) e
          ∙ unwrap_payload-double_esc (payload ++ x ∷ []) bytes (i + 1) rest
          ∙ rw (append_assoc payload (x ∷ []) bytes)
              (ap (λ n. closed (payload ++ x ∷ bytes) n) (omega arith)))
    ]

parse_markers_from_end :
    (skip : ℕ) (bytes : Bytes) → length bytes ≤ skip → parse_markers_from skip bytes ≡ []
unfolding parse_markers_from
parse_markers_from_end skip [] h = refl
parse_markers_from_end zero (x ∷ bytes) h = absurd (omega arith)
parse_markers_from_end (suc skip) (x ∷ bytes) h = parse_markers_from_end skip bytes (omega arith)

parse_markers_from-complete :
    (rest : Bytes) (m : Marker)
    → try_match_bare (esc ∷ rest) ≡ complete (m ∷ []) (length (esc ∷ rest))
    → parse_markers_from 0 (esc ∷ rest) ≡ m ∷ []
unfolding parse_markers_from
parse_markers_from-complete rest m e =
    rw (e, parse_markers_from)
      (ap (λ ms. m ∷ ms) (parse_markers_from_end (length (esc ∷ rest) - 1) rest (omega arith)))

try_match_bare-whole :
    (code : ℕ)
    → code < 2 ^ 31
    → try_match_bare (print_end_marker code)
      ≡ complete (marker_d (some code) ∷ []) (length (print_end_marker code))
try_match_bare-whole code h =
    ap try_match_bare (sym (append-nil (print_end_marker code))) ∙ try_match_bare-end code [] h

parse_all-print_end_marker :
    (code : ℕ)
    → code < 2 ^ 31
    → parse_all_bare_markers (print_end_marker code) ≡ marker_d (some code) ∷ []
unfolding parse_all_bare_markers
parse_all-print_end_marker code h =
    let matched = try_match_bare-whole code h in
    unfold print_end_marker in
    parse_markers_from-complete
      (b']' ∷ b'1' ∷ b'3' ∷ b'3' ∷ b';' ∷ b'D' ∷ b';' ∷ (print_u64 code ++ 0x07 ∷ []))
      (marker_d (some code)) matched

try_match_wrapped-prefix :
    (rest : Bytes)
    → try_match_wrapped (wrapped_prefix ++ rest) ≡ match_envelope (unwrap_payload [] 7 rest)
unfolding try_match_wrapped match_prefix
try_match_wrapped-prefix rest =
    rw
      (guarded-match_prefix (λ r. match_envelope (unwrap_payload [] 7 r)) wrapped_prefix
        (wrapped_prefix ++ rest))
      refl

-- The end marker of a command in tmux's envelope, whatever bytes follow it, is read as `D` with the exit
-- code printed, for each code that an `i32` holds, and takes the envelope's length.
pub try_match_marker-wrap :
    (code : ℕ) (rest : Bytes)
    → code < 2 ^ 31
    → try_match_marker (wrap (print_end_marker code) ++ rest)
      ≡ complete (marker_d (some code) ∷ []) (length (wrap (print_end_marker code)))
unfolding try_match_marker wrap
try_match_marker-wrap code rest h =
    let payload = print_end_marker code in
    let tail = double_esc payload ++ esc ∷ b'\\' ∷ rest in
    ap (λ r. try_match_wrapped (wrapped_prefix ++ r))
      (append_assoc (double_esc payload) (esc ∷ b'\\' ∷ []) rest)
    ∙ try_match_wrapped-prefix tail
    ∙ rw (unwrap_payload-double_esc [] payload 7 rest) (
        rw (parse_all-print_end_marker code h) (
          ap (λ n. complete (marker_d (some code) ∷ []) n)
            (omega (arith, length-append (double_esc payload) (esc ∷ b'\\' ∷ [])))))
