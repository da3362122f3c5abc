-- ===== src/SessionHistory/Cursor/RoundTrip.antt =====
-- A cursor that a page hands out is read back as the position it stands for.
use mobux.External.{Base64, IsBase64}
use mobux.Prelude.{
  ℕ, ◌^◌, ◌<◌, ◌≡◌, refl, true, [], ◌∷◌, ◌++◌, some, arith, inl, inr, all, Bool-cases,
}
use mobux.Strings.Decimal.{print_u64-digits, parse_u64-print_u64, split_once-digits}
use mobux.SessionHistory.Cursor.{
  cursor_text, encode_cursor, decode_cursor, decode_text, decode_v2, v2,
}
use mobux.Strings.{strip_prefix, print_u64}
use mobux.Strings.{is_digit}
use mobux.Utf8.RoundTrip.{is_ascii, from_utf8-ascii}
use mobux.Utf8.{Bytes}

all-append :
    (xs ys : Bytes)
    → all is_ascii xs ≡ true
    → all is_ascii ys ≡ true
    → all is_ascii (xs ++ ys) ≡ true
unfolding all
all-append [] ys p q = q
all-append (x ∷ xs) ys p q = elim (Bool-cases (is_ascii x)) [
  | inl e ↦ rw e (all-append xs ys (rw e at p) q)
  | inr e ↦ ground arith
]

digits-ascii : (ds : Bytes) → all is_digit ds ≡ true → all is_ascii ds ≡ true
unfolding all
digits-ascii [] p = refl
digits-ascii (x ∷ ds) p = elim (Bool-cases (is_digit x)) [
  | inl e ↦ let rec = digits-ascii ds (rw e at p) in ground arith
  | inr e ↦ ground arith
]

cursor_text-ascii : (seq offset : ℕ) → all is_ascii (cursor_text seq offset) ≡ true
unfolding cursor_text all
cursor_text-ascii seq offset = all-append v2 (print_u64 seq ++ b':' ∷ print_u64 offset) refl (
    all-append (print_u64 seq) (b':' ∷ print_u64 offset)
      (digits-ascii (print_u64 seq) (print_u64-digits seq))
      (digits-ascii (print_u64 offset) (print_u64-digits offset)))

decode_v2-print_u64 :
    (seq offset : ℕ)
    → seq < 2 ^ 64
    → offset < 2 ^ 64
    → decode_v2 (print_u64 seq ++ b':' ∷ print_u64 offset)
      ≡ some (record { seq = seq; offset = some offset })
unfolding decode_v2
decode_v2-print_u64 seq offset h k =
    rw (split_once-digits (print_u64 seq) (print_u64 offset) (print_u64-digits seq), decode_v2)
      (rw (parse_u64-print_u64 seq h, parse_u64-print_u64 offset k) refl)

decode_text-cursor_text :
    (seq offset : ℕ)
    → seq < 2 ^ 64
    → offset < 2 ^ 64
    → decode_text (cursor_text seq offset) ≡ some (record { seq = seq; offset = some offset })
unfolding decode_text strip_prefix
decode_text-cursor_text seq offset h k =
    rw (from_utf8-ascii (cursor_text seq offset) (cursor_text-ascii seq offset), decode_text)
      (unfold cursor_text in decode_v2-print_u64 seq offset h k)

-- Every cursor of 64-bit numbers that is encoded decodes to the same sequence number and offset, if
-- `base64` decodes what it encodes.
pub decode_cursor-encode_cursor :
    (base64 : Base64)
    → IsBase64 base64
    → (seq offset : ℕ) → seq < 2 ^ 64
    → offset < 2 ^ 64
    → decode_cursor base64 (encode_cursor base64 seq offset)
      ≡ some (record { seq = seq; offset = some offset })
unfolding decode_cursor encode_cursor
decode_cursor-encode_cursor base64 law seq offset h k =
    rw (law.decode-encode (cursor_text seq offset), decode_cursor)
      (decode_text-cursor_text seq offset h k)
