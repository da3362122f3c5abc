-- ===== src/SessionHistory/Cursor.antt =====
-- src/session_history.rs: the opaque cursor of a page.
pub mod RoundTrip
use mobux.External.{Base64}
use mobux.Prelude.{
  ℕ, zero, suc, ◌+◌, ◌-◌, ◌/◌, ◌%◌, ◌^◌, Bool, true, false, ◌&&◌, List, [], ◌∷◌, ◌++◌, Option, none,
  some, ltb, ◌==◌, if◌then◌else◌, all, is_empty,
}
use mobux.Strings.{decimal, is_digit}
use mobux.Strings.{print_u64, parse_uint, parse_u64, strip_prefix, split_once}
use mobux.Utf8.{Bytes, Utf8Check, valid, error, from_utf8}

pub record PageCursor : Type 0 where
  pub seq : ℕ
  pub offset : Option ℕ

abbrev pub v1 : Bytes
v1 = b'v' ∷ b'1' ∷ b':' ∷ []

abbrev pub v2 : Bytes
v2 = b'v' ∷ b'2' ∷ b':' ∷ []

unfoldable pub decode_v1 : Bytes → Option PageCursor
unfolding strip_prefix parse_uint
decode_v1 text = elim (strip_prefix v1 text) [
  | none ↦ none
  | some rest ↦ elim (parse_u64 rest) [
    | none ↦ none
    | some seq ↦ some (record { seq = seq; offset = none })
  ]
]

unfoldable pub decode_v2 : Bytes → Option PageCursor
unfolding split_once parse_uint
decode_v2 rest = elim (split_once b':' rest) [
  | none ↦ none
  | some (seq, offset) ↦ elim (parse_u64 seq) [
    | none ↦ none
    | some n ↦ elim (parse_u64 offset) [
      | none ↦ none
      | some k ↦ some (record { seq = n; offset = some k })
    ]
  ]
]

-- `decode_cursor` on the decoded bytes.
unfoldable pub decode_text : Bytes → Option PageCursor
unfolding from_utf8 strip_prefix decode_v1 decode_v2
decode_text bytes = elim (from_utf8 bytes) [
  | error _ _ _ ↦ none
  | valid _ ↦ elim (strip_prefix v2 bytes) [ some rest ↦ decode_v2 rest | none ↦ decode_v1 bytes ]
]

unfoldable pub cursor_text : ℕ → ℕ → Bytes
unfolding print_u64
cursor_text seq offset = v2 ++ print_u64 seq ++ b':' ∷ print_u64 offset

module _ (base64 : Base64) where
  unfoldable pub encode_cursor : ℕ → ℕ → Bytes
  unfolding cursor_text
  encode_cursor seq offset = base64.encode (cursor_text seq offset)

  unfoldable pub decode_cursor : Bytes → Option PageCursor
  unfolding decode_text
  decode_cursor cursor = elim (base64.decode cursor) [
    | none ↦ none
    | some bytes ↦ decode_text bytes
  ]
