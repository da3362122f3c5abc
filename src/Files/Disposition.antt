-- ===== src/Files/Disposition.antt =====
-- src/files.rs: the header that makes a browser save a file, and what it is named.
pub mod Reading
pub mod RoundTrip
use mobux.External.Http.{Http}
use mobux.Prelude.{
  ℕ, Bool, true, false, not, ◌&&◌, ◌||◌, List, [], ◌∷◌, ◌++◌, Option, none, some, ltb, leb, ◌==◌,
  within, if◌then◌else◌, all,
}
use mobux.Strings.{chars, is_digit}
use mobux.Utf8.{Bytes, Text, encode}

-- The crate percent-encoding: `utf8_percent_encode` with a set of characters that are encoded, and the
-- bytes of `percent_decode_str`.
pub record PercentEncoding : Type 0 where
  pub utf8_percent_encode : (ℕ → Bool) → Text → Text
  pub percent_decode : Text → Bytes

-- `char::is_control`
abbrev pub is_control : ℕ → Bool
is_control c = ltb c 0x20 || within 0x7F 0x9F c

-- The characters that `AsciiSet` holds; a character outside ASCII is always encoded.
abbrev pub is_alphanumeric : ℕ → Bool
is_alphanumeric c = is_digit c || within b'A' b'Z' c || within b'a' b'z' c

unfoldable pub attr_char : ℕ → Bool
attr_char c = not (
    is_alphanumeric c
    || c == b'!'
    || c == b'#'
    || c == b'$'
    || c == b'&'
    || c == b'+'
    || c == b'-'
    || c == b'.'
    || c == b'^'
    || c == b'_'
    || c == b'`'
    || c == b'|'
    || c == b'~')

-- `c.is_ascii() && c != '%'`, or else `_`
abbrev pub ascii_or_underscore : ℕ → ℕ
ascii_or_underscore c = if ltb c 0x80 && not (c == b'%') then c else b'_'

-- The name as an old client sees it.
unfoldable pub cleaned : Text → Text
cleaned [] = []
cleaned (c ∷ name) =
    let rest = cleaned name in if not (is_control c) then ascii_or_underscore c ∷ rest else rest

unfoldable pub escaped : Text → Text
escaped [] = []
escaped (c ∷ plain) =
    let rest = escaped plain in if c == b'"' || c == b'\\' then b'\\' ∷ c ∷ rest else c ∷ rest

abbrev pub opening : Text
opening = chars "attachment; filename=\""

abbrev pub between : Text
between = chars "; filename*=UTF-8''"

module _ (percent : PercentEncoding) where
  unfoldable pub content_disposition : Text → Text
  content_disposition name =
      opening
      ++ (escaped (cleaned name)
          ++ (b'"' ∷ (between ++ percent.utf8_percent_encode attr_char name)))

  -- The headers of the response; `none` where `expect` panics. `success` tells whether the status is one.
  unfoldable pub attachment : (http : Http) → Bool → http.HeaderMap → Text → Option http.HeaderMap
  attachment http success headers name =
      if not success
      then some headers
      else (let value = encode (content_disposition name) in
          if http.accepts value
          then some (http.insert (chars "content-disposition") value headers)
          else none)
