-- ===== src/Files/Disposition/RoundTrip.antt =====
-- The header is one that can be sent, and a browser reads both names of it.
use mobux.Files.Disposition.Reading.{
  IsPercentEncoding, percent_byte, percent_bytes, read_quoted, read_percent, read_disposition,
  AllBytes, is_visible, strip_prefix-append, read_quoted-escaped, read_percent-percent_bytes,
}
use mobux.Files.Disposition.{
  PercentEncoding, is_control, attr_char, ascii_or_underscore, cleaned, escaped, opening, between,
  content_disposition,
}
use mobux.Prelude.{
  ℕ, ◌<◌, Bool, true, not, ◌||◌, [], ◌∷◌, ◌++◌, some, ltb, ◌==◌, ◌≡◌, refl, arith, all, inl, inr,
  Bool-cases,
}
use mobux.Strings.{strip_prefix}
use mobux.Utf8.RoundTrip.{IsScalar, AllScalar}
use mobux.Utf8.{Bytes, Text, encode, encode_char}

all-append : (p : ℕ → Bool) (a b : Text) → all p a ≡ true → all p b ≡ true → all p (a ++ b) ≡ true
unfolding all
all-append p [] b h g = g
all-append p (c ∷ a) b h g = elim (Bool-cases (p c)) [
  | inl e ↦ rw e (all-append p a b (rw (e, all) at h) g)
  | inr e ↦ absurd (ground (arith, rw (e, all) at h))
]

AllBytes-append : (a b : Bytes) → AllBytes a → AllBytes b → AllBytes (a ++ b)
unfolding AllBytes
AllBytes-append [] b h g = g
AllBytes-append (x ∷ a) b (here, h) g = (here, AllBytes-append a b h g)

encode_char-AllBytes : (c : ℕ) → IsScalar c → AllBytes (encode_char c)
unfolding AllBytes encode_char
encode_char-AllBytes c scalar = elim (Bool-cases (ltb c 0x80)) [
  | inl e ↦ rw e (ground arith, tt)
  | inr e ↦ elim (Bool-cases (ltb c 0x800)) [
    | inl d ↦ rw (e, d) (ground arith, (ground arith, tt))
    | inr d ↦ elim (Bool-cases (ltb c 0x10000)) [
      | inl f ↦ rw (e, d, f) (ground arith, (ground arith, (ground arith, tt)))
      | inr f ↦ rw (e, d, f) (ground arith, (ground arith, (ground arith, (ground arith, tt))))
    ]
  ]
]

encode-AllBytes : (t : Text) → AllScalar t → AllBytes (encode t)
unfolding AllBytes encode
encode-AllBytes [] h = tt
encode-AllBytes (c ∷ t) (here, h) =
    AllBytes-append (encode_char c) (encode t) (encode_char-AllBytes c here) (encode-AllBytes t h)

cleaned-visible : (name : Text) → all is_visible (escaped (cleaned name)) ≡ true
unfolding cleaned escaped all
cleaned-visible [] = refl
cleaned-visible (c ∷ name) = elim (Bool-cases (is_control c)) [
  | inl e ↦ rw e (cleaned-visible name)
  | inr e ↦
      let d = ascii_or_underscore c in
      let shown : is_visible d ≡ true = ground arith in
      elim (Bool-cases (d == b'"' || d == b'\\')) [
        | inl f ↦ rw (e, f, shown, cleaned-visible name) refl
        | inr f ↦ rw (e, f, shown, cleaned-visible name) refl
      ]
]

percent_byte-visible : (b : ℕ) → b < 256 → all is_visible (percent_byte attr_char b) ≡ true
unfolding percent_byte attr_char all
percent_byte-visible b h = elim (Bool-cases (attr_char b || not (ltb b 0x80))) [
  | inl e ↦ rw e (ground arith)
  | inr e ↦ rw e (ground arith)
]

percent_bytes-visible :
    (bytes : Bytes) → AllBytes bytes → all is_visible (percent_bytes attr_char bytes) ≡ true
unfolding percent_bytes AllBytes all
percent_bytes-visible [] h = refl
percent_bytes-visible (b ∷ bytes) (here, h) =
    all-append is_visible (percent_byte attr_char b) (percent_bytes attr_char bytes)
      (percent_byte-visible b here) (percent_bytes-visible bytes h)

opening-visible : all is_visible opening ≡ true
unfolding all
opening-visible = refl

between-visible : all is_visible between ≡ true
unfolding all
between-visible = refl

attr_char-percent : attr_char b'%' ≡ true
unfolding attr_char
attr_char-percent = refl

abbrev content_with : Text → Text → Text
content_with plain exact = opening ++ (plain ++ (b'"' ∷ (between ++ exact)))

read_disposition-parts :
    (value rest plain behind exact : Text) (bytes : Bytes)
    → strip_prefix opening value ≡ some rest
    → read_quoted rest ≡ some (plain, behind)
    → strip_prefix between behind ≡ some exact
    → read_percent exact ≡ bytes
    → read_disposition value ≡ some (plain, bytes)
unfolding read_disposition
read_disposition-parts value rest plain behind exact bytes a b c d =
    rw (read_disposition, a, b, c, d) refl

-- For every name, the header's value consists of visible ASCII and spaces; a reader gets the cleaned
-- name from its quoted string, and from the extended parameter the bytes of the name itself.
pub content_disposition-read_disposition :
    (percent : PercentEncoding)
    → IsPercentEncoding percent
    → (name : Text) → AllScalar name
    → (all is_visible (content_disposition percent name) ≡ true)
      × (read_disposition (content_disposition percent name) ≡ some (cleaned name, encode name))
unfolding content_disposition all
content_disposition-read_disposition percent encodes name scalars =
    let exact = percent_bytes attr_char (encode name) in
    let bytes = encode-AllBytes name scalars in
    let rest = b'"' ∷ (between ++ exact) in
    let rest_visible : all is_visible rest ≡ true =
      all-append is_visible between exact between-visible
        (percent_bytes-visible (encode name) bytes) in
    let visible =
      all-append is_visible opening (escaped (cleaned name) ++ rest) opening-visible
        (all-append is_visible (escaped (cleaned name)) rest (cleaned-visible name) rest_visible) in
    rw (encodes.encodes attr_char name) (
      visible,
      read_disposition-parts (content_with (escaped (cleaned name)) exact)
          (escaped (cleaned name) ++ rest) (cleaned name) (between ++ exact) exact (encode name)
          (strip_prefix-append opening (escaped (cleaned name) ++ rest))
          (read_quoted-escaped (cleaned name) (between ++ exact))
          (strip_prefix-append between exact)
          (read_percent-percent_bytes attr_char (encode name) attr_char-percent bytes),
    )
