-- ===== src/Files/Disposition/Reading.antt =====
-- How a browser reads the names, and what it reads of the parts.
use mobux.Files.Disposition.{PercentEncoding, escaped, opening, between}
use mobux.Prelude.{
  ℕ, ◌+◌, ◌-◌, ◌*◌, ◌/◌, ◌%◌, ◌<◌, Bool, true, false, not, ◌||◌, [], ◌∷◌, ◌++◌, Option, none, some,
  ltb, leb, ◌==◌, ◌≡◌, refl, ◌∙◌, ap, arith, within, if◌then◌else◌, inl, inr, Bool-cases,
}
use mobux.Strings.{strip_prefix}
use mobux.Utf8.{Bytes, Text, encode}

abbrev upper_hex : ℕ → ℕ
upper_hex d = if ltb d 10 then b'0' + d else b'A' + (d - 10)

-- A byte of the set, and every byte outside ASCII, is written in two digits behind a percent sign.
unfoldable pub percent_byte : (ℕ → Bool) → ℕ → Text
percent_byte set b =
    if set b || not (ltb b 0x80)
    then b'%' ∷ upper_hex (b / 16) ∷ upper_hex (b % 16) ∷ []
    else b ∷ []

unfoldable pub percent_bytes : (ℕ → Bool) → Bytes → Text
percent_bytes set [] = []
percent_bytes set (b ∷ bytes) = percent_byte set b ++ percent_bytes set bytes

-- `utf8_percent_encode` goes over the bytes of the text.
pub record IsPercentEncoding (percent : PercentEncoding) : Type 1 where
  pub encodes :
      (set : ℕ → Bool) (t : Text) → percent.utf8_percent_encode set t ≡ percent_bytes set (encode t)

abbrev push_read : ℕ → Option (Text × Text) → Option (Text × Text)
push_read c none = none
push_read c (some (t, rest)) = some (c ∷ t, rest)

-- A quoted string, behind its first quote, and what follows it: a backslash stands before a character
-- that is taken as it is.
unfoldable pub read_quoted : Text → Option (Text × Text)
read_quoted [] = none
read_quoted (c ∷ []) = if c == b'"' then some ([], []) else none
read_quoted (c ∷ d ∷ s) =
    let next = read_quoted (d ∷ s) in
    let behind = read_quoted s in
    if c == b'"'
    then some ([], d ∷ s)
    else if c == b'\\'
    then push_read d behind
    else push_read c next

abbrev hex_value : ℕ → ℕ
hex_value c = if leb c b'9' then c - b'0' else c - b'A' + 10

-- The bytes of a text with percent signs.
unfoldable pub read_percent : Text → Bytes
read_percent [] = []
read_percent (c ∷ []) = c ∷ []
read_percent (c ∷ d ∷ []) = c ∷ d ∷ []
read_percent (c ∷ d ∷ e ∷ s) =
    let next = read_percent (d ∷ e ∷ s) in
    let behind = read_percent s in
    if c == b'%' then (hex_value d * 16 + hex_value e) ∷ behind else c ∷ next

abbrev pub exact_name : Text → Option Text → Option (Text × Bytes)
exact_name plain none = none
exact_name plain (some rest) = some (plain, read_percent rest)

abbrev pub both_names : Option (Text × Text) → Option (Text × Bytes)
both_names none = none
both_names (some (plain, rest)) = exact_name plain (strip_prefix between rest)

-- The names of the header's value: that of `filename`, and the bytes of that of `filename*`.
unfoldable pub read_disposition : Text → Option (Text × Bytes)
read_disposition value = elim (strip_prefix opening value) [
  | none ↦ none
  | some rest ↦ both_names (read_quoted rest)
]

abbrev pub is_visible : ℕ → Bool
is_visible = within 0x20 0x7E

pub strip_prefix-append : (p s : Text) → strip_prefix p (p ++ s) ≡ some s
unfolding strip_prefix
strip_prefix-append [] s = refl
strip_prefix-append (c ∷ p) s = rw (strip_prefix-append p s) (ground arith)

read_quoted-plain :
    (c : ℕ) (s : Text)
    → (c == b'"') ≡ false
    → (c == b'\\') ≡ false
    → (t : Text) (rest : Text) → read_quoted s ≡ some (t, rest)
    → read_quoted (c ∷ s) ≡ some (c ∷ t, rest)
unfolding read_quoted
read_quoted-plain c [] q b t rest e = absurd (ground arith)
read_quoted-plain c (d ∷ s) q b t rest e = rw (q, b, e) refl

pub read_quoted-escaped :
    (plain rest : Text) → read_quoted (escaped plain ++ b'"' ∷ rest) ≡ some (plain, rest)
unfolding escaped read_quoted
read_quoted-escaped [] [] = refl
read_quoted-escaped [] (d ∷ rest) = refl
read_quoted-escaped (c ∷ plain) rest = elim (Bool-cases (c == b'"' || c == b'\\')) [
  | inl e ↦ rw (e, read_quoted-escaped plain rest) refl
  | inr e ↦ rw e (
      read_quoted-plain c (escaped plain ++ b'"' ∷ rest) (ground arith) (ground arith) plain rest
        (read_quoted-escaped plain rest))
]

hex_value-upper_hex : (d : ℕ) → d < 16 → hex_value (upper_hex d) ≡ d
hex_value-upper_hex d h = ground arith

read_percent-plain :
    (c : ℕ) (s : Text) → (c == b'%') ≡ false → read_percent (c ∷ s) ≡ c ∷ read_percent s
unfolding read_percent
read_percent-plain c [] h = refl
read_percent-plain c (d ∷ []) h = refl
read_percent-plain c (d ∷ e ∷ s) h = rw h refl

unfoldable pub AllBytes : Bytes → Type 0
AllBytes [] = Unit
AllBytes (b ∷ bytes) = (b < 256) × AllBytes bytes

-- Where the set holds the percent sign, the bytes are read back.
pub read_percent-percent_bytes :
    (set : ℕ → Bool) (bytes : Bytes)
    → set b'%' ≡ true
    → AllBytes bytes
    → read_percent (percent_bytes set bytes) ≡ bytes
unfolding percent_bytes percent_byte AllBytes read_percent
read_percent-percent_bytes set [] h small = refl
read_percent-percent_bytes set (b ∷ bytes) h (b_small, small) =
    let later = read_percent-percent_bytes set bytes h small in
    elim (Bool-cases (set b || not (ltb b 0x80))) [
      | inl e ↦
          let value : (hex_value (upper_hex (b / 16)) * 16 + hex_value (upper_hex (b % 16))) ≡ b =
            rw
              (
                hex_value-upper_hex (b / 16) (omega arith),
                hex_value-upper_hex (b % 16) (omega arith),
              )
              (omega arith) in
          rw e (ap (λ v. v ∷ read_percent (percent_bytes set bytes)) value ∙ ap (◌∷◌ b) later)
      | inr e ↦ elim (Bool-cases (b == b'%')) [
        | inl d ↦ let same : b ≡ b'%' = ground arith in absurd (ground (arith, rw (same, h) at e))
        | inr d ↦ rw e (read_percent-plain b (percent_bytes set bytes) d ∙ ap (◌∷◌ b) later)
      ]
    ]
