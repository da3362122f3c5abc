-- ===== src/Utf8.antt =====
-- UTF-8 as Rust's standard library reads it (`std::str::from_utf8`, `String::from_utf8_lossy`),
-- and src/utf8_stream.rs, which decodes a stream that arrives in pieces.
pub mod Scan
pub mod Stream
pub mod RoundTrip
use mobux.Prelude.{
  ℕ, zero, suc, ◌+◌, ◌-◌, ◌*◌, ◌/◌, ◌%◌, Bool, true, false, ◌&&◌, ◌||◌, List, [], ◌∷◌, ◌++◌, Option,
  none, some, ltb, ◌==◌, within, if◌then◌else◌,
}

abbrev pub Bytes : Type 0
Bytes = List ℕ

-- A Rust `String` or `Vec<char>`, as its scalar values.
abbrev pub Text : Type 0
Text = List ℕ

-- `char::REPLACEMENT_CHARACTER`
abbrev pub replacement : ℕ
replacement = 0xFFFD

-- How a byte string begins: with a character of so many bytes, with so many bytes that begin no
-- character (`Utf8Error::error_len`), or with a character that the end cuts off.
pub data Head : Type 0 where
  char : ℕ → ℕ → Head
  bad : ℕ → Head
  cut : Head

abbrev is_cont : ℕ → Bool
is_cont = within 0x80 0xBF

two : ℕ → Bytes → Head
two b0 [] = cut
two b0 (b1 ∷ _) = if is_cont b1 then char ((b0 - 0xC0) * 64 + (b1 - 0x80)) 2 else bad 1

-- No overlong form, no surrogate.
abbrev second_of_three : ℕ → ℕ → Bool
second_of_three b0 b1 =
    if b0 == 0xE0
    then within 0xA0 0xBF b1
    else if b0 == 0xED
    then within 0x80 0x9F b1
    else is_cont b1

three : ℕ → Bytes → Head
three b0 [] = cut
three b0 (b1 ∷ []) = if second_of_three b0 b1 then cut else bad 1
three b0 (b1 ∷ b2 ∷ _) =
    if second_of_three b0 b1
    then (if is_cont b2
        then char ((b0 - 0xE0) * 4096 + (b1 - 0x80) * 64 + (b2 - 0x80)) 3
        else bad 2)
    else bad 1

-- No overlong form, nothing above U+10FFFF.
abbrev second_of_four : ℕ → ℕ → Bool
second_of_four b0 b1 =
    if b0 == 0xF0
    then within 0x90 0xBF b1
    else if b0 == 0xF4
    then within 0x80 0x8F b1
    else is_cont b1

four : ℕ → Bytes → Head
four b0 [] = cut
four b0 (b1 ∷ []) = if second_of_four b0 b1 then cut else bad 1
four b0 (b1 ∷ b2 ∷ []) = if second_of_four b0 b1 then (if is_cont b2 then cut else bad 2) else bad 1
four b0 (b1 ∷ b2 ∷ b3 ∷ _) =
    if second_of_four b0 b1
    then (if is_cont b2
        then (if is_cont b3
            then char ((b0 - 0xF0) * 262144 + (b1 - 0x80) * 4096 + (b2 - 0x80) * 64 + (b3 - 0x80)) 4
            else bad 3)
        else bad 2)
    else bad 1

unfoldable pub next_char : ℕ → Bytes → Head
unfolding two three four
next_char b0 rest =
    if ltb b0 0x80
    then char b0 1
    else if within 0xC2 0xDF b0
    then two b0 rest
    else if within 0xE0 0xEF b0
    then three b0 rest
    else if within 0xF0 0xF4 b0
    then four b0 rest
    else bad 1

-- What `str::from_utf8` answers: the whole text, or the text before the first error, what follows
-- it, and the length of the bad bytes (`none` where the input ends inside a character).
pub data Utf8Check : Type 0 where
  valid : Text → Utf8Check
  error : Text → Bytes → Option ℕ → Utf8Check

abbrev push_front : ℕ → Utf8Check → Utf8Check
push_front c (valid t) = valid (c ∷ t)
push_front c (error t after len) = error (c ∷ t) after len

-- The first argument counts the bytes of a character that are still to be passed over.
from_utf8_from : ℕ → Bytes → Utf8Check
from_utf8_from k [] = valid []
from_utf8_from (suc k) (b ∷ r) = from_utf8_from k r
from_utf8_from zero (b ∷ r) = elim (next_char b r) [
  | char c n ↦ push_front c (from_utf8_from (n - 1) r)
  | bad n ↦ error [] (b ∷ r) (some n)
  | cut ↦ error [] (b ∷ r) none
]

unfoldable pub from_utf8 : Bytes → Utf8Check
unfolding from_utf8_from next_char
from_utf8 = from_utf8_from 0

lossy_from : ℕ → Bytes → Text
lossy_from k [] = []
lossy_from (suc k) (b ∷ r) = lossy_from k r
lossy_from zero (b ∷ r) = elim (next_char b r) [
  | char c n ↦ c ∷ lossy_from (n - 1) r
  | bad n ↦ replacement ∷ lossy_from (n - 1) r
  | cut ↦ replacement ∷ []
]

unfoldable pub from_utf8_lossy : Bytes → Text
unfolding lossy_from next_char
from_utf8_lossy = lossy_from 0

-- `==` on byte slices and on strings
unfoldable pub eq_bytes : Bytes → Bytes → Bool
eq_bytes [] [] = true
eq_bytes (x ∷ xs) (y ∷ ys) = x == y && eq_bytes xs ys
eq_bytes _ _ = false

-- The bytes of a `String` (`as_bytes`, `len`).
unfoldable pub encode_char : ℕ → Bytes
encode_char c =
    if ltb c 0x80
    then c ∷ []
    else if ltb c 0x800
    then (0xC0 + c / 64) ∷ (0x80 + c % 64) ∷ []
    else if ltb c 0x10000
    then (0xE0 + c / 4096) ∷ (0x80 + c / 64 % 64) ∷ (0x80 + c % 64) ∷ []
    else (0xF0 + c / 262144) ∷ (0x80 + c / 4096 % 64) ∷ (0x80 + c / 64 % 64) ∷ (0x80 + c % 64) ∷ []

unfoldable pub encode : Text → Bytes
unfolding encode_char
encode [] = []
encode (c ∷ t) = encode_char c ++ encode t

-- `char::is_whitespace`
unfoldable pub is_whitespace : ℕ → Bool
is_whitespace c =
    within 9 13 c
    || c == 0x20
    || c == 0x85
    || c == 0xA0
    || c == 0x1680
    || within 0x2000 0x200A c
    || within 0x2028 0x2029 c
    || c == 0x202F
    || c == 0x205F
    || c == 0x3000

-- `str::trim_end`: whitespace goes where nothing but whitespace follows.
unfoldable pub trim_end : Text → Text
unfolding is_whitespace
trim_end [] = []
trim_end (c ∷ t) = elim (trim_end t) [
  | [] ↦ if is_whitespace c then [] else c ∷ []
  | d ∷ u ↦ c ∷ d ∷ u
]
