-- ===== src/Strings.antt =====
-- What the code calls of Rust's `str`, on a string as the list of its scalar values or, where all of
-- them are ASCII, of its bytes.
pub mod Decimal
pub mod Equality
pub mod Lines
pub mod Pieces
pub mod Split
pub mod Suffix
use mobux.Prelude.{
  ℕ, zero, suc, ◌+◌, ◌-◌, ◌*◌, ◌/◌, ◌%◌, ◌^◌, Bool, true, false, not, ◌&&◌, ◌||◌, List, [], ◌∷◌,
  ◌++◌, Option, none, some, ltb, ◌==◌, within, if◌then◌else◌, all, is_empty, length, take,
}
use mobux.Utf8.{Text, eq_bytes, is_whitespace, trim_end}
use mobux.Prelude.Int.{ℤ, pos, negsuc}
use mobux.Prelude.Order.{lexicographic}
use Prim.Native.Nat.{compare, Ordering}
use Prim.Native.Char.{code}
use Prim.Native.String.{String}

-- A string literal.
abbrev pub chars : String → Text
chars String.[] = []
chars (String.◌∷◌ c s) = code c ∷ chars s

abbrev pub is_digit : ℕ → Bool
is_digit = within b'0' b'9'

unfoldable pub decimal : ℕ → Text → ℕ
decimal n [] = n
decimal n (x ∷ xs) = decimal (n * 10 + (x - b'0')) xs

-- `format!("{n}")` on a `u64`: the last digit is put behind the others. No number has more digits
-- than its successor counts.
unfoldable pub print_digits : ℕ → ℕ → Text
print_digits zero n = []
print_digits (suc fuel) n =
    let others = print_digits fuel (n / 10) in
    (if ltb n 10 then [] else others) ++ (b'0' + n % 10) ∷ []

unfoldable pub print_u64 : ℕ → Text
unfolding print_digits
print_u64 n = print_digits (suc n) n

-- The digits of a number below `2 ^ w`.
unfoldable pub parse_unsigned : ℕ → Text → Option ℕ
unfolding decimal all
parse_unsigned w ds =
    if is_empty ds
    then none
    else if all is_digit ds
    then (let n = decimal 0 ds in if ltb n (2 ^ w) then some n else none)
    else none

abbrev pub parse_digits : Text → Option ℕ
parse_digits = parse_unsigned 64

-- `str::parse` into an unsigned integer of `w` bits, which takes a sign in front.
unfoldable pub parse_uint : ℕ → Text → Option ℕ
unfolding parse_unsigned
parse_uint w [] = none
parse_uint w (x ∷ xs) = if x == b'+' then parse_unsigned w xs else parse_unsigned w (x ∷ xs)

abbrev pub parse_u64 : Text → Option ℕ
parse_u64 = parse_uint 64

abbrev pub parse_u16 : Text → Option ℕ
parse_u16 = parse_uint 16

-- `s.starts_with(prefix)`
unfoldable pub starts_with : Text → Text → Bool
unfolding eq_bytes
starts_with s prefix = eq_bytes (take (length prefix) s) prefix

-- `strip_prefix`
unfoldable pub strip_prefix : Text → Text → Option Text
strip_prefix [] s = some s
strip_prefix (p ∷ prefix) [] = none
strip_prefix (p ∷ prefix) (x ∷ s) =
    let rest = strip_prefix prefix s in if x == p then rest else none

-- `strip_suffix` of a character
unfoldable pub strip_last : ℕ → Text → Option Text
strip_last x [] = none
strip_last x (c ∷ []) = if c == x then some [] else none
strip_last x (c ∷ d ∷ t) = elim (strip_last x (d ∷ t)) [ none ↦ none | some u ↦ some (c ∷ u) ]

-- `s.find(needle)`, counting characters
unfoldable pub find : Text → Text → Option ℕ
find needle [] = if is_empty needle then some 0 else none
find needle (c ∷ s) =
    let later = find needle s in
    if starts_with (c ∷ s) needle
    then some 0
    else elim later [ none ↦ none | some i ↦ some (suc i) ]

-- `s.contains(needle)`
unfoldable pub contains : Text → Text → Bool
unfolding starts_with
contains needle [] = is_empty needle
contains needle (x ∷ s) = starts_with (x ∷ s) needle || contains needle s

-- `split_once` at a character
unfoldable pub split_once : ℕ → Text → Option (Text × Text)
split_once sep [] = none
split_once sep (x ∷ s) =
    let rest = split_once sep s in
    if x == sep then some ([], s) else elim rest [ none ↦ none | some (a, b) ↦ some (x ∷ a, b) ]

-- The first piece gets another character in front.
abbrev pub push_first : ℕ → List Text → List Text
push_first x [] = (x ∷ []) ∷ []
push_first x (p ∷ ps) = (x ∷ p) ∷ ps

-- `split` at a character
unfoldable pub split : ℕ → Text → List Text
split sep [] = [] ∷ []
split sep (x ∷ s) = let rest = split sep s in if x == sep then [] ∷ rest else push_first x rest

abbrev pub newline : ℕ
newline = 0x0A

abbrev starts_newline : Text → Bool
starts_newline [] = false
starts_newline (b ∷ _) = b == newline

-- A line ends at "\n", which goes with a "\r" in front of it, or at the end of the text.
unfoldable pub split_lines : Text → List Text
split_lines [] = []
split_lines (b ∷ rest) =
    let lines = split_lines rest in
    if b == newline
    then [] ∷ lines
    else if b == 0x0D && starts_newline rest
    then lines
    else push_first b lines

-- `splitn` at a character: at most so many pieces.
unfoldable pub splitn : ℕ → ℕ → Text → List Text
unfolding split_once
splitn zero sep s = []
splitn (suc zero) sep s = s ∷ []
splitn (suc (suc n)) sep s = elim (split_once sep s) [
  | none ↦ s ∷ []
  | some (a, b) ↦ a ∷ splitn (suc n) sep b
]

-- `join`
unfoldable pub join : Text → List Text → Text
join sep [] = []
join sep (p ∷ []) = p
join sep (p ∷ q ∷ ps) = p ++ sep ++ join sep (q ∷ ps)

unfoldable pub trim_start : Text → Text
unfolding is_whitespace
trim_start [] = []
trim_start (c ∷ t) = let rest = trim_start t in if is_whitespace c then rest else c ∷ t

unfoldable pub trim : Text → Text
unfolding trim_start trim_end
trim t = trim_end (trim_start t)

-- `trim_end_matches` of a character
unfoldable pub trim_end_char : ℕ → Text → Text
trim_end_char x [] = []
trim_end_char x (c ∷ t) = elim (trim_end_char x t) [
  | [] ↦ if c == x then [] else c ∷ []
  | d ∷ u ↦ c ∷ d ∷ u
]

-- `str::cmp`, whose bytes are in the order of the scalar values.
abbrev pub cmp : Text → Text → Ordering
cmp = lexicographic compare

-- `to_ascii_lowercase` and `eq_ignore_ascii_case`
abbrev pub to_ascii_lowercase : ℕ → ℕ
to_ascii_lowercase c = if within b'A' b'Z' c then c + 32 else c

unfoldable pub lowercase : Text → Text
lowercase [] = []
lowercase (c ∷ t) = to_ascii_lowercase c ∷ lowercase t

unfoldable pub eq_ignore_ascii_case : Text → Text → Bool
unfolding eq_bytes lowercase
eq_ignore_ascii_case a b = eq_bytes (lowercase a) (lowercase b)

-- A character in front of the words of what follows it.
abbrev push_word : Bool → ℕ → List Text → List Text
push_word true x (w ∷ ws) = (x ∷ w) ∷ ws
push_word _ x ws = (x ∷ []) ∷ ws

abbrev starts_word : Text → Bool
starts_word [] = false
starts_word (c ∷ _) = not (is_whitespace c)

-- `split_whitespace`: the words between whitespace.
unfoldable pub split_whitespace : Text → List Text
split_whitespace [] = []
split_whitespace (c ∷ t) =
    let words = split_whitespace t in
    if is_whitespace c then words else push_word (starts_word t) c words

-- No number is below `- 2 ^ w`.
unfoldable pub negated : ℕ → ℕ → Option ℤ
negated w zero = some (pos 0)
negated w (suc n) = if ltb n (2 ^ w) then some (negsuc n) else none

-- `str::parse` into a signed integer of `w + 1` bits.
unfoldable pub parse_int : ℕ → Text → Option ℤ
unfolding parse_uint
parse_int w [] = none
parse_int w (x ∷ xs) =
    if x == b'-'
    then elim (parse_unsigned 64 xs) [ none ↦ none | some n ↦ negated w n ]
    else elim (parse_uint w (x ∷ xs)) [ none ↦ none | some n ↦ some (pos n) ]
