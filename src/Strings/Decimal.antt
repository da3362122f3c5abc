-- ===== src/Strings/Decimal.antt =====
-- A printed number is read back, and holds nothing but digits.
use mobux.Prelude.{
  ℕ, zero, suc, ◌+◌, ◌-◌, ◌*◌, ◌/◌, ◌%◌, ◌^◌, ◌<◌, ◌≡◌, refl, ◌∙◌, inl, inr, true, false, [], ◌∷◌,
  ◌++◌, some, arith, ltb, ◌==◌, all, is_empty, Bool-cases,
}
use mobux.Strings.{print_digits, print_u64, parse_unsigned, parse_uint, parse_u64, split_once}
use mobux.Strings.{decimal, is_digit}
use mobux.Strings.{trim, trim_start}
use mobux.Utf8.{Text, is_whitespace, trim_end}

decimal-append :
    (acc : ℕ) (ds : Text) (d : ℕ) → decimal acc (ds ++ d ∷ []) ≡ decimal acc ds * 10 + (d - b'0')
unfolding decimal
decimal-append acc [] d = refl
decimal-append acc (x ∷ ds) d = decimal-append (acc * 10 + (x - b'0')) ds d

all-append_one :
    (ds : Text) (d : ℕ)
    → all is_digit ds ≡ true
    → is_digit d ≡ true
    → all is_digit (ds ++ d ∷ []) ≡ true
unfolding all
all-append_one [] d p q = ground arith
all-append_one (x ∷ ds) d p q = elim (Bool-cases (is_digit x)) [
  | inl e ↦ rw e (all-append_one ds d (rw e at p) q)
  | inr e ↦ ground arith
]

append_one-nonempty : (ds : Text) (d : ℕ) → is_empty (ds ++ d ∷ []) ≡ false
append_one-nonempty [] d = refl
append_one-nonempty (x ∷ ds) d = refl

pub print_digits_lem :
    (fuel n : ℕ)
    → n < fuel
    → (decimal 0 (print_digits fuel n) ≡ n)
      × (all is_digit (print_digits fuel n) ≡ true)
      × (is_empty (print_digits fuel n) ≡ false)
unfolding print_digits decimal all
print_digits_lem zero n h = absurd (ground arith)
print_digits_lem (suc fuel) n h =
    let last : is_digit (b'0' + n % 10) ≡ true = ground arith in
    elim (Bool-cases (ltb n 10)) [
      | inl small ↦ rw small (ground arith, all-append_one [] (b'0' + n % 10) refl last, refl)
      | inr large ↦
          let (value, digits, some_left) = print_digits_lem fuel (n / 10) (ground arith) in
          rw large (
            rw (decimal-append 0 (print_digits fuel (n / 10)) (b'0' + n % 10), value)
                (ground arith),
            all-append_one (print_digits fuel (n / 10)) (b'0' + n % 10) digits last,
            append_one-nonempty (print_digits fuel (n / 10)) (b'0' + n % 10),
          )
    ]

pub print_u64-digits : (n : ℕ) → all is_digit (print_u64 n) ≡ true
unfolding print_u64
print_u64-digits n = (print_digits_lem (suc n) n (omega arith)).1

pub print_u64-nonempty : (n : ℕ) → is_empty (print_u64 n) ≡ false
unfolding print_u64
print_u64-nonempty n = (print_digits_lem (suc n) n (omega arith)).2

parse_unsigned-print_u64 : (w n : ℕ) → n < 2 ^ w → parse_unsigned w (print_u64 n) ≡ some n
unfolding parse_unsigned print_u64
parse_unsigned-print_u64 w n h =
    let (value, digits, some_left) = print_digits_lem (suc n) n (omega arith) in
    rw (some_left, digits, value) (ground arith)

-- Digits begin with no sign.
parse_uint-digits :
    (w : ℕ) (ds : Text)
    → all is_digit ds ≡ true
    → is_empty ds ≡ false
    → parse_uint w ds ≡ parse_unsigned w ds
unfolding parse_uint all
parse_uint-digits w [] p q = ground arith
parse_uint-digits w (x ∷ ds) p q =
    let no_sign : (x == b'+') ≡ false = ground arith in rw no_sign refl

pub parse_uint-print_u64 : (w n : ℕ) → n < 2 ^ w → parse_uint w (print_u64 n) ≡ some n
parse_uint-print_u64 w n h =
    parse_uint-digits w (print_u64 n) (print_u64-digits n) (print_u64-nonempty n)
    ∙ parse_unsigned-print_u64 w n h

pub parse_u64-print_u64 : (n : ℕ) → n < 2 ^ 64 → parse_u64 (print_u64 n) ≡ some n
parse_u64-print_u64 n h = parse_uint-print_u64 64 n h

pub split_once-digits :
    (ds rest : Text)
    → all is_digit ds ≡ true
    → split_once b':' (ds ++ b':' ∷ rest) ≡ some (ds, rest)
unfolding split_once all
split_once-digits [] rest p = refl
split_once-digits (x ∷ ds) rest p = elim (Bool-cases (is_digit x)) [
  | inl e ↦ rw (split_once-digits ds rest (rw e at p)) (ground arith)
  | inr e ↦ ground arith
]

digit-not_whitespace : (c : ℕ) → is_digit c ≡ true → is_whitespace c ≡ false
unfolding is_whitespace
digit-not_whitespace c h = ground arith

trim_end-digits : (ds : Text) → all is_digit ds ≡ true → trim_end ds ≡ ds
unfolding trim_end all
trim_end-digits [] p = refl
trim_end-digits (d ∷ []) p = elim (Bool-cases (is_digit d)) [
  | inl e ↦ rw (digit-not_whitespace d e) refl
  | inr e ↦ absurd (ground (arith, rw e at p))
]
trim_end-digits (d ∷ c ∷ ds) p = elim (Bool-cases (is_digit d)) [
  | inl e ↦ rw (trim_end-digits (c ∷ ds) (rw e at p)) refl
  | inr e ↦ absurd (ground (arith, rw e at p))
]

-- Digits have no whitespace around them.
pub trim-digits : (ds : Text) → all is_digit ds ≡ true → trim ds ≡ ds
unfolding trim trim_start all
trim-digits [] p = trim_end-digits [] p
trim-digits (d ∷ ds) p = elim (Bool-cases (is_digit d)) [
  | inl e ↦ rw (digit-not_whitespace d e) (trim_end-digits (d ∷ ds) p)
  | inr e ↦ absurd (ground (arith, rw e at p))
]
