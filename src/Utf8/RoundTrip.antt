-- ===== src/Utf8/RoundTrip.antt =====
-- Text that is encoded is read back as it was.
use mobux.Prelude.{
  ℕ, ◌+◌, ◌/◌, ◌%◌, ◌≤◌, ◌<◌, ◌≡◌, refl, ◌∙◌, ap, [], ◌∷◌, ◌++◌, ◌⊎◌, inl, inr, arith, ltb, Bool,
  true, all, Bool-cases,
}
use mobux.Utf8.{
  Bytes, Text, char, next_char, lossy_from, valid, from_utf8, from_utf8_from, from_utf8_lossy,
  encode_char, encode,
}

-- A Unicode scalar value: no surrogate, and at most U+10FFFF.
abbrev pub IsScalar : ℕ → Type 0
IsScalar c = (c < 0xD800) ⊎ ((0xE000 ≤ c) × (c < 0x110000))

abbrev pub AllScalar : Text → Type 0
AllScalar [] = Unit
AllScalar (c ∷ t) = IsScalar c × AllScalar t

next_two :
    (c : ℕ) (s : Bytes)
    → 0x80 ≤ c
    → c < 0x800
    → next_char (0xC0 + c / 64) ((0x80 + c % 64) ∷ s) ≡ char c 2
unfolding next_char
next_two c s h k = ground arith

next_three :
    (c : ℕ) (s : Bytes)
    → 0x800 ≤ c
    → c < 0x10000
    → IsScalar c
    → next_char (0xE0 + c / 4096) ((0x80 + c / 64 % 64) ∷ (0x80 + c % 64) ∷ s) ≡ char c 3
unfolding next_char
next_three c s h k v = ground arith

next_four :
    (c : ℕ) (s : Bytes)
    → 0x10000 ≤ c
    → c < 0x110000
    → next_char
        (0xF0 + c / 262144)
        ((0x80 + c / 4096 % 64) ∷ (0x80 + c / 64 % 64) ∷ (0x80 + c % 64) ∷ s)
      ≡ char c 4
unfolding next_char
next_four c s h k = ground arith

lossy-encode_char :
    (c : ℕ) (s : Bytes) → IsScalar c → lossy_from 0 (encode_char c ++ s) ≡ c ∷ lossy_from 0 s
unfolding lossy_from encode_char
lossy-encode_char c s v = elim (Bool-cases (ltb c 0x80)) [
  | inl one ↦ rw one (unfold next_char in ground arith)
  | inr a ↦ elim (Bool-cases (ltb c 0x800)) [
    | inl b ↦ rw (a, b) (rw (next_two c s (ground arith) (ground arith), lossy_from) refl)
    | inr b ↦ elim (Bool-cases (ltb c 0x10000)) [
      | inl d ↦ rw (a, b, d) (rw (next_three c s (ground arith) (ground arith) v, lossy_from) refl)
      | inr d ↦ rw (a, b, d) (rw (next_four c s (ground arith) (ground arith), lossy_from) refl)
    ]
  ]
]

lossy-encode_from : (t : Text) → AllScalar t → lossy_from 0 (encode t) ≡ t
unfolding encode lossy_from
lossy-encode_from [] v = refl
lossy-encode_from (c ∷ t) (v, vs) =
    lossy-encode_char c (encode t) v ∙ ap (◌∷◌ c) (lossy-encode_from t vs)

pub lossy-encode : (t : Text) → AllScalar t → from_utf8_lossy (encode t) ≡ t
unfolding from_utf8_lossy
lossy-encode = lossy-encode_from

abbrev pub is_ascii : ℕ → Bool
is_ascii b = ltb b 0x80

next_char-ascii : (b : ℕ) (r : Bytes) → ltb b 0x80 ≡ true → next_char b r ≡ char b 1
unfolding next_char
next_char-ascii b r e = rw e refl

pub from_utf8-ascii : (bytes : Bytes) → all is_ascii bytes ≡ true → from_utf8 bytes ≡ valid bytes
unfolding from_utf8 from_utf8_from all
from_utf8-ascii [] p = refl
from_utf8-ascii (b ∷ bytes) p = elim (Bool-cases (ltb b 0x80)) [
  | inl e ↦
      let rec : from_utf8_from 0 bytes ≡ valid bytes = from_utf8-ascii bytes (rw e at p) in
      rw (next_char-ascii b bytes e, from_utf8_from) (rw rec refl)
  | inr e ↦ ground arith
]
