-- ===== src/SessionHistory/Marker/Stable.antt =====
-- What a marker match says of a buffer holds whatever bytes follow, once it is not `incomplete`: so it
-- does not matter how the stream was cut into reads. And a match lies within the buffer.
use mobux.Prelude.{
  ℕ, ◌+◌, ◌≤◌, ◌≡◌, refl, false, not, [], ◌∷◌, ◌++◌, Option, none, arith, ltb, ◌==◌, if◌then◌else◌,
  length, take, drop, is_empty, Bool-cases, inl, inr,
}
use mobux.SessionHistory.Marker.{
  MarkerMatch, complete, incomplete, not_a_marker, span_digits, parse_i32, finish_bare,
  match_terminator, match_code, match_after_kind, match_kind, try_match_bare, bare_prefix,
}
use mobux.Strings.{starts_with}
use mobux.Utf8.{Bytes, eq_bytes}

-- `now` is the answer on the bytes at hand, `then` the answer on more, `lo` and `hi` bound the length.
abbrev pub Stable : MarkerMatch → MarkerMatch → ℕ → ℕ → Type 0
Stable incomplete later lo hi = Unit
Stable not_a_marker later lo hi = later ≡ not_a_marker
Stable (complete ms len) later lo hi = (later ≡ complete ms len) × (lo ≤ len) × (len ≤ hi)

pub Stable-widen :
    (m later : MarkerMatch) {lo hi lo' hi' : ℕ}
    → lo' ≤ lo
    → hi ≤ hi'
    → Stable m later lo hi
    → Stable m later lo' hi'
Stable-widen incomplete later p q s = tt
Stable-widen not_a_marker later p q s = s
Stable-widen (complete ms len) later p q (e, l, h) = (e, omega arith, omega arith)

finish_bare-Stable :
    (kind : ℕ) (code : Option ℕ) (end : ℕ)
    → Stable (finish_bare kind code end) (finish_bare kind code end) end end
unfolding finish_bare
finish_bare-Stable kind code end = ground arith

match_terminator-Stable :
    (kind : ℕ) (code : Option ℕ) (i : ℕ) (rest more : Bytes)
    → Stable
        (match_terminator kind code i rest)
        (match_terminator kind code i (rest ++ more))
        (i + 1)
        (i + length rest)
unfolding match_terminator
match_terminator-Stable kind code i [] more = tt
match_terminator-Stable kind code i (x ∷ []) more =
    ground (arith, finish_bare-Stable kind code (i + 1))
match_terminator-Stable kind code i (x ∷ y ∷ rest) more =
    ground (arith, finish_bare-Stable kind code (i + 1), finish_bare-Stable kind code (i + 2))

span_digits-append :
    (rest more : Bytes)
    → is_empty (span_digits rest).1 ≡ false
    → span_digits (rest ++ more) ≡ ((span_digits rest).0, (span_digits rest).1 ++ more)
unfolding span_digits
span_digits-append [] more h = cc
span_digits-append (x ∷ rest) more h = ground (arith, span_digits-append rest more)

length-span_digits :
    (rest : Bytes) → length (span_digits rest).0 + length (span_digits rest).1 ≡ length rest
unfolding span_digits
length-span_digits [] = refl
length-span_digits (x ∷ rest) = ground (arith, length-span_digits rest)

is_empty-append : (xs ys : Bytes) → is_empty xs ≡ false → is_empty (xs ++ ys) ≡ false
is_empty-append [] ys h = cc
is_empty-append (x ∷ xs) ys h = refl

match_code-Stable :
    (kind start : ℕ) (rest more : Bytes)
    → Stable
        (match_code kind start rest)
        (match_code kind start (rest ++ more))
        (start + 1)
        (start + length rest)
unfolding match_code
match_code-Stable kind start rest more = elim (Bool-cases (is_empty (span_digits rest).1)) [
  | inl e ↦ rw e tt
  | inr e ↦
      let i = start + length (span_digits rest).0 in
      let now = match_terminator kind (parse_i32 (span_digits rest).0) i (span_digits rest).1 in
      let later =
        match_terminator kind (parse_i32 (span_digits rest).0) i ((span_digits rest).1 ++ more) in
      rw (span_digits-append rest more e) (
        rw (e, is_empty-append (span_digits rest).1 more e)
          (Stable-widen now later (omega arith) (omega (arith, length-span_digits rest)) (
            match_terminator-Stable kind (parse_i32 (span_digits rest).0) i (span_digits rest).1
              more)))
]

match_after_kind-Stable :
    (kind i : ℕ) (rest more : Bytes)
    → Stable
        (match_after_kind kind i rest)
        (match_after_kind kind i (rest ++ more))
        (i + 1)
        (i + length rest)
unfolding match_after_kind
match_after_kind-Stable kind i [] more = tt
match_after_kind-Stable kind i (x ∷ rest) more = elim (Bool-cases (x == b';')) [
  | inl e ↦ rw e (
      Stable-widen (match_code kind (i + 1) rest) (match_code kind (i + 1) (rest ++ more))
        (omega arith) (omega arith) (match_code-Stable kind (i + 1) rest more))
  | inr e ↦ rw e (match_terminator-Stable kind none i (x ∷ rest) more)
]

match_kind-Stable :
    (rest more : Bytes)
    → Stable (match_kind rest) (match_kind (rest ++ more)) 1 (length bare_prefix + length rest)
match_kind-Stable [] more = tt
match_kind-Stable (kind ∷ rest) more =
    Stable-widen (match_after_kind kind (length bare_prefix + 1) rest)
      (match_after_kind kind (length bare_prefix + 1) (rest ++ more)) (omega arith) (omega arith)
      (match_after_kind-Stable kind (length bare_prefix + 1) rest more)

-- The two length tests and the comparison of both matchers are one comparison from the left.
unfoldable pub match_prefix : (Bytes → MarkerMatch) → Bytes → Bytes → MarkerMatch
match_prefix k [] buf = k buf
match_prefix k (p ∷ ps) [] = incomplete
match_prefix k (p ∷ ps) (x ∷ xs) = if x == p then match_prefix k ps xs else not_a_marker

abbrev pub guarded : (Bytes → MarkerMatch) → Bytes → Bytes → MarkerMatch
guarded k prefix buf =
    if ltb (length buf) (length prefix)
    then (if starts_with prefix buf then incomplete else not_a_marker)
    else if not (eq_bytes (take (length prefix) buf) prefix)
    then not_a_marker
    else k (drop (length prefix) buf)

pub guarded-match_prefix :
    (k : Bytes → MarkerMatch) (prefix buf : Bytes)
    → guarded k prefix buf ≡ match_prefix k prefix buf
unfolding starts_with eq_bytes match_prefix
guarded-match_prefix k [] [] = refl
guarded-match_prefix k [] (x ∷ buf) = ground arith
guarded-match_prefix k (p ∷ ps) [] = ground arith
guarded-match_prefix k (p ∷ ps) (x ∷ xs) = ground (arith, guarded-match_prefix k ps xs)

pub match_prefix-Stable :
    (k : Bytes → MarkerMatch) (lo base : ℕ)
    → ((rest more : Bytes) → Stable (k rest) (k (rest ++ more)) lo (base + length rest))
    → (prefix buf more : Bytes) (hi : ℕ) → base + length buf ≤ hi + length prefix
    → Stable (match_prefix k prefix buf) (match_prefix k prefix (buf ++ more)) lo hi
unfolding match_prefix
match_prefix-Stable k lo base st [] buf more hi h =
    Stable-widen (k buf) (k (buf ++ more)) (omega arith) (omega arith) (st buf more)
match_prefix-Stable k lo base st (p ∷ ps) [] more hi h = tt
match_prefix-Stable k lo base st (p ∷ ps) (x ∷ xs) more hi h =
    ground (arith, match_prefix-Stable k lo base st ps xs more hi (omega arith))

pub try_match_bare-Stable :
    (buf more : Bytes) → Stable (try_match_bare buf) (try_match_bare (buf ++ more)) 1 (length buf)
unfolding try_match_bare
try_match_bare-Stable buf more = rw (guarded-match_prefix match_kind bare_prefix buf) (
    rw (guarded-match_prefix match_kind bare_prefix (buf ++ more)) (
      match_prefix-Stable match_kind 1 (length bare_prefix) match_kind-Stable bare_prefix buf more
        (length buf) (omega arith)))
