-- ===== src/Proxy/Cookies/Trimmed.antt =====
-- Pairs that are joined are found again.
use mobux.Prelude.{
  ℕ, Bool, true, false, not, List, [], ◌∷◌, ◌++◌, ◌≡◌, refl, ap, ◌∙◌, arith, all, is_empty, inl,
  inr, Bool-cases, append_assoc, ◌==◌,
}
use mobux.Proxy.Cookies.{
  is_ascii_whitespace, onto, trim_ascii_start, trim_ascii_end, trim_ascii, trimmed, pairs, others,
  cookie_name,
}
use mobux.Strings.Lines.{is_free, AllFree}
use mobux.Strings.Pieces.{split-AllFree, split-free, split-append}
use mobux.Strings.{chars, join, split, push_first}
use mobux.Utf8.{Bytes, Text, eq_bytes}

onto-keep : (c : ℕ) (u : Bytes) → is_ascii_whitespace c ≡ false → onto c u ≡ c ∷ u
unfolding onto
onto-keep c [] h = rw h refl
onto-keep c (d ∷ u) h = refl

trim-onto : (c : ℕ) (u : Bytes) → trim_ascii_end u ≡ u → trim_ascii_end (onto c u) ≡ onto c u
unfolding onto trim_ascii_end
trim-onto c [] h = elim (Bool-cases (is_ascii_whitespace c)) [
  | inl e ↦ rw e refl
  | inr e ↦ rw e (rw e refl)
]
trim-onto c (d ∷ u) h = ap (onto c) h

trim_end_twice : (t : Bytes) → trim_ascii_end (trim_ascii_end t) ≡ trim_ascii_end t
unfolding trim_ascii_end
trim_end_twice [] = refl
trim_end_twice (c ∷ t) = trim-onto c (trim_ascii_end t) (trim_end_twice t)

-- Nothing is trimmed in front.
abbrev starts_kept : Bytes → Bool
starts_kept [] = true
starts_kept (c ∷ _) = not (is_ascii_whitespace c)

trim_start-starts_kept : (t : Bytes) → starts_kept (trim_ascii_start t) ≡ true
unfolding trim_ascii_start
trim_start-starts_kept [] = refl
trim_start-starts_kept (c ∷ t) = elim (Bool-cases (is_ascii_whitespace c)) [
  | inl e ↦ rw e (trim_start-starts_kept t)
  | inr e ↦ rw e (rw e refl)
]

start-end :
    (t : Bytes) → starts_kept t ≡ true → trim_ascii_start (trim_ascii_end t) ≡ trim_ascii_end t
unfolding trim_ascii_end trim_ascii_start
start-end [] h = refl
start-end (c ∷ t) h = elim (Bool-cases (is_ascii_whitespace c)) [
  | inl e ↦ absurd (ground (arith, rw e at h))
  | inr e ↦ rw (onto-keep c (trim_ascii_end t) e, e, trim_ascii_start) refl
]

pub trim_ascii_twice : (t : Bytes) → trim_ascii (trim_ascii t) ≡ trim_ascii t
unfolding trim_ascii
trim_ascii_twice t =
    ap trim_ascii_end (start-end (trim_ascii_start t) (trim_start-starts_kept t))
    ∙ trim_end_twice (trim_ascii_start t)

onto-is_free :
    (sep c : ℕ) (u : Bytes)
    → (c == sep) ≡ false
    → is_free sep u ≡ true
    → is_free sep (onto c u) ≡ true
unfolding onto all
onto-is_free sep c [] h f = elim (Bool-cases (is_ascii_whitespace c)) [
  | inl e ↦ rw e refl
  | inr e ↦ rw e (rw h refl)
]
onto-is_free sep c (d ∷ u) h f = rw (h, f) refl

trim_end-is_free :
    (sep : ℕ) (t : Bytes) → is_free sep t ≡ true → is_free sep (trim_ascii_end t) ≡ true
unfolding trim_ascii_end all
trim_end-is_free sep [] f = refl
trim_end-is_free sep (c ∷ t) f = elim (Bool-cases (c == sep)) [
  | inl e ↦ absurd (ground (arith, rw e at f))
  | inr e ↦ onto-is_free sep c (trim_ascii_end t) e (trim_end-is_free sep t (rw e at f))
]

trim_start-is_free :
    (sep : ℕ) (t : Bytes) → is_free sep t ≡ true → is_free sep (trim_ascii_start t) ≡ true
unfolding trim_ascii_start all
trim_start-is_free sep [] f = refl
trim_start-is_free sep (c ∷ t) f = elim (Bool-cases (is_ascii_whitespace c)) [
  | inr e ↦ rw e f
  | inl e ↦ elim (Bool-cases (c == sep)) [
    | inl d ↦ absurd (ground (arith, rw d at f))
    | inr d ↦ rw e (trim_start-is_free sep t (rw d at f))
  ]
]

trim_ascii-is_free :
    (sep : ℕ) (t : Bytes) → is_free sep t ≡ true → is_free sep (trim_ascii t) ≡ true
unfolding trim_ascii
trim_ascii-is_free sep t f = trim_end-is_free sep (trim_ascii_start t) (trim_start-is_free sep t f)

-- A pair as the code keeps it: without `;`, with nothing to trim, and not empty.
pub record IsPair (p : Bytes) : Type 0 where
  pub free : is_free b';' p ≡ true
  pub trims : trim_ascii p ≡ p
  pub some_left : is_empty p ≡ false

abbrev pub AllPairs : List Bytes → Type 0
AllPairs [] = Unit
AllPairs (p ∷ ps) = IsPair p × AllPairs ps

trimmed-AllPairs : (ps : List Bytes) → AllFree b';' ps → AllPairs (trimmed ps)
unfolding trimmed
trimmed-AllPairs [] free = tt
trimmed-AllPairs (p ∷ ps) (f, free) = elim (Bool-cases (is_empty (trim_ascii p))) [
  | inl e ↦ rw e (trimmed-AllPairs ps free)
  | inr e ↦ rw e (
    record { free = trim_ascii-is_free b';' p f; trims = trim_ascii_twice p; some_left = e },
    trimmed-AllPairs ps free,
  )
]

append-AllPairs : (a b : List Bytes) → AllPairs a → AllPairs b → AllPairs (a ++ b)
append-AllPairs [] b h k = k
append-AllPairs (p ∷ a) b (one, h) k = (one, append-AllPairs a b h k)

pub pairs-AllPairs : (values : List Bytes) → AllPairs (pairs values)
unfolding pairs
pairs-AllPairs [] = tt
pairs-AllPairs (v ∷ values) =
    append-AllPairs (trimmed (split b';' v)) (pairs values)
      (trimmed-AllPairs (split b';' v) (split-AllFree b';' v)) (pairs-AllPairs values)

pub others-AllPairs : (name : Text) (ps : List Bytes) → AllPairs ps → AllPairs (others name ps)
unfolding others
others-AllPairs name [] h = tt
others-AllPairs name (p ∷ ps) (one, h) = elim (Bool-cases (eq_bytes (cookie_name p) name)) [
  | inl e ↦ rw e (others-AllPairs name ps h)
  | inr e ↦ rw e (one, others-AllPairs name ps h)
]

trimmed-keep : (p : Bytes) (ps : List Bytes) → IsPair p → trimmed (p ∷ ps) ≡ p ∷ trimmed ps
unfolding trimmed
trimmed-keep p ps one = rw (one.trims, one.some_left) refl

trimmed-space : (ps : List Bytes) → trimmed (push_first b' ' ps) ≡ trimmed ps
unfolding trimmed trim_ascii trim_ascii_start trim_ascii_end
trimmed-space [] = refl
trimmed-space (p ∷ ps) = refl

-- What is joined is found again.
pub trimmed-join :
    (ps : List Bytes) → AllPairs ps → trimmed (split b';' (join (chars "; ") ps)) ≡ ps
unfolding join trimmed split trim_ascii trim_ascii_start trim_ascii_end
trimmed-join [] h = refl
trimmed-join (p ∷ []) (one, h) = ap trimmed (split-free b';' p one.free) ∙ trimmed-keep p [] one
trimmed-join (p ∷ q ∷ ps) (one, h) =
    let rest = join (chars "; ") (q ∷ ps) in
    ap (λ s. trimmed (split b';' s)) (append_assoc p (chars "; ") rest)
    ∙ ap trimmed (split-append b';' p (b' ' ∷ rest) one.free)
    ∙ trimmed-keep p (split b';' (b' ' ∷ rest)) one
    ∙ ap (◌∷◌ p) (trimmed-space (split b';' rest) ∙ trimmed-join (q ∷ ps) h)
