-- ===== src/SessionHistory/Marker/Wrapped.antt =====
-- The same for tmux's envelope, and for both forms together.
use mobux.Prelude.{
  ℕ, ◌+◌, ◌≤◌, ◌≡◌, refl, true, false, List, [], ◌∷◌, ◌++◌, arith, ◌==◌, if◌then◌else◌, length,
  Bool-cases, inl, inr,
}
use mobux.SessionHistory.Marker.{
  Marker, try_match_wrapped, try_match_marker, wrapped_prefix, unwrap_payload, match_envelope,
  Envelope, closed, open_end, broken, markers_or_none, parse_all_bare_markers, esc,
}
use mobux.Utf8.{Bytes}
use mobux.SessionHistory.Marker.Stable.{
  Stable, guarded-match_prefix, match_prefix-Stable, try_match_bare-Stable,
}

abbrev EnvelopeStable : Envelope → Envelope → ℕ → ℕ → Type 0
EnvelopeStable open_end later lo hi = Unit
EnvelopeStable broken later lo hi = later ≡ broken
EnvelopeStable (closed payload n) later lo hi = (later ≡ closed payload n) × (lo ≤ n) × (n ≤ hi)

EnvelopeStable-widen :
    (e later : Envelope) {lo hi lo' hi' : ℕ}
    → lo' ≤ lo
    → hi ≤ hi'
    → EnvelopeStable e later lo hi
    → EnvelopeStable e later lo' hi'
EnvelopeStable-widen open_end later p q s = tt
EnvelopeStable-widen broken later p q s = s
EnvelopeStable-widen (closed payload n) later p q (e, l, h) = (e, omega arith, omega arith)

module _ (payload : Bytes) (i x y : ℕ) (rest : Bytes) where
  pub unwrap_doubled :
      (x == esc) ≡ true
      → (y == esc) ≡ true
      → unwrap_payload payload i (x ∷ y ∷ rest)
        ≡ unwrap_payload (payload ++ (esc ∷ [])) (i + 2) rest
  unfolding unwrap_payload
  unwrap_doubled e f = rw (e, unwrap_payload) (rw (f, unwrap_payload) refl)

  pub unwrap_plain :
      (x == esc) ≡ false
      → unwrap_payload payload i (x ∷ y ∷ rest)
        ≡ unwrap_payload (payload ++ (x ∷ [])) (i + 1) (y ∷ rest)
  unfolding unwrap_payload
  unwrap_plain e = rw (e, unwrap_payload) refl

  pub unwrap_end :
      (x == esc) ≡ true
      → (y == esc) ≡ false
      → unwrap_payload payload i (x ∷ y ∷ rest)
        ≡ (if y == b'\\' then closed payload (i + 2) else broken)
  unfolding unwrap_payload
  unwrap_end e f = rw (e, unwrap_payload) (rw (f, unwrap_payload) refl)

unwrap_payload-EnvelopeStable :
    (payload : Bytes) (i : ℕ) (rest more : Bytes)
    → EnvelopeStable
        (unwrap_payload payload i rest)
        (unwrap_payload payload i (rest ++ more))
        i
        (i + length rest)
unfolding unwrap_payload
unwrap_payload-EnvelopeStable payload i [] more = tt
unwrap_payload-EnvelopeStable payload i (x ∷ []) more = tt
unwrap_payload-EnvelopeStable payload i (x ∷ y ∷ rest) more = elim (Bool-cases (x == esc)) [
  | inr plain ↦
      let kept = payload ++ (x ∷ []) in
      rw (unwrap_plain payload i x y rest plain) (
        rw (unwrap_plain payload i x y (rest ++ more) plain) (
          EnvelopeStable-widen (unwrap_payload kept (i + 1) (y ∷ rest))
            (unwrap_payload kept (i + 1) (y ∷ (rest ++ more))) (omega arith) (omega arith)
            (unwrap_payload-EnvelopeStable kept (i + 1) (y ∷ rest) more)))
  | inl e ↦ elim (Bool-cases (y == esc)) [
    | inl f ↦
        let pushed = payload ++ (esc ∷ []) in
        rw (unwrap_doubled payload i x y rest e f) (
          rw (unwrap_doubled payload i x y (rest ++ more) e f) (
            EnvelopeStable-widen (unwrap_payload pushed (i + 2) rest)
              (unwrap_payload pushed (i + 2) (rest ++ more)) (omega arith) (omega arith)
              (unwrap_payload-EnvelopeStable pushed (i + 2) rest more)))
    | inr f ↦
        rw (unwrap_end payload i x y rest e f)
          (rw (unwrap_end payload i x y (rest ++ more) e f) (ground arith))
  ]
]

markers_or_none-Stable :
    (ms : List Marker) (n : ℕ) {lo hi : ℕ}
    → lo ≤ n
    → n ≤ hi
    → Stable (markers_or_none ms n) (markers_or_none ms n) lo hi
markers_or_none-Stable [] n l h = refl
markers_or_none-Stable (m ∷ ms) n l h = (refl, l, h)

match_envelope-Stable :
    (e later : Envelope) (lo hi : ℕ)
    → EnvelopeStable e later lo hi
    → Stable (match_envelope e) (match_envelope later) lo hi
match_envelope-Stable open_end later lo hi s = tt
match_envelope-Stable broken later lo hi s = rw s refl
match_envelope-Stable (closed payload n) later lo hi (e, l, h) =
    rw e (markers_or_none-Stable (parse_all_bare_markers payload) n l h)

try_match_wrapped-Stable :
    (buf more : Bytes)
    → Stable (try_match_wrapped buf) (try_match_wrapped (buf ++ more)) 1 (length buf)
unfolding try_match_wrapped
try_match_wrapped-Stable buf more =
    let read = λ (rest : Bytes). match_envelope (unwrap_payload [] 7 rest) in
    rw (guarded-match_prefix read wrapped_prefix buf) (
      rw (guarded-match_prefix read wrapped_prefix (buf ++ more)) (
        match_prefix-Stable read 1 7
          (λ rest more.
            match_envelope-Stable (unwrap_payload [] 7 rest) (unwrap_payload [] 7 (rest ++ more)) 1
              (7 + length rest)
              (EnvelopeStable-widen (unwrap_payload [] 7 rest) (unwrap_payload [] 7 (rest ++ more))
                (omega arith) (omega arith) (unwrap_payload-EnvelopeStable [] 7 rest more)))
          wrapped_prefix buf more (length buf) (omega arith)))

-- A marker, or its absence, that is seen in the bytes at hand is seen whatever bytes follow; a marker
-- takes at least one byte, and only bytes that are there.
pub try_match_marker-Stable :
    (buf more : Bytes)
    → Stable (try_match_marker buf) (try_match_marker (buf ++ more)) 1 (length buf)
unfolding try_match_marker
try_match_marker-Stable [] more = tt
try_match_marker-Stable (x ∷ []) more = tt
try_match_marker-Stable (x ∷ y ∷ rest) more =
    ground (
      arith,
      try_match_bare-Stable (x ∷ y ∷ rest) more,
      try_match_wrapped-Stable (x ∷ y ∷ rest) more,
    )
