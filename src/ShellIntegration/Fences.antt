-- ===== src/ShellIntegration/Fences.antt =====
-- Where a text without line feeds is found, among lines.
use mobux.Prelude.{
  ℕ, suc, ◌+◌, true, false, [], ◌∷◌, ◌++◌, none, some, ◌≡◌, refl, ◌∙◌, ap, arith, ◌==◌, length, all,
  inl, inr, Bool-cases, Option-cases, take-append_self,
}
use mobux.Strings.Equality.{eq_bytes_self}
use mobux.Strings.Lines.{is_free}
use mobux.Strings.{find, newline, starts_with}
use mobux.Utf8.{Text, eq_bytes}

pub starts_with_self : (p s : Text) → starts_with (p ++ s) p ≡ true
unfolding starts_with
starts_with_self p s = rw (take-append_self p s) (eq_bytes_self p)

-- A line feed ends what can be found.
starts_with_line :
    (v needle r : Text)
    → is_free newline needle ≡ true
    → starts_with (v ++ newline ∷ r) needle ≡ starts_with v needle
unfolding starts_with eq_bytes all
starts_with_line [] [] r free = refl
starts_with_line (c ∷ v) [] r free = refl
starts_with_line [] (d ∷ needle) r free = elim (Bool-cases (d == newline)) [
  | inl e ↦ absurd (ground (arith, rw e at free))
  | inr e ↦ let other : (newline == d) ≡ false = ground arith in rw other refl
]
starts_with_line (c ∷ v) (d ∷ needle) r free = elim (Bool-cases (d == newline)) [
  | inl e ↦ absurd (ground (arith, rw e at free))
  | inr e ↦ rw (starts_with_line v needle r (rw e at free)) refl
]

pub find-here :
    (needle : Text) (c : ℕ) (s : Text)
    → starts_with (c ∷ s) needle ≡ true
    → find needle (c ∷ s) ≡ some 0
unfolding find
find-here needle c s h = rw h refl

find-later :
    (needle : Text) (c : ℕ) (s : Text) (i : ℕ)
    → starts_with (c ∷ s) needle ≡ false
    → find needle s ≡ some i
    → find needle (c ∷ s) ≡ some (suc i)
unfolding find
find-later needle c s i h e = rw (h, e) refl

find-none :
    (needle : Text) (c : ℕ) (s : Text)
    → find needle (c ∷ s) ≡ none
    → (starts_with (c ∷ s) needle ≡ false) × (find needle s ≡ none)
unfolding find
find-none needle c s h = elim (Bool-cases (starts_with (c ∷ s) needle)) [
  | inl e ↦ absurd (ground (arith, rw (e, find) at h))
  | inr e ↦ elim (Option-cases (find needle s)) [
    | inl d ↦ (e, d)
    | inr (i, d) ↦ absurd (ground (arith, rw (e, d, find) at h))
  ]
]

-- What is found behind lines that do not hold it.
pub find-append :
    (d : ℕ) (needle u r : Text) (i : ℕ)
    → is_free newline (d ∷ needle) ≡ true
    → find (d ∷ needle) u ≡ none
    → find (d ∷ needle) r ≡ some i
    → find (d ∷ needle) (u ++ newline ∷ r) ≡ some (length u + 1 + i)
unfolding starts_with eq_bytes
find-append d needle [] r i free gone e =
    find-later (d ∷ needle) newline r i (starts_with_line [] (d ∷ needle) r free) e
    ∙ ap some (omega arith)
find-append d needle (c ∷ u) r i free gone e =
    let (not_here, not_later) = find-none (d ∷ needle) c u gone in
    find-later (d ∷ needle) c (u ++ newline ∷ r) (length u + 1 + i)
      (starts_with_line (c ∷ u) (d ∷ needle) r free ∙ not_here)
      (find-append d needle u r i free not_later e)
    ∙ ap some (omega arith)

-- A line feed behind changes nothing.
pub find-newline :
    (d : ℕ) (needle u : Text)
    → is_free newline (d ∷ needle) ≡ true
    → find (d ∷ needle) u ≡ none
    → find (d ∷ needle) (u ++ newline ∷ []) ≡ none
unfolding find starts_with eq_bytes
find-newline d needle [] free gone = rw (starts_with_line [] (d ∷ needle) [] free) refl
find-newline d needle (c ∷ u) free gone =
    let (not_here, not_later) = find-none (d ∷ needle) c u gone in
    rw
      (
        starts_with_line (c ∷ u) (d ∷ needle) [] free,
        not_here,
        find-newline d needle u free not_later,
      )
      refl
