-- ===== src/Strings/Suffix.antt =====
-- A last character is taken off.
use mobux.Prelude.{
  ℕ, [], ◌∷◌, ◌++◌, some, ◌==◌, ◌≡◌, refl, ap, arith, inl, inr, Bool-cases, Option-cases,
}
use mobux.Strings.{strip_last}
use mobux.Utf8.{Text}

pub strip_last-append : (x : ℕ) (s : Text) → strip_last x (s ++ x ∷ []) ≡ some s
unfolding strip_last
strip_last-append x [] = ground arith
strip_last-append x (c ∷ []) = ground arith
strip_last-append x (c ∷ d ∷ s) = rw (strip_last-append x (d ∷ s)) refl

pub strip_last-some : (x : ℕ) (s r : Text) → strip_last x s ≡ some r → s ≡ r ++ x ∷ []
unfolding strip_last
strip_last-some x [] r h = absurd (ground arith)
strip_last-some x (c ∷ []) r h = elim (Bool-cases (c == x)) [
  | inl e ↦
      let last : c ≡ x = ground arith in
      let none_before : [] ≡ r = ground (arith, rw e at h) in
      rw (← none_before) (ap (λ y. y ∷ []) last)
  | inr e ↦ absurd (ground (arith, rw e at h))
]
strip_last-some x (c ∷ d ∷ t) r h = elim (Option-cases (strip_last x (d ∷ t))) [
  | inl e ↦ absurd (ground (arith, rw e at h))
  | inr (u, e) ↦
      let same : c ∷ u ≡ r = ground (arith, rw e at h) in
      rw (← same) (ap (◌∷◌ c) (strip_last-some x (d ∷ t) u e))
]
