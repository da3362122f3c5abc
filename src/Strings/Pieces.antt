-- ===== src/Strings/Pieces.antt =====
-- `split` at a character, and the pieces that are free of it.
use mobux.Prelude.{
  ℕ, true, false, List, [], ◌∷◌, ◌++◌, ◌≡◌, refl, arith, ◌==◌, all, inl, inr, Bool-cases,
}
use mobux.Strings.Lines.{is_free, AllFree}
use mobux.Strings.{split, push_first}
use mobux.Utf8.{Text}

push_first-AllFree :
    (sep c : ℕ) (ps : List Text)
    → (c == sep) ≡ false
    → AllFree sep ps
    → AllFree sep (push_first c ps)
unfolding all
push_first-AllFree sep c [] h free = (rw h refl, tt)
push_first-AllFree sep c (p ∷ ps) h (f, free) = (rw (h, f) refl, free)

pub split-AllFree : (sep : ℕ) (s : Text) → AllFree sep (split sep s)
unfolding split all
split-AllFree sep [] = (refl, tt)
split-AllFree sep (c ∷ s) = elim (Bool-cases (c == sep)) [
  | inl e ↦ rw e (refl, split-AllFree sep s)
  | inr e ↦ rw e (push_first-AllFree sep c (split sep s) e (split-AllFree sep s))
]

pub split-free : (sep : ℕ) (p : Text) → is_free sep p ≡ true → split sep p ≡ p ∷ []
unfolding split all
split-free sep [] f = refl
split-free sep (c ∷ p) f = elim (Bool-cases (c == sep)) [
  | inl e ↦ absurd (ground (arith, rw e at f))
  | inr e ↦ rw (split-free sep p (rw e at f), e) refl
]

pub split-append :
    (sep : ℕ) (p rest : Text)
    → is_free sep p ≡ true
    → split sep (p ++ sep ∷ rest) ≡ p ∷ split sep rest
unfolding split all
split-append sep [] rest f = ground arith
split-append sep (c ∷ p) rest f = elim (Bool-cases (c == sep)) [
  | inl e ↦ absurd (ground (arith, rw e at f))
  | inr e ↦ rw (split-append sep p rest (rw e at f), e) refl
]
