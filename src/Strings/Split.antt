-- ===== src/Strings/Split.antt =====
-- What `split_once` and `strip_prefix` take apart.
use mobux.Prelude.{
  ℕ, [], ◌∷◌, ◌++◌, Option, some, ◌==◌, ◌≡◌, ◌∙◌, ap, arith, inl, inr, Bool-cases, Option-cases,
}
use mobux.Strings.{split_once, strip_prefix}
use mobux.Utf8.{Text}

pub split_once-some : (sep : ℕ) (t a b : Text) → split_once sep t ≡ some (a, b) → t ≡ a ++ sep ∷ b
unfolding split_once
split_once-some sep [] a b h = absurd (ground arith)
split_once-some sep (c ∷ t) a b h = elim (Bool-cases (c == sep)) [
  | inl e ↦
      let same : c ≡ sep = ground arith in
      let parts : ◌≡◌ {A = Option (Text × Text)} (some ([], t)) (some (a, b)) =
        rw (split_once, e) at h in
      let empty : [] ≡ a = ground arith in
      let rest : t ≡ b = ground arith in
      ap (λ x. x ∷ t) same ∙ ap (λ r. sep ∷ r) rest ∙ ap (λ x. x ++ sep ∷ b) empty
  | inr e ↦ elim (Option-cases (split_once sep t)) [
    | inl d ↦ absurd (ground (arith, rw (split_once, e, d) at h))
    | inr ((a', b'), d) ↦
        let parts : ◌≡◌ {A = Option (Text × Text)} (some (c ∷ a', b')) (some (a, b)) =
          rw (split_once, e, d) at h in
        let first : c ∷ a' ≡ a = ground arith in
        let rest : b' ≡ b = ground arith in
        ap (◌∷◌ c) (split_once-some sep t a' b' d)
        ∙ ap (λ r. (c ∷ a') ++ sep ∷ r) rest
        ∙ ap (λ x. x ++ sep ∷ b) first
  ]
]

pub strip_prefix-some : (p s r : Text) → strip_prefix p s ≡ some r → s ≡ p ++ r
unfolding strip_prefix
strip_prefix-some [] s r h = ground arith
strip_prefix-some (c ∷ p) [] r h = absurd (ground arith)
strip_prefix-some (c ∷ p) (d ∷ s) r h = elim (Bool-cases (d == c)) [
  | inr e ↦ absurd (ground (arith, rw (strip_prefix, e) at h))
  | inl e ↦
      let same : d ≡ c = ground arith in
      ap (λ x. x ∷ s) same ∙ ap (◌∷◌ c) (strip_prefix-some p s r (rw (strip_prefix, e) at h))
]
