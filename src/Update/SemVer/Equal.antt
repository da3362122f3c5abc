-- ===== src/Update/SemVer/Equal.antt =====
-- When two versions compare equal.
use mobux.Prelude.Order.{
  then_cmp, lexicographic, cases, below, same, above, IsTotalPreorder, cmp_self,
  compare-IsTotalPreorder, lexicographic-IsTotalPreorder,
}
use mobux.Prelude.{
  ℕ, List, [], ◌∷◌, none, some, ◌≡◌, refl, sym, ap, ◌∙◌, inl, inr, ◌↔◌, arith, Option-cases,
}
use mobux.Strings.{cmp, parse_u64}
use mobux.Update.SemVer.Order.{cmp_pre-lexicographic, cmp_version-IsTotalPreorder}
use mobux.Update.SemVer.{SemVer, cmp_parsed, cmp_identifier, cmp_release, cmp_core, cmp_version}
use mobux.Utf8.{Text}
use Prim.Native.Nat.{compare, Ordering}

-- Two identifiers that are the same number, however it is written, or the same text.
pub data IsSameIdentifier (x y : Text) : Type 0 where
  numbers : (n : ℕ) → parse_u64 x ≡ some n → parse_u64 y ≡ some n → IsSameIdentifier x y
  texts : parse_u64 x ≡ none → parse_u64 y ≡ none → x ≡ y → IsSameIdentifier x y

abbrev pub IsSamePre : List Text → List Text → Type 0
IsSamePre [] [] = Unit
IsSamePre (x ∷ a) (y ∷ b) = IsSameIdentifier x y × IsSamePre a b
IsSamePre _ _ = ⊥

-- The same core, and the same identifiers, place by place.
pub record IsSameVersion (a b : SemVer) : Type 0 where
  pub major : a.major ≡ b.major
  pub minor : a.minor ≡ b.minor
  pub patch : a.patch ≡ b.patch
  pub pre : IsSamePre a.pre b.pre

cmp-eq : (x y : Text) → cmp x y ≡ Ordering.eq → x ≡ y
unfolding lexicographic
cmp-eq [] [] e = refl
cmp-eq [] (y ∷ b) e = absurd (ground arith)
cmp-eq (x ∷ a) [] e = absurd (ground arith)
cmp-eq (x ∷ a) (y ∷ b) e = elim (cases (compare x y)) [
  | below d ↦ absurd (ground (arith, rw d at e))
  | above d ↦ absurd (ground (arith, rw d at e))
  | same d ↦
      let first : x ≡ y = ground arith in
      ap (λ z. z ∷ a) first ∙ ap (◌∷◌ y) (cmp-eq a b (rw d at e))
]

identifier-same : (x y : Text) → cmp_identifier x y ≡ Ordering.eq → IsSameIdentifier x y
unfolding cmp_identifier cmp_parsed
identifier-same x y e = elim (Option-cases (parse_u64 x)) [
  | inl p ↦ elim (Option-cases (parse_u64 y)) [
    | inl q ↦ texts p q (cmp-eq x y (rw (p, q, cmp_identifier) at e))
    | inr (m, q) ↦ absurd (ground (arith, rw (p, q, cmp_identifier) at e))
  ]
  | inr (n, p) ↦ elim (Option-cases (parse_u64 y)) [
    | inl q ↦ absurd (ground (arith, rw (p, q, cmp_identifier) at e))
    | inr (m, q) ↦
        let number : m ≡ n = ground (arith, rw (p, q, cmp_identifier) at e) in
        numbers n p (q ∙ ap some number)
  ]
]

same-identifier : (x y : Text) → IsSameIdentifier x y → cmp_identifier x y ≡ Ordering.eq
unfolding cmp_identifier cmp_parsed
same-identifier x y (numbers n p q) =
    rw (p, q, cmp_identifier) (cmp_self compare compare-IsTotalPreorder n)
same-identifier x y (texts p q e) =
    rw (p, q, cmp_identifier)
      (ap (cmp x) (sym e)
        ∙ cmp_self cmp (lexicographic-IsTotalPreorder compare compare-IsTotalPreorder) x)

pre-same : (a b : List Text) → lexicographic cmp_identifier a b ≡ Ordering.eq → IsSamePre a b
unfolding lexicographic
pre-same [] [] e = tt
pre-same [] (y ∷ b) e = absurd (ground arith)
pre-same (x ∷ a) [] e = absurd (ground arith)
pre-same (x ∷ a) (y ∷ b) e = elim (cases (cmp_identifier x y)) [
  | below d ↦ absurd (ground (arith, rw d at e))
  | above d ↦ absurd (ground (arith, rw d at e))
  | same d ↦ (identifier-same x y d, pre-same a b (rw d at e))
]

same-pre : (a b : List Text) → IsSamePre a b → lexicographic cmp_identifier a b ≡ Ordering.eq
unfolding lexicographic
same-pre [] [] e = refl
same-pre [] (y ∷ b) e = absurd e
same-pre (x ∷ a) [] e = absurd e
same-pre (x ∷ a) (y ∷ b) (one, rest) = rw (same-identifier x y one) (same-pre a b rest)

release-same : (a b : List Text) → cmp_release a b ≡ Ordering.eq → IsSamePre a b
unfolding cmp_release
release-same [] [] e = tt
release-same [] (y ∷ b) e = absurd (ground arith)
release-same (x ∷ a) [] e = absurd (ground arith)
release-same (x ∷ a) (y ∷ b) e =
    pre-same (x ∷ a) (y ∷ b) (sym (cmp_pre-lexicographic (x ∷ a) (y ∷ b)) ∙ e)

same-release : (a b : List Text) → IsSamePre a b → cmp_release a b ≡ Ordering.eq
unfolding cmp_release
same-release [] [] e = refl
same-release [] (y ∷ b) e = absurd e
same-release (x ∷ a) [] e = absurd e
same-release (x ∷ a) (y ∷ b) e = cmp_pre-lexicographic (x ∷ a) (y ∷ b) ∙ same-pre (x ∷ a) (y ∷ b) e

then_cmp-eq : (o p : Ordering) → then_cmp o p ≡ Ordering.eq → (o ≡ Ordering.eq) × (p ≡ Ordering.eq)
then_cmp-eq Ordering.lt p e = absurd (ground arith)
then_cmp-eq Ordering.eq p e = (refl, e)
then_cmp-eq Ordering.gt p e = absurd (ground arith)

version-same : (a b : SemVer) → cmp_version a b ≡ Ordering.eq → IsSameVersion a b
unfolding cmp_version cmp_core
version-same a b e =
    let (core, pre) = then_cmp-eq (cmp_core a b) (cmp_release a.pre b.pre) e in
    let minor_patch = then_cmp (compare a.minor b.minor) (compare a.patch b.patch) in
    let (major, others) = then_cmp-eq (compare a.major b.major) minor_patch core in
    let (minor, patch) = then_cmp-eq (compare a.minor b.minor) (compare a.patch b.patch) others in
    record {
      major = ground arith;
      minor = ground arith;
      patch = ground arith;
      pre = release-same a.pre b.pre pre;
    }

same-version : (a b : SemVer) → IsSameVersion a b → cmp_version a b ≡ Ordering.eq
unfolding cmp_version cmp_core
same-version a b h =
    let major : compare a.major b.major ≡ Ordering.eq = ground (arith, h.major) in
    let minor : compare a.minor b.minor ≡ Ordering.eq = ground (arith, h.minor) in
    let patch : compare a.patch b.patch ≡ Ordering.eq = ground (arith, h.patch) in
    rw (major, minor, patch) (same-release a.pre b.pre h.pre)

-- Versions are in a total preorder: the two ways around are opposite, versions that compare equal compare
-- alike with every other, and less is transitive. Two versions compare equal exactly where their cores
-- are the same and their pre-releases have, place by place, the same number or the same text: `1.0.0-01`
-- and `1.0.0-1` do, which `==` tells apart.
pub cmp_version-IsSameVersion :
    (a b : SemVer)
    → IsTotalPreorder cmp_version × ((cmp_version a b ≡ Ordering.eq) ↔ IsSameVersion a b)
cmp_version-IsSameVersion a b = (cmp_version-IsTotalPreorder, (version-same a b, same-version a b))
