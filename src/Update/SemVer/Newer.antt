-- ===== src/Update/SemVer/Newer.antt =====
-- What being newer means.
use mobux.Prelude.Order.{is_gt, reverse, cases, below, same, above}
use mobux.Prelude.{true, false, Option, none, some, ◌≡◌, refl, ◌∙◌, ap, arith}
use mobux.Update.SemVer.Order.{cmp_version-IsTotalPreorder}
use mobux.Update.SemVer.{SemVer, cmp_version, parse, newer_parsed, is_newer}
use mobux.Utf8.{Text}
use Prim.Native.Nat.{Ordering}

gt→lt : (a b : SemVer) → is_gt (cmp_version b a) ≡ true → cmp_version a b ≡ Ordering.lt
gt→lt a b h = elim (cases (cmp_version b a)) [
  | below e ↦ ground arith
  | same e ↦ ground arith
  | above e ↦ cmp_version-IsTotalPreorder.swap b a ∙ ap reverse e
]

newer_parsed_trans :
    (a b c : Option SemVer)
    → newer_parsed a b ≡ true
    → newer_parsed b c ≡ true
    → (newer_parsed a c ≡ true) × (newer_parsed c a ≡ false)
unfolding newer_parsed
newer_parsed_trans none b c h k = ground arith
newer_parsed_trans (some a) none c h k = ground arith
newer_parsed_trans (some a) (some b) none h k = ground arith
newer_parsed_trans (some a) (some b) (some c) h k =
    let below = cmp_version-IsTotalPreorder.trans a b c (gt→lt a b h) (gt→lt b c k) in
    rw (cmp_version-IsTotalPreorder.swap a c, below) (refl, refl)

-- A version newer than one that is newer than a first is newer than the first, and the first is not
-- newer than it.
pub is_newer_trans :
    (a b c : Text)
    → is_newer a b ≡ true
    → is_newer b c ≡ true
    → (is_newer a c ≡ true) × (is_newer c a ≡ false)
unfolding is_newer
is_newer_trans a b c = newer_parsed_trans (parse a) (parse b) (parse c)
