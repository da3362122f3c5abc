-- ===== src/Update/SemVer.antt =====
-- src/update.rs: `SemVer`, its parser and its order.
pub mod Order
pub mod Equal
pub mod Newer
use mobux.Prelude.Monad.{◌>>=◌}
use mobux.Prelude.Order.{then_cmp, is_gt}
use mobux.Prelude.{
  ℕ, Bool, true, false, List, [], ◌∷◌, Option, none, some, if◌then◌else◌, is_empty, length,
}
use mobux.Strings.{cmp, parse_u64, split, split_once, trim}
use mobux.Utf8.{Text}
use Prim.Native.Nat.{compare, Ordering}

pub record SemVer : Type 0 where
  pub major : ℕ
  pub minor : ℕ
  pub patch : ℕ
  pub pre : List Text

-- `s.split('+').next().unwrap_or(s)`
unfoldable pub without_build : Text → Text
unfolding split
without_build s = elim (split b'+' s) [ [] ↦ s | core ∷ _ ↦ core ]

-- The core and the pre-release, which is empty where there is no `-`.
unfoldable pub split_pre : Text → Text × Text
unfolding split_once
split_pre s = elim (split_once b'-' s) [ some (c, p) ↦ (c, p) | none ↦ (s, []) ]

unfoldable pub identifiers : Text → List Text
unfolding split
identifiers pre = if is_empty pre then [] else split b'.' pre

-- Exactly three numbers: the calls of `parts.next()`.
unfoldable pub parse_core : List Text → List Text → Option SemVer
parse_core (a ∷ b ∷ c ∷ []) pre = do
  major ← parse_u64 a
  minor ← parse_u64 b
  patch ← parse_u64 c
  some (record { major = major; minor = minor; patch = patch; pre = pre })
parse_core _ pre = none

unfoldable pub parse : Text → Option SemVer
parse s =
    let (core, pre) = split_pre (without_build (trim s)) in
    parse_core (split b'.' core) (identifiers pre)

-- How two identifiers compare, by what `parse::<u64>` makes of them.
unfoldable pub cmp_parsed : Option ℕ → Option ℕ → Ordering → Ordering
cmp_parsed (some x) (some y) text = compare x y
cmp_parsed (some x) none text = Ordering.lt
cmp_parsed none (some y) text = Ordering.gt
cmp_parsed none none text = text

unfoldable pub cmp_identifier : Text → Text → Ordering
unfolding cmp_parsed
cmp_identifier x y = cmp_parsed (parse_u64 x) (parse_u64 y) (cmp x y)

-- `a.iter().zip(b.iter())`
unfoldable pub zip : List Text → List Text → List (Text × Text)
zip (x ∷ a) (y ∷ b) = (x, y) ∷ zip a b
zip _ _ = []

-- The loop of `cmp_pre`, which returns at the first difference.
unfoldable pub first_difference : List (Text × Text) → Ordering
first_difference [] = Ordering.eq
first_difference ((x, y) ∷ pairs) = then_cmp (cmp_identifier x y) (first_difference pairs)

unfoldable pub cmp_pre : List Text → List Text → Ordering
unfolding first_difference zip
cmp_pre a b = then_cmp (first_difference (zip a b)) (compare (length a) (length b))

-- A release outranks a pre-release of the same core.
unfoldable pub cmp_release : List Text → List Text → Ordering
unfolding cmp_pre
cmp_release [] [] = Ordering.eq
cmp_release [] (y ∷ b) = Ordering.gt
cmp_release (x ∷ a) [] = Ordering.lt
cmp_release (x ∷ a) (y ∷ b) = cmp_pre (x ∷ a) (y ∷ b)

-- `(major, minor, patch).cmp`
unfoldable pub cmp_core : SemVer → SemVer → Ordering
cmp_core a b =
    then_cmp (compare a.major b.major)
      (then_cmp (compare a.minor b.minor) (compare a.patch b.patch))

unfoldable pub cmp_version : SemVer → SemVer → Ordering
cmp_version a b = then_cmp (cmp_core a b) (cmp_release a.pre b.pre)

unfoldable pub is_semver : Text → Bool
unfolding parse
is_semver version = elim (parse version) [ some _ ↦ true | none ↦ false ]

-- `l > c` on what parses
unfoldable pub newer_parsed : Option SemVer → Option SemVer → Bool
newer_parsed (some c) (some l) = is_gt (cmp_version l c)
newer_parsed _ _ = false

unfoldable pub is_newer : Text → Text → Bool
is_newer current latest = newer_parsed (parse current) (parse latest)
