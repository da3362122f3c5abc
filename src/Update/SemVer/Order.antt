-- ===== src/Update/SemVer/Order.antt =====
-- The order of versions.
use mobux.Prelude.Order.{
  then_cmp, reverse, lexicographic, cases, below, same, above, IsTotalPreorder,
  compare-IsTotalPreorder, by_key-IsTotalPreorder, then_cmp-IsTotalPreorder,
  lexicographic-IsTotalPreorder,
}
use mobux.Prelude.{ℕ, List, [], ◌∷◌, Option, none, some, ◌≡◌, refl, sym, ◌∙◌, arith}
use mobux.Strings.{cmp, parse_u64}
use mobux.Update.SemVer.{
  cmp_parsed, cmp_identifier, zip, first_difference, cmp_pre, cmp_release, cmp_core, cmp_version,
}
use mobux.Utf8.{Text}
use Prim.Native.Nat.{compare, Ordering}

-- The loop over the pairs, and then the lengths, are the lexicographic order of the identifiers.
pub cmp_pre-lexicographic : (a b : List Text) → cmp_pre a b ≡ lexicographic cmp_identifier a b
unfolding cmp_pre first_difference zip lexicographic
cmp_pre-lexicographic [] [] = ground arith
cmp_pre-lexicographic [] (y ∷ b) = ground arith
cmp_pre-lexicographic (x ∷ a) [] = ground arith
cmp_pre-lexicographic (x ∷ a) (y ∷ b) = elim (cases (cmp_identifier x y)) [
  | below e ↦ rw e refl
  | same e ↦ rw (e, sym (cmp_pre-lexicographic a b)) (ground arith)
  | above e ↦ rw e refl
]

parsed_swap :
    (x y : Option ℕ) (t u : Ordering)
    → u ≡ reverse t
    → cmp_parsed y x u ≡ reverse (cmp_parsed x y t)
unfolding cmp_parsed
parsed_swap (some x) (some y) t u h = ground arith
parsed_swap (some x) none t u h = refl
parsed_swap none (some y) t u h = refl
parsed_swap none none t u h = h

parsed_same :
    (x y z : Option ℕ) (xy xz yz : Ordering)
    → (xy ≡ Ordering.eq → xz ≡ yz)
    → cmp_parsed x y xy ≡ Ordering.eq
    → cmp_parsed x z xz ≡ cmp_parsed y z yz
unfolding cmp_parsed
parsed_same (some x) (some y) (some z) xy xz yz h e = ground arith
parsed_same (some x) (some y) none xy xz yz h e = refl
parsed_same (some x) none z xy xz yz h e = ground arith
parsed_same none (some y) z xy xz yz h e = ground arith
parsed_same none none (some z) xy xz yz h e = refl
parsed_same none none none xy xz yz h e = h e

parsed_trans :
    (x y z : Option ℕ) (xy xz yz : Ordering)
    → (xy ≡ Ordering.lt → yz ≡ Ordering.lt → xz ≡ Ordering.lt)
    → cmp_parsed x y xy ≡ Ordering.lt
    → cmp_parsed y z yz ≡ Ordering.lt
    → cmp_parsed x z xz ≡ Ordering.lt
unfolding cmp_parsed
parsed_trans (some x) (some y) (some z) xy xz yz h d e = ground arith
parsed_trans (some x) y none xy xz yz h d e = refl
parsed_trans (some x) none (some z) xy xz yz h d e = ground arith
parsed_trans none (some y) z xy xz yz h d e = ground arith
parsed_trans none none (some z) xy xz yz h d e = ground arith
parsed_trans none none none xy xz yz h d e = h d e

pub cmp_identifier-IsTotalPreorder : IsTotalPreorder cmp_identifier
unfolding cmp_identifier
cmp_identifier-IsTotalPreorder =
    let texts = lexicographic-IsTotalPreorder compare compare-IsTotalPreorder in
    record {
      swap = λ x y. parsed_swap (parse_u64 x) (parse_u64 y) (cmp x y) (cmp y x) (texts.swap x y);
      same = λ x y z.
          parsed_same (parse_u64 x) (parse_u64 y) (parse_u64 z) (cmp x y) (cmp x z) (cmp y z)
            (texts.same x y z);
      trans = λ x y z.
          parsed_trans (parse_u64 x) (parse_u64 y) (parse_u64 z) (cmp x y) (cmp x z) (cmp y z)
            (texts.trans x y z);
    }

pub cmp_pre-IsTotalPreorder : IsTotalPreorder cmp_pre
cmp_pre-IsTotalPreorder =
    let ord = lexicographic-IsTotalPreorder cmp_identifier cmp_identifier-IsTotalPreorder in
    record {
      swap = λ x y. rw (cmp_pre-lexicographic x y, cmp_pre-lexicographic y x) (ord.swap x y);
      same = λ x y z e.
          rw (cmp_pre-lexicographic x z, cmp_pre-lexicographic y z)
            (ord.same x y z (sym (cmp_pre-lexicographic x y) ∙ e));
      trans = λ x y z d e.
          cmp_pre-lexicographic x z
          ∙ ord.trans x y z (sym (cmp_pre-lexicographic x y) ∙ d)
              (sym (cmp_pre-lexicographic y z) ∙ e);
    }

release_swap : (x y : List Text) → cmp_release y x ≡ reverse (cmp_release x y)
unfolding cmp_release
release_swap [] [] = refl
release_swap [] (y ∷ b) = refl
release_swap (x ∷ a) [] = refl
release_swap (x ∷ a) (y ∷ b) = cmp_pre-IsTotalPreorder.swap (x ∷ a) (y ∷ b)

release_equal :
    (x y z : List Text) → cmp_release x y ≡ Ordering.eq → cmp_release x z ≡ cmp_release y z
unfolding cmp_release
release_equal [] [] z e = refl
release_equal [] (y ∷ b) z e = ground arith
release_equal (x ∷ a) [] z e = ground arith
release_equal (x ∷ a) (y ∷ b) [] e = refl
release_equal (x ∷ a) (y ∷ b) (z ∷ c) e = cmp_pre-IsTotalPreorder.same (x ∷ a) (y ∷ b) (z ∷ c) e

release_trans :
    (x y z : List Text)
    → cmp_release x y ≡ Ordering.lt
    → cmp_release y z ≡ Ordering.lt
    → cmp_release x z ≡ Ordering.lt
unfolding cmp_release
release_trans [] [] z d e = ground arith
release_trans [] (y ∷ b) z d e = ground arith
release_trans (x ∷ a) y [] d e = refl
release_trans (x ∷ a) [] (z ∷ c) d e = ground arith
release_trans (x ∷ a) (y ∷ b) (z ∷ c) d e =
    cmp_pre-IsTotalPreorder.trans (x ∷ a) (y ∷ b) (z ∷ c) d e

cmp_release-IsTotalPreorder : IsTotalPreorder cmp_release
cmp_release-IsTotalPreorder = record {
  swap = release_swap;
  same = release_equal;
  trans = release_trans;
}

cmp_core-IsTotalPreorder : IsTotalPreorder cmp_core
unfolding cmp_core
cmp_core-IsTotalPreorder =
    then_cmp-IsTotalPreorder (λ a b. compare a.major b.major)
      (by_key-IsTotalPreorder (λ v. v.major) compare compare-IsTotalPreorder)
      (λ a b. then_cmp (compare a.minor b.minor) (compare a.patch b.patch))
      (then_cmp-IsTotalPreorder (λ a b. compare a.minor b.minor)
        (by_key-IsTotalPreorder (λ v. v.minor) compare compare-IsTotalPreorder)
        (λ a b. compare a.patch b.patch)
        (by_key-IsTotalPreorder (λ v. v.patch) compare compare-IsTotalPreorder))

-- Versions are in a total preorder: the two ways around are opposite, versions that compare equal
-- compare alike with every other, and less is transitive.
pub cmp_version-IsTotalPreorder : IsTotalPreorder cmp_version
unfolding cmp_version
cmp_version-IsTotalPreorder =
    then_cmp-IsTotalPreorder cmp_core cmp_core-IsTotalPreorder (λ a b. cmp_release a.pre b.pre)
      (by_key-IsTotalPreorder (λ v. v.pre) cmp_release cmp_release-IsTotalPreorder)
