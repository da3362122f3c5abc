-- ===== src/Prelude/Order.antt =====
-- `std::cmp::Ordering`, and comparisons that are total preorders.
use Prim.Native.Nat.{compare, Ordering}
use mathlib.Core.Path.{◌≡◌, refl, sym, ap, ◌∙◌}
use mathlib.Core.Bool.{Bool, true, false}
use mathlib.Core.List.{List, [], ◌∷◌}
use native.Mathlib.Omega.{arith}

-- `Ordering::reverse`
abbrev pub reverse : Ordering → Ordering
reverse Ordering.lt = Ordering.gt
reverse Ordering.eq = Ordering.eq
reverse Ordering.gt = Ordering.lt

-- `Ordering::then`: what follows counts where nothing has been decided.
abbrev pub then_cmp : Ordering → Ordering → Ordering
then_cmp Ordering.lt next = Ordering.lt
then_cmp Ordering.eq next = next
then_cmp Ordering.gt next = Ordering.gt

abbrev pub is_gt : Ordering → Bool
is_gt Ordering.gt = true
is_gt _ = false

abbrev pub is_lt : Ordering → Bool
is_lt Ordering.lt = true
is_lt _ = false

-- The cases of a comparison, with the equation.
pub data Cases (o : Ordering) : Type 0 where
  below : o ≡ Ordering.lt → Cases o
  same : o ≡ Ordering.eq → Cases o
  above : o ≡ Ordering.gt → Cases o

pub cases : (o : Ordering) → Cases o
cases Ordering.lt = below refl
cases Ordering.eq = same refl
cases Ordering.gt = above refl

-- What `Ord` asks of `cmp`, without the antisymmetry that would make equal values identical.
pub record IsTotalPreorder {ℓ} {A : Type ℓ} (cmp : A → A → Ordering) : Type ℓ where
  pub swap : (x y : A) → cmp y x ≡ reverse (cmp x y)
  pub same : (x y z : A) → cmp x y ≡ Ordering.eq → cmp x z ≡ cmp y z
  pub trans : (x y z : A) → cmp x y ≡ Ordering.lt → cmp y z ≡ Ordering.lt → cmp x z ≡ Ordering.lt

module _ {ℓ} {A : Type ℓ} (cmp : A → A → Ordering) (ord : IsTotalPreorder cmp) where
  pub same_right : (x y z : A) → cmp y z ≡ Ordering.eq → cmp x y ≡ cmp x z
  same_right x y z e = ord.swap y x ∙ ap reverse (ord.same y z x e) ∙ sym (ord.swap z x)

  pub cmp_self : (x : A) → cmp x x ≡ Ordering.eq
  cmp_self x = elim (cases (cmp x x)) [
    | below e ↦ ground (arith, ord.swap x x)
    | same e ↦ e
    | above e ↦ ground (arith, ord.swap x x)
  ]

  -- At most is transitive.
  pub not_above_trans :
      (x y z : A) → is_gt (cmp x y) ≡ false → is_gt (cmp y z) ≡ false → is_gt (cmp x z) ≡ false
  not_above_trans x y z d e = elim (cases (cmp x y)) [
    | above p ↦ ground arith
    | same p ↦ rw (ord.same x y z p) e
    | below p ↦ elim (cases (cmp y z)) [
      | above q ↦ ground arith
      | same q ↦ rw (sym (same_right x y z q), p) refl
      | below q ↦ rw (ord.trans x y z p q) refl
    ]
  ]

pub compare-IsTotalPreorder : IsTotalPreorder compare
compare-IsTotalPreorder = record {
  swap = λ x y. ground arith;
  same = λ x y z e. ground arith;
  trans = λ x y z e f. ground arith;
}

-- A comparison of keys.
pub by_key-IsTotalPreorder {ℓ κ} :
    {A : Type ℓ} {B : Type κ} (key : A → B) (cmp : B → B → Ordering)
    → IsTotalPreorder cmp
    → IsTotalPreorder (λ x y. cmp (key x) (key y))
by_key-IsTotalPreorder key cmp ord = record {
  swap = λ x y. ord.swap (key x) (key y);
  same = λ x y z. ord.same (key x) (key y) (key z);
  trans = λ x y z. ord.trans (key x) (key y) (key z);
}

-- A first comparison, and what the second one gives on the same values.
module _ {ℓ} {A : Type ℓ} (f : A → A → Ordering) (hf : IsTotalPreorder f) where
  then_swap :
      (x y : A) (gxy gyx : Ordering)
      → gyx ≡ reverse gxy
      → then_cmp (f y x) gyx ≡ reverse (then_cmp (f x y) gxy)
  then_swap x y gxy gyx h =
      rw (hf.swap x y, h)
        (elim (cases (f x y)) [ below e ↦ rw e refl | same e ↦ rw e refl | above e ↦ rw e refl ])

  then_same :
      (x y z : A) (gxy gxz gyz : Ordering)
      → (gxy ≡ Ordering.eq → gxz ≡ gyz)
      → then_cmp (f x y) gxy ≡ Ordering.eq
      → then_cmp (f x z) gxz ≡ then_cmp (f y z) gyz
  then_same x y z gxy gxz gyz h e = elim (cases (f x y)) [
    | below d ↦ ground arith
    | same d ↦ rw (hf.same x y z d, h (rw d at e)) refl
    | above d ↦ ground arith
  ]

  then_trans :
      (x y z : A) (gxy gxz gyz : Ordering)
      → (gxy ≡ Ordering.lt → gyz ≡ Ordering.lt → gxz ≡ Ordering.lt)
      → then_cmp (f x y) gxy ≡ Ordering.lt
      → then_cmp (f y z) gyz ≡ Ordering.lt
      → then_cmp (f x z) gxz ≡ Ordering.lt
  then_trans x y z gxy gxz gyz h d e = elim (cases (f x y)) [
    | above p ↦ ground arith
    | same p ↦ elim (cases (f y z)) [
      | above q ↦ ground arith
      | same q ↦ rw (hf.same x y z p, q) (h (rw p at d) (rw q at e))
      | below q ↦ rw (hf.same x y z p, q) refl
    ]
    | below p ↦ elim (cases (f y z)) [
      | above q ↦ ground arith
      | same q ↦ rw (sym (same_right f hf x y z q), p) refl
      | below q ↦ rw (hf.trans x y z p q) refl
    ]
  ]

  pub then_cmp-IsTotalPreorder :
      (g : A → A → Ordering) → IsTotalPreorder g → IsTotalPreorder (λ x y. then_cmp (f x y) (g x y))
  then_cmp-IsTotalPreorder g hg = record {
    swap = λ x y. then_swap x y (g x y) (g y x) (hg.swap x y);
    same = λ x y z. then_same x y z (g x y) (g x z) (g y z) (hg.same x y z);
    trans = λ x y z. then_trans x y z (g x y) (g x z) (g y z) (hg.trans x y z);
  }

-- `Ord` of a list: the first difference counts, then the length.
unfoldable pub lexicographic {ℓ} : {A : Type ℓ} → (A → A → Ordering) → List A → List A → Ordering
lexicographic cmp [] [] = Ordering.eq
lexicographic cmp [] (y ∷ ys) = Ordering.lt
lexicographic cmp (x ∷ xs) [] = Ordering.gt
lexicographic cmp (x ∷ xs) (y ∷ ys) = then_cmp (cmp x y) (lexicographic cmp xs ys)

module _ {ℓ} {A : Type ℓ} (cmp : A → A → Ordering) (ord : IsTotalPreorder cmp) where
  lexicographic_swap : (a b : List A) → lexicographic cmp b a ≡ reverse (lexicographic cmp a b)
  unfolding lexicographic
  lexicographic_swap [] [] = refl
  lexicographic_swap [] (y ∷ b) = refl
  lexicographic_swap (x ∷ a) [] = refl
  lexicographic_swap (x ∷ a) (y ∷ b) =
      then_swap cmp ord x y (lexicographic cmp a b) (lexicographic cmp b a) (lexicographic_swap a b)

  lexicographic_same :
      (a b c : List A)
      → lexicographic cmp a b ≡ Ordering.eq
      → lexicographic cmp a c ≡ lexicographic cmp b c
  unfolding lexicographic
  lexicographic_same [] [] c e = refl
  lexicographic_same [] (y ∷ b) c e = ground arith
  lexicographic_same (x ∷ a) [] c e = ground arith
  lexicographic_same (x ∷ a) (y ∷ b) [] e = refl
  lexicographic_same (x ∷ a) (y ∷ b) (z ∷ c) e =
      then_same cmp ord x y z (lexicographic cmp a b) (lexicographic cmp a c)
        (lexicographic cmp b c) (lexicographic_same a b c) e

  lexicographic_trans :
      (a b c : List A)
      → lexicographic cmp a b ≡ Ordering.lt
      → lexicographic cmp b c ≡ Ordering.lt
      → lexicographic cmp a c ≡ Ordering.lt
  unfolding lexicographic
  lexicographic_trans [] b [] d e = elim b [ [] ↦ ground arith | y ∷ b ↦ ground arith ]
  lexicographic_trans [] b (z ∷ c) d e = refl
  lexicographic_trans (x ∷ a) [] c d e = ground arith
  lexicographic_trans (x ∷ a) (y ∷ b) [] d e = ground arith
  lexicographic_trans (x ∷ a) (y ∷ b) (z ∷ c) d e =
      then_trans cmp ord x y z (lexicographic cmp a b) (lexicographic cmp a c)
        (lexicographic cmp b c) (lexicographic_trans a b c) d e

  pub lexicographic-IsTotalPreorder : IsTotalPreorder (lexicographic cmp)
  lexicographic-IsTotalPreorder = record {
    swap = lexicographic_swap;
    same = lexicographic_same;
    trans = lexicographic_trans;
  }
