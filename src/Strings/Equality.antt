-- ===== src/Strings/Equality.antt =====
-- `==` on strings decides equality.
use mobux.Prelude.{true, [], ◌∷◌, ◌≡◌, refl, ap, ◌==◌, arith, inl, inr, Bool-cases}
use mobux.Utf8.{Text, eq_bytes}

pub eq_bytes_self : (k : Text) → eq_bytes k k ≡ true
unfolding eq_bytes
eq_bytes_self [] = refl
eq_bytes_self (x ∷ k) = rw (eq_bytes_self k) (ground arith)

pub eq_bytes→≡ : (a b : Text) → eq_bytes a b ≡ true → a ≡ b
unfolding eq_bytes
eq_bytes→≡ [] [] h = refl
eq_bytes→≡ [] (y ∷ b) h = ground arith
eq_bytes→≡ (x ∷ a) [] h = ground arith
eq_bytes→≡ (x ∷ a) (y ∷ b) h = elim (Bool-cases (x == y)) [
  | inl e ↦ let same : x ≡ y = ground arith in rw same (ap (◌∷◌ y) (eq_bytes→≡ a b (rw e at h)))
  | inr e ↦ ground arith
]

pub eq_bytes-sym : (a b : Text) → eq_bytes a b ≡ eq_bytes b a
unfolding eq_bytes
eq_bytes-sym [] [] = refl
eq_bytes-sym [] (y ∷ b) = refl
eq_bytes-sym (x ∷ a) [] = refl
eq_bytes-sym (x ∷ a) (y ∷ b) = rw (eq_bytes-sym a b) (ground arith)
