-- ===== src/Strings/Lines.antt =====
-- A line that is written with a line feed behind it is read as it was, and fields that are joined are split
-- again.
use mobux.Prelude.{
  ℕ, suc, ◌≡◌, refl, ap, ◌∙◌, inl, inr, Bool, true, false, not, List, [], ◌∷◌, ◌++◌, some, arith,
  leb, ◌==◌, all, length, append_assoc, Bool-cases,
}
use mobux.Strings.{is_digit, newline, split_lines, split_once, splitn, join}
use mobux.Utf8.{Text}

abbrev pub is_printed : ℕ → Bool
is_printed b = leb 0x20 b

pub split_lines-line :
    (line rest : Text)
    → all is_printed line ≡ true
    → split_lines (line ++ newline ∷ rest) ≡ line ∷ split_lines rest
unfolding split_lines all
split_lines-line [] rest p = refl
split_lines-line (b ∷ line) rest p = elim (Bool-cases (is_printed b)) [
  | inl e ↦
      let no_end : (b == newline) ≡ false = ground arith in
      let no_return : (b == 0x0D) ≡ false = ground arith in
      rw (no_end, no_return) (rw (split_lines-line line rest (rw e at p)) refl)
  | inr e ↦ ground arith
]

-- The character does not occur.
abbrev pub is_free : ℕ → Text → Bool
is_free sep = all (λ c. not (c == sep))

pub digits-is_free :
    (sep : ℕ) (ds : Text) → is_digit sep ≡ false → all is_digit ds ≡ true → is_free sep ds ≡ true
unfolding all
digits-is_free sep [] h p = refl
digits-is_free sep (d ∷ ds) h p = elim (Bool-cases (is_digit d)) [
  | inl e ↦
      let other : (d == sep) ≡ false = ground arith in
      rw (other, digits-is_free sep ds h (rw e at p)) refl
  | inr e ↦ absurd (ground (arith, rw e at p))
]

pub split_once-free :
    (sep : ℕ) (a b : Text) → is_free sep a ≡ true → split_once sep (a ++ sep ∷ b) ≡ some (a, b)
unfolding split_once all
split_once-free sep [] b p = ground arith
split_once-free sep (c ∷ a) b p = elim (Bool-cases (c == sep)) [
  | inl e ↦ absurd (ground (arith, rw e at p))
  | inr e ↦ rw (split_once-free sep a b (rw e at p), e) refl
]

abbrev pub AllFree : ℕ → List Text → Type 0
AllFree sep [] = Unit
AllFree sep (f ∷ fields) = (is_free sep f ≡ true) × AllFree sep fields

splitn-step :
    (n sep : ℕ) (s a b : Text)
    → split_once sep s ≡ some (a, b)
    → splitn (suc (suc n)) sep s ≡ a ∷ splitn (suc n) sep b
unfolding splitn
splitn-step n sep s a b e = rw (e, splitn) refl

splitn-free :
    (n sep : ℕ) (f rest : Text)
    → is_free sep f ≡ true
    → splitn (suc (suc n)) sep (f ++ (sep ∷ []) ++ rest) ≡ f ∷ splitn (suc n) sep rest
splitn-free n sep f rest p =
    ap (splitn (suc (suc n)) sep) (append_assoc f (sep ∷ []) rest)
    ∙ splitn-step n sep (f ++ sep ∷ rest) f rest (split_once-free sep f rest p)

-- Fields without the separator, and a last one that may have it.
pub splitn-join :
    (sep : ℕ) (fields : List Text) (last : Text)
    → AllFree sep fields
    → splitn (suc (length fields)) sep (join (sep ∷ []) (fields ++ last ∷ [])) ≡ fields ++ last ∷ []
unfolding join splitn
splitn-join sep [] last free = refl
splitn-join sep (f ∷ []) last (p, free) = splitn-free 0 sep f last p
splitn-join sep (f ∷ g ∷ fields) last (p, free) =
    splitn-free (length (g ∷ fields)) sep f (join (sep ∷ []) ((g ∷ fields) ++ last ∷ [])) p
    ∙ ap (◌∷◌ f) (splitn-join sep (g ∷ fields) last free)
