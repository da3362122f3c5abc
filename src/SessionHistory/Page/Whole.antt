-- ===== src/SessionHistory/Page/Whole.antt =====
-- Complete lines that stand before other bytes are read before them.
use mathlib.Core.List.{flatten}
use mobux.Prelude.{
  ℕ, ◌≡◌, refl, sym, ap, ◌∙◌, inl, inr, false, List, [], ◌∷◌, ◌++◌, arith, ◌==◌, drop, Bool-cases,
}
use mobux.SessionHistory.Page.{raw_lines}
use mobux.Strings.{newline}
use mobux.Utf8.{Bytes}

-- Every byte stands in a complete line.
abbrev pub IsWhole : Bytes → Type 0
IsWhole bytes = flatten (raw_lines bytes) ≡ bytes

tail-eq : (b c : ℕ) (xs ys : Bytes) → b ∷ xs ≡ c ∷ ys → xs ≡ ys
tail-eq b c xs ys e = ap (drop 1) e

module _ (x : ℕ) (a : Bytes) (more : (x == newline) ≡ false) where
  raw_lines_open : raw_lines a ≡ [] → raw_lines (x ∷ a) ≡ []
  unfolding raw_lines
  raw_lines_open e = rw (more, e) refl

  raw_lines_inside :
      (l : Bytes) (ls : List Bytes) → raw_lines a ≡ l ∷ ls → raw_lines (x ∷ a) ≡ (x ∷ l) ∷ ls
  unfolding raw_lines
  raw_lines_inside l ls e = rw (more, e) refl

raw_lines-append_inside :
    (x : ℕ) (a b : Bytes) (ls : List Bytes)
    → (x == newline) ≡ false
    → raw_lines a ≡ ls
    → IsWhole (x ∷ a)
    → (IsWhole a → raw_lines (a ++ b) ≡ raw_lines a ++ raw_lines b)
    → raw_lines (x ∷ (a ++ b)) ≡ raw_lines (x ∷ a) ++ raw_lines b
unfolding flatten
raw_lines-append_inside x a b [] more e w rec =
    let none_there : [] ≡ x ∷ a = ap flatten (sym (raw_lines_open x a more e)) ∙ w in
    absurd (ground arith)
raw_lines-append_inside x a b (l ∷ ls) more e w rec =
    let at_x = raw_lines_inside x a more l ls e in
    let rest : IsWhole a =
      ap flatten e ∙ tail-eq x x (l ++ flatten ls) a (ap flatten (sym at_x) ∙ w) in
    rw at_x (raw_lines_inside x (a ++ b) more l (ls ++ raw_lines b) (rec rest ∙ rw e refl))

raw_lines-append_one :
    (x : ℕ) (a b : Bytes)
    → IsWhole (x ∷ a)
    → (IsWhole a → raw_lines (a ++ b) ≡ raw_lines a ++ raw_lines b)
    → raw_lines (x ∷ (a ++ b)) ≡ raw_lines (x ∷ a) ++ raw_lines b
unfolding raw_lines flatten
raw_lines-append_one x a b w rec = elim (Bool-cases (x == newline)) [
  | inl end ↦
      let rest : IsWhole a = tail-eq x x (flatten (raw_lines a)) a (rw end at w) in
      rw end (rw (rec rest) refl)
  | inr more ↦ raw_lines-append_inside x a b (raw_lines a) more refl w rec
]

pub raw_lines-append : (a b : Bytes) → IsWhole a → raw_lines (a ++ b) ≡ raw_lines a ++ raw_lines b
unfolding raw_lines
raw_lines-append [] b w = refl
raw_lines-append (x ∷ a) b w = raw_lines-append_one x a b w (raw_lines-append a b)
