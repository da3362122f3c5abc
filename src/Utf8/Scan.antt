-- ===== src/Utf8/Scan.antt =====
-- Reading a byte string from the left, one character or one run of bad bytes at a time, is what
-- each decoder comes down to; it can stop between any two bytes and go on later.
use mobux.Prelude.{ℕ, zero, suc, ◌-◌, ◌≤◌, ◌≡◌, refl, [], ◌∷◌, ◌++◌, arith, length}
use mobux.Utf8.{Bytes, Text, replacement, Head, char, bad, cut, next_char, two, three, four}

-- The text read, and the bytes of a character that the end cuts off.
unfoldable pub scan : ℕ → Bytes → Text × Bytes
scan k [] = ([], [])
scan (suc k) (b ∷ r) = scan k r
scan zero (b ∷ r) = elim (next_char b r) [
  | char c n ↦ let (t, p) = scan (n - 1) r in (c ∷ t, p)
  | bad n ↦ let (t, p) = scan (n - 1) r in (replacement ∷ t, p)
  | cut ↦ ([], b ∷ r)
]

-- A head that is settled stays the same whatever follows, and lies within what was read.
abbrev pub Settled : Head → Head → ℕ → Type 0
Settled cut after len = Unit
Settled (char c n) after len = (after ≡ char c n) × (1 ≤ n) × (n ≤ len)
Settled (bad n) after len = (after ≡ bad n) × (1 ≤ n) × (n ≤ len)

two-Settled : (b : ℕ) (r s : Bytes) → Settled (two b r) (two b (r ++ s)) (suc (length r))
unfolding two
two-Settled b [] s = tt
two-Settled b (b1 ∷ r) s = ground arith

three-Settled : (b : ℕ) (r s : Bytes) → Settled (three b r) (three b (r ++ s)) (suc (length r))
unfolding three
three-Settled b [] s = tt
three-Settled b (b1 ∷ []) [] = ground arith
three-Settled b (b1 ∷ []) (x ∷ s) = ground arith
three-Settled b (b1 ∷ b2 ∷ r) s = ground arith

four-Settled : (b : ℕ) (r s : Bytes) → Settled (four b r) (four b (r ++ s)) (suc (length r))
unfolding four
four-Settled b [] s = tt
four-Settled b (b1 ∷ []) [] = ground arith
four-Settled b (b1 ∷ []) (x ∷ []) = ground arith
four-Settled b (b1 ∷ []) (x ∷ y ∷ s) = ground arith
four-Settled b (b1 ∷ b2 ∷ []) [] = ground arith
four-Settled b (b1 ∷ b2 ∷ []) (x ∷ s) = ground arith
four-Settled b (b1 ∷ b2 ∷ b3 ∷ r) s = ground arith

pub next_char-Settled :
    (b : ℕ) (r s : Bytes) → Settled (next_char b r) (next_char b (r ++ s)) (suc (length r))
unfolding next_char
next_char-Settled b r s = ground (arith, two-Settled b r s, three-Settled b r s, four-Settled b r s)

abbrev Splits : ℕ → Bytes → Bytes → Type 0
Splits k a b =
    let (t, p) = scan k a in let (t', p') = scan 0 (p ++ b) in scan k (a ++ b) ≡ (t ++ t', p')

scan_head :
    (x : ℕ) (r b : Bytes) (h : Head)
    → next_char x r ≡ h
    → Settled h (next_char x (r ++ b)) (suc (length r))
    → ((k : ℕ) → k ≤ length r → Splits k r b)
    → Splits 0 (x ∷ r) b
unfolding scan
scan_head x r b (char c n) e (e', lo, hi) rec =
    rw (e, scan) (rw (e', scan) (rw (rec (n - 1) (omega arith)) refl))
scan_head x r b (bad n) e (e', lo, hi) rec =
    rw (e, scan) (rw (e', scan) (rw (rec (n - 1) (omega arith)) refl))
scan_head x r b cut e s rec = rw (e, scan) refl

-- Reading may stop anywhere: what was cut off is read again in front of what follows.
pub scan-append : (k : ℕ) (a b : Bytes) → k ≤ length a → Splits k a b
unfolding scan
scan-append zero [] b h = refl
scan-append (suc k) [] b h = absurd (omega arith)
scan-append (suc k) (x ∷ r) b h = scan-append k r b (omega arith)
scan-append zero (x ∷ r) b h =
    scan_head x r b (next_char x r) refl (next_char-Settled x r b) (λ k hk. scan-append k r b hk)
