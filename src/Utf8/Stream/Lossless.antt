-- ===== src/Utf8/Stream/Lossless.antt =====
-- `Utf8Stream`: however a stream is cut into chunks, the text that comes out is the same.
use mathlib.Core.List.{flatten}
use mobux.Prelude.{
  ℕ, zero, suc, ◌+◌, ◌-◌, ◌≤◌, ◌<◌, ◌≡◌, refl, sym, ◌∙◌, ap, List, [], ◌∷◌, ◌++◌, none, some,
  append-nil, append_assoc, arith, drop, length, length-drop,
}
use mobux.Utf8.{
  Bytes, Text, replacement, Head, char, bad, cut, next_char, Utf8Check, valid, error, push_front,
  from_utf8_from, from_utf8, lossy_from, from_utf8_lossy, encode,
}
use mobux.Utf8.RoundTrip.{AllScalar, lossy-encode}
use mobux.Utf8.Scan.{scan, scan-append, Settled, next_char-Settled}
use mobux.Utf8.Stream.{Utf8Stream, new, decode_loop, decode_all}

scan-drop : (k : ℕ) (r : Bytes) → scan k r ≡ scan 0 (drop k r)
unfolding scan
scan-drop zero r = refl
scan-drop (suc k) [] = refl
scan-drop (suc k) (b ∷ r) = scan-drop k r

-- What `from_utf8` says of `input`, in terms of what a scan of it gives.
abbrev Agrees : Text × Bytes → ℕ → Utf8Check → Type 0
Agrees got len (valid text) = got ≡ (text, [])
Agrees got len (error text after none) = got ≡ (text, after)
Agrees got len (error text after (some n)) =
    let (t, p) = scan 0 (drop n after) in
    (got ≡ (text ++ (replacement ∷ t), p)) × (length (drop n after) < len)

Agrees-weaken :
    (got : Text × Bytes) (m : ℕ) (check : Utf8Check) → Agrees got m check → Agrees got (suc m) check
Agrees-weaken got m (valid t) h = h
Agrees-weaken got m (error t after none) h = h
Agrees-weaken got m (error t after (some k)) (h, s) = (h, omega arith)

push-Agrees :
    (c : ℕ) (got : Text × Bytes) (m n : ℕ) (check : Utf8Check)
    → Agrees got m check
    → m ≤ n
    → Agrees (c ∷ got.0, got.1) n (push_front c check)
push-Agrees c got m n (valid t) h l = rw h
push-Agrees c got m n (error t after none) h l = rw h
push-Agrees c got m n (error t after (some k)) (h, s) l = (rw h refl, omega arith)

from_utf8_head :
    (x : ℕ) (r : Bytes) (h : Head)
    → next_char x r ≡ h
    → Settled h (next_char x (r ++ [])) (suc (length r))
    → ((k : ℕ) → Agrees (scan k r) (length r) (from_utf8_from k r))
    → Agrees (scan 0 (x ∷ r)) (length (x ∷ r)) (from_utf8_from 0 (x ∷ r))
unfolding scan from_utf8_from
from_utf8_head x r (char c n) e s rec =
    rw (e, scan, from_utf8_from)
      (push-Agrees c (scan (n - 1) r) (length r) (suc (length r)) _ (rec (n - 1)) (omega arith))
from_utf8_head x r (bad zero) e (e', lo, hi) rec = absurd (omega arith)
from_utf8_head x r (bad (suc m)) e (e', lo, hi) rec =
    let one : suc m - 1 ≡ m = omega arith in
    rw (e, scan, from_utf8_from) (rw (one, scan-drop m r) refl, omega (arith, length-drop m r))
from_utf8_head x r cut e s rec = rw (e, scan, from_utf8_from) refl

from_utf8_from-Agrees : (k : ℕ) (r : Bytes) → Agrees (scan k r) (length r) (from_utf8_from k r)
unfolding scan from_utf8_from
from_utf8_from-Agrees zero [] = refl
from_utf8_from-Agrees (suc k) [] = refl
from_utf8_from-Agrees (suc k) (x ∷ r) =
    Agrees-weaken (scan k r) (length r) (from_utf8_from k r) (from_utf8_from-Agrees k r)
from_utf8_from-Agrees zero (x ∷ r) =
    from_utf8_head x r (next_char x r) refl (next_char-Settled x r [])
      (λ k. from_utf8_from-Agrees k r)

-- The loop of `decode` is one scan, given fuel for each byte.
decode_loop-scan :
    (fuel : ℕ) (input : Bytes) → length input < fuel → decode_loop fuel input ≡ scan 0 input
unfolding decode_loop from_utf8
decode_loop-scan zero input h = absurd (omega arith)
decode_loop-scan (suc fuel) input h =
    step (from_utf8 input) refl (from_utf8_from-Agrees 0 input)
      (λ r l. decode_loop-scan fuel r (omega arith))
  where
    step :
        (check : Utf8Check)
        → from_utf8 input ≡ check
        → Agrees (scan 0 input) (length input) check
        → ((r : Bytes) → length r < length input → decode_loop fuel r ≡ scan 0 r)
        → decode_loop (suc fuel) input ≡ scan 0 input
    step (valid t) e a rec = rw (e, decode_loop) (sym a)
    step (error t after none) e a rec = rw (e, decode_loop) (sym a)
    step (error t after (some n)) e (a, l) rec =
        rw (e, decode_loop) (rw (rec (drop n after) l) (sym a))

lossy_head :
    (x : ℕ) (r : Bytes) (h : Head)
    → next_char x r ≡ h
    → ((k : ℕ) → lossy_from k r ≡ (scan k r).0 ++ lossy_from 0 (scan k r).1)
    → lossy_from 0 (x ∷ r) ≡ (scan 0 (x ∷ r)).0 ++ lossy_from 0 (scan 0 (x ∷ r)).1
unfolding scan lossy_from
lossy_head x r (char c n) e rec = rw (e, scan, lossy_from) (ap (◌∷◌ c) (rec (n - 1)))
lossy_head x r (bad n) e rec = rw (e, scan, lossy_from) (ap (◌∷◌ replacement) (rec (n - 1)))
lossy_head x r cut e rec = rw (e, scan, lossy_from) (rw (e, lossy_from) refl)

lossy-scan : (k : ℕ) (r : Bytes) → lossy_from k r ≡ (scan k r).0 ++ lossy_from 0 (scan k r).1
unfolding scan lossy_from
lossy-scan zero [] = refl
lossy-scan (suc k) [] = refl
lossy-scan (suc k) (x ∷ r) = lossy-scan k r
lossy-scan zero (x ∷ r) = lossy_head x r (next_char x r) refl (λ k. lossy-scan k r)

lossy-append :
    (a b : Bytes) → from_utf8_lossy (a ++ b) ≡ (scan 0 a).0 ++ from_utf8_lossy ((scan 0 a).1 ++ b)
unfolding from_utf8_lossy
lossy-append a b =
    lossy-scan 0 (a ++ b)
    ∙ rw (scan-append 0 a b (omega arith)) (
        append_assoc (scan 0 a).0 (scan 0 ((scan 0 a).1 ++ b)).0
          (lossy_from 0 (scan 0 ((scan 0 a).1 ++ b)).1)
        ∙ ap (◌++◌ (scan 0 a).0) (sym (lossy-scan 0 ((scan 0 a).1 ++ b))))

-- However the bytes are cut into chunks, also inside a character, `decode` on each chunk and `finish`
-- write together what `String::from_utf8_lossy` makes of the pending bytes and all the chunks at once.
pub decode_all_lossy :
    (s : Utf8Stream) (chunks : List Bytes)
    → decode_all s chunks ≡ from_utf8_lossy (s.pending ++ flatten chunks)
unfolding decode_all flatten
decode_all_lossy s [] = rw append-nil
decode_all_lossy s (c ∷ cs) =
    let input = s.pending ++ c in
    rw (decode_loop-scan (length input + 1) input (omega arith)) (
      ap (◌++◌ (scan 0 input).0) (decode_all_lossy (record { pending = (scan 0 input).1 }) cs)
      ∙ sym (lossy-append input (flatten cs))
      ∙ ap from_utf8_lossy (append_assoc s.pending c (flatten cs)))

-- Text of Unicode scalar values that arrives encoded is written as it was sent, wherever its bytes are cut
-- into chunks: no character is replaced because a chunk ends inside it.
pub decode_all_intact :
    (text : Text) (chunks : List Bytes)
    → AllScalar text
    → flatten chunks ≡ encode text
    → decode_all new chunks ≡ text
unfolding new
decode_all_intact text chunks v e =
    decode_all_lossy new chunks ∙ ap from_utf8_lossy e ∙ lossy-encode text v
