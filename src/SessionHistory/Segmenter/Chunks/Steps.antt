-- ===== src/SessionHistory/Segmenter/Chunks/Steps.antt =====
-- One round of `segment` on a scan buffer, and the same round with more bytes behind it.
use mobux.External.{Vte, Vt100}
use mobux.Prelude.{
  ℕ, zero, suc, ◌+◌, ◌≤◌, ◌<◌, ◌≡◌, refl, sym, ap, ◌∙◌, inl, inr, false, List, [], ◌∷◌, ◌++◌, none,
  some, arith, length, take, drop, length-drop, is_empty, position, ◌==◌, Bool-cases, Option-cases,
  if◌then◌else◌, take_all, drop_all, drop-append_le, append_assoc,
}
use mobux.SessionHistory.Marker.{Marker, complete, incomplete, not_a_marker, try_match_marker, esc}
use mobux.SessionHistory.Segmenter.Local.{
  Act, with_buf, IsLocal, IsLocal-scan_buf, consume_bytes-IsLocal, handle_markers-IsLocal,
}
use mobux.SessionHistory.Segmenter.Rounds.{
  first_esc, round_plain, round_skip, round_complete, round_incomplete, round_other,
}
use mobux.SessionHistory.Segmenter.Whole.{run_loop, loop-run_loop, complete_len, first_esc-bound}
use mobux.SessionHistory.Segmenter.{
  Segmenter, ◌then◌, consume_bytes, consume_plain, handle_markers, segment_loop,
}
use mobux.Utf8.{Bytes}

pub first_esc-append_none :
    (x y : Bytes)
    → first_esc x ≡ none
    → first_esc (x ++ y) ≡ elim (first_esc y) [ none ↦ none | some j ↦ some (length x + j) ]
unfolding position
first_esc-append_none [] y e = elim (Option-cases (first_esc y)) [
  | inl p ↦ rw p refl
  | inr (j, p) ↦ ground arith
]
first_esc-append_none (b ∷ x) y e = elim (Bool-cases (b == esc)) [
  | inl t ↦ ground arith
  | inr t ↦ elim (Option-cases (first_esc x)) [
    | inl p ↦
        let rec = first_esc-append_none x y p in
        elim (Option-cases (first_esc y)) [ inl q ↦ ground arith | inr (j, q) ↦ ground arith ]
    | inr (j, p) ↦ ground arith
  ]
]

pub first_esc-append_some :
    (x y : Bytes) (i : ℕ) → first_esc x ≡ some i → first_esc (x ++ y) ≡ some i
unfolding position
first_esc-append_some [] y i e = ground arith
first_esc-append_some (b ∷ x) y i e = elim (Bool-cases (b == esc)) [
  | inl t ↦ ground arith
  | inr t ↦ elim (Option-cases (first_esc x)) [
    | inl p ↦ ground arith
    | inr (j, p) ↦ let rec = first_esc-append_some x y j p in ground arith
  ]
]

not_empty : (x : Bytes) → 1 ≤ length x → is_empty x ≡ false
not_empty [] h = ground arith
not_empty (b ∷ x) h = refl

module _ {vte : Vte} {vt : Vt100} (now_ms : ℕ) where
  -- An action on the bytes behind the first `n`.
  abbrev pub behind : ℕ → Act vte vt → Act vte vt
  behind n f s = f (with_buf s (drop n s.scan_buf))

  -- `segment`, which appends the chunk and runs the loop.
  abbrev pub resume : Bytes → Act vte vt
  resume b s = run_loop now_ms (with_buf s (s.scan_buf ++ b))

  abbrev pub Joins : Bytes → Segmenter vte vt → Type 0
  Joins b s = resume b s ≡ (run_loop now_ms then resume b) s

  -- A local action sees nothing of the bytes that follow.
  behind-append :
      {f : Act vte vt}
      → IsLocal f
      → (n : ℕ) (b : Bytes) (s : Segmenter vte vt) → n ≤ length s.scan_buf
      → let (t, e) = behind n f s in
        behind n f (with_buf s (s.scan_buf ++ b)) ≡ (with_buf t (t.scan_buf ++ b), e)
  behind-append {f} a n b s h = rw (drop-append_le n s.scan_buf b h) (
      rw (IsLocal-scan_buf a (with_buf s (drop n s.scan_buf)))
        (a.ignores (with_buf s (drop n s.scan_buf)) (drop n s.scan_buf ++ b)))

  run_step :
      {f : Act vte vt}
      → IsLocal f
      → (n : ℕ) (s : Segmenter vte vt) → 1 ≤ n
      → n ≤ length s.scan_buf
      → run_loop now_ms s ≡ (behind n f then segment_loop (length s.scan_buf) now_ms) s
      → run_loop now_ms s ≡ (behind n f then run_loop now_ms) s
  run_step {f} a n s lo hi e =
      let t = (behind n f s).0 in
      let shorter : length t.scan_buf < length s.scan_buf =
        rw (IsLocal-scan_buf a (with_buf s (drop n s.scan_buf)))
          (omega (arith, length-drop n s.scan_buf)) in
      e ∙ rw (loop-run_loop now_ms (length s.scan_buf) t shorter) refl

  -- The bytes before the first ESC are plain.
  pub run_skip :
      (i : ℕ) (s : Segmenter vte vt)
      → first_esc s.scan_buf ≡ some i
      → 1 ≤ i
      → run_loop now_ms s
        ≡ (behind i (consume_bytes (take i s.scan_buf) now_ms) then run_loop now_ms) s
  unfolding run_loop consume_plain
  run_skip zero s p lo = absurd (omega arith)
  run_skip (suc i) s p lo =
      let bound = first_esc-bound s.scan_buf (suc i) p in
      run_step (consume_bytes-IsLocal (take (suc i) s.scan_buf) now_ms) (suc i) s (omega arith)
        (omega arith) (round_skip (length s.scan_buf) now_ms s i p)

  pub run_empty : (s : Segmenter vte vt) → s.scan_buf ≡ [] → run_loop now_ms s ≡ (s, [])
  unfolding run_loop position
  run_empty s e = round_plain (length s.scan_buf) now_ms s (rw e refl) ∙ rw e refl

  pub run_plain :
      (s : Segmenter vte vt)
      → first_esc s.scan_buf ≡ none
      → 1 ≤ length s.scan_buf
      → run_loop now_ms s ≡ consume_bytes s.scan_buf now_ms (with_buf s [])
  unfolding run_loop consume_plain
  run_plain s p lo =
      let some_left : is_empty s.scan_buf ≡ false = ground (arith, not_empty s.scan_buf lo) in
      round_plain (length s.scan_buf) now_ms s p
      ∙ rw some_left (
          rw (take_all (length s.scan_buf) s.scan_buf (omega arith))
            (rw (drop_all (length s.scan_buf) s.scan_buf (omega arith)) refl))

  pub run_other :
      (s : Segmenter vte vt)
      → first_esc s.scan_buf ≡ some 0
      → try_match_marker s.scan_buf ≡ not_a_marker
      → run_loop now_ms s
        ≡ (behind 1 (consume_bytes (take 1 s.scan_buf) now_ms) then run_loop now_ms) s
  unfolding run_loop consume_plain
  run_other s p e =
      let bound = first_esc-bound s.scan_buf 0 p in
      run_step (consume_bytes-IsLocal (take 1 s.scan_buf) now_ms) 1 s (omega arith) (omega arith)
        (round_other (length s.scan_buf) now_ms s p e)

  pub run_incomplete :
      (s : Segmenter vte vt)
      → first_esc s.scan_buf ≡ some 0
      → try_match_marker s.scan_buf ≡ incomplete
      → run_loop now_ms s ≡ (s, [])
  unfolding run_loop
  run_incomplete s p e = round_incomplete (length s.scan_buf) now_ms s p e

  pub run_complete :
      (ms : List Marker) (len : ℕ) (s : Segmenter vte vt)
      → first_esc s.scan_buf ≡ some 0
      → try_match_marker s.scan_buf ≡ complete ms len
      → run_loop now_ms s ≡ (behind len (handle_markers ms now_ms) then run_loop now_ms) s
  unfolding run_loop
  run_complete ms len s p e =
      let (lo, hi) = complete_len s.scan_buf ms len e in
      run_step (handle_markers-IsLocal ms now_ms) len s lo hi
        (round_complete (length s.scan_buf) now_ms s ms len p e)

  -- A round with the same action on the shorter and the longer buffer.
  pub Joins-step :
      {f : Act vte vt}
      → IsLocal f
      → (n : ℕ) (b : Bytes) (s : Segmenter vte vt) → n ≤ length s.scan_buf
      → run_loop now_ms s ≡ (behind n f then run_loop now_ms) s
      → (let s' = with_buf s (s.scan_buf ++ b) in
          run_loop now_ms s' ≡ (behind n f then run_loop now_ms) s')
      → Joins b (behind n f s).0
      → Joins b s
  Joins-step {f} a n b s h short long rec =
      long
      ∙ rw (behind-append a n b s h) (
          rw rec (
            rw short (
              ap (λ es. ((resume b (run_loop now_ms (behind n f s).0).0).0, es))
                (sym (
                  append_assoc (behind n f s).1 (run_loop now_ms (behind n f s).0).1
                    (resume b (run_loop now_ms (behind n f s).0).0).1)))))
