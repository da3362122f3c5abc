-- ===== src/SessionHistory/Segmenter/Whole.antt =====
-- The loop of `segment` with the fuel that `segment` gives it, and the equations of its rounds. The fuel
-- is enough: more changes nothing.
use mobux.External.{Vte, Vt100}
use mobux.Prelude.{
  ℕ, zero, suc, ◌≤◌, ◌<◌, ◌≡◌, refl, sym, ◌∙◌, inl, inr, List, [], ◌∷◌, some, arith, length, take,
  drop, length-drop, position, ◌==◌, Bool-cases, Option-cases, if◌then◌else◌,
}
use mobux.SessionHistory.Marker.{
  Marker, MarkerMatch, complete, incomplete, not_a_marker, try_match_marker, esc,
}
use mobux.SessionHistory.Marker.Wrapped.{try_match_marker-Stable}
use mobux.SessionHistory.Segmenter.Local.{
  Act, with_buf, IsLocal-scan_buf, consume_bytes-IsLocal, handle_markers-IsLocal,
}
use mobux.SessionHistory.Segmenter.Pieces.{Events}
use mobux.SessionHistory.Segmenter.Rounds.{
  first_esc, round_plain, round_skip, round_complete, round_incomplete, round_other,
}
use mobux.SessionHistory.Segmenter.{
  Segmenter, ◌then◌, consume_plain, handle_markers, segment_loop, drain,
}
use mobux.Utf8.{Bytes}

-- A marker takes bytes, and only bytes that are there.
pub complete_len :
    (buf : Bytes) (ms : List Marker) (len : ℕ)
    → try_match_marker buf ≡ complete ms len
    → (1 ≤ len) × (len ≤ length buf)
complete_len buf ms len e =
    let (same, lo, hi) = rw e at (try_match_marker-Stable buf []) in (lo, hi)

-- The first ESC stands among the bytes.
pub first_esc-bound : (buf : Bytes) (i : ℕ) → first_esc buf ≡ some i → i < length buf
unfolding position
first_esc-bound [] i e = ground arith
first_esc-bound (b ∷ buf) i e = elim (Bool-cases (b == esc)) [
  | inl t ↦ ground arith
  | inr t ↦ elim (Option-cases (first_esc buf)) [
    | inr (j, p) ↦ let rec = first_esc-bound buf j p in ground arith
    | inl p ↦ ground arith
  ]
]

-- The loop gives the same with either fuel, where both are enough.
abbrev Agree : Vte → Vt100 → ℕ → ℕ → ℕ → Type 0
Agree vte vt now_ms f g =
    (s : Segmenter vte vt)
    → length s.scan_buf < f
    → length s.scan_buf < g
    → segment_loop f now_ms s ≡ segment_loop g now_ms s

module _ {vte : Vte} {vt : Vt100} (now_ms : ℕ) where
  unfoldable pub run_loop : Segmenter vte vt → Segmenter vte vt × Events
  run_loop s = segment_loop (suc (length s.scan_buf)) now_ms s

  -- Two loops that agree behind an action agree with it.
  then-eq :
      (f g h : Act vte vt) (s : Segmenter vte vt)
      → g (f s).0 ≡ h (f s).0
      → (f then g) s ≡ (f then h) s
  then-eq f g h s e = rw e refl

  consume_plain-scan_buf :
      (n : ℕ) (s : Segmenter vte vt) → (consume_plain n now_ms s).0.scan_buf ≡ drop n s.scan_buf
  unfolding consume_plain
  consume_plain-scan_buf n s =
      IsLocal-scan_buf (consume_bytes-IsLocal (take n s.scan_buf) now_ms)
        (with_buf s (drop n s.scan_buf))

  handle_markers-scan_buf :
      (ms : List Marker) (len : ℕ) (s : Segmenter vte vt)
      → ((drain len then handle_markers ms now_ms) s).0.scan_buf ≡ drop len s.scan_buf
  handle_markers-scan_buf ms len s =
      IsLocal-scan_buf (handle_markers-IsLocal ms now_ms) (with_buf s (drop len s.scan_buf))

  matched-fuel :
      (f g : ℕ) (s : Segmenter vte vt) (m : MarkerMatch)
      → first_esc s.scan_buf ≡ some 0
      → try_match_marker s.scan_buf ≡ m
      → Agree vte vt now_ms f g
      → length s.scan_buf ≤ f
      → length s.scan_buf ≤ g
      → segment_loop (suc f) now_ms s ≡ segment_loop (suc g) now_ms s
  matched-fuel f g s (complete ms len) p e rec h k =
      let (lo, hi) = complete_len s.scan_buf ms len e in
      let act = drain len then handle_markers ms now_ms in
      let shorter : length (act s).0.scan_buf < length s.scan_buf =
        rw (handle_markers-scan_buf ms len s) (omega (arith, length-drop len s.scan_buf)) in
      round_complete f now_ms s ms len p e
      ∙ then-eq act (segment_loop f now_ms) (segment_loop g now_ms) s
          (rec (act s).0 (omega arith) (omega arith))
      ∙ sym (round_complete g now_ms s ms len p e)
  matched-fuel f g s incomplete p e rec h k =
      round_incomplete f now_ms s p e ∙ sym (round_incomplete g now_ms s p e)
  matched-fuel f g s not_a_marker p e rec h k =
      let some_left = first_esc-bound s.scan_buf 0 p in
      let shorter : length (consume_plain 1 now_ms s).0.scan_buf < length s.scan_buf =
        rw (consume_plain-scan_buf 1 s) (omega (arith, length-drop 1 s.scan_buf)) in
      round_other f now_ms s p e
      ∙ then-eq (consume_plain 1 now_ms) (segment_loop f now_ms) (segment_loop g now_ms) s
          (rec (consume_plain 1 now_ms s).0 (omega arith) (omega arith))
      ∙ sym (round_other g now_ms s p e)

  round-fuel :
      (f g : ℕ) (s : Segmenter vte vt)
      → Agree vte vt now_ms f g
      → length s.scan_buf ≤ f
      → length s.scan_buf ≤ g
      → segment_loop (suc f) now_ms s ≡ segment_loop (suc g) now_ms s
  round-fuel f g s rec h k = elim (Option-cases (first_esc s.scan_buf)) [
    | inl p ↦ round_plain f now_ms s p ∙ sym (round_plain g now_ms s p)
    | inr (zero, p) ↦ matched-fuel f g s (try_match_marker s.scan_buf) p refl rec h k
    | inr (suc i, p) ↦
        let some_left = first_esc-bound s.scan_buf (suc i) p in
        let shorter : length (consume_plain (suc i) now_ms s).0.scan_buf < length s.scan_buf =
          rw (consume_plain-scan_buf (suc i) s) (omega (arith, length-drop (suc i) s.scan_buf)) in
        round_skip f now_ms s i p
        ∙ then-eq (consume_plain (suc i) now_ms) (segment_loop f now_ms) (segment_loop g now_ms) s
            (rec (consume_plain (suc i) now_ms s).0 (omega arith) (omega arith))
        ∙ sym (round_skip g now_ms s i p)
  ]

  pub loop-fuel : (f g : ℕ) → Agree vte vt now_ms f g
  loop-fuel zero g s h k = absurd (ground arith)
  loop-fuel (suc f) zero s h k = absurd (ground arith)
  loop-fuel (suc f) (suc g) s h k = round-fuel f g s (loop-fuel f g) (omega arith) (omega arith)

  -- Any fuel above the number of bytes gives what `run_loop` gives.
  pub loop-run_loop :
      (f : ℕ) (s : Segmenter vte vt) → length s.scan_buf < f → segment_loop f now_ms s ≡ run_loop s
  unfolding run_loop
  loop-run_loop f s h = loop-fuel f (suc (length s.scan_buf)) s h (omega arith)
