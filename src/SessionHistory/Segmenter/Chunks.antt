-- ===== src/SessionHistory/Segmenter/Chunks.antt =====
-- How a stream is cut into chunks does not change what a client's segmenter records.
pub mod Steps
pub mod Front
use mobux.External.{Vte, Vt100, IsStreaming}
use mobux.Prelude.{
  ℕ, zero, suc, ◌+◌, ◌-◌, ◌≤◌, ◌<◌, ◌≡◌, refl, sym, ap, ◌∙◌, inl, inr, leb, true, false, List, [],
  ◌∷◌, ◌++◌, Option, none, some, arith, length, take, drop, length-drop, length-append, is_empty,
  position, ◌==◌, Bool-cases, Option-cases, if◌then◌else◌, take_all, drop_all, drop-append_le,
  take-append_le, take-append_self, drop-append_self, append_assoc, append-nil, take-append-drop,
}
use mobux.SessionHistory.Marker.{
  Marker, MarkerMatch, complete, incomplete, not_a_marker, try_match_marker, esc,
}
use mobux.SessionHistory.Marker.Wrapped.{try_match_marker-Stable}
use mobux.SessionHistory.Segmenter.Absorb.{consume_bytes-append}
use mobux.SessionHistory.Segmenter.Local.{
  Act, with_buf, IsLocal, IsLocal-scan_buf, consume_bytes-IsLocal, handle_markers-IsLocal,
}
use mobux.SessionHistory.Segmenter.Pieces.{Events}
use mobux.SessionHistory.Segmenter.Rounds.{
  first_esc, round_plain, round_skip, round_complete, round_incomplete, round_other,
}
use mobux.SessionHistory.Segmenter.Whole.{run_loop, loop-run_loop, complete_len, first_esc-bound}
use mobux.SessionHistory.Segmenter.{
  Segmenter, ◌then◌, consume_bytes, consume_plain, handle_markers, segment_loop, segment, drain,
}
use mobux.Utf8.{Bytes}
use mobux.SessionHistory.Segmenter.Chunks.Steps.{
  first_esc-append_none, first_esc-append_some, behind, resume, Joins, run_skip, run_empty,
  run_plain, run_other, run_incomplete, run_complete, Joins-step,
}
use mobux.SessionHistory.Segmenter.Chunks.Front.{front}

module _ {vte : Vte} {vt : Vt100} (now_ms : ℕ) where
  module _ (streaming : IsStreaming vte) where
    -- Plain bytes at the front are consumed at once.
    run-plain_front :
        (x r : Bytes) (s : Segmenter vte vt)
        → s.screen ≡ none
        → first_esc x ≡ none
        → 1 ≤ length x
        → run_loop now_ms (with_buf s (x ++ r))
          ≡ (consume_bytes x now_ms then run_loop now_ms) (with_buf s r)
    run-plain_front x r s c p lo =
        let (u, es) = consume_bytes x now_ms (with_buf s []) in
        front now_ms streaming x s u es c p lo
          ((consume_bytes-IsLocal x now_ms).ignores (with_buf s [])) r

    Joins-plain :
        (b buf : Bytes) (s : Segmenter vte vt)
        → s.screen ≡ none
        → s.scan_buf ≡ buf
        → first_esc buf ≡ none
        → Joins now_ms b s
    Joins-plain b [] s c e p = rw (run_empty now_ms s e) refl
    Joins-plain b (y ∷ buf) s c e p =
        let ignored = (consume_bytes-IsLocal (y ∷ buf) now_ms).ignores (with_buf s []) in
        let whole : run_loop now_ms s ≡ consume_bytes (y ∷ buf) now_ms (with_buf s []) =
          rw (← e) (run_plain now_ms s (rw e p) (rw e (omega arith))) in
        rw (whole, e)
          (rw (run-plain_front (y ∷ buf) b s c p (omega arith)) (rw (ignored [], ignored b) refl))

    behind-length :
        {f : Act vte vt}
        → IsLocal f
        → (n k : ℕ) (s : Segmenter vte vt) → 1 ≤ n
        → n ≤ length s.scan_buf
        → length s.scan_buf < suc k
        → length (behind now_ms n f s).0.scan_buf < k
    behind-length a n k s lo hi h =
        rw (IsLocal-scan_buf a (with_buf s (drop n s.scan_buf)))
          (omega (arith, length-drop n s.scan_buf))

    Joins-esc :
        (k : ℕ) (b : Bytes) (s : Segmenter vte vt) (m : MarkerMatch)
        → ((s : Segmenter vte vt) → length s.scan_buf < k → s.screen ≡ none → Joins now_ms b s)
        → length s.scan_buf < suc k
        → s.screen ≡ none
        → first_esc s.scan_buf ≡ some 0
        → try_match_marker s.scan_buf ≡ m
        → Joins now_ms b s
    Joins-esc k b s (complete ms len) rec h c p e =
        let (same, lo, hi) = rw e at (try_match_marker-Stable s.scan_buf b) in
        let a = handle_markers-IsLocal ms now_ms in
        Joins-step now_ms a len b s hi (run_complete now_ms ms len s p e)
          (run_complete now_ms ms len (with_buf s (s.scan_buf ++ b))
            (first_esc-append_some s.scan_buf b 0 p) same)
          (rec (behind now_ms len (handle_markers ms now_ms) s).0 (behind-length a len k s lo hi h)
            (a.client (with_buf s (drop len s.scan_buf)) c))
    Joins-esc k b s incomplete rec h c p e = rw (run_incomplete now_ms s p e) refl
    Joins-esc k b s not_a_marker rec h c p e =
        let same = rw e at (try_match_marker-Stable s.scan_buf b) in
        let bound = first_esc-bound s.scan_buf 0 p in
        let a = consume_bytes-IsLocal (take 1 s.scan_buf) now_ms in
        Joins-step now_ms a 1 b s (omega arith) (run_other now_ms s p e)
          (rw (← take-append_le 1 s.scan_buf b (omega arith)) (
            run_other now_ms (with_buf s (s.scan_buf ++ b)) (first_esc-append_some s.scan_buf b 0 p)
              same))
          (rec (behind now_ms 1 (consume_bytes (take 1 s.scan_buf) now_ms) s).0
            (behind-length a 1 k s (omega arith) (omega arith) h)
            (a.client (with_buf s (drop 1 s.scan_buf)) c))

    joins :
        (k : ℕ) (b : Bytes) (s : Segmenter vte vt)
        → length s.scan_buf < k
        → s.screen ≡ none
        → Joins now_ms b s
    joins zero b s h c = absurd (ground arith)
    joins (suc k) b s h c = elim (Option-cases (first_esc s.scan_buf)) [
      | inl p ↦ Joins-plain b s.scan_buf s c refl p
      | inr (suc i, p) ↦
          let bound = first_esc-bound s.scan_buf (suc i) p in
          let a = consume_bytes-IsLocal (take (suc i) s.scan_buf) now_ms in
          Joins-step now_ms a (suc i) b s (omega arith) (run_skip now_ms (suc i) s p (omega arith))
            (rw (← take-append_le (suc i) s.scan_buf b (omega arith)) (
              run_skip now_ms (suc i) (with_buf s (s.scan_buf ++ b))
                (first_esc-append_some s.scan_buf b (suc i) p) (omega arith)))
            (joins k b (behind now_ms (suc i) (consume_bytes (take (suc i) s.scan_buf) now_ms) s).0
              (behind-length a (suc i) k s (omega arith) (omega arith) h)
              (a.client (with_buf s (drop (suc i) s.scan_buf)) c))
      | inr (zero, p) ↦ Joins-esc k b s (try_match_marker s.scan_buf) (λ t. joins k b t) h c p refl
    ]

    -- Two chunks leave a client's segmenter as their bytes in one chunk do, and give the same entries, at
    -- whatever byte the stream is cut (in a marker, in a character or in an escape sequence), if the vte
    -- parser does with two reads what it does with one read of both.
    pub segment-append :
        (a b : Bytes) (s : Segmenter vte vt)
        → s.screen ≡ none
        → segment (a ++ b) now_ms s ≡ (segment a now_ms then segment b now_ms) s
    unfolding segment run_loop
    segment-append a b s c =
        let s' = with_buf s (s.scan_buf ++ a) in
        rw (← append_assoc s.scan_buf a b) (joins (suc (length s'.scan_buf)) b s' (omega arith) c)
