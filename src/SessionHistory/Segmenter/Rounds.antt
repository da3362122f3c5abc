-- ===== src/SessionHistory/Segmenter/Rounds.antt =====
-- The rounds of `segment`, one equation for each way that the scan buffer can begin.
use mobux.External.{Vte, Vt100}
use mobux.Prelude.{
  ℕ, suc, ◌≡◌, refl, List, [], Option, none, some, ◌==◌, if◌then◌else◌, length, is_empty, position,
}
use mobux.SessionHistory.Marker.{Marker, complete, incomplete, not_a_marker, try_match_marker, esc}
use mobux.SessionHistory.Segmenter.{
  Segmenter, ◌then◌, consume_plain, handle_markers, segment_loop, drain,
}
use mobux.Utf8.{Bytes}

-- Where the first ESC stands.
abbrev pub first_esc : Bytes → Option ℕ
first_esc = position (λ b. b == esc)

module _ {vte : Vte} {vt : Vt100} (fuel now_ms : ℕ) (s : Segmenter vte vt) where
  pub round_plain :
      first_esc s.scan_buf ≡ none
      → segment_loop (suc fuel) now_ms s
        ≡ (if is_empty s.scan_buf then (s, []) else consume_plain (length s.scan_buf) now_ms s)
  unfolding segment_loop
  round_plain p = rw (p, segment_loop) refl

  pub round_skip :
      (i : ℕ)
      → first_esc s.scan_buf ≡ some (suc i)
      → segment_loop (suc fuel) now_ms s
        ≡ (consume_plain (suc i) now_ms then segment_loop fuel now_ms) s
  unfolding segment_loop
  round_skip i p = rw (p, segment_loop) refl

  pub round_complete :
      (ms : List Marker) (len : ℕ)
      → first_esc s.scan_buf ≡ some 0
      → try_match_marker s.scan_buf ≡ complete ms len
      → segment_loop (suc fuel) now_ms s
        ≡ (drain len then handle_markers ms now_ms then segment_loop fuel now_ms) s
  unfolding segment_loop
  round_complete ms len p e = rw (p, segment_loop) (rw (e, segment_loop) refl)

  pub round_incomplete :
      first_esc s.scan_buf ≡ some 0
      → try_match_marker s.scan_buf ≡ incomplete
      → segment_loop (suc fuel) now_ms s ≡ (s, [])
  unfolding segment_loop
  round_incomplete p e = rw (p, segment_loop) (rw (e, segment_loop) refl)

  pub round_other :
      first_esc s.scan_buf ≡ some 0
      → try_match_marker s.scan_buf ≡ not_a_marker
      → segment_loop (suc fuel) now_ms s ≡ (consume_plain 1 now_ms then segment_loop fuel now_ms) s
  unfolding segment_loop
  round_other p e = rw (p, segment_loop) (rw (e, segment_loop) refl)
