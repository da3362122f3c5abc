-- ===== src/SessionHistory/Segmenter/Run.antt =====
-- The operations of a segmenter in any order, and what bounds its memory throughout.
use mobux.External.{Vte, Vt100}
use mobux.Prelude.{
  ℕ, zero, suc, ◌≡◌, refl, not, is_empty, inl, inr, List, [], ◌∷◌, ◌++◌, Option, none, some, arith,
  Option-cases, length, Bool-cases, if◌then◌else◌,
}
use mobux.SessionHistory.Marker.{MarkerMatch, complete, incomplete, not_a_marker, try_match_marker}
use mobux.SessionHistory.Segmenter.Pieces.{Events, release_screen, resize_screen, is_due}
use mobux.SessionHistory.Segmenter.{
  Segmenter, ◌then◌, record_drawn, record_snapshot, record_option, consume_plain, handle_markers,
  segment_loop, segment, feed, drain, snapshot_due_at, drain_screen, flush, finish_stream, resize,
  tick,
}
use mobux.SessionHistory.Segmenter.Rounds.{
  first_esc, round_plain, round_skip, round_complete, round_incomplete, round_other,
}
use mobux.Utf8.{Bytes}
use mobux.SessionHistory.Segmenter.Bounds.{
  IsBounded, note_dirty-IsBounded, record_drawn-IsBounded, record_option-IsBounded, with_screen,
  record_snapshot-IsBounded, consume_plain-IsBounded, handle_markers-IsBounded,
}

-- What the recorder calls, each with the time: bytes arrive, the timer fires, the pane changes its
-- size, the stream ends.
pub data Op : Type 0 where
  fed : Bytes → ℕ → Op
  ticked : ℕ → Op
  resized : ℕ → ℕ → ℕ → Op
  ended : ℕ → Op

module _ {vte : Vte} {vt : Vt100} where
  abbrev Keeps : (Segmenter vte vt → Segmenter vte vt × Events) → Type 0
  Keeps f = (s : Segmenter vte vt) → IsBounded s → IsBounded (f s).0

  matched-IsBounded :
      (fuel now_ms : ℕ) (s : Segmenter vte vt) (m : MarkerMatch)
      → first_esc s.scan_buf ≡ some 0
      → try_match_marker s.scan_buf ≡ m
      → Keeps (segment_loop fuel now_ms)
      → IsBounded s
      → IsBounded (segment_loop (suc fuel) now_ms s).0
  matched-IsBounded fuel now_ms s (complete ms len) p e rest b =
      let s' = (drain len s).0 in
      rw (round_complete fuel now_ms s ms len p e) (
        rest (handle_markers ms now_ms s').0 (
          handle_markers-IsBounded ms now_ms s'
            (record { pending_short = b.pending_short; output_fits = b.output_fits })))
  matched-IsBounded fuel now_ms s incomplete p e rest b = rw (round_incomplete fuel now_ms s p e) b
  matched-IsBounded fuel now_ms s not_a_marker p e rest b =
      rw (round_other fuel now_ms s p e)
        (rest (consume_plain 1 now_ms s).0 (consume_plain-IsBounded 1 now_ms s b))

  round-IsBounded :
      (fuel now_ms : ℕ) (s : Segmenter vte vt) (at : Option ℕ)
      → first_esc s.scan_buf ≡ at
      → Keeps (segment_loop fuel now_ms)
      → IsBounded s
      → IsBounded (segment_loop (suc fuel) now_ms s).0
  round-IsBounded fuel now_ms s none p rest b =
      rw (round_plain fuel now_ms s p) (elim (Bool-cases (is_empty s.scan_buf)) [
        | inl e ↦ rw e b
        | inr e ↦ rw e (consume_plain-IsBounded (length s.scan_buf) now_ms s b)
      ])
  round-IsBounded fuel now_ms s (some zero) p rest b =
      matched-IsBounded fuel now_ms s (try_match_marker s.scan_buf) p refl rest b
  round-IsBounded fuel now_ms s (some (suc i)) p rest b =
      rw (round_skip fuel now_ms s i p)
        (rest (consume_plain (suc i) now_ms s).0 (consume_plain-IsBounded (suc i) now_ms s b))

  segment_loop-IsBounded : (fuel now_ms : ℕ) → Keeps (segment_loop fuel now_ms)
  unfolding segment_loop
  segment_loop-IsBounded zero now_ms s b = b
  segment_loop-IsBounded (suc fuel) now_ms s b =
      round-IsBounded fuel now_ms s (first_esc s.scan_buf) refl (segment_loop-IsBounded fuel now_ms)
        b

  feed-IsBounded : (chunk : Bytes) (now_ms : ℕ) → Keeps (feed chunk now_ms)
  unfolding feed segment
  feed-IsBounded chunk now_ms s b =
      let buf = s.scan_buf ++ chunk in
      let s' = segment_loop (suc (length buf)) now_ms (record s { scan_buf = buf }) in
      let b' =
        segment_loop-IsBounded (suc (length buf)) now_ms (record s { scan_buf = buf })
          (record { pending_short = b.pending_short; output_fits = b.output_fits }) in
      record { pending_short = b'.pending_short; output_fits = b'.output_fits }

  flush-IsBounded : (now_ms : ℕ) (s : Segmenter vte vt) → IsBounded s → IsBounded (flush now_ms s).0
  flush-IsBounded now_ms s b = elim (Option-cases s.open_command) [
    | inr (o, e) ↦
        unfold flush in rw (e, flush) (record { pending_short = b.pending_short; output_fits = tt })
    | inl e ↦
        unfold flush in
        rw (e, flush)
          (elim (Bool-cases s.seen_marker) [
            | inl m ↦ rw m (record { pending_short = omega arith; output_fits = rw e tt })
            | inr m ↦ elim (Bool-cases (not (is_empty s.pending))) [
              | inl p ↦ rw (m, p) (record { pending_short = omega arith; output_fits = rw e tt })
              | inr p ↦
                  rw (m, p) (record { pending_short = b.pending_short; output_fits = rw e tt })
            ]
          ])
  ]

  finish_stream-IsBounded : (now_ms : ℕ) → Keeps (finish_stream now_ms)
  unfolding finish_stream drain_screen
  finish_stream-IsBounded now_ms s b =
      let (screen, drawn) = release_screen s.screen in
      let s' = (record_drawn drawn now_ms (record s { screen = screen })).0 in
      flush-IsBounded now_ms (record_snapshot now_ms s').0 (
        record_snapshot-IsBounded now_ms s' (
          record_drawn-IsBounded drawn now_ms (record s { screen = screen })
            (with_screen s screen b)))

  tick-IsBounded : (now_ms : ℕ) → Keeps (tick now_ms)
  unfolding tick
  tick-IsBounded now_ms s b = elim (Bool-cases (is_due (snapshot_due_at s) now_ms)) [
    | inl e ↦ rw e (record_snapshot-IsBounded now_ms s b)
    | inr e ↦ rw e b
  ]

  resize-IsBounded : (rows cols now_ms : ℕ) → Keeps (resize rows cols now_ms)
  unfolding resize
  resize-IsBounded rows cols now_ms s b =
      let (screen, ls) = resize_screen rows cols s.screen in
      note_dirty-IsBounded now_ms (record_option ls now_ms (record s { screen = screen })).0
        (record_option-IsBounded ls now_ms (record s { screen = screen }) (with_screen s screen b))

  unfoldable pub apply : Op → Segmenter vte vt → Segmenter vte vt × Events
  unfolding feed tick resize finish_stream
  apply (fed chunk now_ms) = feed chunk now_ms
  apply (ticked now_ms) = tick now_ms
  apply (resized rows cols now_ms) = resize rows cols now_ms
  apply (ended now_ms) = finish_stream now_ms

  unfoldable pub run : List Op → Segmenter vte vt → Segmenter vte vt × Events
  unfolding apply
  run [] s = (s, [])
  run (op ∷ ops) s = (apply op then run ops) s

  apply-IsBounded : (op : Op) → Keeps (apply op)
  unfolding apply
  apply-IsBounded (fed chunk now_ms) = feed-IsBounded chunk now_ms
  apply-IsBounded (ticked now_ms) = tick-IsBounded now_ms
  apply-IsBounded (resized rows cols now_ms) = resize-IsBounded rows cols now_ms
  apply-IsBounded (ended now_ms) = finish_stream-IsBounded now_ms

  -- Whatever arrives, in whatever order, the bytes that wait to be recorded as raw output stay below 4096,
  -- and an open command's output stays within 256 KiB, if both are so at the start.
  pub run-IsBounded : (ops : List Op) (s : Segmenter vte vt) → IsBounded s → IsBounded (run ops s).0
  unfolding run
  run-IsBounded [] s b = b
  run-IsBounded (op ∷ ops) s b = run-IsBounded ops (apply op s).0 (apply-IsBounded op s b)
