-- ===== src/SessionHistory/Segmenter/Bounds.antt =====
-- What bounds the memory of a segmenter: the bytes that wait for a marker, and an open command's output.
use mobux.External.{Vte, Vt100}
use mobux.Prelude.{
  ℕ, zero, suc, ◌-◌, ◌≤◌, ◌<◌, min, not, ◌&&◌, is_empty, inl, inr, List, [], ◌∷◌, ◌++◌, Option,
  none, some, arith, leb, leb→le, Option-cases, length, take, drop, length-append, length-take,
  length-drop, Bool-cases,
}
use mobux.ScreenModel.Model.{ScreenModel, Drawn, normal, lines}
use mobux.SessionHistory.Entry.{OpenCommand, floor_char_boundary, floor_from}
use mobux.SessionHistory.Marker.{Marker, marker_a, marker_b, marker_c, marker_d}
use mobux.SessionHistory.Segmenter.Pieces.{
  raw_flush_threshold, max_command_output_bytes, Events, drain_raw, extend_output, extend_lines,
  join_lines, take_snapshot, feed_screen,
}
use mobux.SessionHistory.Segmenter.{
  Segmenter, note_dirty, record_bytes, record_lines, record_drawn, record_snapshot, record_option,
  consume_bytes, consume_plain, apply_marker, handle_marker, handle_markers,
}
use mobux.TerminalCursor
use mobux.Utf8.{Bytes, Text, encode}

abbrev pub OutputFits : Option OpenCommand → Type 0
OutputFits none = Unit
OutputFits (some o) = length o.output ≤ max_command_output_bytes

pub record IsBounded {vte : Vte} {vt : Vt100} (s : Segmenter vte vt) : Type 0 where
  pub pending_short : length s.pending < raw_flush_threshold
  pub output_fits : OutputFits s.open_command

length-drain_raw :
    (size fuel now_ms : ℕ) (pending : Bytes)
    → 0 < size
    → length pending ≤ fuel
    → length (drain_raw size fuel now_ms pending).0 < size
unfolding drain_raw
length-drain_raw size zero now_ms pending p h = omega arith
length-drain_raw size (suc fuel) now_ms pending p h =
    elim (Bool-cases (leb size (length pending))) [
      | inl more ↦
          rw (more, drain_raw)
            (length-drain_raw size fuel now_ms (drop size pending) p
              (omega (arith, leb→le size (length pending) more, length-drop size pending)))
      | inr done ↦ rw (done, drain_raw) (ground arith)
    ]

floor_from-le : (bytes : Bytes) (i : ℕ) → floor_from bytes i ≤ i
unfolding floor_from
floor_from-le bytes zero = omega arith
floor_from-le bytes (suc i) = ground (arith, floor_from-le bytes i)

floor_char_boundary-le : (bytes : Bytes) (max : ℕ) → floor_char_boundary bytes max ≤ max
unfolding floor_char_boundary
floor_char_boundary-le bytes max = ground (arith, floor_from-le bytes max)

extend_output-OutputFits :
    (bytes : Bytes) (o : OpenCommand)
    → OutputFits (some o)
    → OutputFits (some (extend_output bytes o))
unfolding extend_output
extend_output-OutputFits bytes o h =
    let room = max_command_output_bytes - length o.output in
    ground (
      arith,
      length-append o.output (take (min room (length bytes)) bytes),
      length-take (min room (length bytes)) bytes,
    )

extend_lines-OutputFits :
    (text : Text) (o : OpenCommand) → OutputFits (some o) → OutputFits (some (extend_lines text o))
unfolding extend_lines
extend_lines-OutputFits text o h =
    let end = floor_char_boundary (encode text) (max_command_output_bytes - length o.output) in
    omega (
      arith,
      length-append o.output (take end (encode text)),
      length-take end (encode text),
      floor_char_boundary-le (encode text) (max_command_output_bytes - length o.output),
    )

module _ {vte : Vte} {vt : Vt100} where
  pub note_dirty-IsBounded :
      (now_ms : ℕ) (s : Segmenter vte vt) → IsBounded s → IsBounded (note_dirty now_ms s)
  unfolding note_dirty
  note_dirty-IsBounded now_ms s b = record {
    pending_short = b.pending_short;
    output_fits = b.output_fits;
  }

  record_bytes-IsBounded :
      (bytes : Bytes) (now_ms : ℕ) (s : Segmenter vte vt)
      → IsBounded s
      → IsBounded (record_bytes bytes now_ms s).0
  unfolding record_bytes
  record_bytes-IsBounded bytes now_ms s b = elim (Option-cases s.open_command) [
    | inr (o, e) ↦
        rw (e, record_bytes)
          (record {
            pending_short = b.pending_short;
            output_fits = extend_output-OutputFits bytes o (rw e at b.output_fits);
          })
    | inl e ↦
        rw (e, record_bytes)
          (record {
            pending_short =
                length-drain_raw raw_flush_threshold (length (s.pending ++ bytes)) now_ms
                  (s.pending ++ bytes) (omega arith) (omega arith);
            output_fits = rw e tt;
          })
  ]

  record_lines-IsBounded :
      (ls : List Text) (now_ms : ℕ) (s : Segmenter vte vt)
      → IsBounded s
      → IsBounded (record_lines ls now_ms s).0
  unfolding record_lines
  record_lines-IsBounded ls now_ms s b = elim (Option-cases s.open_command) [
    | inr (o, e) ↦
        rw (e, record_lines)
          (record {
            pending_short = b.pending_short;
            output_fits = extend_lines-OutputFits (join_lines ls) o (rw e at b.output_fits);
          })
    | inl e ↦
        rw (e, record_lines)
          (elim (Bool-cases (not s.seen_marker && not (is_empty s.pending))) [
            | inl t ↦ rw t (record { pending_short = omega arith; output_fits = rw e tt })
            | inr t ↦ rw t b
          ])
  ]

  abbrev pub Keeps : (Segmenter vte vt → Segmenter vte vt × Events) → Type 0
  Keeps f = (s : Segmenter vte vt) → IsBounded s → IsBounded (f s).0

  pub record_drawn-IsBounded : (drawn : List Drawn) (now_ms : ℕ) → Keeps (record_drawn drawn now_ms)
  unfolding record_drawn
  record_drawn-IsBounded [] now_ms s b = b
  record_drawn-IsBounded (normal bytes ∷ drawn) now_ms s b =
      record_drawn-IsBounded drawn now_ms (record_bytes bytes now_ms s).0
        (record_bytes-IsBounded bytes now_ms s b)
  record_drawn-IsBounded (lines ls ∷ drawn) now_ms s b =
      record_drawn-IsBounded drawn now_ms (record_lines ls now_ms s).0
        (record_lines-IsBounded ls now_ms s b)

  pub record_option-IsBounded :
      (ls : Option (List Text)) (now_ms : ℕ) → Keeps (record_option ls now_ms)
  record_option-IsBounded none now_ms s b = b
  record_option-IsBounded (some ls) now_ms s b = record_lines-IsBounded ls now_ms s b

  -- The screen is no part of the invariant.
  pub with_screen :
      (s : Segmenter vte vt) (screen : Option (ScreenModel vt))
      → IsBounded s
      → IsBounded (record s { screen = screen })
  with_screen s screen b = record { pending_short = b.pending_short; output_fits = b.output_fits }

  pub record_snapshot-IsBounded : (now_ms : ℕ) → Keeps (record_snapshot now_ms)
  unfolding record_snapshot
  record_snapshot-IsBounded now_ms s b =
      let (screen, ls) = take_snapshot s.screen in
      note_dirty-IsBounded now_ms (record_option ls now_ms (record s { screen = screen })).0
        (record_option-IsBounded ls now_ms (record s { screen = screen }) (with_screen s screen b))

  pub consume_plain-IsBounded : (n now_ms : ℕ) → Keeps (consume_plain n now_ms)
  unfolding consume_plain consume_bytes
  consume_plain-IsBounded n now_ms s b =
      let bytes = take n s.scan_buf in
      let (screen, drawn) = feed_screen bytes s.screen in
      let s' = record s {
        scan_buf = drop n s.scan_buf;
        cursor = TerminalCursor.feed s.cursor bytes;
        screen = screen;
      } in
      record_drawn-IsBounded drawn now_ms s'
        (record { pending_short = b.pending_short; output_fits = b.output_fits })

  apply_marker-IsBounded : (m : Marker) (now_ms : ℕ) → Keeps (apply_marker m now_ms)
  unfolding apply_marker
  apply_marker-IsBounded marker_a now_ms s b = b
  apply_marker-IsBounded marker_b now_ms s b = b
  apply_marker-IsBounded marker_c now_ms s b = record {
    pending_short = omega arith;
    output_fits = omega arith;
  }
  apply_marker-IsBounded (marker_d code) now_ms s b = record {
    pending_short = omega arith;
    output_fits = tt;
  }

  handle_marker-IsBounded : (m : Marker) (now_ms : ℕ) → Keeps (handle_marker m now_ms)
  unfolding handle_marker
  handle_marker-IsBounded m now_ms s b =
      let b' = record_snapshot-IsBounded now_ms s b in
      apply_marker-IsBounded m now_ms _
        (record { pending_short = b'.pending_short; output_fits = b'.output_fits })

  pub handle_markers-IsBounded : (ms : List Marker) (now_ms : ℕ) → Keeps (handle_markers ms now_ms)
  unfolding handle_markers
  handle_markers-IsBounded [] now_ms s b = b
  handle_markers-IsBounded (m ∷ ms) now_ms s b =
      handle_markers-IsBounded ms now_ms (handle_marker m now_ms s).0
        (handle_marker-IsBounded m now_ms s b)
