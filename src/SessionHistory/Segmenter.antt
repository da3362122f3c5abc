-- ===== src/SessionHistory/Segmenter.antt =====
-- src/session_history.rs: `Segmenter`. A method returns the new segmenter and the entries that it
-- pushes to `events`.
pub mod Pieces
pub mod Rounds
pub mod Bounds
pub mod Run
pub mod Absorb
pub mod Local
pub mod Whole
pub mod Chunks
pub mod Timer
use mobux.External.{Vte, Vt100}
use mobux.Prelude.{
  ℕ, zero, suc, ◌+◌, ◌-◌, ◌*◌, min, Bool, true, false, ◌&&◌, not, List, [], ◌∷◌, ◌++◌, Option, none,
  some, ltb, leb, ◌==◌, if◌then◌else◌, length, take, drop, is_empty, position,
}
use mobux.ScreenModel.Model.{ScreenModel, Drawn, normal, lines}
use mobux.ScreenModel.Model
use mobux.SessionHistory.Entry.{PendingEntry, OpenCommand, finish}
use mobux.SessionHistory.Marker.{
  Marker, marker_a, marker_b, marker_c, marker_d, complete, incomplete, not_a_marker,
  try_match_marker, esc,
}
use Pieces.{
  raw_flush_threshold, max_command_output_bytes, quiet_ms, max_snapshot_wait_ms, Events, drain_raw,
  extend_output, extend_lines, join_lines, or_now, screen_is_dirty, take_snapshot, feed_screen,
  release_screen, resize_screen, assume_screen, close_open, one_event, is_due,
}
use mobux.TerminalCursor.{CursorModel, take_command_line, mark_output_boundary}
use mobux.TerminalCursor
use mobux.Utf8.{Bytes, Text, encode, from_utf8_lossy}

pub record Segmenter (vte : Vte) (vt : Vt100) : Type 0 where
  pub scan_buf : Bytes
  pub pending : Bytes
  pub open_command : Option OpenCommand
  pub cursor : CursorModel vte
  pub screen : Option (ScreenModel vt)
  pub last_fed_ms : ℕ
  pub dirty_since_ms : Option ℕ
  pub seen_marker : Bool
  pub tmux_session : Text

module _ {vte : Vte} {vt : Vt100} where
  -- One method after another, on the same `events`.
  infixl 20 ◌then◌
  abbrev pub ◌then◌ :
      (Segmenter vte vt → Segmenter vte vt × Events)
      → (Segmenter vte vt → Segmenter vte vt × Events)
      → Segmenter vte vt
      → Segmenter vte vt × Events
  ◌then◌ f g s = let (s', e) = f s in let (s'', e') = g s' in (s'', e ++ e')

  unfoldable pub for_client_stream : Segmenter vte vt
  unfolding TerminalCursor.new
  for_client_stream = record {
    scan_buf = [];
    pending = [];
    open_command = none;
    cursor = TerminalCursor.new;
    screen = none;
    last_fed_ms = 0;
    dirty_since_ms = none;
    seen_marker = false;
    tmux_session = [];
  }

  unfoldable pub for_pane : ℕ → ℕ → Segmenter vte vt
  unfolding for_client_stream Model.new
  for_pane rows cols = let s = for_client_stream in record s { screen = some (Model.new rows cols) }

  unfoldable pub recording : Segmenter vte vt → Text → Segmenter vte vt
  recording s tmux_session = record s { tmux_session = tmux_session }

  unfoldable pub note_dirty : ℕ → Segmenter vte vt → Segmenter vte vt
  note_dirty now_ms s = record s {
    dirty_since_ms = if screen_is_dirty s.screen then or_now s.dirty_since_ms now_ms else none;
  }

  unfoldable pub record_bytes : Bytes → ℕ → Segmenter vte vt → Segmenter vte vt × Events
  unfolding drain_raw extend_output
  record_bytes bytes now_ms s = elim s.open_command [
    | some o ↦ (record s { open_command = some (extend_output bytes o) }, [])
    | none ↦
        let (pending, events) =
          drain_raw raw_flush_threshold (length (s.pending ++ bytes)) now_ms (s.pending ++ bytes) in
        (record s { pending = pending }, events)
  ]

  unfoldable pub record_lines : List Text → ℕ → Segmenter vte vt → Segmenter vte vt × Events
  unfolding extend_lines join_lines
  record_lines ls now_ms s =
      let text = join_lines ls in
      elim s.open_command [
        | some o ↦ (record s { open_command = some (extend_lines text o) }, [])
        | none ↦
            if not s.seen_marker && not (is_empty s.pending)
            then (
              record s { pending = [] },
              PendingEntry.raw (from_utf8_lossy s.pending) now_ms
                  ∷ PendingEntry.raw text now_ms
                  ∷ [],
            )
            else (s, PendingEntry.raw text now_ms ∷ [])
      ]

  abbrev record_option : Option (List Text) → ℕ → Segmenter vte vt → Segmenter vte vt × Events
  record_option none now_ms s = (s, [])
  record_option (some ls) now_ms s = record_lines ls now_ms s

  unfoldable pub record_drawn : List Drawn → ℕ → Segmenter vte vt → Segmenter vte vt × Events
  unfolding record_bytes record_lines
  record_drawn [] now_ms s = (s, [])
  record_drawn (normal bytes ∷ drawn) now_ms s =
      (record_bytes bytes now_ms then record_drawn drawn now_ms) s
  record_drawn (lines ls ∷ drawn) now_ms s =
      (record_lines ls now_ms then record_drawn drawn now_ms) s

  unfoldable pub record_snapshot : ℕ → Segmenter vte vt → Segmenter vte vt × Events
  unfolding note_dirty record_lines
  record_snapshot now_ms s =
      let (screen, ls) = take_snapshot s.screen in
      let (s', events) = record_option ls now_ms (record s { screen = screen }) in
      (note_dirty now_ms s', events)

  -- `consume_plain` behind the `drain`: the bytes that are no marker.
  unfoldable pub consume_bytes : Bytes → ℕ → Segmenter vte vt → Segmenter vte vt × Events
  unfolding record_drawn
  consume_bytes bytes now_ms s =
      let (screen, drawn) = feed_screen bytes s.screen in
      record_drawn drawn now_ms
        (record s { cursor = TerminalCursor.feed s.cursor bytes; screen = screen })

  unfoldable pub consume_plain : ℕ → ℕ → Segmenter vte vt → Segmenter vte vt × Events
  unfolding consume_bytes
  consume_plain n now_ms s =
      consume_bytes (take n s.scan_buf) now_ms (record s { scan_buf = drop n s.scan_buf })

  unfoldable pub apply_marker : Marker → ℕ → Segmenter vte vt → Segmenter vte vt × Events
  apply_marker marker_c now_ms s =
      let (cursor, text) = take_command_line s.cursor in
      (
        record s {
          cursor = cursor;
          pending = [];
          open_command = some (record { command = text; output = []; started_at = now_ms });
        },
        close_open none now_ms s.open_command,
      )
  apply_marker (marker_d code) now_ms s = (
    record s { open_command = none; pending = []; cursor = mark_output_boundary s.cursor },
    close_open code now_ms s.open_command,
  )
  apply_marker marker_a now_ms s = (s, [])
  apply_marker marker_b now_ms s = (s, [])

  abbrev see_marker : Segmenter vte vt → Segmenter vte vt × Events
  see_marker s = (record s { seen_marker = true }, [])

  unfoldable pub handle_marker : Marker → ℕ → Segmenter vte vt → Segmenter vte vt × Events
  unfolding record_snapshot apply_marker
  handle_marker marker now_ms =
      record_snapshot now_ms then see_marker then apply_marker marker now_ms

  unfoldable pub handle_markers : List Marker → ℕ → Segmenter vte vt → Segmenter vte vt × Events
  unfolding handle_marker
  handle_markers [] now_ms s = (s, [])
  handle_markers (m ∷ ms) now_ms s = (handle_marker m now_ms then handle_markers ms now_ms) s

  abbrev pub drain : ℕ → Segmenter vte vt → Segmenter vte vt × Events
  drain n s = (record s { scan_buf = drop n s.scan_buf }, [])

  -- The loop of `segment`. Each round but the last takes bytes out of `scan_buf`, so one more than the
  -- number of its bytes is fuel enough.
  unfoldable pub segment_loop : ℕ → ℕ → Segmenter vte vt → Segmenter vte vt × Events
  unfolding position consume_plain handle_markers try_match_marker
  segment_loop zero now_ms s = (s, [])
  segment_loop (suc fuel) now_ms s = elim (position (λ b. b == esc) s.scan_buf) [
    | none ↦ if is_empty s.scan_buf then (s, []) else consume_plain (length s.scan_buf) now_ms s
    | some zero ↦ elim (try_match_marker s.scan_buf) [
      | complete markers len ↦
          (drain len then handle_markers markers now_ms then segment_loop fuel now_ms) s
      | incomplete ↦ (s, [])
      | not_a_marker ↦ (consume_plain 1 now_ms then segment_loop fuel now_ms) s
    ]
    | some (suc i) ↦ (consume_plain (suc i) now_ms then segment_loop fuel now_ms) s
  ]

  unfoldable pub segment : Bytes → ℕ → Segmenter vte vt → Segmenter vte vt × Events
  unfolding segment_loop
  segment chunk now_ms s =
      let buf = s.scan_buf ++ chunk in
      segment_loop (suc (length buf)) now_ms (record s { scan_buf = buf })

  unfoldable pub feed : Bytes → ℕ → Segmenter vte vt → Segmenter vte vt × Events
  unfolding segment note_dirty
  feed chunk now_ms s =
      let (s', events) = segment chunk now_ms s in
      (note_dirty now_ms (record s' { last_fed_ms = now_ms }), events)

  unfoldable pub flush : ℕ → Segmenter vte vt → Segmenter vte vt × Option PendingEntry
  flush now_ms s = elim s.open_command [
    | some o ↦ (record s { open_command = none }, some (finish o none now_ms))
    | none ↦
        if s.seen_marker
        then (record s { pending = [] }, none)
        else if not (is_empty s.pending)
        then (record s { pending = [] }, some (PendingEntry.raw (from_utf8_lossy s.pending) now_ms))
        else (s, none)
  ]

  unfoldable pub drain_screen : ℕ → Segmenter vte vt → Segmenter vte vt × Events
  unfolding record_drawn record_snapshot
  drain_screen now_ms s =
      let (screen, drawn) = release_screen s.screen in
      (record_drawn drawn now_ms then record_snapshot now_ms) (record s { screen = screen })

  -- `Segmenter::finish`
  unfoldable pub finish_stream : ℕ → Segmenter vte vt → Segmenter vte vt × Events
  unfolding drain_screen flush
  finish_stream now_ms s =
      let (s', events) = drain_screen now_ms s in
      let (s'', last) = flush now_ms s' in (s'', events ++ one_event last)

  unfoldable pub resize : ℕ → ℕ → ℕ → Segmenter vte vt → Segmenter vte vt × Events
  unfolding record_lines note_dirty
  resize rows cols now_ms s =
      let (screen, ls) = resize_screen rows cols s.screen in
      let (s', events) = record_option ls now_ms (record s { screen = screen }) in
      (note_dirty now_ms s', events)

  unfoldable pub assume_alternate_screen : Segmenter vte vt → Segmenter vte vt
  assume_alternate_screen s = record s { screen = assume_screen s.screen }

  unfoldable pub snapshot_due_at : Segmenter vte vt → Option ℕ
  snapshot_due_at s = elim s.dirty_since_ms [
    | none ↦ none
    | some since ↦ some (min (s.last_fed_ms + quiet_ms) (since + max_snapshot_wait_ms))
  ]

  unfoldable pub tick : ℕ → Segmenter vte vt → Segmenter vte vt × Events
  unfolding snapshot_due_at record_snapshot
  tick now_ms s = if is_due (snapshot_due_at s) now_ms then record_snapshot now_ms s else (s, [])
