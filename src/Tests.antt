-- ===== src/Tests.antt =====
-- Each theorem of the list at a concrete input.
mod Parsers
mod Unary
mod UpdateRuns
mod HeaderList
mod ReleaseRuns
mod TmuxRuns
mod AccessRuns
mod ShellRuns
mod ConfigRuns
mod FileRuns
mod AuthRuns
use Parsers.{
  byte_vte, byte_vte-IsStreaming, byte_event, still_vt100, plain_base64, plain_base64-IsBase64,
}
use Unary.{unary_json, print_entry, print_entry-PrintsEntries, print_value, read_value, get_field}
use mobux.Prelude.Int.{pos}
use mobux.Prelude.{
  ◌+◌, ◌^◌, ◌≤◌, ◌<◌, ◌≡◌, refl, inl, true, List, [], ◌∷◌, ◌++◌, Option, none, some, arith, length,
  drop, take, Bool, replicate,
}
use mobux.ScreenModel.Lead.{held_tail_start}
use mobux.ScreenModel.Model.Drawing.{normals, StaysNormal, feed-normals}
use mobux.ScreenModel.Model
use mobux.SessionHistory.Backward.Chunks.{Walks, next_line-Walks}
use mobux.SessionHistory.Backward.Start.{walk_from, from_end-last_newline}
use mobux.SessionHistory.Backward.{BackwardLines, next_line, from_end, last_newline}
use mobux.SessionHistory.Cursor.RoundTrip.{decode_cursor-encode_cursor}
use mobux.SessionHistory.Cursor.{decode_cursor, encode_cursor}
use mobux.SessionHistory.Entry.{PendingEntry}
use mobux.SessionHistory.Marker.RoundTrip.{print_end_marker, wrap, try_match_marker-wrap}
use mobux.SessionHistory.Marker.Stable.{Stable}
use mobux.SessionHistory.Marker.Wrapped.{try_match_marker-Stable}
use mobux.SessionHistory.Marker.{complete, marker_d, try_match_marker, bare_prefix, esc}
use mobux.SessionHistory.Page.Progress.{
  Fits, any_new, is_new, scan_forward-Fits, scan_forward-progress,
}
use mobux.SessionHistory.Page.Whole.{IsWhole}
use mobux.SessionHistory.Page.Seek.{Continues}
use mobux.SessionHistory.Page.Resumed.{numbers, ascends, read_page-offset}
use mobux.SessionHistory.Page.{read_page, scan_forward, raw_lines}
use mobux.SessionHistory.Segmenter.Bounds.{IsBounded}
use mobux.SessionHistory.Segmenter.Chunks.{segment-append}
use mobux.SessionHistory.Segmenter.Pieces.{is_due}
use mobux.SessionHistory.Segmenter.Timer.{tick-not_due}
use mobux.SessionHistory.Segmenter.Run.{Op, fed, ticked, resized, ended, run, run-IsBounded}
use mobux.SessionHistory.Segmenter.{
  snapshot_due_at, tick, Segmenter, ◌then◌, for_client_stream, segment,
}
use mobux.SessionHistory.Store.Append.{Synced, append-Synced}
use mobux.SessionHistory.Store.Bounds.{append-lines_bound}
use mobux.SessionHistory.Store.Feeders.{Attempt, try_acquire_feeder-drop_guard}
use mobux.SessionHistory.Store.Lines.{read_lines, write_lines}
use mobux.SessionHistory.Store.{
  SessionHistoryStore, append, slot, file_bytes, hydrate, hydrate_from, try_acquire_feeder,
}
use mobux.TerminalCursor.Bounds
use mobux.TerminalCursor.CommandLine.{echo, take_command_line-echo, take_command_line_stale}
use mobux.TerminalCursor.Widths.{put_char_overruns}
use mobux.TerminalCursor.{
  ScreenState, CursorModel, new_screen, get_row, put_char, take_command_line, mark_output_boundary,
}
use mobux.TerminalCursor
use mobux.Utf8.RoundTrip.{AllScalar}
use mobux.Utf8.Stream.Lossless.{decode_all_lossy, decode_all_intact}
use mobux.Utf8.Stream.{Utf8Stream, decode_all}
use mobux.Utf8.Stream
use mobux.Utf8.{Bytes, Text, from_utf8_lossy, encode, trim_end}
use mathlib.Core.List.{flatten}

abbrev client : Segmenter byte_vte still_vt100
client = for_client_stream

client-screen : client.screen ≡ none
unfolding for_client_stream
client-screen = refl

-- The marker `C`, cut before its letter, and output behind it.
segment-append_example :
    segment (bare_prefix ++ b'C' ∷ 7 ∷ b'h' ∷ b'i' ∷ []) 5 client
    ≡ (segment bare_prefix 5 then segment (b'C' ∷ 7 ∷ b'h' ∷ b'i' ∷ []) 5) client
segment-append_example =
    segment-append 5 byte_vte-IsStreaming bare_prefix (b'C' ∷ 7 ∷ b'h' ∷ b'i' ∷ []) client
      client-screen

client-IsBounded : IsBounded client
unfolding for_client_stream
client-IsBounded = record { pending_short = ground arith; output_fits = tt }

abbrev some_ops : List Op
some_ops = fed (b'h' ∷ b'i' ∷ esc ∷ []) 1 ∷ ticked 2 ∷ resized 24 80 3 ∷ ended 4 ∷ []

run-IsBounded_example : IsBounded (run some_ops client).0
run-IsBounded_example = run-IsBounded some_ops client client-IsBounded

abbrev session : Bytes
session = b'm' ∷ b'a' ∷ b'i' ∷ b'n' ∷ []

abbrev no_store : SessionHistoryStore
no_store = record { files = λ k. none; slots = λ k. none; active_feeders = [] }

no_store-Synced : Synced unary_json session no_store
unfolding slot hydrate write_lines
no_store-Synced = ([], refl, tt, refl)

no_store-small : (slot unary_json session no_store).1.last_seq + 1 < 2 ^ 64
unfolding slot hydrate
no_store-small = omega arith

abbrev listing : PendingEntry
listing = PendingEntry.command (b'l' ∷ b's' ∷ []) (b'a' ∷ b'\n' ∷ []) (some 0) 10 11

append-Synced_example :
    Synced unary_json session (append unary_json print_entry session (b'w' ∷ []) listing no_store).0
append-Synced_example =
    append-Synced unary_json session print_entry print_entry-PrintsEntries (b'w' ∷ []) listing
      no_store no_store-Synced no_store-small

append-lines_bound_example :
    length (
      read_lines (
        file_bytes
          ((append unary_json print_entry session (b'w' ∷ []) listing no_store).0.files session)))
    ≤ 2100
append-lines_bound_example =
    append-lines_bound unary_json session print_entry print_entry-PrintsEntries (b'w' ∷ []) listing
      no_store no_store-Synced no_store-small

try_acquire_feeder-drop_guard_example :
    Attempt session no_store
      (try_acquire_feeder session no_store).0
      (try_acquire_feeder session no_store).1
try_acquire_feeder-drop_guard_example = try_acquire_feeder-drop_guard session no_store

abbrev halfway : Utf8Stream
halfway = record { pending = 0xE2 ∷ 0x82 ∷ [] }

-- The euro sign, whose last byte comes in the first chunk.
decode_all_lossy_example :
    decode_all halfway ((0xAC ∷ b'h' ∷ []) ∷ (b'i' ∷ []) ∷ [])
    ≡ from_utf8_lossy (0xE2 ∷ 0x82 ∷ 0xAC ∷ b'h' ∷ b'i' ∷ [])
unfolding flatten
decode_all_lossy_example = decode_all_lossy halfway ((0xAC ∷ b'h' ∷ []) ∷ (b'i' ∷ []) ∷ [])

euro-encoded : flatten ((0xE2 ∷ []) ∷ (0x82 ∷ 0xAC ∷ []) ∷ []) ≡ encode (0x20AC ∷ [])
unfolding encode flatten
euro-encoded = refl

euro-AllScalar : AllScalar (0x20AC ∷ [])
euro-AllScalar = (inl (omega arith), tt)

decode_all_intact_example :
    decode_all Stream.new ((0xE2 ∷ []) ∷ (0x82 ∷ 0xAC ∷ []) ∷ []) ≡ 0x20AC ∷ []
decode_all_intact_example =
    decode_all_intact (0x20AC ∷ []) ((0xE2 ∷ []) ∷ (0x82 ∷ 0xAC ∷ []) ∷ []) euro-AllScalar
      euro-encoded

abbrev marker_c_bytes : Bytes
marker_c_bytes = bare_prefix ++ b'C' ∷ 7 ∷ []

try_match_marker-Stable_example :
    Stable
      (try_match_marker marker_c_bytes)
      (try_match_marker (marker_c_bytes ++ esc ∷ []))
      1
      (length marker_c_bytes)
try_match_marker-Stable_example = try_match_marker-Stable marker_c_bytes (esc ∷ [])

decode_cursor-encode_cursor_example :
    decode_cursor plain_base64 (encode_cursor plain_base64 12 3456)
    ≡ some (record { seq = 12; offset = some 3456 })
decode_cursor-encode_cursor_example =
    decode_cursor-encode_cursor plain_base64 plain_base64-IsBase64 12 3456 (omega arith)
      (omega arith)

-- The line of a raw entry with the number 1.
abbrev entry_file : Bytes
entry_file = b'a' ∷ b'b' ∷ b'b' ∷ b'\n' ∷ []

scan_forward-Fits_example : Fits unary_json 1 (scan_forward unary_json entry_file 0 0 1).entries
scan_forward-Fits_example = scan_forward-Fits unary_json entry_file 0 0 1

entry_file-new : any_new unary_json 0 (raw_lines (drop 0 entry_file)) ≡ true
unfolding raw_lines read_value get_field
entry_file-new = refl

scan_forward-progress_example : 1 ≤ length (scan_forward unary_json entry_file 0 0 1).entries
scan_forward-progress_example = scan_forward-progress unary_json entry_file 0 0 1 entry_file-new

abbrev two_lines : Bytes
two_lines = b'a' ∷ b'\n' ∷ b'b' ∷ b'\n' ∷ []

abbrev before_end : BackwardLines
before_end = record { remaining = 3; buf = [] }

next_line-Walks_example : Walks two_lines before_end (next_line two_lines before_end)
next_line-Walks_example = next_line-Walks two_lines before_end (omega arith)

from_end-last_newline_example : from_end two_lines 4 ≡ walk_from (last_newline two_lines)
from_end-last_newline_example = from_end-last_newline two_lines 4 (omega arith)

abbrev fresh_cursor : CursorModel byte_vte
fresh_cursor = TerminalCursor.new

fresh-room : length fresh_cursor.state.rows < 512
unfolding TerminalCursor.new
fresh-room = omega arith

take_command_line-echo_example :
    (take_command_line (TerminalCursor.feed fresh_cursor (b'l' ∷ b's' ∷ b' ' ∷ 13 ∷ 10 ∷ []))).1
    ≡ trim_end (b'l' ∷ b's' ∷ b' ' ∷ [])
unfolding TerminalCursor.new get_row
take_command_line-echo_example =
    take_command_line-echo fresh_cursor (b'l' ∷ b's' ∷ b' ' ∷ 13 ∷ 10 ∷ [])
      (b'l' ∷ b's' ∷ b' ' ∷ []) refl tt fresh-room refl refl (omega arith)

take_command_line_stale_example :
    ((take_command_line (TerminalCursor.feed (mark_output_boundary fresh_cursor) (13 ∷ []))).1 ≡ [])
    × ((take_command_line (TerminalCursor.feed (take_command_line fresh_cursor).0 (13 ∷ []))).1
        ≡ [])
take_command_line_stale_example =
    take_command_line_stale fresh_cursor (13 ∷ []) ((ground arith, tt))

fresh-IsBounded : Bounds.IsBounded fresh_cursor.state
unfolding TerminalCursor.new
fresh-IsBounded = record { sorted = tt; few = inl (omega arith) }

feed-IsBounded_example : Bounds.IsBounded (TerminalCursor.feed fresh_cursor (b'l' ∷ 10 ∷ [])).state
feed-IsBounded_example = Bounds.feed-IsBounded fresh_cursor (b'l' ∷ 10 ∷ []) fresh-IsBounded

abbrev blank_state : ScreenState
blank_state = record {
  rows = [];
  cursor_row = pos 0;
  cursor_col = 0;
  last_completed_row = none;
  dirty_row = none;
}

-- A row that is full, with the cursor far behind it.
abbrev full_row : ScreenState
full_row = record blank_state { rows = (pos 0, replicate 4096 b'x') ∷ []; cursor_col = 9000 }

abbrev far_right : ScreenState
far_right = record blank_state { cursor_col = 4096 }

put_char_overruns_example :
    get_row (pos 0) (put_char far_right b'x').rows ≡ some (replicate (4096 + 1) b' ')
unfolding get_row
put_char_overruns_example = put_char_overruns far_right b'x' tt refl (omega arith)

abbrev pane : Model.ScreenModel still_vt100
pane = record {
  parser = (24, 80);
  held = [];
  dirty = Bool.false;
  scrolled_off = [];
  previous = [];
  regions = (record { top = 0; bottom = 23 }, record { top = 0; bottom = 23 });
}

-- Text, and the first two bytes of an escape sequence.
abbrev partial_output : Bytes
partial_output = b'h' ∷ b'i' ∷ esc ∷ b'[' ∷ []

pane-StaysNormal :
    StaysNormal
      (record pane { held = drop (held_tail_start partial_output) partial_output })
      (Model.split_runs (take (held_tail_start partial_output) partial_output))
      []
unfolding held_tail_start Model.split_runs Model.alternate
pane-StaysNormal = (refl, tt)

feed-normals_example :
    normals (Model.feed pane partial_output).1 ++ (Model.feed pane partial_output).0.held
    ≡ partial_output
feed-normals_example = feed-normals pane partial_output pane-StaysNormal

try_match_marker-wrap_example :
    try_match_marker (wrap (print_end_marker 127) ++ b'x' ∷ [])
    ≡ complete (marker_d (some 127) ∷ []) (length (wrap (print_end_marker 127)))
try_match_marker-wrap_example = try_match_marker-wrap 127 (b'x' ∷ []) (omega arith)

-- The line of a raw entry with the number 2.
abbrev next_entry : Bytes
next_entry = b'a' ∷ b'a' ∷ b'b' ∷ b'b' ∷ b'\n' ∷ []

entry_file-IsWhole : IsWhole entry_file
unfolding raw_lines flatten
entry_file-IsWhole = refl

entries-ascend : ascends (numbers unary_json (raw_lines (entry_file ++ next_entry))) ≡ true
unfolding ascends numbers raw_lines read_value get_field
entries-ascend = refl

-- The cursor has seen nothing, and its offset is behind the first entry: it is stale.
read_page-offset_example :
    Continues unary_json
      (read_page unary_json
        (some (entry_file ++ next_entry))
        (some (record { seq = 0; offset = some 4 }))
        10)
      (read_page unary_json
        (some (entry_file ++ next_entry))
        (some (record { seq = 0; offset = none }))
        10)
read_page-offset_example =
    read_page-offset unary_json (entry_file ++ next_entry) 0 4 10 entry_file-IsWhole entries-ascend
      (inl refl)

tick-not_due_example : is_due (snapshot_due_at (tick 7 client).0) 7 ≡ Bool.false
tick-not_due_example = tick-not_due 7 client
