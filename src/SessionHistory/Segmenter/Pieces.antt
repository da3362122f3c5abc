-- ===== src/SessionHistory/Segmenter/Pieces.antt =====
-- src/session_history.rs: the constants of the segmenter, and the parts of its methods that do not
-- touch the segmenter itself.
use mobux.External.{Vt100}
use mobux.Prelude.{
  ℕ, zero, suc, ◌*◌, Bool, true, false, List, [], ◌∷◌, ◌++◌, Option, none, some, ltb, leb, min,
  if◌then◌else◌, ◌-◌, length, take, drop,
}
use mobux.ScreenModel.Model.{ScreenModel, Drawn, normal}
use mobux.ScreenModel.Model
use mobux.SessionHistory.Entry.{PendingEntry, OpenCommand, finish, floor_char_boundary}
use mobux.Utf8.{Bytes, Text, from_utf8_lossy, encode}

abbrev pub raw_flush_threshold : ℕ
raw_flush_threshold = 4096

abbrev pub max_command_output_bytes : ℕ
max_command_output_bytes = 256 * 1024

abbrev pub quiet_ms : ℕ
quiet_ms = 400

abbrev pub max_snapshot_wait_ms : ℕ
max_snapshot_wait_ms = 3000

abbrev pub Events : Type 0
Events = List PendingEntry

-- The loop of `record_bytes`: whole chunks of `size` bytes become raw entries. The number of bytes is
-- fuel enough.
unfoldable pub drain_raw : ℕ → ℕ → ℕ → Bytes → Bytes × Events
drain_raw size zero now_ms pending = (pending, [])
drain_raw size (suc fuel) now_ms pending = elim (leb size (length pending)) [
  | true ↦
      let (pending', events) = drain_raw size fuel now_ms (drop size pending) in
      (pending', PendingEntry.raw (from_utf8_lossy (take size pending)) now_ms ∷ events)
  | false ↦ (pending, [])
]

-- `record_bytes` on an open command: its output takes as many of the bytes as there is room for.
unfoldable pub extend_output : Bytes → OpenCommand → OpenCommand
extend_output bytes o =
    if ltb (length o.output) max_command_output_bytes
    then (let room = max_command_output_bytes - length o.output in
        record o { output = o.output ++ take (min room (length bytes)) bytes })
    else o

-- `record_lines` on an open command: the same, but no character is cut.
unfoldable pub extend_lines : Text → OpenCommand → OpenCommand
unfolding floor_char_boundary encode
extend_lines text o =
    let bytes = encode text in
    let room = max_command_output_bytes - length o.output in
    record o { output = o.output ++ take (floor_char_boundary bytes room) bytes }

-- `{line}\r\n` for each line
unfoldable pub join_lines : List Text → Text
join_lines [] = []
join_lines (line ∷ rest) = line ++ (b'\r' ∷ b'\n' ∷ join_lines rest)

abbrev pub or_now : Option ℕ → ℕ → Option ℕ
or_now none now_ms = some now_ms
or_now (some since) now_ms = some since

-- The open command, ended with `code`.
abbrev pub close_open : Option ℕ → ℕ → Option OpenCommand → Events
close_open code now_ms none = []
close_open code now_ms (some o) = finish o code now_ms ∷ []

abbrev pub one_event : Option PendingEntry → Events
one_event none = []
one_event (some e) = e ∷ []

abbrev pub is_due : Option ℕ → ℕ → Bool
is_due none now_ms = false
is_due (some due) now_ms = leb due now_ms

-- The same calls on `self.screen`, which a client's stream does not have.
module _ {vt : Vt100} where
  abbrev pub screen_is_dirty : Option (ScreenModel vt) → Bool
  screen_is_dirty none = false
  screen_is_dirty (some m) = m.dirty

  abbrev pub take_snapshot : Option (ScreenModel vt) → Option (ScreenModel vt) × Option (List Text)
  take_snapshot none = (none, none)
  take_snapshot (some m) = let (m', ls) = Model.snapshot m in (some m', ls)

  abbrev pub feed_screen : Bytes → Option (ScreenModel vt) → Option (ScreenModel vt) × List Drawn
  feed_screen bytes none = (none, normal bytes ∷ [])
  feed_screen bytes (some m) = let (m', drawn) = Model.feed m bytes in (some m', drawn)

  abbrev pub release_screen : Option (ScreenModel vt) → Option (ScreenModel vt) × List Drawn
  release_screen none = (none, [])
  release_screen (some m) = let (m', drawn) = Model.release_held m in (some m', drawn)

  abbrev pub resize_screen :
      ℕ → ℕ → Option (ScreenModel vt) → Option (ScreenModel vt) × Option (List Text)
  resize_screen rows cols none = (none, none)
  resize_screen rows cols (some m) = let (m', ls) = Model.resize m rows cols in (some m', ls)

  abbrev pub assume_screen : Option (ScreenModel vt) → Option (ScreenModel vt)
  assume_screen none = none
  assume_screen (some m) = some (Model.assume_alternate_screen m)
