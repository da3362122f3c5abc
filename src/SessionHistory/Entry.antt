-- ===== src/SessionHistory/Entry.antt =====
-- src/session_history.rs: the entries of the record, before and after the store numbers them. Times are
-- milliseconds since the epoch; an exit code read from a marker is never negative.
use mobux.Prelude.{
  ℕ, zero, suc, Bool, ◌||◌, not, Option, none, some, leb, ◌==◌, within, if◌then◌else◌, length,
  get_elem?,
}
use mobux.Utf8.{Bytes, Text, from_utf8_lossy}

pub record CommandEntry : Type 0 where
  pub seq : ℕ
  pub command : Text
  pub output : Text
  pub exit_code : Option ℕ
  pub started_at : ℕ
  pub ended_at : ℕ
  pub tmux_session : Text

pub record RawEntry : Type 0 where
  pub seq : ℕ
  pub raw : Text
  pub ts : ℕ

pub data HistoryEntry : Type 0 where
  command : CommandEntry → HistoryEntry
  raw : RawEntry → HistoryEntry

pub data PendingEntry : Type 0 where
  command : Text → Text → Option ℕ → ℕ → ℕ → PendingEntry
  raw : Text → ℕ → PendingEntry

unfoldable pub into_entry : PendingEntry → ℕ → Text → HistoryEntry
into_entry (PendingEntry.command text output code started ended) seq tmux_session =
    HistoryEntry.command (record {
      seq = seq;
      command = text;
      output = output;
      exit_code = code;
      started_at = started;
      ended_at = ended;
      tmux_session = tmux_session;
    })
into_entry (PendingEntry.raw text ts) seq tmux_session =
    HistoryEntry.raw (record { seq = seq; raw = text; ts = ts })

pub record OpenCommand : Type 0 where
  pub command : Text
  pub output : Bytes
  pub started_at : ℕ

-- `OpenCommand::finish`
unfoldable pub finish : OpenCommand → Option ℕ → ℕ → PendingEntry
finish o code ended_at =
    PendingEntry.command o.command (from_utf8_lossy o.output) code o.started_at ended_at

-- `str::is_char_boundary`, on the string's bytes.
unfoldable pub is_char_boundary : Bytes → ℕ → Bool
is_char_boundary bytes i =
    i == 0
    || i == length bytes
    || (elim (get_elem? bytes i) [ none ↦ Bool.false | some b ↦ not (within 0x80 0xBF b) ])

-- The search of `floor_char_boundary`, from `i` down.
unfoldable pub floor_from : Bytes → ℕ → ℕ
unfolding is_char_boundary
floor_from bytes zero = 0
floor_from bytes (suc i) =
    let below = floor_from bytes i in if is_char_boundary bytes (suc i) then suc i else below

unfoldable pub floor_char_boundary : Bytes → ℕ → ℕ
unfolding floor_from
floor_char_boundary bytes max =
    if leb (length bytes) max then length bytes else floor_from bytes max
