-- ===== src/SessionHistory/Store.antt =====
-- src/session_history.rs: `SessionHistoryStore`, the record on disk. A session's file is its bytes, and
-- no read or write fails but that of a file that is not there.
pub mod Lines
pub mod Bounds
pub mod Feeders
pub mod ReadBack
pub mod Hydrate
pub mod Restart
pub mod Append
use Lines.{read_lines, write_lines}
use mobux.External.{Json}
use mobux.Prelude.{
  ℕ, zero, suc, ◌+◌, ◌-◌, ◌%◌, ◌^◌, max, Bool, true, false, ◌&&◌, not, List, [], ◌∷◌, ◌++◌, Option,
  none, some, ltb, ◌==◌, if◌then◌else◌, length, drop, is_empty,
}
use mobux.SessionHistory.Entry.{PendingEntry, HistoryEntry, into_entry}
use mobux.Strings.{newline}
use mobux.Utf8.{Bytes, Text, encode, eq_bytes}

abbrev pub max_entries_per_session : ℕ
max_entries_per_session = 2000

abbrev pub trim_margin : ℕ
trim_margin = 100

pub record SessionSlot : Type 0 where
  pub last_seq : ℕ
  pub entry_count : ℕ
  pub last_command_session : Option Bytes

-- The files below `root`, the slots and the feeders, by the session's name.
pub record SessionHistoryStore : Type 0 where
  pub files : Bytes → Option Bytes
  pub slots : Bytes → Option SessionSlot
  pub active_feeders : List Bytes

-- `SessionHistoryStore::new`, on the files that are there.
unfoldable pub new_store : (Bytes → Option Bytes) → SessionHistoryStore
new_store files = record { files = files; slots = λ session. none; active_feeders = [] }

-- A map with another value under `key`.
abbrev pub put : {A : Type 0} → Bytes → A → (Bytes → Option A) → Bytes → Option A
put key a entries other = if eq_bytes key other then some a else entries other

unfoldable pub contains : Bytes → List Bytes → Bool
unfolding eq_bytes
contains key [] = false
contains key (k ∷ keys) = let rest = contains key keys in if eq_bytes key k then true else rest

unfoldable pub remove : Bytes → List Bytes → List Bytes
unfolding eq_bytes
remove key [] = []
remove key (k ∷ keys) = let rest = remove key keys in if eq_bytes key k then rest else k ∷ rest

-- The guard is the session's name, where there is one.
unfoldable pub try_acquire_feeder : Bytes → SessionHistoryStore → SessionHistoryStore × Option Bytes
unfolding contains
try_acquire_feeder session store =
    if contains session store.active_feeders
    then (store, none)
    else (record store { active_feeders = session ∷ store.active_feeders }, some session)

-- `FeederGuard::drop`
unfoldable pub drop_guard : Bytes → SessionHistoryStore → SessionHistoryStore
unfolding remove
drop_guard guard store = record store { active_feeders = remove guard store.active_feeders }

abbrev pub or_session : Option Bytes → Option Bytes → Option Bytes
or_session none old = old
or_session (some stamp) old = some stamp

abbrev pub or_seq : Option ℕ → ℕ → ℕ
or_seq none last = last
or_seq (some seq) last = max last seq

abbrev pub file_bytes : Option Bytes → Bytes
file_bytes none = []
file_bytes (some file) = file

abbrev pub empty_slot : SessionSlot
empty_slot = record { last_seq = 0; entry_count = 0; last_command_session = none }

abbrev pub note_entry : HistoryEntry → SessionSlot → SessionSlot
note_entry (HistoryEntry.command c) s = record s {
  last_command_session = some (encode c.tmux_session);
}
note_entry (HistoryEntry.raw _) s = s

module _ (json : Json) where
  abbrev pub seq_of : json.Value → Option ℕ
  seq_of v = elim (json.get v (b's' ∷ b'e' ∷ b'q' ∷ [])) [ none ↦ none | some n ↦ json.as_u64 n ]

  abbrev stamp_of : Option json.Value → Bytes
  stamp_of none = []
  stamp_of (some v) = elim (json.as_str v) [ none ↦ [] | some s ↦ s ]

  unfoldable pub command_tmux_session : json.Value → Option Bytes
  command_tmux_session line =
      elim (json.get line (b'c' ∷ b'o' ∷ b'm' ∷ b'm' ∷ b'a' ∷ b'n' ∷ b'd' ∷ [])) [
        | none ↦ none
        | some _ ↦ some (
            stamp_of (
              json.get line
                (b't' ∷ b'm' ∷ b'u' ∷ b'x' ∷ b'S' ∷ b'e' ∷ b's' ∷ b's' ∷ b'i' ∷ b'o' ∷ b'n' ∷ [])))
      ]

  -- One line that is not blank.
  unfoldable pub hydrate_line : Bytes → SessionSlot → SessionSlot
  unfolding command_tmux_session
  hydrate_line line s = elim (json.from_slice line) [
    | none ↦ record s { entry_count = s.entry_count + 1 }
    | some v ↦ record {
      last_seq = or_seq (seq_of v) s.last_seq;
      entry_count = s.entry_count + 1;
      last_command_session = or_session (command_tmux_session v) s.last_command_session;
    }
  ]

  unfoldable pub hydrate_from : SessionSlot → List Bytes → SessionSlot
  unfolding hydrate_line
  hydrate_from s [] = s
  hydrate_from s (l ∷ lines) = hydrate_from (hydrate_line l s) lines

  unfoldable pub hydrate : Option Bytes → SessionSlot
  unfolding hydrate_from read_lines
  hydrate none = empty_slot
  hydrate (some file) = hydrate_from empty_slot (read_lines file)

  unfoldable pub slot : Bytes → SessionHistoryStore → SessionHistoryStore × SessionSlot
  unfolding hydrate
  slot session store = elim (store.slots session) [
    | some s ↦ (store, s)
    | none ↦
        let hydrated = hydrate (store.files session) in
        (record store { slots = put session hydrated store.slots }, hydrated)
  ]

  abbrev pub line_session : Bytes → Option Bytes
  line_session line = elim (json.from_slice line) [ none ↦ none | some v ↦ command_tmux_session v ]

  -- The search of `trim`, from the newest line back.
  unfoldable pub latest_session : List Bytes → Option Bytes
  unfolding command_tmux_session
  latest_session [] = none
  latest_session (l ∷ lines) = or_session (latest_session lines) (line_session l)

  unfoldable pub trim : Bytes → SessionSlot → Bytes × SessionSlot
  unfolding read_lines write_lines latest_session
  trim file s =
      let lines = read_lines file in
      let kept = drop (length lines - max_entries_per_session) lines in
      (
        write_lines kept,
        record s { entry_count = length kept; last_command_session = latest_session kept },
      )

  -- What `append` does to the file and to the slot, `print` being `serde_json::to_string` on entries.
  unfoldable pub append_entry :
      (HistoryEntry → Bytes) → HistoryEntry → Bytes → SessionSlot → Bytes × SessionSlot
  unfolding trim
  append_entry print full file s =
      let written = file ++ print full ++ newline ∷ [] in
      let s' = note_entry full (record s { entry_count = s.entry_count + 1 }) in
      if ltb (max_entries_per_session + trim_margin) s'.entry_count
      then trim written s'
      else (written, s')

  unfoldable pub append :
      (HistoryEntry → Bytes)
      → Bytes
      → Text
      → PendingEntry
      → SessionHistoryStore
      → SessionHistoryStore × HistoryEntry
  unfolding slot append_entry into_entry
  append print session tmux_session entry store =
      let (store', s) = slot session store in
      let s' = record s { last_seq = (s.last_seq + 1) % 2 ^ 64 } in
      let full = into_entry entry s'.last_seq tmux_session in
      let (file, s'') = append_entry print full (file_bytes (store'.files session)) s' in
      (
        record store' {
          files = put session file store'.files;
          slots = put session s'' store'.slots;
        },
        full,
      )

  abbrev pub is_session : Text → Option Bytes → Bool
  is_session tmux_session none = false
  is_session tmux_session (some stamp) = eq_bytes stamp (encode tmux_session)

  unfoldable pub markers_seen : Bytes → Text → SessionHistoryStore → SessionHistoryStore × Bool
  unfolding slot eq_bytes
  markers_seen session tmux_session store =
      let (store', s) = slot session store in
      (store', not (is_empty tmux_session) && is_session tmux_session s.last_command_session)
