-- ===== src/SessionHistory/Backward.antt =====
-- src/session_history.rs: pages of the record, read backward from its end. The file is its bytes, and the
-- handle of `BackwardLines` is an argument.
pub mod Chunks
pub mod Start
use mobux.External.{Json}
use mobux.Prelude.{
  ℕ, zero, suc, ◌+◌, ◌-◌, ◌^◌, min, Bool, true, false, ◌&&◌, ◌||◌, not, List, [], ◌∷◌, ◌++◌, Option,
  none, some, ltb, leb, ◌==◌, if◌then◌else◌, length, take, drop, is_empty,
}
use mobux.SessionHistory.Cursor.{PageCursor}
use mobux.SessionHistory.Page.{Page, cap_output_for_wire, resumes_at_seq, max_page_bytes}
use mobux.SessionHistory.Store.Lines.{is_blank_text}
use mobux.Strings.{newline}
use mobux.SessionHistory.Store.{seq_of}
use mobux.Utf8.{Bytes, valid, from_utf8_lossy, encode}

abbrev pub backward_chunk : ℕ
backward_chunk = 65536

-- `iter().rposition(|&b| b == b'\n')`
unfoldable pub last_newline : Bytes → Option ℕ
last_newline [] = none
last_newline (b ∷ rest) = elim (last_newline rest) [
  | some i ↦ some (suc i)
  | none ↦ if b == newline then some 0 else none
]

-- `seek` to `start`, and `read_exact` of `len` bytes.
abbrev read_exact : Bytes → ℕ → ℕ → Bytes
read_exact file start len = take len (drop start file)

pub record BackwardLines : Type 0 where
  pub remaining : ℕ
  pub buf : Bytes

-- The loop of `from_end`. Each round takes a byte off `scan_end` at least, so `scan_end` is fuel enough.
unfoldable pub find_end : ℕ → ℕ → Bytes → ℕ → Option BackwardLines
unfolding last_newline
find_end size zero file scan_end = none
find_end size (suc fuel) file scan_end =
    let start = scan_end - size in
    let earlier = find_end size fuel file start in
    if scan_end == 0 then none else elim (last_newline (read_exact file start (scan_end - start))) [
      | some i ↦ some (record { remaining = start + i; buf = [] })
      | none ↦ earlier
    ]

unfoldable pub from_end : Bytes → ℕ → Option BackwardLines
unfolding find_end
from_end file end = find_end backward_chunk end file end

-- `BackwardLines::open`
unfoldable pub open_lines : Option Bytes → Option BackwardLines
unfolding from_end
open_lines none = none
open_lines (some file) = from_end file (length file)

unfoldable pub open_at : Option Bytes → ℕ → Option BackwardLines
unfolding from_end
open_at none end = none
open_at (some file) end = from_end file (min end (length file))

-- The loop of `next_line`. Each round but the last reads a byte at least, so one more than `remaining`
-- is fuel enough.
unfoldable pub next_line_loop : ℕ → ℕ → Bytes → BackwardLines → BackwardLines × Option (ℕ × Bytes)
unfolding last_newline
next_line_loop size zero file s = (s, none)
next_line_loop size (suc fuel) file s = elim (last_newline s.buf) [
  | some i ↦ (record s { buf = take i s.buf }, some (s.remaining + i + 1, drop (i + 1) s.buf))
  | none ↦
      let len = min size s.remaining in
      let start = s.remaining - len in
      let earlier =
        next_line_loop size fuel file
          (record { remaining = start; buf = read_exact file start len ++ s.buf }) in
      if s.remaining == 0
      then (if is_empty s.buf then (s, none) else (record s { buf = [] }, some (0, s.buf)))
      else earlier
]

unfoldable pub next_line : Bytes → BackwardLines → BackwardLines × Option (ℕ × Bytes)
unfolding next_line_loop
next_line file s = next_line_loop backward_chunk (suc s.remaining) file s

module _ (json : Json) where
  -- The variables of `collect_backwards`'s loop; the newest entry comes first.
  pub record Walk : Type 0 where
    pub entries : List json.Value
    pub next_seq : ℕ
    pub next_offset : ℕ
    pub oldest_seq : ℕ
    pub oldest_start : ℕ
    pub has_older : Bool
    pub used : ℕ

  pub data WalkStep : Type 0 where
    passed : WalkStep
    stopped : WalkStep
    kept : json.Value → ℕ → ℕ → WalkStep

  abbrev or_zero : Option ℕ → ℕ
  or_zero none = 0
  or_zero (some n) = n

  -- An entry at or below the ceiling: it goes on the page, or ends it.
  unfoldable pub walk_entry : json.Value → ℕ → ℕ → Walk → WalkStep
  unfolding cap_output_for_wire
  walk_entry value seq count st =
      let value' = cap_output_for_wire json value in
      let size = length (json.to_string value') in
      if leb count (length st.entries)
      then stopped
      else if not (is_empty st.entries) && ltb max_page_bytes (st.used + size)
      then stopped
      else kept value' seq size

  -- One line. A line with no `seq` has the number 0, which is passed over.
  unfoldable pub walk_line : Bytes → ℕ → ℕ → Walk → WalkStep
  unfolding walk_entry from_utf8_lossy encode
  walk_line bytes ceiling count st =
      let text = from_utf8_lossy bytes in
      if is_blank_text (valid text) then passed else elim (json.from_slice (encode text)) [
        | none ↦ passed
        | some value ↦
            let seq = or_zero (seq_of json value) in
            if seq == 0 || ltb ceiling seq then passed else walk_entry value seq count st
      ]

  abbrev pub keep_entry : json.Value → ℕ → ℕ → ℕ → ℕ → Walk → Walk
  keep_entry value seq size start len st = record {
    entries = st.entries ++ value ∷ [];
    next_seq = if is_empty st.entries then seq else st.next_seq;
    next_offset = if is_empty st.entries then start + len + 1 else st.next_offset;
    oldest_seq = seq;
    oldest_start = start;
    has_older = st.has_older;
    used = st.used + size;
  }

  -- The loop. A line read takes a byte off what is left of the file and the buffer, so two more than
  -- these are fuel enough.
  unfoldable pub walk : ℕ → Bytes → ℕ → ℕ → BackwardLines → Walk → Walk
  unfolding next_line walk_line
  walk zero file ceiling count s st = st
  walk (suc fuel) file ceiling count s st =
      let (s', line) = next_line file s in
      elim line [
        | none ↦ st
        | some (start, bytes) ↦ elim (walk_line bytes ceiling count st) [
          | passed ↦ walk fuel file ceiling count s' st
          | stopped ↦ record st { has_older = true }
          | kept value seq size ↦
              walk fuel file ceiling count s' (keep_entry value seq size start (length bytes) st)
        ]
      ]

  abbrev start_walk : ℕ → Walk
  start_walk empty_offset = record {
    entries = [];
    next_seq = 0;
    next_offset = 0;
    oldest_seq = 0;
    oldest_start = empty_offset;
    has_older = false;
    used = 0;
  }

  abbrev walk_all : Bytes → Option BackwardLines → ℕ → ℕ → Walk → Walk
  walk_all file none ceiling count st = st
  walk_all file (some s) ceiling count st =
      walk (s.remaining + length s.buf + 2) file ceiling count s st

  unfoldable pub reverse_onto : List json.Value → List json.Value → List json.Value
  reverse_onto [] ys = ys
  reverse_onto (x ∷ xs) ys = reverse_onto xs (x ∷ ys)

  unfoldable pub collect_backwards : Bytes → Option BackwardLines → ℕ → ℕ → ℕ → Page json
  unfolding walk reverse_onto
  collect_backwards file lines ceiling count empty_offset =
      let st = walk_all file lines ceiling count (start_walk empty_offset) in
      if is_empty st.entries
      then record {
        entries = [];
        next_seq = st.next_seq;
        next_offset = st.next_offset;
        prev_seq = 0;
        prev_offset = empty_offset;
        has_older = false;
      }
      else record {
        entries = reverse_onto st.entries [];
        next_seq = st.next_seq;
        next_offset = st.next_offset;
        prev_seq = st.oldest_seq - 1;
        prev_offset = st.oldest_start;
        has_older = st.has_older;
      }

  abbrev file_bytes : Option Bytes → Bytes
  file_bytes none = []
  file_bytes (some file) = file

  unfoldable pub read_tail : Option Bytes → ℕ → Page json
  unfolding open_lines collect_backwards
  read_tail file count = collect_backwards (file_bytes file) (open_lines file) (2 ^ 64 - 1) count 0

  unfoldable pub offset_resumes_at_seq : Option Bytes → ℕ → ℕ → Option ℕ
  unfolding resumes_at_seq
  offset_resumes_at_seq none offset cursor_seq = none
  offset_resumes_at_seq (some file) offset cursor_seq =
      if leb (length file) offset
      then none
      else if resumes_at_seq json file offset cursor_seq
      then some offset
      else none

  abbrev trusted_offset : Option Bytes → PageCursor → Option ℕ → Option ℕ
  trusted_offset file cursor none = none
  trusted_offset file cursor (some offset) = offset_resumes_at_seq file offset cursor.seq

  abbrev read_older : Option Bytes → PageCursor → ℕ → Option ℕ → Page json
  read_older file cursor limit none =
      collect_backwards (file_bytes file) (open_lines file) cursor.seq limit 0
  read_older file cursor limit (some offset) =
      collect_backwards (file_bytes file) (open_at file offset) cursor.seq limit offset

  unfoldable pub read_before : Option Bytes → PageCursor → ℕ → Page json
  unfolding open_lines open_at collect_backwards offset_resumes_at_seq
  read_before file cursor limit =
      read_older file cursor limit (trusted_offset file cursor cursor.offset)
