-- ===== src/SessionHistory/Page.antt =====
-- src/session_history.rs: pages of the record, read forward.
pub mod Progress
pub mod Whole
pub mod Seek
pub mod Resumed
use mobux.External.{Json}
use mobux.Prelude.{
  ℕ, zero, suc, ◌+◌, ◌-◌, ◌%◌, ◌^◌, Bool, true, false, ◌&&◌, not, List, [], ◌∷◌, ◌++◌, Option, none,
  some, ltb, leb, ◌==◌, if◌then◌else◌, length, drop, is_empty,
}
use mobux.SessionHistory.Cursor.{PageCursor}
use mobux.SessionHistory.Entry.{is_char_boundary}
use mobux.Strings.{newline}
use mobux.SessionHistory.Store.{seq_of}
use mobux.Utf8.{Bytes}

abbrev pub max_wire_output_bytes : ℕ
max_wire_output_bytes = 16384

abbrev pub max_page_bytes : ℕ
max_page_bytes = 524288

-- The complete lines, each with its newline; a last line without one is not among them.
unfoldable pub raw_lines : Bytes → List Bytes
raw_lines [] = []
raw_lines (b ∷ rest) =
    let lines = raw_lines rest in
    if b == newline then (b ∷ []) ∷ lines else elim lines [ [] ↦ [] | l ∷ ls ↦ (b ∷ l) ∷ ls ]

-- The loop of `cap_output_for_wire`; `fuel` is the number of bytes from `dropped` on, behind which
-- there is a boundary.
unfoldable pub ceil_from : ℕ → Bytes → ℕ → ℕ
unfolding is_char_boundary
ceil_from zero output dropped = dropped
ceil_from (suc fuel) output dropped =
    let later = ceil_from fuel output (dropped + 1) in
    if is_char_boundary output dropped then dropped else later

abbrev output_key : Bytes
output_key = b'o' ∷ b'u' ∷ b't' ∷ b'p' ∷ b'u' ∷ b't' ∷ []

abbrev truncated_key : Bytes
truncated_key =
    b'o' ∷ b'u' ∷ b't' ∷ b'p' ∷ b'u' ∷ b't' ∷ b'T' ∷ b'r' ∷ b'u' ∷ b'n' ∷ b'c' ∷ b'a' ∷ b't' ∷ b'e'
    ∷ b'd' ∷ b'B' ∷ b'y' ∷ b't' ∷ b'e' ∷ b's' ∷ []

module _ (json : Json) where
  abbrev pub Value : Type 0
  Value = json.Value

  unfoldable pub cap_output : Bytes → Value → Value
  unfolding ceil_from
  cap_output output value =
      if leb (length output) max_wire_output_bytes
      then value
      else (let dropped =
            ceil_from max_wire_output_bytes output (length output - max_wire_output_bytes) in
          let value' = json.insert value output_key (json.of_str (drop dropped output)) in
          json.insert value' truncated_key (json.of_u64 dropped))

  unfoldable pub cap_output_for_wire : Value → Value
  unfolding cap_output
  cap_output_for_wire value = elim (json.get value output_key) [
    | none ↦ value
    | some o ↦ elim (json.as_str o) [ none ↦ value | some output ↦ cap_output output value ]
  ]

  pub record Page : Type 0 where
    pub entries : List Value
    pub next_seq : ℕ
    pub next_offset : ℕ
    pub prev_seq : ℕ
    pub prev_offset : ℕ
    pub has_older : Bool

  -- The variables of `scan_forward`'s loop.
  pub record Scan : Type 0 where
    pub entries : List Value
    pub next_seq : ℕ
    pub next_offset : ℕ
    pub prev_seq : ℕ
    pub prev_offset : ℕ
    pub used : ℕ
    pub position : ℕ

  abbrev pub or_zero : Option ℕ → ℕ
  or_zero none = 0
  or_zero (some n) = n

  -- A line that is no entry of the page: the offset moves past it.
  abbrev pub skip_line : ℕ → Scan → Scan
  skip_line end st = record st { next_offset = end; position = end }

  -- The end of a round, with the entry on the page.
  abbrev pub take_entry : Value → ℕ → ℕ → ℕ → Scan → Scan
  take_entry value seq size end st = record {
    entries = st.entries ++ value ∷ [];
    next_seq = seq;
    next_offset = end;
    prev_seq = if is_empty st.entries then seq - 1 else st.prev_seq;
    prev_offset = if is_empty st.entries then st.position else st.prev_offset;
    used = st.used + size;
    position = end;
  }

  -- What a round does with its line.
  pub data Round : Type 0 where
    skipped : Round
    full : Round
    taken : Value → ℕ → ℕ → Round

  -- An entry of the page, unless the page is full.
  unfoldable pub admit : Value → ℕ → Scan → Round
  admit value seq st =
      let size = length (json.to_string value) in
      if not (is_empty st.entries) && ltb max_page_bytes (st.used + size)
      then full
      else taken value seq size

  unfoldable pub round : Bytes → ℕ → Scan → Round
  unfolding cap_output_for_wire admit
  round line floor st = elim (json.from_slice line) [
    | none ↦ skipped
    | some value ↦
        let seq = or_zero (seq_of json value) in
        if leb seq floor then skipped else admit (cap_output_for_wire value) seq st
  ]

  -- The loop of `scan_forward`, over the lines that are still to be read.
  unfoldable pub scan_lines : ℕ → ℕ → List Bytes → Scan → Scan
  unfolding round
  scan_lines floor limit [] st = st
  scan_lines floor limit (line ∷ lines) st =
      let end = st.position + length line in
      elim (round line floor st) [
        | skipped ↦ scan_lines floor limit lines (skip_line end st)
        | full ↦ st
        | taken value seq size ↦
            let st' = take_entry value seq size end st in
            if leb limit (length st'.entries) then st' else scan_lines floor limit lines st'
      ]

  abbrev pub start_scan : ℕ → ℕ → Scan
  start_scan from_offset floor = record {
    entries = [];
    next_seq = floor;
    next_offset = from_offset;
    prev_seq = floor;
    prev_offset = from_offset;
    used = 0;
    position = from_offset;
  }

  unfoldable pub scan_forward : Bytes → ℕ → ℕ → ℕ → Page
  unfolding raw_lines scan_lines
  scan_forward file from_offset floor limit =
      let st =
        scan_lines floor limit (raw_lines (drop from_offset file)) (start_scan from_offset floor) in
      record {
        entries = st.entries;
        next_seq = st.next_seq;
        next_offset = st.next_offset;
        prev_seq = st.prev_seq;
        prev_offset = st.prev_offset;
        has_older = ltb 0 st.prev_offset;
      }

  abbrev is_seq : ℕ → Option ℕ → Bool
  is_seq seq none = false
  is_seq seq (some n) = n == seq

  unfoldable pub resumes_at_seq : Bytes → ℕ → ℕ → Bool
  unfolding raw_lines
  resumes_at_seq file offset cursor_seq = elim (raw_lines (drop offset file)) [
    | [] ↦ false
    | line ∷ _ ↦ elim (json.from_slice line) [
      | none ↦ false
      | some value ↦ is_seq ((cursor_seq + 1) % 2 ^ 64) (seq_of json value)
    ]
  ]

  abbrev zero_page : Page
  zero_page = record {
    entries = [];
    next_seq = 0;
    next_offset = 0;
    prev_seq = 0;
    prev_offset = 0;
    has_older = false;
  }

  -- The page at the end of the file: nothing new is there.
  abbrev pub end_page : ℕ → ℕ → Page
  end_page floor offset = record {
    entries = [];
    next_seq = floor;
    next_offset = offset;
    prev_seq = floor;
    prev_offset = offset;
    has_older = ltb 0 offset;
  }

  abbrev pub floor_of : Option PageCursor → ℕ
  floor_of none = 0
  floor_of (some c) = c.seq

  abbrev pub offset_of : Option PageCursor → Option ℕ
  offset_of none = none
  offset_of (some c) = c.offset

  unfoldable pub read_from : Bytes → Option ℕ → ℕ → ℕ → Page
  unfolding scan_forward resumes_at_seq
  read_from file none floor limit = scan_forward file 0 floor limit
  read_from file (some offset) floor limit =
      if offset == length file
      then end_page floor offset
      else if ltb offset (length file) && resumes_at_seq file offset floor
      then scan_forward file offset floor limit
      else scan_forward file 0 floor limit

  unfoldable pub read_page : Option Bytes → Option PageCursor → ℕ → Page
  unfolding read_from
  read_page none cursor limit = zero_page
  read_page (some file) cursor limit =
      if is_empty file then zero_page else read_from file (offset_of cursor) (floor_of cursor) limit
