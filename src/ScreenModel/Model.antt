-- ===== src/ScreenModel/Model.antt =====
-- src/screen_model.rs: `ScreenModel`. A method that changes the model returns the new one; the `drawn`
-- that it pushes to is passed in and returned. `u16` sums that saturate are written out.
pub mod Held
pub mod Drawing
use mobux.External.{Vt100}
use mobux.Prelude.{
  ℕ, ◌+◌, ◌-◌, min, max, Bool, true, false, ◌&&◌, ◌||◌, not, List, [], ◌∷◌, ◌++◌, Option, none,
  some, ltb, leb, ◌==◌, within, if◌then◌else◌, length, take, drop, is_empty, all, map,
}
use mobux.ScreenModel.Lead.{
  Lead, len, param, eq_bool, is_csi, is_alt_switch, is_esc, parse_lead, held_tail_start,
}
use mobux.ScreenModel.NewRows.{new_rows}
use mobux.Utf8.{Bytes, Text, trim_end}

abbrev pub scrolled_off_cap : ℕ
scrolled_off_cap = 500

pub data Drawn : Type 0 where
  normal : Bytes → Drawn
  lines : List Text → Drawn

pub record Region : Type 0 where
  pub top : ℕ
  pub bottom : ℕ

-- `Region::full`
unfoldable pub full : ℕ → Region
full rows = record { top = 0; bottom = rows - 1 }

-- `regions` holds the normal grid's region, then the alternate grid's.
pub record ScreenModel (vt : Vt100) : Type 0 where
  pub parser : vt.Parser
  pub held : Bytes
  pub dirty : Bool
  pub scrolled_off : List Text
  pub previous : List Text
  pub regions : Region × Region

abbrev pub saturating_add : ℕ → ℕ → ℕ
saturating_add a b = min (a + b) 65535

-- `Vec<Drawn>` with `run` added to its last piece, if that is normal bytes.
unfoldable pub push_normal : List Drawn → Bytes → List Drawn
push_normal [] run = normal run ∷ []
push_normal (normal bytes ∷ []) run = normal (bytes ++ run) ∷ []
push_normal (lines ls ∷ []) run = lines ls ∷ normal run ∷ []
push_normal (x ∷ y ∷ drawn) run = x ∷ push_normal (y ∷ drawn) run

abbrev is_feed : ℕ → Bool
is_feed b = b == b'\n' || b == 0x0B || b == 0x0C

abbrev starts_with_esc : Bytes → Bool
starts_with_esc [] = true
starts_with_esc (b ∷ _) = b == 0x1B

abbrev cons_run : ℕ → List Bytes → List Bytes
cons_run b [] = (b ∷ []) ∷ []
cons_run b (run ∷ runs) = (b ∷ run) ∷ runs

-- The runs of the loop in `feed`: each but the first begins at an ESC, and goes on to the next.
unfoldable pub split_runs : Bytes → List Bytes
split_runs [] = []
split_runs (b ∷ rest) =
    let runs = split_runs rest in if starts_with_esc rest then (b ∷ []) ∷ runs else cons_run b runs

-- What `resize` does to one region.
unfoldable pub resize_region : ℕ → ℕ → Region → Region
resize_region old_rows rows r =
    let stretched = if r.bottom + 1 == old_rows then rows - 1 else r.bottom in
    let bottom = min stretched (rows - 1) in
    record { top = if ltb bottom r.top then 0 else r.top; bottom = bottom }

-- `new_frame`: the escape clears the screen, or enters or leaves the alternate one.
unfoldable pub is_new_frame : Lead → Bool
unfolding is_alt_switch is_csi param
is_new_frame lead =
    is_alt_switch lead b'h'
    || is_alt_switch lead b'l'
    || is_csi lead false b'J' && (param lead 0 == 2 || param lead 0 == 3)

module _ {vt : Vt100} where
  unfoldable pub new : ℕ → ℕ → ScreenModel vt
  unfolding full
  new rows cols =
      let r = max rows 1 in
      let c = max cols 1 in
      record {
        parser = vt.new r c;
        held = [];
        dirty = false;
        scrolled_off = [];
        previous = [];
        regions = (full r, full r);
      }

  unfoldable pub size : ScreenModel vt → ℕ × ℕ
  size m = vt.size m.parser

  unfoldable pub alternate : ScreenModel vt → Bool
  alternate m = vt.alternate_screen m.parser

  -- The visible rows, each without the whitespace at its end.
  abbrev pub visible : ScreenModel vt → List Text
  visible m = map trim_end (vt.rows m.parser (vt.size m.parser).1)

  -- What a snapshot compares: the rows that scrolled off, then the screen.
  unfoldable pub candidate : ScreenModel vt → List Text
  unfolding alternate
  candidate m = if alternate m then m.scrolled_off ++ visible m else m.scrolled_off

  unfoldable pub snapshot : ScreenModel vt → ScreenModel vt × Option (List Text)
  unfolding candidate all
  snapshot m =
      if not m.dirty
      then (m, none)
      else (let rows = candidate m in
          let m' = record m { dirty = false; scrolled_off = [] } in
          if all is_empty rows
          then (m', none)
          else (let fresh = new_rows m.previous rows in
              if is_empty fresh then (m', none) else (record m' { previous = rows }, some fresh)))

  unfoldable pub resize : ScreenModel vt → ℕ → ℕ → ScreenModel vt × Option (List Text)
  unfolding snapshot size resize_region
  resize m rows cols =
      let r = max rows 1 in
      let c = max cols 1 in
      let (old_rows, old_cols) = size m in
      if r == old_rows && c == old_cols
      then (m, none)
      else (let (m', fresh) = snapshot m in
          let (normal_grid, alternate_grid) = m'.regions in
          (
            record m' {
              parser = vt.set_size m'.parser r c;
              regions =
                  (resize_region old_rows r normal_grid, resize_region old_rows r alternate_grid);
            },
            fresh,
          ))

  unfoldable pub process : ScreenModel vt → Bytes → ScreenModel vt
  process m bytes = record m { parser = vt.process m.parser bytes }

  unfoldable pub assume_alternate_screen : ScreenModel vt → ScreenModel vt
  unfolding alternate process
  assume_alternate_screen m =
      if alternate m
      then m
      else process m (0x1B ∷ b'[' ∷ b'?' ∷ b'1' ∷ b'0' ∷ b'4' ∷ b'9' ∷ b'h' ∷ [])

  unfoldable pub push_snapshot : ScreenModel vt → List Drawn → ScreenModel vt × List Drawn
  unfolding snapshot
  push_snapshot m drawn =
      let (m', fresh) = snapshot m in
      elim fresh [ none ↦ (m', drawn) | some rows ↦ (m', drawn ++ (lines rows ∷ [])) ]

  unfoldable pub capture_rows : ScreenModel vt → ℕ → ℕ → ScreenModel vt
  capture_rows m start end = record m {
    scrolled_off = m.scrolled_off ++ take (end - start + 1) (drop start (visible m));
    dirty = true;
  }

  unfoldable pub capture_scroll_up : ScreenModel vt → ℕ → ScreenModel vt
  unfolding capture_rows
  capture_scroll_up m count =
      let region = m.regions.1 in
      capture_rows m region.top (min region.bottom (saturating_add region.top (count - 1)))

  unfoldable pub capture_lead_scroll : ScreenModel vt → Lead → ScreenModel vt
  unfolding capture_rows capture_scroll_up is_csi is_esc param
  capture_lead_scroll m lead =
      let region = m.regions.1 in
      let row = (vt.cursor_position m.parser).0 in
      let count = max (param lead 0) 1 in
      if is_csi lead false b'S'
      then capture_scroll_up m count
      else if is_csi lead false b'M' && within region.top region.bottom row
      then capture_rows m row (min region.bottom (saturating_add row (count - 1)))
      else if is_esc lead b'M' && row == region.top
      then capture_rows m region.bottom region.bottom
      else if is_csi lead false b'T'
      then capture_rows m (max region.top (region.bottom + 1 - count)) region.bottom
      else if is_csi lead false b'L' && leb row region.bottom
      then capture_rows m (max row (region.bottom + 1 - count)) region.bottom
      else m

  -- The alternate grid scrolls when its cursor is on the region's last row.
  unfoldable pub before_feed : ScreenModel vt → ScreenModel vt
  unfolding alternate capture_scroll_up
  before_feed m =
      if alternate m && (vt.cursor_position m.parser).0 == (m.regions.1).bottom
      then capture_scroll_up m 1
      else m

  -- `process_text`; `before` holds the bytes since the last line feed.
  unfoldable pub process_text_from : ScreenModel vt → Bytes → Bytes → ScreenModel vt
  unfolding process before_feed
  process_text_from m before [] = process m before
  process_text_from m before (b ∷ rest) = elim (is_feed b) [
    | true ↦ process_text_from (process (before_feed (process m before)) (b ∷ [])) [] rest
    | false ↦ process_text_from m (before ++ (b ∷ [])) rest
  ]

  unfoldable pub process_text : ScreenModel vt → Bytes → ScreenModel vt
  unfolding process_text_from
  process_text m text = process_text_from m [] text

  abbrev set_region : ScreenModel vt → Region → ScreenModel vt
  set_region m r =
      let (normal_grid, alternate_grid) = m.regions in
      record m { regions = if alternate m then (normal_grid, r) else (r, alternate_grid) }

  unfoldable pub track_region : ScreenModel vt → Lead → ScreenModel vt
  unfolding size alternate full is_csi is_esc param
  track_region m lead =
      let rows = (size m).0 in
      if is_esc lead b'c'
      then record m { regions = (full rows, full rows) }
      else if is_csi lead true b'h' && param lead 0 == 1049
      then record m { regions = ((m.regions).0, full rows) }
      else if not (is_csi lead false b'r')
      then m
      else (let top = max (param lead 0) 1 - 1 in
          let last = if param lead 1 == 0 then rows else param lead 1 in
          let bottom = min (last - 1) (rows - 1) in
          set_region m
            (if ltb top bottom then record { top = top; bottom = bottom } else full rows))

  -- `draw_run` up to `track_region`: the lead escape is drawn.
  unfoldable pub draw_lead : ScreenModel vt → Lead → Bool → Bytes → ScreenModel vt
  unfolding process_text capture_lead_scroll process is_esc
  draw_lead m lead was_alternate bytes =
      if is_esc lead b'D'
      then process_text m (b'\n' ∷ [])
      else if is_esc lead b'E'
      then process_text m (b'\r' ∷ b'\n' ∷ [])
      else process (if was_alternate then capture_lead_scroll m lead else m) bytes

  -- What was drawn on the alternate screen is captured before the lead escape clears or leaves it.
  unfoldable pub before_run : ScreenModel vt → Lead → List Drawn → ScreenModel vt × List Drawn
  unfolding alternate is_new_frame push_snapshot
  before_run m lead drawn =
      if alternate m && is_new_frame lead then push_snapshot m drawn else (m, drawn)

  -- The bytes of a run go to the parser.
  unfoldable pub run_through : ScreenModel vt → Lead → Bool → Bytes → ScreenModel vt
  unfolding draw_lead track_region process_text alternate len
  run_through m lead was_alternate run =
      let lead_len = min (len lead) (length run) in
      let m2 = track_region (draw_lead m lead was_alternate (take lead_len run)) lead in
      let m3 = process_text m2 (drop lead_len run) in
      if eq_bool (alternate m3) was_alternate then m3 else record m3 { previous = [] }

  -- The end of `draw_run`: the run comes out, or the alternate screen is dirty.
  unfoldable pub finish_run : ScreenModel vt → Bytes → List Drawn → ScreenModel vt × List Drawn
  unfolding alternate push_snapshot push_normal
  finish_run m run drawn =
      if alternate m
      then (let m' = record m { dirty = true } in
          if leb scrolled_off_cap (length m'.scrolled_off)
          then push_snapshot m' drawn
          else (m', drawn))
      else (m, push_normal drawn run)

  unfoldable pub draw_run : ScreenModel vt → Bytes → List Drawn → ScreenModel vt × List Drawn
  unfolding before_run run_through finish_run parse_lead alternate
  draw_run m run drawn =
      let lead = parse_lead run in
      let (m', drawn') = before_run m lead drawn in
      finish_run (run_through m' lead (alternate m) run) run drawn'

  unfoldable pub draw_runs : ScreenModel vt → List Bytes → List Drawn → ScreenModel vt × List Drawn
  unfolding draw_run
  draw_runs m [] drawn = (m, drawn)
  draw_runs m (run ∷ runs) drawn =
      let (m', drawn') = draw_run m run drawn in draw_runs m' runs drawn'

  unfoldable pub feed : ScreenModel vt → Bytes → ScreenModel vt × List Drawn
  unfolding draw_runs split_runs held_tail_start
  feed m bytes =
      let buf = m.held ++ bytes in
      let keep = held_tail_start buf in
      draw_runs (record m { held = drop keep buf }) (split_runs (take keep buf)) []

  unfoldable pub release_held : ScreenModel vt → ScreenModel vt × List Drawn
  unfolding draw_run
  release_held m =
      let m' = record m { held = [] } in if is_empty m.held then (m', []) else draw_run m' m.held []
