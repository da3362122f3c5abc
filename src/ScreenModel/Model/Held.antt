-- ===== src/ScreenModel/Model/Held.antt =====
-- Drawing leaves alone the bytes that are held back.
use mobux.External.{Vt100}
use mobux.Prelude.{
  ◌≡◌, refl, ◌∙◌, Bool, true, List, [], ◌∷◌, ◌++◌, arith, inl, inr, length, take, drop, min,
  Bool-cases, Option-cases,
}
use mobux.ScreenModel.Lead.{Lead, parse_lead, len, eq_bool}
use mobux.ScreenModel.Model.{
  ScreenModel, Drawn, is_feed, alternate, snapshot, push_snapshot, process, process_text,
  process_text_from, before_feed, capture_rows, capture_scroll_up, capture_lead_scroll,
  track_region, draw_lead, before_run, run_through, finish_run, draw_run, draw_runs,
}
use mobux.Utf8.{Bytes}

module _ {vt : Vt100} where
  snapshot-held : (m : ScreenModel vt) → (snapshot m).0.held ≡ m.held
  unfolding snapshot
  snapshot-held m = ground arith

  push_snapshot-held :
      (m : ScreenModel vt) (drawn : List Drawn) → (push_snapshot m drawn).0.held ≡ m.held
  unfolding push_snapshot
  push_snapshot-held m drawn = elim (Option-cases (snapshot m).1) [
    | inl e ↦ rw (e, push_snapshot) (snapshot-held m)
    | inr (ls, e) ↦ rw (e, push_snapshot) (snapshot-held m)
  ]

  before_feed-held : (m : ScreenModel vt) → (before_feed m).held ≡ m.held
  unfolding before_feed capture_scroll_up capture_rows
  before_feed-held m = ground arith

  process_text_from-held :
      (m : ScreenModel vt) (before rest : Bytes) → (process_text_from m before rest).held ≡ m.held
  unfolding process_text_from process
  process_text_from-held m before [] = refl
  process_text_from-held m before (b ∷ rest) = elim (Bool-cases (is_feed b)) [
    | inl e ↦
        rw (e, process_text_from)
          (process_text_from-held (process (before_feed (process m before)) (b ∷ [])) [] rest
            ∙ before_feed-held (process m before))
    | inr e ↦ rw (e, process_text_from) (process_text_from-held m (before ++ b ∷ []) rest)
  ]

  process_text-held : (m : ScreenModel vt) (text : Bytes) → (process_text m text).held ≡ m.held
  unfolding process_text
  process_text-held m text = process_text_from-held m [] text

  capture_lead_scroll-held :
      (m : ScreenModel vt) (lead : Lead) → (capture_lead_scroll m lead).held ≡ m.held
  unfolding capture_lead_scroll capture_scroll_up capture_rows
  capture_lead_scroll-held m lead = ground arith

  draw_lead-held :
      (m : ScreenModel vt) (lead : Lead) (was : Bool) (bytes : Bytes)
      → (draw_lead m lead was bytes).held ≡ m.held
  unfolding draw_lead process
  draw_lead-held m lead was bytes = ground (
    arith,
    process_text-held m (b'\n' ∷ []),
    process_text-held m (b'\r' ∷ b'\n' ∷ []),
    capture_lead_scroll-held m lead,
  )

  track_region-held : (m : ScreenModel vt) (lead : Lead) → (track_region m lead).held ≡ m.held
  unfolding track_region
  track_region-held m lead = ground arith

  run_through-held :
      (m : ScreenModel vt) (lead : Lead) (was : Bool) (run : Bytes)
      → (run_through m lead was run).held ≡ m.held
  unfolding run_through
  run_through-held m lead was run =
      let n = min (len lead) (length run) in
      let drawn = draw_lead m lead was (take n run) in
      let tracked = track_region drawn lead in
      let same =
        process_text-held tracked (drop n run)
        ∙ track_region-held drawn lead
        ∙ draw_lead-held m lead was (take n run) in
      elim (Bool-cases (eq_bool (alternate (process_text tracked (drop n run))) was)) [
        | inl e ↦ rw e same
        | inr e ↦ rw e same
      ]

  finish_run-held :
      (m : ScreenModel vt) (run : Bytes) (drawn : List Drawn)
      → (finish_run m run drawn).0.held ≡ m.held
  unfolding finish_run
  finish_run-held m run drawn = ground (arith, push_snapshot-held (record m { dirty = true }) drawn)

  before_run-held :
      (m : ScreenModel vt) (lead : Lead) (drawn : List Drawn)
      → (before_run m lead drawn).0.held ≡ m.held
  unfolding before_run
  before_run-held m lead drawn = ground (arith, push_snapshot-held m drawn)

  draw_run-held :
      (m : ScreenModel vt) (run : Bytes) (drawn : List Drawn)
      → (draw_run m run drawn).0.held ≡ m.held
  unfolding draw_run
  draw_run-held m run drawn =
      let lead = parse_lead run in
      let (m', drawn') = before_run m lead drawn in
      finish_run-held (run_through m' lead (alternate m) run) run drawn'
      ∙ run_through-held m' lead (alternate m) run
      ∙ before_run-held m lead drawn

  pub draw_runs-held :
      (m : ScreenModel vt) (runs : List Bytes) (drawn : List Drawn)
      → (draw_runs m runs drawn).0.held ≡ m.held
  unfolding draw_runs
  draw_runs-held m [] drawn = refl
  draw_runs-held m (run ∷ runs) drawn =
      let (m', drawn') = draw_run m run drawn in
      draw_runs-held m' runs drawn' ∙ draw_run-held m run drawn
