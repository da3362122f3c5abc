-- ===== src/SessionHistory/Segmenter/Timer.antt =====
-- The timer of the screen snapshots.
use mobux.External.{Vte, Vt100}
use mobux.Prelude.{
  ℕ, ◌≡◌, refl, inl, inr, false, not, ◌&&◌, is_empty, List, Option, none, some, arith, Bool-cases,
  Option-cases,
}
use mobux.ScreenModel.Model.{ScreenModel, snapshot}
use mobux.SessionHistory.Segmenter.Pieces.{take_snapshot, screen_is_dirty, is_due}
use mobux.SessionHistory.Segmenter.{
  Segmenter, record_lines, record_option, record_snapshot, note_dirty, snapshot_due_at, tick,
}
use mobux.Utf8.{Text}

module _ {vt : Vt100} where
  snapshot-clean : (m : ScreenModel vt) → (snapshot m).0.dirty ≡ false
  unfolding snapshot
  snapshot-clean m = elim (Bool-cases m.dirty) [
    | inl e ↦ ground (arith, e)
    | inr e ↦ ground (arith, e)
  ]

  take_snapshot-clean :
      (screen : Option (ScreenModel vt)) → screen_is_dirty (take_snapshot screen).0 ≡ false
  take_snapshot-clean none = refl
  take_snapshot-clean (some m) = snapshot-clean m

module _ {vte : Vte} {vt : Vt100} where
  record_lines-screen :
      (ls : List Text) (now_ms : ℕ) (s : Segmenter vte vt)
      → (record_lines ls now_ms s).0.screen ≡ s.screen
  unfolding record_lines
  record_lines-screen ls now_ms s = elim (Option-cases s.open_command) [
    | inr (o, e) ↦ rw (e, record_lines) refl
    | inl e ↦
        rw (e, record_lines)
          (elim (Bool-cases (not s.seen_marker && not (is_empty s.pending))) [
            | inl t ↦ rw t refl
            | inr t ↦ rw t refl
          ])
  ]

  record_option-screen :
      (ls : Option (List Text)) (now_ms : ℕ) (s : Segmenter vte vt)
      → (record_option ls now_ms s).0.screen ≡ s.screen
  record_option-screen none now_ms s = refl
  record_option-screen (some ls) now_ms s = record_lines-screen ls now_ms s

  record_snapshot-dirty_since :
      (now_ms : ℕ) (s : Segmenter vte vt) → (record_snapshot now_ms s).0.dirty_since_ms ≡ none
  unfolding record_snapshot note_dirty
  record_snapshot-dirty_since now_ms s =
      rw
        (record_option-screen (take_snapshot s.screen).1 now_ms
          (record s { screen = (take_snapshot s.screen).0 }))
        (rw (take_snapshot-clean s.screen) refl)

  -- After a tick no snapshot is due at the tick's time: the tick took it, or none was due.
  pub tick-not_due :
      (now_ms : ℕ) (s : Segmenter vte vt)
      → is_due (snapshot_due_at (tick now_ms s).0) now_ms ≡ false
  unfolding tick snapshot_due_at
  tick-not_due now_ms s = elim (Bool-cases (is_due (snapshot_due_at s) now_ms)) [
    | inl due ↦ rw due (rw (record_snapshot-dirty_since now_ms s) refl)
    | inr early ↦ rw early early
  ]
