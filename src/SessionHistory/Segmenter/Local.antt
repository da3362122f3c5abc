-- ===== src/SessionHistory/Segmenter/Local.antt =====
-- Recording bytes and markers neither reads nor writes the scan buffer, and leaves a client's stream
-- without a screen model.
use mobux.External.{Vte, Vt100}
use mobux.Prelude.{
  ℕ, ◌≡◌, refl, ap, inl, inr, not, ◌&&◌, is_empty, List, [], ◌∷◌, Option, none, some, Bool-cases,
  Option-cases, if◌then◌else◌,
}
use mobux.ScreenModel.Model.{Drawn, normal, lines}
use mobux.SessionHistory.Marker.{Marker, marker_a, marker_b, marker_c, marker_d}
use mobux.SessionHistory.Segmenter.Pieces.{Events, take_snapshot, feed_screen}
use mobux.SessionHistory.Segmenter.{
  Segmenter, ◌then◌, note_dirty, record_bytes, record_lines, record_drawn, record_snapshot,
  record_option, consume_bytes, see_marker, apply_marker, handle_marker, handle_markers,
}
use mobux.TerminalCursor.{feed}
use mobux.Utf8.{Bytes, Text}

abbrev pub Act : Vte → Vt100 → Type 0
Act vte vt = Segmenter vte vt → Segmenter vte vt × Events

module _ {vte : Vte} {vt : Vt100} where
  -- The same segmenter with another scan buffer.
  abbrev pub with_buf : Segmenter vte vt → Bytes → Segmenter vte vt
  with_buf s buf = record s { scan_buf = buf }

  pub record IsLocal (f : Act vte vt) : Type 0 where
    pub ignores :
        (s : Segmenter vte vt) (buf : Bytes) → f (with_buf s buf) ≡ (with_buf (f s).0 buf, (f s).1)
    pub client : (s : Segmenter vte vt) → s.screen ≡ none → (f s).0.screen ≡ none

  then-IsLocal : {f g : Act vte vt} → IsLocal f → IsLocal g → IsLocal (f then g)
  then-IsLocal {f} {g} a b = record {
    ignores = λ s buf. rw (a.ignores s buf) (rw (b.ignores (f s).0 buf) refl);
    client = λ s e. b.client (f s).0 (a.client s e);
  }

  record_bytes-IsLocal : (bytes : Bytes) (now_ms : ℕ) → IsLocal (record_bytes bytes now_ms)
  record_bytes-IsLocal bytes now_ms = record {
    ignores = λ s buf. elim (Option-cases s.open_command) [
      | inr (o, e) ↦ unfold record_bytes in rw (e, record_bytes) refl
      | inl e ↦ unfold record_bytes in rw (e, record_bytes) refl
    ];
    client = λ s c. elim (Option-cases s.open_command) [
      | inr (o, e) ↦ unfold record_bytes in rw (e, record_bytes) c
      | inl e ↦ unfold record_bytes in rw (e, record_bytes) c
    ];
  }

  record_lines-IsLocal : (ls : List Text) (now_ms : ℕ) → IsLocal (record_lines ls now_ms)
  record_lines-IsLocal ls now_ms = record {
    ignores = λ s buf. elim (Option-cases s.open_command) [
      | inr (o, e) ↦ unfold record_lines in rw (e, record_lines) refl
      | inl e ↦
          unfold record_lines in
          rw (e, record_lines)
            (elim (Bool-cases (not s.seen_marker && not (is_empty s.pending))) [
              | inl t ↦ rw t refl
              | inr t ↦ rw t refl
            ])
    ];
    client = λ s c. elim (Option-cases s.open_command) [
      | inr (o, e) ↦ unfold record_lines in rw (e, record_lines) c
      | inl e ↦
          unfold record_lines in
          rw (e, record_lines)
            (elim (Bool-cases (not s.seen_marker && not (is_empty s.pending))) [
              | inl t ↦ rw t c
              | inr t ↦ rw t c
            ])
    ];
  }

  record_drawn-IsLocal : (drawn : List Drawn) (now_ms : ℕ) → IsLocal (record_drawn drawn now_ms)
  unfolding record_drawn
  record_drawn-IsLocal [] now_ms = record { ignores = λ s buf. refl; client = λ s c. c }
  record_drawn-IsLocal (normal bytes ∷ drawn) now_ms =
      then-IsLocal (record_bytes-IsLocal bytes now_ms) (record_drawn-IsLocal drawn now_ms)
  record_drawn-IsLocal (lines ls ∷ drawn) now_ms =
      then-IsLocal (record_lines-IsLocal ls now_ms) (record_drawn-IsLocal drawn now_ms)

  record_option-IsLocal : (ls : Option (List Text)) (now_ms : ℕ) → IsLocal (record_option ls now_ms)
  record_option-IsLocal none now_ms = record { ignores = λ s buf. refl; client = λ s c. c }
  record_option-IsLocal (some ls) now_ms = record_lines-IsLocal ls now_ms

  pub consume_bytes-IsLocal : (bytes : Bytes) (now_ms : ℕ) → IsLocal (consume_bytes bytes now_ms)
  unfolding consume_bytes
  consume_bytes-IsLocal bytes now_ms = record {
    ignores = λ s buf.
        (record_drawn-IsLocal (feed_screen bytes s.screen).1 now_ms).ignores
          (record s { cursor = feed s.cursor bytes; screen = (feed_screen bytes s.screen).0 }) buf;
    client = λ s c.
        (record_drawn-IsLocal (feed_screen bytes s.screen).1 now_ms).client
          (record s { cursor = feed s.cursor bytes; screen = (feed_screen bytes s.screen).0 })
          (rw c refl);
  }

  record_snapshot-IsLocal : (now_ms : ℕ) → IsLocal (record_snapshot now_ms)
  unfolding record_snapshot note_dirty
  record_snapshot-IsLocal now_ms = record {
    ignores = λ s buf.
        rw
          ((record_option-IsLocal (take_snapshot s.screen).1 now_ms).ignores
            (record s { screen = (take_snapshot s.screen).0 }) buf)
          refl;
    client = λ s c.
        (record_option-IsLocal (take_snapshot s.screen).1 now_ms).client
          (record s { screen = (take_snapshot s.screen).0 }) (rw c refl);
  }

  apply_marker-IsLocal : (m : Marker) (now_ms : ℕ) → IsLocal (apply_marker m now_ms)
  unfolding apply_marker
  apply_marker-IsLocal marker_a now_ms = record { ignores = λ s buf. refl; client = λ s c. c }
  apply_marker-IsLocal marker_b now_ms = record { ignores = λ s buf. refl; client = λ s c. c }
  apply_marker-IsLocal marker_c now_ms = record { ignores = λ s buf. refl; client = λ s c. c }
  apply_marker-IsLocal (marker_d code) now_ms = record {
    ignores = λ s buf. refl;
    client = λ s c. c;
  }

  see_marker-IsLocal : IsLocal see_marker
  see_marker-IsLocal = record { ignores = λ s buf. refl; client = λ s c. c }

  handle_marker-IsLocal : (m : Marker) (now_ms : ℕ) → IsLocal (handle_marker m now_ms)
  unfolding handle_marker
  handle_marker-IsLocal m now_ms =
      then-IsLocal (then-IsLocal (record_snapshot-IsLocal now_ms) see_marker-IsLocal)
        (apply_marker-IsLocal m now_ms)

  pub handle_markers-IsLocal : (ms : List Marker) (now_ms : ℕ) → IsLocal (handle_markers ms now_ms)
  unfolding handle_markers
  handle_markers-IsLocal [] now_ms = record { ignores = λ s buf. refl; client = λ s c. c }
  handle_markers-IsLocal (m ∷ ms) now_ms =
      then-IsLocal (handle_marker-IsLocal m now_ms) (handle_markers-IsLocal ms now_ms)

  pub IsLocal-scan_buf :
      {f : Act vte vt} → IsLocal f → (s : Segmenter vte vt) → (f s).0.scan_buf ≡ s.scan_buf
  IsLocal-scan_buf {f} a s = ap (λ r. r.0.scan_buf) (a.ignores s s.scan_buf)
