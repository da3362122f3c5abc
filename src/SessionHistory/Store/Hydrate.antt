-- ===== src/SessionHistory/Store/Hydrate.antt =====
-- What `hydrate` reads out of a file's lines: its count, its highest number and its latest tmux session.
use mobux.External.{Json}
use mobux.Prelude.{
  ℕ, zero, suc, ◌+◌, ◌≤◌, ◌≡◌, refl, ◌∙◌, inl, inr, List, [], ◌∷◌, ◌++◌, Option, none, some, arith,
  length, drop, Option-cases,
}
use mobux.SessionHistory.Store.{
  SessionSlot, command_tmux_session, or_session, hydrate_line, hydrate_from, line_session,
  latest_session,
}
use mobux.Utf8.{Bytes}

module _ (json : Json) where
  pub hydrate-append_one :
      (s : SessionSlot) (lines : List Bytes) (l : Bytes)
      → hydrate_from json s (lines ++ l ∷ []) ≡ hydrate_line json l (hydrate_from json s lines)
  unfolding hydrate_from
  hydrate-append_one s [] l = refl
  hydrate-append_one s (x ∷ lines) l = hydrate-append_one (hydrate_line json x s) lines l

  pub hydrate_line-count :
      (l : Bytes) (s : SessionSlot) → (hydrate_line json l s).entry_count ≡ s.entry_count + 1
  unfolding hydrate_line
  hydrate_line-count l s = elim (Option-cases (json.from_slice l)) [
    | inl e ↦ rw (e, hydrate_line) refl
    | inr (v, e) ↦ rw (e, hydrate_line) refl
  ]

  pub hydrate-count :
      (s : SessionSlot) (lines : List Bytes)
      → (hydrate_from json s lines).entry_count ≡ s.entry_count + length lines
  unfolding hydrate_from
  hydrate-count s [] = omega arith
  hydrate-count s (l ∷ lines) =
      omega (arith, hydrate-count (hydrate_line json l s) lines, hydrate_line-count l s)

  pub hydrate_line-session :
      (l : Bytes) (s : SessionSlot)
      → (hydrate_line json l s).last_command_session
        ≡ or_session (line_session json l) s.last_command_session
  unfolding hydrate_line
  hydrate_line-session l s = elim (Option-cases (json.from_slice l)) [
    | inl e ↦
        let at_line : line_session json l ≡ none = rw (e, line_session) refl in
        rw (e, hydrate_line) (rw at_line refl)
    | inr (v, e) ↦
        let at_line : line_session json l ≡ command_tmux_session json v =
          rw (e, line_session) refl in
        rw (e, hydrate_line) (rw at_line refl)
  ]

  pub or_session_assoc :
      (a b c : Option Bytes) → or_session a (or_session b c) ≡ or_session (or_session a b) c
  or_session_assoc none b c = refl
  or_session_assoc (some a) b c = refl

  -- The loop of `hydrate` and the search of `trim` find the same tmux session.
  pub hydrate-session :
      (s : SessionSlot) (lines : List Bytes)
      → (hydrate_from json s lines).last_command_session
        ≡ or_session (latest_session json lines) s.last_command_session
  unfolding hydrate_from latest_session
  hydrate-session s [] = refl
  hydrate-session s (l ∷ lines) =
      hydrate-session (hydrate_line json l s) lines
      ∙ rw (hydrate_line-session l s) (
          or_session_assoc (latest_session json lines) (line_session json l) s.last_command_session)

  pub hydrate_line-seq :
      (l : Bytes) (s t : SessionSlot)
      → s.last_seq ≤ t.last_seq
      → (hydrate_line json l s).last_seq ≤ (hydrate_line json l t).last_seq
  unfolding hydrate_line
  hydrate_line-seq l s t h = elim (Option-cases (json.from_slice l)) [
    | inl e ↦ rw (e, hydrate_line) h
    | inr (v, e) ↦ rw (e, hydrate_line) (ground arith)
  ]

  pub hydrate_line-seq_grows :
      (l : Bytes) (s : SessionSlot) → s.last_seq ≤ (hydrate_line json l s).last_seq
  unfolding hydrate_line
  hydrate_line-seq_grows l s = elim (Option-cases (json.from_slice l)) [
    | inl e ↦ rw (e, hydrate_line) (ground arith)
    | inr (v, e) ↦ rw (e, hydrate_line) (ground arith)
  ]

  pub hydrate-seq :
      (lines : List Bytes) (s t : SessionSlot)
      → s.last_seq ≤ t.last_seq
      → (hydrate_from json s lines).last_seq ≤ (hydrate_from json t lines).last_seq
  unfolding hydrate_from
  hydrate-seq [] s t h = h
  hydrate-seq (l ∷ lines) s t h =
      hydrate-seq lines (hydrate_line json l s) (hydrate_line json l t) (hydrate_line-seq l s t h)

  -- The lines that are dropped had no higher number than all have.
  pub hydrate-drop_seq :
      (k : ℕ) (lines : List Bytes) (s : SessionSlot)
      → (hydrate_from json s (drop k lines)).last_seq ≤ (hydrate_from json s lines).last_seq
  unfolding hydrate_from
  hydrate-drop_seq zero lines s = ground arith
  hydrate-drop_seq (suc k) [] s = ground arith
  hydrate-drop_seq (suc k) (l ∷ lines) s =
      let shorter = hydrate-drop_seq k lines s in
      let more = hydrate-seq lines s (hydrate_line json l s) (hydrate_line-seq_grows l s) in
      omega arith
