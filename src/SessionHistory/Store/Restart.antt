-- ===== src/SessionHistory/Store/Restart.antt =====
-- The slot that `append` keeps is the one that a restart would read out of the file.
use mobux.External.{Json}
use mobux.Prelude.{
  ℕ, zero, suc, ◌+◌, ◌-◌, ◌≤◌, max, ◌≡◌, refl, sym, ap, ◌∙◌, inl, inr, List, [], ◌∷◌, ◌++◌, Option,
  none, some, arith, ltb, length, drop, drop-append_le, length-append, Bool-cases,
}
use mobux.SessionHistory.Entry.{HistoryEntry}
use mobux.SessionHistory.Store.Lines.{write_lines}
use mobux.Strings.{newline}
use mobux.SessionHistory.Store.ReadBack.{
  IsClean, AllClean, read_lines-write_lines, write_lines-append_one,
}
use mobux.SessionHistory.Store.{
  SessionSlot, seq_of, command_tmux_session, or_session, hydrate_line, hydrate_from, empty_slot,
  latest_session, trim, note_entry, append_entry, max_entries_per_session, trim_margin,
}
use mobux.Utf8.{Bytes, encode}
use mobux.SessionHistory.Store.Hydrate.{
  hydrate-append_one, hydrate-count, hydrate-session, hydrate-drop_seq,
}

-- The number and the tmux session of an entry, as its line shows them.
abbrev pub entry_seq : HistoryEntry → ℕ
entry_seq (HistoryEntry.command c) = c.seq
entry_seq (HistoryEntry.raw r) = r.seq

abbrev pub entry_session : HistoryEntry → Option Bytes
entry_session (HistoryEntry.command c) = some (encode c.tmux_session)
entry_session (HistoryEntry.raw r) = none

-- `serde_json::to_string` on an entry prints one line, and what reads that line finds the entry's number
-- and, in a command's, the tmux session.
pub record PrintsEntries (json : Json) (print : HistoryEntry → Bytes) : Type 0 where
  pub clean : (e : HistoryEntry) → IsClean (print e)
  pub value : HistoryEntry → json.Value
  pub reads : (e : HistoryEntry) → json.from_slice (print e) ≡ some (value e)
  pub reads_seq : (e : HistoryEntry) → seq_of json (value e) ≡ some (entry_seq e)
  pub reads_session : (e : HistoryEntry) → command_tmux_session json (value e) ≡ entry_session e

module _ (json : Json) where
  hydrate_line-entry :
      (print : HistoryEntry → Bytes)
      → PrintsEntries json print
      → (full : HistoryEntry) (s : SessionSlot)
      → hydrate_line json (print full) s ≡ record {
        last_seq = max s.last_seq (entry_seq full);
        entry_count = s.entry_count + 1;
        last_command_session = or_session (entry_session full) s.last_command_session;
      }
  unfolding hydrate_line
  hydrate_line-entry print law full s =
      rw (law.reads full, hydrate_line) (rw (law.reads_seq full, law.reads_session full) refl)

  note_entry-session :
      (full : HistoryEntry) (s : SessionSlot)
      → note_entry full s
        ≡ record s { last_command_session = or_session (entry_session full) s.last_command_session }
  note_entry-session (HistoryEntry.command c) s = refl
  note_entry-session (HistoryEntry.raw r) s = refl

  -- The slot is what a restart finds in the file, the file being lines that can be read back.
  abbrev pub IsSynced : Bytes → SessionSlot → Type 0
  IsSynced file s =
      (lines : List Bytes) × (file ≡ write_lines lines)
      × AllClean lines
      × (s ≡ hydrate_from json empty_slot lines)

  AllClean-append_one :
      (lines : List Bytes) (l : Bytes) → AllClean lines → IsClean l → AllClean (lines ++ l ∷ [])
  AllClean-append_one [] l c d = (d, tt)
  AllClean-append_one (x ∷ lines) l (c, cs) d = (c, AllClean-append_one lines l cs d)

  AllClean-drop : (k : ℕ) (lines : List Bytes) → AllClean lines → AllClean (drop k lines)
  AllClean-drop zero lines c = c
  AllClean-drop (suc k) [] c = c
  AllClean-drop (suc k) (x ∷ lines) (c, cs) = AllClean-drop k lines cs

  or_session-none : (a : Option Bytes) → or_session a none ≡ a
  or_session-none none = refl
  or_session-none (some a) = refl

  slot-ext :
      (a b : SessionSlot)
      → a.last_seq ≡ b.last_seq
      → a.entry_count ≡ b.entry_count
      → a.last_command_session ≡ b.last_command_session
      → a ≡ b
  slot-ext a b p q r = rw (p, q, r) refl

  -- What `trim` counts again is what a restart counts, where the newest line holds the highest number.
  recount :
      (k : ℕ) (lines : List Bytes) (l : Bytes) (s : SessionSlot)
      → k ≤ length lines
      → ((t : SessionSlot)
          → t.last_seq ≤ (hydrate_from json empty_slot lines).last_seq
          → (hydrate_line json l t).last_seq ≡ s.last_seq)
      → let kept = drop k (lines ++ l ∷ []) in
        record s { entry_count = length kept; last_command_session = latest_session json kept }
        ≡ hydrate_from json empty_slot kept
  recount k lines l s h newest =
      let kept = drop k (lines ++ l ∷ []) in
      slot-ext
        (record s { entry_count = length kept; last_command_session = latest_session json kept })
        (hydrate_from json empty_slot kept)
        (rw (drop-append_le k lines (l ∷ []) h, hydrate-append_one json empty_slot (drop k lines) l)
          (sym (
            newest (hydrate_from json empty_slot (drop k lines))
              (hydrate-drop_seq json k lines empty_slot))))
        (omega (arith, hydrate-count json empty_slot kept))
        (sym (hydrate-session json empty_slot kept ∙ or_session-none (latest_session json kept)))

  trim-IsSynced :
      (lines : List Bytes) (l : Bytes) (s : SessionSlot)
      → AllClean (lines ++ l ∷ [])
      → ((t : SessionSlot)
          → t.last_seq ≤ (hydrate_from json empty_slot lines).last_seq
          → (hydrate_line json l t).last_seq ≡ s.last_seq)
      → let (file', s') = trim json (write_lines (lines ++ l ∷ [])) s in IsSynced file' s'
  unfolding trim
  trim-IsSynced lines l s c newest =
      let k = length (lines ++ l ∷ []) - max_entries_per_session in
      let within : k ≤ length lines = omega (arith, length-append lines (l ∷ [])) in
      rw (read_lines-write_lines (lines ++ l ∷ []) c) (
        drop k (lines ++ l ∷ []),
        refl,
        AllClean-drop k (lines ++ l ∷ []) c,
        recount k lines l s within newest,
      )

  pub append_entry-IsSynced :
      (print : HistoryEntry → Bytes)
      → PrintsEntries json print
      → (full : HistoryEntry) (file : Bytes) (s : SessionSlot) → IsSynced file s
      → entry_seq full ≡ s.last_seq + 1
      → let (file', s') =
          append_entry json print full file (record s { last_seq = s.last_seq + 1 }) in
        IsSynced file' s'
  unfolding append_entry
  append_entry-IsSynced print law full file s (lines, f, c, e) q =
      let l = print full in
      let c' = AllClean-append_one lines l c (law.clean full) in
      let s' =
        note_entry full (record s { last_seq = s.last_seq + 1; entry_count = s.entry_count + 1 }) in
      let noted =
        note_entry-session full
          (record s { last_seq = s.last_seq + 1; entry_count = s.entry_count + 1 }) in
      let last = ap (λ r. r.last_seq) e in
      let whole : file ++ l ++ newline ∷ [] ≡ write_lines (lines ++ l ∷ []) =
        rw f (sym (write_lines-append_one lines l)) in
      let higher : max s.last_seq (entry_seq full) ≡ s.last_seq + 1 = omega arith in
      let grown : s' ≡ hydrate_from json empty_slot (lines ++ l ∷ []) =
        rw (noted, hydrate-append_one json empty_slot lines l)
          (rw (← e) (rw (hydrate_line-entry print law full s) (rw higher refl))) in
      elim (Bool-cases (ltb (max_entries_per_session + trim_margin) s'.entry_count)) [
        | inl over ↦
            rw (over, whole)
              (trim-IsSynced lines l s' c'
                (λ t h. rw (noted, hydrate_line-entry print law full t) (rw q (omega arith))))
        | inr under ↦ rw under (lines ++ l ∷ [], whole, c', grown)
      ]
