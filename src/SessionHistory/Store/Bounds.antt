-- ===== src/SessionHistory/Store/Bounds.antt =====
-- How many entries a session's file holds.
use mobux.External.{Json}
use mobux.Prelude.{
  ◌+◌, ◌-◌, ◌^◌, ◌≤◌, ◌<◌, ap, inl, inr, [], ◌∷◌, ◌++◌, arith, ltb, Bool-cases, length, length-drop,
}
use mobux.SessionHistory.Entry.{PendingEntry, HistoryEntry, into_entry}
use mobux.SessionHistory.Store.Append.{Synced, append-Synced, outcome, append-outcome, slot_there}
use mobux.SessionHistory.Store.Hydrate.{hydrate-count}
use mobux.SessionHistory.Store.Lines.{read_lines}
use mobux.Strings.{newline}
use mobux.SessionHistory.Store.Restart.{PrintsEntries}
use mobux.SessionHistory.Store.ReadBack.{read_lines-write_lines}
use mobux.SessionHistory.Store.{
  SessionSlot, SessionHistoryStore, slot, empty_slot, append_entry, append, file_bytes, trim,
  note_entry, max_entries_per_session, trim_margin,
}
use mobux.Utf8.{Bytes, Text}

module _ (json : Json) where
  trim-count : (file : Bytes) (s : SessionSlot) → (trim json file s).1.entry_count ≤ 2000
  unfolding trim
  trim-count file s =
      omega
        (arith, length-drop (length (read_lines file) - max_entries_per_session) (read_lines file))

  append_entry-count :
      (print : HistoryEntry → Bytes) (full : HistoryEntry) (file : Bytes) (s : SessionSlot)
      → (append_entry json print full file s).1.entry_count ≤ 2100
  unfolding append_entry
  append_entry-count print full file s =
      let s' = note_entry full (record s { entry_count = s.entry_count + 1 }) in
      elim (Bool-cases (ltb (max_entries_per_session + trim_margin) s'.entry_count)) [
        | inl over ↦ rw over (omega (arith, trim-count (file ++ print full ++ newline ∷ []) s'))
        | inr under ↦ rw under (ground arith)
      ]

  -- After an `append` a session's file holds 2100 entries at most (the cap and the margin), if the slot
  -- agreed with the file before, if the numbers do not run out and if an entry is printed as one line
  -- that can be read back.
  pub append-lines_bound :
      (session : Bytes) (print : HistoryEntry → Bytes)
      → PrintsEntries json print
      → (tmux_session : Text) (entry : PendingEntry) (store : SessionHistoryStore)
      → Synced json session store
      → (slot json session store).1.last_seq + 1 < 2 ^ 64
      → let store' = (append json print session tmux_session entry store).0 in
        length (read_lines (file_bytes (store'.files session))) ≤ 2100
  append-lines_bound session print law tmux_session entry store synced small =
      let store' = (append json print session tmux_session entry store).0 in
      let s = (slot json session store).1 in
      let (lines, f, c, e) =
        append-Synced json session print law tmux_session entry store synced small in
      let (file, kept) = append-outcome json session print tmux_session entry store small in
      let there =
        slot_there json session store' (outcome json session print tmux_session entry store).1
          kept in
      let count =
        append_entry-count print (into_entry entry (s.last_seq + 1) tmux_session)
          (file_bytes (store.files session)) (record s { last_seq = s.last_seq + 1 }) in
      rw (f, read_lines-write_lines lines c)
        (omega (
          arith,
          hydrate-count json empty_slot lines,
          ap (λ r. r.entry_count) e,
          ap (λ r. r.1.entry_count) there,
        ))
