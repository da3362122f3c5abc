-- ===== src/SessionHistory/Store/Append.antt =====
-- `append` on the store: what it does to the session's file and slot, and to the others.
use mobux.External.{Json}
use mobux.Prelude.{ℕ, ◌+◌, ◌%◌, ◌^◌, ◌<◌, ◌≡◌, refl, inl, inr, some, arith, Option-cases}
use mobux.SessionHistory.Entry.{PendingEntry, HistoryEntry, into_entry}
use mobux.SessionHistory.Store.Restart.{PrintsEntries, IsSynced, entry_seq, append_entry-IsSynced}
use mobux.SessionHistory.Store.{
  SessionSlot, SessionHistoryStore, slot, append_entry, append, file_bytes,
}
use mobux.Strings.Equality.{eq_bytes_self}
use mobux.Utf8.{Bytes, Text}

into_entry-seq : (entry : PendingEntry) (n : ℕ) (t : Text) → entry_seq (into_entry entry n t) ≡ n
unfolding into_entry
into_entry-seq (PendingEntry.command a b c d e) n t = refl
into_entry-seq (PendingEntry.raw a b) n t = refl

module _ (json : Json) (session : Bytes) where
  slot-files : (store : SessionHistoryStore) → (slot json session store).0.files ≡ store.files
  unfolding slot
  slot-files store = elim (Option-cases (store.slots session)) [
    | inl e ↦ rw (e, slot) refl
    | inr (s, e) ↦ rw (e, slot) refl
  ]

  pub slot_there :
      (store : SessionHistoryStore) (s : SessionSlot)
      → store.slots session ≡ some s
      → slot json session store ≡ (store, s)
  unfolding slot
  slot_there store s e = rw (e, slot) refl

  -- The session's slot, hydrated where there is none, agrees with its file.
  abbrev pub Synced : SessionHistoryStore → Type 0
  Synced store = IsSynced json (file_bytes (store.files session)) (slot json session store).1

  -- The new file and slot, where the number does not wrap.
  abbrev pub outcome :
      (HistoryEntry → Bytes) → Text → PendingEntry → SessionHistoryStore → Bytes × SessionSlot
  outcome print tmux_session entry store =
      let s = (slot json session store).1 in
      append_entry json print (into_entry entry (s.last_seq + 1) tmux_session)
        (file_bytes (store.files session)) (record s { last_seq = s.last_seq + 1 })

  pub append-outcome :
      (print : HistoryEntry → Bytes) (tmux_session : Text) (entry : PendingEntry)
      (store : SessionHistoryStore)
      → (slot json session store).1.last_seq + 1 < 2 ^ 64
      → let store' = (append json print session tmux_session entry store).0 in
        let (file, s) = outcome print tmux_session entry store in
        (store'.files session ≡ some file) × (store'.slots session ≡ some s)
  unfolding append
  append-outcome print tmux_session entry store small =
      let s = (slot json session store).1 in
      let no_wrap : (s.last_seq + 1) % 2 ^ 64 ≡ s.last_seq + 1 = ground arith in
      (
        rw (eq_bytes_self session, slot-files store, no_wrap) refl,
        rw (eq_bytes_self session, slot-files store, no_wrap) refl,
      )

  -- After every `append` the slot that the store keeps for the session (its last number, its count of
  -- entries and the tmux session of its last command) is the one that a restarted server would hydrate
  -- from the file, if it was so before, if the numbers do not run out and if an entry is printed as one
  -- line that can be read back; also where `append` has trimmed the file.
  pub append-Synced :
      (print : HistoryEntry → Bytes)
      → PrintsEntries json print
      → (tmux_session : Text) (entry : PendingEntry) (store : SessionHistoryStore) → Synced store
      → (slot json session store).1.last_seq + 1 < 2 ^ 64
      → Synced (append json print session tmux_session entry store).0
  append-Synced print law tmux_session entry store synced small =
      let s = (slot json session store).1 in
      let full = into_entry entry (s.last_seq + 1) tmux_session in
      let store' = (append json print session tmux_session entry store).0 in
      let (file, kept) = append-outcome print tmux_session entry store small in
      let after = outcome print tmux_session entry store in
      rw (file, slot_there store' after.1 kept)
        (append_entry-IsSynced json print law full (file_bytes (store.files session)) s synced
          (into_entry-seq entry (s.last_seq + 1) tmux_session))
