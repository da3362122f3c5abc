-- ===== src/SessionHistory/Store/Feeders.antt =====
-- The one feeder of a session.
use mobux.Prelude.{
  ◌≡◌, refl, ap, inl, inr, false, List, [], ◌∷◌, Option, none, some, arith, Bool-cases,
}
use mobux.Strings.Equality.{eq_bytes_self}
use mobux.SessionHistory.Store.{
  SessionHistoryStore, contains, remove, try_acquire_feeder, drop_guard,
}
use mobux.Utf8.{Bytes, eq_bytes}

remove-absent : (k : Bytes) (ks : List Bytes) → contains k ks ≡ false → remove k ks ≡ ks
unfolding contains remove
remove-absent k [] e = refl
remove-absent k (x ∷ ks) e = elim (Bool-cases (eq_bytes k x)) [
  | inl same ↦ ground arith
  | inr other ↦ rw other (ap (◌∷◌ x) (remove-absent k ks (rw other at e)))
]

-- What an attempt to acquire the feeder leaves, by the guard that it gives.
abbrev pub Attempt : Bytes → SessionHistoryStore → SessionHistoryStore → Option Bytes → Type 0
Attempt session store store' none = store' ≡ store
Attempt session store store' (some guard) =
    (try_acquire_feeder session store' ≡ (store', none)) × (drop_guard guard store' ≡ store)

-- A connection that acquires the feeder of a session keeps every later one out, and gives the store back
-- as it was when its guard is dropped; one that does not acquire it changes nothing.
pub try_acquire_feeder-drop_guard :
    (session : Bytes) (store : SessionHistoryStore)
    → let (store', guard) = try_acquire_feeder session store in Attempt session store store' guard
unfolding try_acquire_feeder drop_guard contains remove
try_acquire_feeder-drop_guard session store =
    elim (Bool-cases (contains session store.active_feeders)) [
      | inl held ↦ rw (held, try_acquire_feeder) refl
      | inr free ↦
          rw (free, try_acquire_feeder)
            (
              rw (eq_bytes_self session) refl,
              rw (eq_bytes_self session)
                  (rw (remove-absent session store.active_feeders free) refl),
            )
    ]
