-- ===== src/Update/State/Refreshes.antt =====
-- What the cache holds after any polls.
use mobux.Prelude.Result.{ok, err, Result-cases}
use mobux.Prelude.{Bool, false, List, [], ◌∷◌, Option, none, some, ◌≡◌, refl, ◌∙◌, ap, inl, inr}
use mobux.Update.Index.{Entry}
use mobux.Update.State.{
  Cache, UpdateState, Reply, refresh, record_fetch, fetch_latest_version_from, status, is_available,
  new,
}
use mobux.Utf8.{Text}
use mathlib.Core.Option.{map}

-- A poll: when, and what came back.
abbrev pub Poll : Type 0
Poll = Text × Reply

abbrev pub version : Text × Text → Text
version p = p.0

abbrev pub time : Text × Text → Text
time p = p.1

module _ (from_str : Text → Option Entry) (current : Text) where
  unfoldable pub refresh_all : List Poll → UpdateState → UpdateState
  refresh_all [] s = s
  refresh_all ((now, reply) ∷ polls) s = refresh_all polls (refresh from_str current now reply s).0

  -- The last poll that succeeded, with its time, given the one before these polls.
  unfoldable pub last_success : Text → List Poll → Option (Text × Text) → Option (Text × Text)
  last_success url [] before = before
  last_success url ((now, reply) ∷ polls) before =
      last_success url polls (elim (fetch_latest_version_from from_str url reply) [
        | ok latest ↦ some (latest, now)
        | err e ↦ before
      ])

  -- The error of the last poll, given the one before these polls.
  unfoldable pub last_failure : Text → List Poll → Option Text → Option Text
  last_failure url [] before = before
  last_failure url ((now, reply) ∷ polls) before =
      last_failure url polls
        (elim (fetch_latest_version_from from_str url reply) [ ok latest ↦ none | err e ↦ some e ])

  -- The cache with this success and this failure.
  abbrev cache_of : Option (Text × Text) → Option Text → Cache
  cache_of none failure = record { latest = none; checked_at = none; last_error = failure }
  cache_of (some (latest, at)) failure = record {
    latest = some latest;
    checked_at = some at;
    last_error = failure;
  }

  abbrev state_of : Bool → Text → Option (Text × Text) → Option Text → UpdateState
  state_of running url success failure = record {
    inner = cache_of success failure;
    running = running;
    check_url = url;
  }

  keep_success :
      (now e : Text) (success : Option (Text × Text)) (failure : Option Text)
      → record_fetch now (err e) (cache_of success failure) ≡ cache_of success (some e)
  unfolding record_fetch
  keep_success now e none failure = refl
  keep_success now e (some _) failure = refl

  refresh_all_state :
      (polls : List Poll) (running : Bool) (url : Text) (success : Option (Text × Text))
      (failure : Option Text)
      → refresh_all polls (state_of running url success failure)
        ≡ state_of running url (last_success url polls success) (last_failure url polls failure)
  unfolding refresh_all last_success last_failure refresh record_fetch
  refresh_all_state [] running url success failure = refl
  refresh_all_state ((now, reply) ∷ polls) running url success failure =
      elim (Result-cases (fetch_latest_version_from from_str url reply)) [
        | inl (latest, e) ↦ rw e (refresh_all_state polls running url (some (latest, now)) none)
        | inr (e, d) ↦ rw d (
            ap (λ c. refresh_all polls (record { inner = c; running = running; check_url = url }))
              (keep_success now e success failure)
            ∙ refresh_all_state polls running url success (some e))
      ]

  -- From the start, the status shows the last success with its time, whether that version is newer,
  -- and the error of the last poll, none if that succeeded.
  pub refresh_all-status :
      (url : Text) (polls : List Poll)
      → status current (refresh_all polls (new url)) ≡ record {
        current = current;
        latest = map version (last_success url polls none);
        available = is_available current (map version (last_success url polls none));
        checked_at = map time (last_success url polls none);
        error = last_failure url polls none;
        last_run_error = none;
      }
  unfolding status new
  refresh_all-status url polls =
      rw (refresh_all_state polls false url none none) (status_of (last_success url polls none))
    where
      status_of :
          (success : Option (Text × Text))
          → status current (state_of false url success (last_failure url polls none)) ≡ record {
            current = current;
            latest = map version success;
            available = is_available current (map version success);
            checked_at = map time success;
            error = last_failure url polls none;
            last_run_error = none;
          }
      status_of none = refl
      status_of (some _) = refl
