-- ===== src/Update/State.antt =====
-- src/update.rs: `UpdateState`, the cache of the version check and the flag of a running update.
pub mod Refreshes
use mobux.Prelude.Result.{Result, ok, err}
use mobux.Prelude.{Bool, true, false, List, [], ◌∷◌, Option, none, some, ◌++◌, if◌then◌else◌}
use mobux.Strings.{chars}
use mobux.Update.Index.{Entry, latest_from_index}
use mobux.Update.SemVer.{is_newer}
use mobux.Utf8.{Text}

pub record Cache : Type 0 where
  pub latest : Option Text
  pub checked_at : Option Text
  pub last_error : Option Text

pub record UpdateState : Type 0 where
  pub inner : Cache
  pub running : Bool
  pub check_url : Text

pub record UpdateStatus : Type 0 where
  pub current : Text
  pub latest : Option Text
  pub available : Bool
  pub checked_at : Option Text
  pub error : Option Text
  pub last_run_error : Option Text

unfoldable pub new : Text → UpdateState
new check_url = record {
  inner = record { latest = none; checked_at = none; last_error = none };
  running = false;
  check_url = check_url;
}

-- `compare_exchange(false, true)`
unfoldable pub try_begin_run : UpdateState → UpdateState × Bool
try_begin_run s = if s.running then (s, false) else (record s { running = true }, true)

unfoldable pub end_run : UpdateState → UpdateState
end_run s = record s { running = false }

-- How the HTTP client answers: `build` and `send` fail, or there is a response, with its status, whether
-- that is a success, and what reading its body gives.
pub data Reply : Type 0 where
  no_client : Text → Reply
  no_response : Text → Reply
  response : Text → Bool → Result Text Text → Reply

module _ (from_str : Text → Option Entry) where
  unfoldable pub read_body : Text → Result Text Text → Result Text Text
  read_body url (err e) = err (chars "reading " ++ url ++ chars ": " ++ e)
  read_body url (ok body) = elim (latest_from_index from_str body) [
    | some latest ↦ ok latest
    | none ↦ err (chars "no usable version found in index response from " ++ url)
  ]

  unfoldable pub fetch_latest_version_from : Text → Reply → Result Text Text
  unfolding read_body
  fetch_latest_version_from url (no_client e) = err (chars "building http client: " ++ e)
  fetch_latest_version_from url (no_response e) = err (chars "fetching " ++ url ++ chars ": " ++ e)
  fetch_latest_version_from url (response status success body) =
      if success then read_body url body else err (url ++ chars " returned HTTP " ++ status)

unfoldable pub is_available : Text → Option Text → Bool
is_available current none = false
is_available current (some latest) = is_newer current latest

-- `current_version` is the version that the build puts in.
unfoldable pub status : Text → UpdateState → UpdateStatus
unfolding is_available
status current_version s = record {
  current = current_version;
  latest = s.inner.latest;
  available = is_available current_version s.inner.latest;
  checked_at = s.inner.checked_at;
  error = s.inner.last_error;
  last_run_error = none;
}

-- The cache that `refresh` writes, at the time `now`.
unfoldable pub record_fetch : Text → Result Text Text → Cache → Cache
record_fetch now (ok latest) c = record {
  latest = some latest;
  checked_at = some now;
  last_error = none;
}
record_fetch now (err e) c = record c { last_error = some e }

unfoldable pub refresh :
    (Text → Option Entry) → Text → Text → Reply → UpdateState → UpdateState × UpdateStatus
unfolding record_fetch fetch_latest_version_from status
refresh from_str current_version now reply s =
    let fetched = fetch_latest_version_from from_str s.check_url reply in
    let s' = record s { inner = record_fetch now fetched s.inner } in
    (s', status current_version s')
