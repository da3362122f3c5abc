-- ===== src/ReleaseAsset/Download.antt =====
-- src/release_asset.rs: `download`, with a budget and a progress report. Where the local file cannot be
-- created or written is left out.
use mathlib.Core.List.{flatten}
use mobux.Prelude.Result.{Result, ok, err}
use mobux.Prelude.{
  ℕ, ◌+◌, ◌-◌, List, [], ◌∷◌, ◌++◌, Option, none, some, ltb, leb, ◌≡◌, if◌then◌else◌, length,
}
use mobux.ReleaseAsset.{download_progress_step, Progress, downloading, over_budget, hex}
use mobux.Strings.{chars}
use mobux.Utf8.{Bytes, Text}

-- What `tokio::time::timeout(read_timeout, stream.next())` gives before the end of the stream.
pub data Arrival : Type 0 where
  stalled : Arrival
  broken : Text → Arrival
  chunk : Bytes → Arrival

-- What sending the request gives: nothing in time, an error (also of the status), or a response with its
-- length, if it tells one, and its stream.
pub data Answer : Type 0 where
  silent : Answer
  refused : Text → Answer
  answered : Option ℕ → List Arrival → Answer

-- `sha2`'s `Sha256`: a state that takes bytes, and gives the digest in the end.
pub record Hasher : Type 1 where
  pub State : Type 0
  pub new : State
  pub update : Bytes → State → State
  pub finalize : State → Bytes

unfoldable pub updates : (hasher : Hasher) → List Bytes → hasher.State → hasher.State
updates hasher [] s = s
updates hasher (c ∷ chunks) s = updates hasher chunks (hasher.update c s)

-- Chunks that are taken one after the other have the digest of the whole.
pub record IsSha256 (hasher : Hasher) (sha256 : Bytes → Bytes) : Type 0 where
  pub finalize-updates :
      (chunks : List Bytes)
      → hasher.finalize (updates hasher chunks hasher.new) ≡ sha256 (flatten chunks)

-- What is on disk, the hasher's state, what has been reported, and the count at the last report.
pub record Transfer (hasher : Hasher) : Type 0 where
  pub out : Bytes
  pub hashed : hasher.State
  pub reports : List Progress
  pub reported : ℕ

-- `read_timeout` is the time as it is printed.
module _ (hasher : Hasher) (file read_timeout : Text) (budget total : ℕ) where
  -- The hasher takes the chunk, and it is written, and reported where enough has come since the last report.
  unfoldable pub write_chunk : Bytes → Transfer hasher → Transfer hasher
  write_chunk bytes t =
      let out = t.out ++ bytes in
      let hashed = hasher.update bytes t.hashed in
      if leb download_progress_step (length out - t.reported)
      then record {
        out = out;
        hashed = hashed;
        reports = t.reports ++ downloading file (length out) total ∷ [];
        reported = length out;
      }
      else record t { out = out; hashed = hashed }

  unfoldable pub download_loop : List Arrival → Transfer hasher → Transfer hasher × Option Text
  unfolding write_chunk
  download_loop [] t = (t, none)
  download_loop (stalled ∷ _) t =
      (t, some (chars "downloading " ++ file ++ chars ": stalled for " ++ read_timeout))
  download_loop (broken e ∷ _) t = (t, some (chars "downloading " ++ file ++ chars ": " ++ e))
  download_loop (chunk bytes ∷ stream) t =
      let rest = download_loop stream (write_chunk bytes t) in
      let downloaded = length t.out + length bytes in
      if ltb budget downloaded then (t, some (over_budget file downloaded budget)) else rest

abbrev pub unwrap_or_zero : Option ℕ → ℕ
unwrap_or_zero none = 0
unwrap_or_zero (some n) = n

abbrev pub no_transfer : (hasher : Hasher) → Transfer hasher
no_transfer hasher = record { out = []; hashed = hasher.new; reports = []; reported = 0 }

-- The part file, if it was created, the reports, and the digest.
pub record Downloaded : Type 0 where
  pub part : Option Bytes
  pub reports : List Progress
  pub digest : Result Text Text

unfoldable pub nothing : Text → Downloaded
nothing e = record { part = none; reports = []; digest = err e }

module _ (hasher : Hasher) where
  unfoldable pub finish : Transfer hasher → Option Text → Downloaded
  finish t none = record {
    part = some t.out;
    reports = t.reports;
    digest = ok (hex (hasher.finalize t.hashed));
  }
  finish t (some e) = record { part = some t.out; reports = t.reports; digest = err e }

  unfoldable pub download : Text → Text → ℕ → Answer → Downloaded
  unfolding finish nothing download_loop
  download file read_timeout budget silent =
      nothing (chars "fetching " ++ file ++ chars ": no response within " ++ read_timeout)
  download file read_timeout budget (refused e) =
      nothing (chars "fetching " ++ file ++ chars ": " ++ e)
  download file read_timeout budget (answered content_length stream) =
      let total = unwrap_or_zero content_length in
      let (t, failed) =
        download_loop hasher file read_timeout budget total stream (no_transfer hasher) in
      if ltb budget total then nothing (over_budget file total budget) else finish t failed
