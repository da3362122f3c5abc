-- ===== src/ReleaseAsset/Fetched.antt =====
-- src/release_asset.rs: `fetch_into` and what it calls, from the request to the files in the directory.
use mobux.Prelude.Result.{Result, ok, err}
use mobux.Prelude.{ℕ, not, List, [], ◌∷◌, ◌++◌, Option, none, some, if◌then◌else◌}
use mobux.ReleaseAsset.Download.{Hasher, Answer, download}
use mobux.ReleaseAsset.{
  Manifest, names, Progress, downloading, verifying, Dir, Checked, put, extract, TarEntry,
  parse_sha256sum,
}
use mobux.Strings.{chars}
use mobux.Utf8.{Bytes, Text, eq_bytes}

-- How the request for `<asset>.sha256` ends.
pub data Sidecar : Type 0 where
  not_fetched : Text → Sidecar
  not_read : Text → Sidecar
  body : Text → Sidecar

unfoldable pub fetch_published_digest : Text → Sidecar → Result Text Text
fetch_published_digest asset (not_fetched e) =
    err (chars "fetching " ++ asset ++ chars ".sha256: " ++ e)
fetch_published_digest asset (not_read e) =
    err (chars "reading " ++ asset ++ chars ".sha256: " ++ e)
fetch_published_digest asset (body text) = elim (parse_sha256sum text) [
  | some digest ↦ ok digest
  | none ↦ err (asset ++ chars ".sha256 is not a sha256sum line")
]

pub record Source : Type 0 where
  pub asset : Text
  pub budget : ℕ
  pub read_timeout : Text

-- What a fetch leaves: the directory, the reports, and how it ended.
pub record Outcome : Type 0 where
  pub dir : Dir
  pub reports : List Progress
  pub result : Checked

abbrev pub part_name : Source → Text
part_name source = source.asset ++ chars ".part"

abbrev pub put_part : Source → Option Bytes → Dir → Dir
put_part source none dir = dir
put_part source (some part) dir = put (part_name source) (some part) dir

-- Creating the directory and building the client, with the error where that fails.
pub record Preparation : Type 0 where
  pub create_dir : Option Text
  pub client : Option Text

module _ (hasher : Hasher) (sha256 : Bytes → Bytes) (io_error : Text → Text)
    (read_archive : Bytes → Result (List (Result TarEntry Text)) Text) where
  -- What follows the download.
  unfoldable pub unpack_verified :
      Source → Manifest → Result Text Text → Result Text Text → Dir → Dir × Checked
  unpack_verified source manifest (err e) published dir = (dir, err e)
  unpack_verified source manifest (ok digest) (err e) dir = (dir, err e)
  unpack_verified source manifest (ok digest) (ok published) dir =
      if not (eq_bytes published digest)
      then (
        dir,
        err (
            chars "sha256 mismatch for "
            ++ source.asset
            ++ chars ": the release publishes "
            ++ published
            ++ chars ", the download is "
            ++ digest),
      )
      else extract sha256 io_error read_archive (part_name source) manifest (names manifest) dir

  -- It is verifying from the end of a download that succeeded.
  abbrev reports_of : Result Text Text → List Progress → List Progress
  reports_of (ok _) reports = reports ++ verifying ∷ []
  reports_of (err _) reports = reports

  unfoldable pub download_and_unpack : Source → Manifest → Answer → Sidecar → Dir → Outcome
  unfolding unpack_verified
  download_and_unpack source manifest answer sidecar dir =
      let got = download hasher source.asset source.read_timeout source.budget answer in
      let with_part = put_part source got.part dir in
      let (dir', result) =
        unpack_verified source manifest got.digest (fetch_published_digest source.asset sidecar)
          with_part in
      record { dir = dir'; reports = reports_of got.digest got.reports; result = result }

  -- The part file is removed however the fetch ends.
  unfoldable pub fetch_prepared : Source → Manifest → Answer → Sidecar → Dir → Outcome
  unfolding download_and_unpack
  fetch_prepared source manifest answer sidecar dir =
      let o = download_and_unpack source manifest answer sidecar dir in
      record {
        dir = put (part_name source) none o.dir;
        reports = downloading source.asset 0 0 ∷ o.reports;
        result = o.result;
      }

  unfoldable pub fetch_into : Preparation → Source → Manifest → Answer → Sidecar → Dir → Outcome
  fetch_into prep source manifest answer sidecar dir = elim prep.create_dir [
    | some e ↦ record { dir = dir; reports = []; result = err e }
    | none ↦ elim prep.client [
      | some e ↦ record { dir = dir; reports = []; result = err e }
      | none ↦ fetch_prepared source manifest answer sidecar dir
    ]
  ]
