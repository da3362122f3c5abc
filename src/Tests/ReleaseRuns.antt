-- ===== src/Tests/ReleaseRuns.antt =====
-- A fetch of a release at concrete inputs.
use mathlib.Core.List.{flatten}
use mobux.Prelude.Result.{Result, ok}
use mobux.Prelude.{
  ◌≤◌, true, false, List, [], ◌∷◌, ◌++◌, none, some, ◌≡◌, refl, sym, ap, ◌∙◌, append-nil,
  append_assoc, length, replicate, take, all,
}
use mobux.ReleaseAsset.Budget.{received, download-within, download-whole}
use mobux.ReleaseAsset.Download.{
  Hasher, updates, IsSha256, chunk, Answer, answered, download, download_loop, write_chunk, finish,
  nothing,
}
use mobux.ReleaseAsset.Fetched.{
  Source, Sidecar, body, Preparation, fetch_into, fetch_prepared, download_and_unpack,
  unpack_verified, fetch_published_digest, part_name,
}
use mobux.ReleaseAsset.Verified.{AllIntact, fetch_into-AllIntact}
use mobux.ReleaseAsset.{
  Manifest, names, Dir, put, TarEntry, hex, is_wanted, verify, verify_file, unpack, extract,
  extract_from, extract_entries, extract_entry, open_archive, settle, parse_sha256sum,
}
use mobux.Strings.{chars, split_whitespace, lowercase, strip_prefix}
use mobux.Utf8.{Bytes, Text, eq_bytes, is_whitespace}

-- A stand-in for SHA-256 that is as long.
abbrev first_bytes : Bytes → Bytes
first_bytes b = take 32 (b ++ replicate 32 0)

-- The hasher keeps the bytes, and takes the first of them in the end.
abbrev kept_bytes : Hasher
kept_bytes = record {
  State = Bytes;
  new = [];
  update = λ bytes s. s ++ bytes;
  finalize = first_bytes;
}

updates-kept_bytes :
    (chunks : List Bytes) (s : Bytes) → updates kept_bytes chunks s ≡ s ++ flatten chunks
unfolding updates flatten
updates-kept_bytes [] s = sym (append-nil s)
updates-kept_bytes (c ∷ chunks) s =
    updates-kept_bytes chunks (s ++ c) ∙ append_assoc s c (flatten chunks)

kept_bytes-IsSha256 : IsSha256 kept_bytes first_bytes
kept_bytes-IsSha256 = record {
  finalize-updates = λ chunks. ap first_bytes (updates-kept_bytes chunks []);
}

abbrev no_reason : Text → Text
no_reason name = []

abbrev one_entry : Bytes → Result (List (Result TarEntry Text)) Text
one_entry b = ok (ok (record { is_file = true; path = ok (chars "p/m"); content = ok b }) ∷ [])

abbrev hi : Bytes
hi = chars "hi"

abbrev manifest : Manifest
manifest = record {
  prefix = chars "p/";
  files = (chars "m", record { sha256 = hex (first_bytes hi); bytes = 2 }) ∷ [];
}

abbrev source : Source
source = record { asset = chars "a"; budget = 4; read_timeout = chars "60s" }

abbrev prepared : Preparation
prepared = record { create_dir = none; client = none }

abbrev answer : Answer
answer = answered (some 2) (chunk (chars "h") ∷ chunk (chars "i") ∷ [])

abbrev empty_dir : Dir
empty_dir name = none

abbrev sidecar : Sidecar
sidecar = body (hex (first_bytes hi) ++ chars "  a")

apart : is_wanted (names manifest) (part_name source) ≡ false
unfolding eq_bytes
apart = refl

succeeds :
    (fetch_into kept_bytes first_bytes no_reason one_entry prepared source manifest answer sidecar
      empty_dir).result
    ≡ ok tt
unfolding fetch_into fetch_prepared download_and_unpack unpack_verified fetch_published_digest put
    hex verify verify_file unpack extract extract_from extract_entries extract_entry open_archive
    settle parse_sha256sum split_whitespace lowercase strip_prefix eq_bytes is_whitespace download
    download_loop write_chunk finish nothing all
succeeds = refl

fetch_into-AllIntact_example :
    AllIntact first_bytes
      (fetch_into kept_bytes first_bytes no_reason one_entry prepared source manifest answer sidecar
        empty_dir).dir
      manifest.files
fetch_into-AllIntact_example =
    fetch_into-AllIntact first_bytes kept_bytes no_reason one_entry prepared source manifest answer
      sidecar empty_dir apart succeeds

part_is : (download kept_bytes (chars "a") (chars "60s") 4 answer).part ≡ some hi
unfolding download download_loop write_chunk finish nothing
part_is = refl

download-within_example : length hi ≤ 4
download-within_example = download-within kept_bytes (chars "a") (chars "60s") 4 answer hi part_is

digest_is :
    (download kept_bytes (chars "a") (chars "60s") 4 answer).digest ≡ ok (hex (first_bytes hi))
unfolding download download_loop write_chunk finish nothing
digest_is = refl

download-whole_example :
    (bytes : Bytes) × (received (chunk (chars "h") ∷ chunk (chars "i") ∷ []) ≡ some bytes)
    × ((download kept_bytes (chars "a") (chars "60s") 4 answer).part ≡ some bytes)
    × (length bytes ≤ 4)
    × (hex (first_bytes hi) ≡ hex (first_bytes bytes))
download-whole_example =
    download-whole kept_bytes first_bytes kept_bytes-IsSha256 (chars "a") (chars "60s") 4 (some 2)
      (chunk (chars "h") ∷ chunk (chars "i") ∷ []) (hex (first_bytes hi)) digest_is
