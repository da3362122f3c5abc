-- ===== src/ReleaseAsset/Verified.antt =====
-- What a fetch that succeeds leaves in the directory, and what no fetch touches.
use mobux.Prelude.Result.{Result, ok, err, Result-cases}
use mobux.Prelude.{
  false, List, [], ◌∷◌, Option, none, some, map, length, ◌==◌, ◌≡◌, refl, ◌∙◌, inl, inr, arith,
  Bool-cases, Option-cases,
}
use mobux.ReleaseAsset.Fetched.{
  Source, part_name, Preparation, Sidecar, fetch_into, fetch_prepared, download_and_unpack,
  unpack_verified, fetch_published_digest, put_part,
}
use mobux.ReleaseAsset.Download.{Hasher, Answer, download}
use mobux.ReleaseAsset.{
  LockedFile, Manifest, name_of, names, Dir, put, hex, verify_file, verify, TarEntry, is_wanted,
  extract_entries, settle, open_archive, extract_from, extract,
}
use mobux.Strings.Equality.{eq_bytes→≡}
use mobux.Utf8.{Bytes, Text, eq_bytes}

put-other :
    (name other : Text) (file : Option Bytes) (dir : Dir)
    → eq_bytes other name ≡ false
    → put name file dir other ≡ dir other
unfolding put
put-other name other file dir h = rw h refl

module _ (sha256 : Bytes → Bytes) where
  -- The file is there, with the length and the digest that the lock names.
  pub record IsIntact (dir : Dir) (name : Text) (locked : LockedFile) : Type 0 where
    pub content : Bytes
    pub present : dir name ≡ some content
    pub size : length content ≡ locked.bytes
    pub digest : hex (sha256 content) ≡ locked.sha256

  abbrev pub AllIntact : Dir → List (Text × LockedFile) → Type 0
  AllIntact dir [] = Unit
  AllIntact dir ((name, locked) ∷ files) = IsIntact dir name locked × AllIntact dir files

  module _ (io_error : Text → Text) where
    verify_file-IsIntact :
        (dir : Dir) (name : Text) (locked : LockedFile)
        → verify_file sha256 io_error name locked (dir name) ≡ ok tt
        → IsIntact dir name locked
    unfolding verify_file
    verify_file-IsIntact dir name locked h = elim (Option-cases (dir name)) [
      | inl e ↦ absurd (ground (arith, rw (e, verify_file) at h))
      | inr (bytes, e) ↦ elim (Bool-cases (length bytes == locked.bytes)) [
        | inr s ↦ absurd (ground (arith, rw (e, verify_file, s) at h))
        | inl s ↦ elim (Bool-cases (eq_bytes (hex (sha256 bytes)) locked.sha256)) [
          | inr d ↦ absurd (ground (arith, rw (e, verify_file, s, d) at h))
          | inl d ↦ record {
            content = bytes;
            present = e;
            size = ground arith;
            digest = eq_bytes→≡ (hex (sha256 bytes)) locked.sha256 d;
          }
        ]
      ]
    ]

    verify-AllIntact :
        (dir : Dir) (files : List (Text × LockedFile))
        → verify sha256 io_error dir files ≡ ok tt
        → AllIntact dir files
    unfolding verify
    verify-AllIntact dir [] h = tt
    verify-AllIntact dir ((name, locked) ∷ files) h =
        elim (Result-cases (verify_file sha256 io_error name locked (dir name))) [
          | inl (u, e) ↦ (
            verify_file-IsIntact dir name locked e,
            verify-AllIntact dir files (rw (e, verify) at h),
          )
          | inr (e, d) ↦ absurd (ground (arith, rw (d, verify) at h))
        ]

  AllIntact-put :
      (name : Text) (file : Option Bytes) (dir : Dir) (files : List (Text × LockedFile))
      → is_wanted (map name_of files) name ≡ false
      → AllIntact dir files
      → AllIntact (put name file dir) files
  AllIntact-put name file dir [] h intact = tt
  AllIntact-put name file dir ((other, locked) ∷ files) h (one, rest) =
      elim (Bool-cases (eq_bytes other name)) [
        | inl e ↦ absurd (ground (arith, rw e at h))
        | inr e ↦ (
          record {
            content = one.content;
            present = put-other name other file dir e ∙ one.present;
            size = one.size;
            digest = one.digest;
          },
          AllIntact-put name file dir files (rw e at h) rest,
        )
      ]

  module _ (hasher : Hasher) (io_error : Text → Text)
      (read_archive : Bytes → Result (List (Result TarEntry Text)) Text) where
    settle-AllIntact :
        (wanted : List Text) (dir : Dir) (files : List (Text × LockedFile))
        → (settle wanted dir (verify sha256 io_error dir files)).1 ≡ ok tt
        → AllIntact (settle wanted dir (verify sha256 io_error dir files)).0 files
    unfolding settle
    settle-AllIntact wanted dir files h = elim (Result-cases (verify sha256 io_error dir files)) [
      | inl (u, e) ↦ rw e (verify-AllIntact io_error dir files e)
      | inr (e, d) ↦ absurd (ground (arith, rw d at h))
    ]

    extract_from-AllIntact :
        (tarball : Text) (manifest : Manifest) (wanted : List Text)
        (entries : List (Result TarEntry Text)) (dir : Dir)
        → (extract_from sha256 io_error read_archive tarball manifest wanted entries dir).1 ≡ ok tt
        → AllIntact
            (extract_from sha256 io_error read_archive tarball manifest wanted entries dir).0
            manifest.files
    unfolding extract_from
    extract_from-AllIntact tarball manifest wanted entries dir h =
        let (dir', done) = extract_entries manifest.prefix wanted tarball entries dir in
        elim (Result-cases done) [
          | inr (f, d) ↦ absurd (ground (arith, rw (d, extract_from) at h))
          | inl (u, d) ↦
              rw (d, extract_from)
                (settle-AllIntact wanted dir' manifest.files (rw (d, extract_from) at h))
        ]

    extract-open :
        (tarball : Text) (manifest : Manifest) (wanted : List Text) (dir : Dir)
        (entries : List (Result TarEntry Text))
        → open_archive sha256 io_error read_archive tarball (dir tarball) ≡ ok entries
        → extract sha256 io_error read_archive tarball manifest wanted dir
          ≡ extract_from sha256 io_error read_archive tarball manifest wanted entries dir
    unfolding extract
    extract-open tarball manifest wanted dir entries e = rw (e, extract) refl

    extract-AllIntact :
        (tarball : Text) (manifest : Manifest) (wanted : List Text) (dir : Dir)
        → (extract sha256 io_error read_archive tarball manifest wanted dir).1 ≡ ok tt
        → AllIntact
            (extract sha256 io_error read_archive tarball manifest wanted dir).0
            manifest.files
    unfolding extract
    extract-AllIntact tarball manifest wanted dir h =
        elim (Result-cases (open_archive sha256 io_error read_archive tarball (dir tarball))) [
          | inr (e, d) ↦ absurd (ground (arith, rw (d, extract) at h))
          | inl (entries, e) ↦
              let opened = extract-open tarball manifest wanted dir entries e in
              rw opened
                (extract_from-AllIntact tarball manifest wanted entries dir (rw opened at h))
        ]

    unpack_verified-AllIntact :
        (source : Source) (manifest : Manifest) (digest published : Result Text Text) (dir : Dir)
        → (unpack_verified hasher sha256 io_error read_archive source manifest digest published
            dir).1
          ≡ ok tt
        → AllIntact
            (unpack_verified hasher sha256 io_error read_archive source manifest digest published
              dir).0
            manifest.files
    unfolding unpack_verified
    unpack_verified-AllIntact source manifest (err e) published dir h = absurd (ground arith)
    unpack_verified-AllIntact source manifest (ok digest) (err e) dir h = absurd (ground arith)
    unpack_verified-AllIntact source manifest (ok digest) (ok published) dir h =
        elim (Bool-cases (eq_bytes published digest)) [
          | inr e ↦ absurd (ground (arith, rw e at h))
          | inl e ↦
              rw e (extract-AllIntact (part_name source) manifest (names manifest) dir (rw e at h))
        ]

    -- Where a fetch succeeds, each file of the manifest is in the directory with the length and the
    -- digest that the lock names, if no file of the manifest is named as the part file is.
    pub fetch_into-AllIntact :
        (prep : Preparation) (source : Source) (manifest : Manifest) (answer : Answer)
        (sidecar : Sidecar) (dir : Dir)
        → is_wanted (names manifest) (part_name source) ≡ false
        → (fetch_into hasher sha256 io_error read_archive prep source manifest answer sidecar
            dir).result
          ≡ ok tt
        → AllIntact
            (fetch_into hasher sha256 io_error read_archive prep source manifest answer sidecar
              dir).dir
            manifest.files
    unfolding fetch_into fetch_prepared download_and_unpack
    fetch_into-AllIntact prep source manifest answer sidecar dir apart h =
        elim (Option-cases prep.create_dir) [
          | inr (e, d) ↦ absurd (ground (arith, rw d at h))
          | inl a ↦ elim (Option-cases prep.client) [
            | inr (e, d) ↦ absurd (ground (arith, rw (a, d) at h))
            | inl b ↦
                let got = download hasher source.asset source.read_timeout source.budget answer in
                let with_part = put_part source got.part dir in
                let published = fetch_published_digest source.asset sidecar in
                let unpacked =
                  unpack_verified hasher sha256 io_error read_archive source manifest got.digest
                    published with_part in
                rw (a, b)
                  (AllIntact-put (part_name source) none unpacked.0 manifest.files apart (
                    unpack_verified-AllIntact source manifest got.digest published with_part
                      (rw (a, b) at h)))
          ]
        ]
