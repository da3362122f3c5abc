-- ===== src/Tests/FileRuns.antt =====
-- A directory with one file in it.
use mobux.Files.Disposition.Reading.{
  percent_bytes, read_percent, IsPercentEncoding, is_visible, read_disposition,
}
use mobux.Files.Disposition.RoundTrip.{content_disposition-read_disposition}
use mobux.Files.Disposition.{PercentEncoding, content_disposition, cleaned}
use mobux.Utf8.RoundTrip.{AllScalar}
use mobux.Files.Contained.{Contained, serve-Contained}
use mobux.Files.Paths.{components, pieces, piece}
use mobux.Files.{serve}
use mobux.Files.Roots.{
  FileSystem, IsFileSystem, Kind, file, directory, FileRoots, from_config, resolve_roots,
  file_roots_value, resolve_each, resolve_root, is_dir, is_root_name, after_root,
}
use mobux.Prelude.Result.{ok}
use mobux.Prelude.{
  true, List, [], ◌∷◌, Option, none, some, ◌≡◌, refl, subst, arith, inl, inr, Bool-cases,
  if◌then◌else◌, all,
}
use mobux.Strings.{chars, split}
use mobux.Utf8.{Bytes, Text, eq_bytes, encode}

abbrev site : Text
site = chars "/srv/site"

abbrev note : Text
note = chars "/srv/site/note.txt"

abbrev site_canonicalize : Text → Option Text
site_canonicalize path =
    if eq_bytes path site then some site else if eq_bytes path note then some note else none

abbrev site_metadata : Text → Option Kind
site_metadata path =
    if eq_bytes path site then some directory else if eq_bytes path note then some file else none

abbrev site_fs : FileSystem
site_fs = record { canonicalize = site_canonicalize; metadata = site_metadata }

site-after_root : after_root (components site) ≡ true
unfolding components pieces piece split eq_bytes all
site-after_root = refl

note-after_root : after_root (components note) ≡ true
unfolding components pieces piece split eq_bytes all
note-after_root = refl

site_fs-after_root :
    (path place : Text) → site_canonicalize path ≡ some place → after_root (components place) ≡ true
site_fs-after_root path place h = elim (Bool-cases (eq_bytes path site)) [
  | inl e ↦
      let same : site ≡ place = ground (arith, rw e at h) in
      subst (λ p. after_root (components p) ≡ true) same site-after_root
  | inr e ↦ elim (Bool-cases (eq_bytes path note)) [
    | inl d ↦
        let same : note ≡ place = ground (arith, rw (e, d) at h) in
        subst (λ p. after_root (components p) ≡ true) same note-after_root
    | inr d ↦ absurd (ground (arith, rw (e, d) at h))
  ]
]

site_fs-IsFileSystem : IsFileSystem site_fs
site_fs-IsFileSystem = record { canonicalize-after_root = site_fs-after_root }

abbrev same_bytes : Text → Bytes
same_bytes t = t

abbrev config : List (Text × Text)
config = (chars "site", site) ∷ []

abbrev site_roots : FileRoots
site_roots = record {
  roots = (chars "site", record { path = site; canonical = site }) ∷ [];
  listing = true;
}

site_roots-configured : from_config site_fs config true ≡ ok site_roots
unfolding from_config resolve_roots file_roots_value resolve_each resolve_root is_dir is_root_name
    eq_bytes all
site_roots-configured = refl

serve-Contained_example :
    Contained site_fs site_fs-IsFileSystem same_bytes site_roots
      (serve site_fs same_bytes site_roots (chars "/files/site/note.txt") (some (chars "download")))
serve-Contained_example =
    serve-Contained site_fs site_fs-IsFileSystem same_bytes config true site_roots
      site_roots-configured (chars "/files/site/note.txt") (some (chars "download"))

abbrev plain_percent : PercentEncoding
plain_percent = record {
  utf8_percent_encode = λ set t. percent_bytes set (encode t);
  percent_decode = read_percent;
}

plain_percent-IsPercentEncoding : IsPercentEncoding plain_percent
plain_percent-IsPercentEncoding = record { encodes = λ set t. refl }

-- A quote, a percent sign and a letter outside ASCII.
abbrev odd_name : Text
odd_name = b'"' ∷ b'%' ∷ 0xE9 ∷ []

odd_name-AllScalar : AllScalar odd_name
odd_name-AllScalar = (inl (omega arith), (inl (omega arith), (inl (omega arith), tt)))

content_disposition-read_disposition_example :
    (all is_visible (content_disposition plain_percent odd_name) ≡ true)
    × (read_disposition (content_disposition plain_percent odd_name)
        ≡ some (cleaned odd_name, encode odd_name))
content_disposition-read_disposition_example =
    content_disposition-read_disposition plain_percent plain_percent-IsPercentEncoding odd_name
      odd_name-AllScalar
