-- ===== src/ReleaseAsset.antt =====
-- src/release_asset.rs: fetching a release's archive within a budget, unpacking the files that a manifest
-- names, and checking them. A directory gives each name's bytes. Parameters: SHA-256, the reader of archives,
-- and what the system says where a file cannot be read.
pub mod Download
pub mod Verified
pub mod Fetched
pub mod Budget
use mobux.Prelude.Result.{Result, ok, err, ◌>>=◌}
use mobux.Prelude.{
  ℕ, ◌+◌, ◌-◌, ◌*◌, ◌/◌, ◌%◌, Bool, true, false, not, ◌&&◌, ◌||◌, List, [], ◌∷◌, ◌++◌, Option, none,
  some, ltb, leb, ◌==◌, within, if◌then◌else◌, length, all, is_empty, map,
}
use mobux.Strings.{chars, is_digit, lowercase, print_u64, split_whitespace, strip_prefix}
use mobux.Utf8.{Bytes, Text, eq_bytes}

abbrev pub download_progress_step : ℕ
download_progress_step = 4 * 1024 * 1024

abbrev pub download_budget : ℕ
download_budget = 512 * 1024 * 1024

pub record LockedFile : Type 0 where
  pub sha256 : Text
  pub bytes : ℕ

-- `files` is a `BTreeMap`, by its entries in order.
pub record Manifest : Type 0 where
  pub prefix : Text
  pub files : List (Text × LockedFile)

abbrev pub name_of : Text × LockedFile → Text
name_of entry = entry.0

abbrev pub names : Manifest → List Text
names manifest = map name_of manifest.files

pub data Progress : Type 0 where
  downloading : Text → ℕ → ℕ → Progress
  verifying : Progress

-- `Result<(), String>`
abbrev pub Checked : Type 0
Checked = Result {0, 0} Unit Text

-- The regular files of a directory.
abbrev pub Dir : Type 0
Dir = Text → Option Bytes

unfoldable pub put : Text → Option Bytes → Dir → Dir
put name file dir = λ other. if eq_bytes other name then file else dir other

unfoldable pub files_present : Dir → List Text → Bool
files_present dir [] = true
files_present dir (name ∷ rest) =
    let present : Bool = elim (dir name) [ some _ ↦ true | none ↦ false ] in
    present && files_present dir rest

abbrev hex_digit : ℕ → ℕ
hex_digit d = if ltb d 10 then b'0' + d else b'a' + (d - 10)

-- `format!("{b:02x}")` for each byte
unfoldable pub hex : Bytes → Text
hex [] = []
hex (b ∷ bytes) = hex_digit (b / 16) ∷ hex_digit (b % 16) ∷ hex bytes

abbrev is_ascii_hexdigit : ℕ → Bool
is_ascii_hexdigit c = is_digit c || within b'a' b'f' c || within b'A' b'F' c

unfoldable pub parse_sha256sum : Text → Option Text
unfolding split_whitespace
parse_sha256sum body = elim (split_whitespace body) [
  | [] ↦ none
  | digest ∷ _ ↦
      if not (length digest == 64) || not (all is_ascii_hexdigit digest)
      then none
      else some (lowercase digest)
]

unfoldable pub over_budget : Text → ℕ → ℕ → Text
over_budget file got budget =
    file
    ++ chars " is at least "
    ++ print_u64 got
    ++ chars " bytes, past the "
    ++ print_u64 budget
    ++ chars
        "-byte budget this build will accept — the release asset does not weigh that, so this is the wrong URL"

module _ (sha256 : Bytes → Bytes) (io_error : Text → Text) where
  -- One round of the loop of `verify`.
  unfoldable pub verify_file : Text → LockedFile → Option Bytes → Checked
  verify_file name locked none =
      err (chars "the release asset carries no usable " ++ name ++ chars ": " ++ io_error name)
  verify_file name locked (some bytes) =
      if not (length bytes == locked.bytes)
      then err (
          name
          ++ chars " is "
          ++ print_u64 (length bytes)
          ++ chars " bytes, this build expects "
          ++ print_u64 locked.bytes)
      else if not (eq_bytes (hex (sha256 bytes)) locked.sha256)
      then err (
          chars "sha256 mismatch for "
          ++ name
          ++ chars ": this build expects "
          ++ locked.sha256
          ++ chars ", the release carries "
          ++ hex (sha256 bytes))
      else ok tt

  unfoldable pub verify : Dir → List (Text × LockedFile) → Checked
  verify dir [] = ok tt
  verify dir ((name, locked) ∷ files) = elim (verify_file name locked (dir name)) [
    | ok _ ↦ verify dir files
    | err e ↦ err e
  ]

  abbrev pub is_ok {ℓ κ} : {A : Type ℓ} {E : Type κ} → Result A E → Bool
  is_ok (ok _) = true
  is_ok (err _) = false

  -- The directory that is used: the one that the operator named, or the cache.
  pub data Existing : Type 0 where
    named_dir : Existing
    cached_dir : Existing

  unfoldable pub try_cached : Dir → Manifest → Option Existing
  try_cached cached manifest =
      if files_present cached (names manifest) && is_ok (verify cached manifest.files)
      then some cached_dir
      else none

  unfoldable pub resolve_existing : Option Dir → Dir → Manifest → Option Existing
  unfolding try_cached
  resolve_existing none cached manifest = try_cached cached manifest
  resolve_existing (some named) cached manifest =
      if files_present named (names manifest) then some named_dir else try_cached cached manifest

-- An entry of the archive: whether it is a regular file, its path, and what `unpack` writes.
pub record TarEntry : Type 0 where
  pub is_file : Bool
  pub path : Result Text Text
  pub content : Result Bytes Text

abbrev pub is_wanted : List Text → Text → Bool
is_wanted [] name = false
is_wanted (w ∷ wanted) name = eq_bytes w name || is_wanted wanted name

-- `unpack` into `dir.join(name)`
unfoldable pub unpack : Text → Result Bytes Text → Dir → Dir × Checked
unpack name (ok bytes) dir = (put name (some bytes) dir, ok tt)
unpack name (err e) dir = (dir, err (chars "unpacking " ++ name ++ chars ": " ++ e))

-- One round of the loop of `extract`.
unfoldable pub extract_entry : Text → List Text → Text → Result TarEntry Text → Dir → Dir × Checked
unfolding unpack
extract_entry prefix wanted tarball (err e) dir =
    (dir, err (chars "reading " ++ tarball ++ chars ": " ++ e))
extract_entry prefix wanted tarball (ok entry) dir =
    if not entry.is_file then (dir, ok tt) else elim entry.path [
      | err e ↦ (dir, err (chars "reading " ++ tarball ++ chars ": " ++ e))
      | ok path ↦ elim (strip_prefix prefix path) [
        | none ↦ (dir, ok tt)
        | some name ↦
            if not (is_wanted wanted name) then (dir, ok tt) else unpack name entry.content dir
      ]
    ]

unfoldable pub extract_entries :
    Text → List Text → Text → List (Result TarEntry Text) → Dir → Dir × Checked
unfolding extract_entry
extract_entries prefix wanted tarball [] dir = (dir, ok tt)
extract_entries prefix wanted tarball (entry ∷ entries) dir =
    let (dir', done) = extract_entry prefix wanted tarball entry dir in
    elim done [ ok _ ↦ extract_entries prefix wanted tarball entries dir' | err e ↦ (dir', err e) ]

unfoldable pub remove_all : List Text → Dir → Dir
remove_all [] dir = dir
remove_all (name ∷ rest) dir = remove_all rest (put name none dir)

-- The end of `extract`: what was unpacked is checked, and removed where it does not match.
unfoldable pub settle : List Text → Dir → Checked → Dir × Checked
settle wanted dir (ok _) = (dir, ok tt)
settle wanted dir (err e) = (remove_all wanted dir, err e)

module _ (sha256 : Bytes → Bytes) (io_error : Text → Text)
    (read_archive : Bytes → Result (List (Result TarEntry Text)) Text) where
  -- The archive is the file `tarball` of the directory.
  unfoldable pub open_archive : Text → Option Bytes → Result (List (Result TarEntry Text)) Text
  open_archive tarball none = err (chars "opening " ++ tarball ++ chars ": " ++ io_error tarball)
  open_archive tarball (some bytes) = elim (read_archive bytes) [
    | ok entries ↦ ok entries
    | err e ↦ err (chars "reading " ++ tarball ++ chars ": " ++ e)
  ]

  unfoldable pub extract_from :
      Text → Manifest → List Text → List (Result TarEntry Text) → Dir → Dir × Checked
  unfolding settle
  extract_from tarball manifest wanted entries dir =
      let (dir', done) = extract_entries manifest.prefix wanted tarball entries dir in
      elim done [
        | err e ↦ (dir', err e)
        | ok _ ↦ settle wanted dir' (verify sha256 io_error dir' manifest.files)
      ]

  unfoldable pub extract : Text → Manifest → List Text → Dir → Dir × Checked
  unfolding extract_from
  extract tarball manifest wanted dir = elim (open_archive tarball (dir tarball)) [
    | err e ↦ (dir, err e)
    | ok entries ↦ extract_from tarball manifest wanted entries dir
  ]
