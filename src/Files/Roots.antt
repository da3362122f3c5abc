-- ===== src/Files/Roots.antt =====
-- src/files.rs: the directories that are served, from the configuration. The file system answers every
-- question of a step, and does not change during it.
use mobux.Files.Paths.{Component, root_dir, is_normal, is_absolute, components}
use mobux.Prelude.Result.{Result, ok, err}
use mobux.Prelude.{
  ℕ, Bool, true, false, not, ◌&&◌, ◌||◌, List, [], ◌∷◌, Option, none, some, ◌==◌, ◌≡◌, within,
  if◌then◌else◌, is_empty, all,
}
use mobux.Strings.{is_digit}
use mobux.Utf8.{Text, eq_bytes}

pub data Kind : Type 0 where
  file directory other : Kind

-- `fs::canonicalize`, and `fs::metadata` as far as it tells a file from a directory; `none` is an error.
pub record FileSystem : Type 0 where
  pub canonicalize : Text → Option Text
  pub metadata : Text → Option Kind

abbrev pub after_root : List Component → Bool
after_root (root_dir ∷ rest) = all is_normal rest
after_root _ = false

-- A canonical path is absolute, with none of `.` and `..` in it.
pub record IsFileSystem (fs : FileSystem) : Type 0 where
  pub canonicalize-after_root :
      (path canonical : Text)
      → fs.canonicalize path ≡ some canonical
      → after_root (components canonical) ≡ true

pub record Root : Type 0 where
  pub path : Text
  pub canonical : Text

pub record FileRoots : Type 0 where
  pub roots : List (Text × Root)
  pub listing : Bool

unfoldable pub get : Text → List (Text × Root) → Option Root
get name [] = none
get name ((key, root) ∷ roots) =
    let later = get name roots in if eq_bytes key name then some root else later

unfoldable pub names : List (Text × Root) → List Text
names [] = []
names ((name, _) ∷ roots) = name ∷ names roots

unfoldable pub entries : List (Text × Root) → List (Text × Text)
entries [] = []
entries ((name, root) ∷ roots) = (name, root.path) ∷ entries roots

unfoldable pub replace : List (Text × Root) → FileRoots → FileRoots
replace roots s = record s { roots = roots }

abbrev canonical_of : Option Root → Option Text
canonical_of none = none
canonical_of (some root) = some root.canonical

unfoldable pub canonical : FileRoots → Text → Option Text
canonical s name = canonical_of (get name s.roots)

-- Why the roots are refused, with the name and, where it is named, the path.
pub data Refusal : Type 0 where
  bad_name : Text → Refusal
  not_absolute unresolved not_directory : Text → Text → Refusal

abbrev is_alphanumeric : ℕ → Bool
is_alphanumeric c = is_digit c || within b'A' b'Z' c || within b'a' b'z' c

unfoldable pub is_root_name : Text → Bool
is_root_name name =
    not (is_empty name) && all (λ c. is_alphanumeric c || c == b'-' || c == b'_') name

abbrev pub Refused : Type 0
Refused = Option Refusal

-- The names and paths, in the order of the names.
unfoldable pub file_roots_value : List (Text × Text) → Refused
file_roots_value [] = none
file_roots_value ((name, path) ∷ roots) =
    let rest = file_roots_value roots in
    if not (is_root_name name)
    then some (bad_name name)
    else if not (is_absolute path)
    then some (not_absolute name path)
    else rest

module _ (fs : FileSystem) where
  unfoldable pub is_dir : Text → Bool
  is_dir path = elim (fs.metadata path) [ some directory ↦ true | some _ ↦ false | none ↦ false ]

  unfoldable pub is_file : Text → Bool
  is_file path = elim (fs.metadata path) [ some file ↦ true | some _ ↦ false | none ↦ false ]

  unfoldable pub resolve_root : Text → Text → Result Root Refusal
  resolve_root name path = elim (fs.canonicalize path) [
    | none ↦ err (unresolved name path)
    | some place ↦
        if not (is_dir place)
        then err (not_directory name path)
        else ok (record { path = path; canonical = place })
  ]

  abbrev push_root :
      Text → Root → Result (List (Text × Root)) Refusal → Result (List (Text × Root)) Refusal
  push_root name root (ok roots) = ok ((name, root) ∷ roots)
  push_root name root (err refusal) = err refusal

  unfoldable pub resolve_each : List (Text × Text) → Result (List (Text × Root)) Refusal
  resolve_each [] = ok []
  resolve_each ((name, path) ∷ rest) = elim (resolve_root name path) [
    | err refusal ↦ err refusal
    | ok root ↦ push_root name root (resolve_each rest)
  ]

  unfoldable pub resolve_roots : List (Text × Text) → Result (List (Text × Root)) Refusal
  resolve_roots roots = elim (file_roots_value roots) [
    | some refusal ↦ err refusal
    | none ↦ resolve_each roots
  ]

  unfoldable pub from_config : List (Text × Text) → Bool → Result FileRoots Refusal
  from_config roots listing = elim (resolve_roots roots) [
    | err refusal ↦ err refusal
    | ok resolved ↦ ok (record { roots = resolved; listing = listing })
  ]
