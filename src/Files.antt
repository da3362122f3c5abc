-- ===== src/Files.antt =====
-- src/files.rs: directories of the host that requests read. The file system answers every question of a
-- request, and does not change during it.
pub mod Paths
pub mod Roots
pub mod Resolved
pub mod Under
pub mod Contained
pub mod Disposition
use mobux.Files.Roots.{
  Kind, FileSystem, after_root, IsFileSystem, Root, FileRoots, get, names, entries, replace,
  canonical, Refusal, is_root_name, Refused, file_roots_value, is_dir, is_file, resolve_root,
  resolve_each, resolve_roots, from_config, file, directory, other, bad_name, not_absolute,
  unresolved, not_directory,
}
use mobux.Files.Paths.{
  Component, root_dir, cur_dir, normal, is_normal, is_absolute, components, path_starts_with, join,
  file_name, ends_with_slash,
}
use mobux.Prelude.Result.{Result, ok, err}
use mobux.Prelude.{
  ℕ, suc, Bool, true, false, not, ◌&&◌, ◌||◌, List, [], ◌∷◌, ◌++◌, Option, none, some, ◌==◌, ◌≡◌,
  within, if◌then◌else◌, is_empty, length, all,
}
use mobux.Strings.{chars, contains, is_digit, split, split_once, strip_prefix}
use mobux.Utf8.{Bytes, Text, Utf8Check, valid, error, from_utf8, from_utf8_lossy, eq_bytes}

abbrev pub is_plain : Component → Bool
is_plain (normal _) = true
is_plain cur_dir = true
is_plain _ = false

-- What a request is answered with. A file goes with the name that it is to be saved under, a
-- directory with its root, a redirect with its location, which the response lacks where it cannot be a header.
pub data Answer : Type 0 where
  not_found : Answer
  unknown_root : ℕ → Answer
  redirect : Text → Answer
  served : Text → Option Text → Answer
  listed : Text → Text → Answer

unfoldable pub relative_redirect : Text → Option Text → Answer
relative_redirect segment none = redirect (chars "./" ++ segment ++ chars "/")
relative_redirect segment (some query) = redirect (chars "./" ++ segment ++ chars "/?" ++ query)

-- `utf8_percent_encode(name, SEGMENT)` is a parameter.
unfoldable pub redirect_to_root : (Text → Text) → FileRoots → Text → Option Text → Answer
redirect_to_root encode_segment s name query = elim (canonical s name) [
  | none ↦ unknown_root (length s.roots)
  | some _ ↦ relative_redirect (encode_segment name) query
]

abbrev name_or_empty : Option Text → Text
name_or_empty none = []
name_or_empty (some name) = name

abbrev first_piece : List Text → Text
first_piece [] = []
first_piece (p ∷ _) = p

unfoldable pub any_download : List Text → Bool
any_download [] = false
any_download (pair ∷ pairs) =
    eq_bytes (first_piece (split b'=' pair)) (chars "download") || any_download pairs

unfoldable pub wants_download : Option Text → Bool
wants_download none = false
wants_download (some query) = any_download (split b'&' query)

-- `rest.rsplit('/').next()`
abbrev pub last_piece : List Text → Text
last_piece [] = []
last_piece (p ∷ []) = p
last_piece (_ ∷ q ∷ ps) = last_piece (q ∷ ps)

unfoldable pub list_directory : Bool → Text → Text → Answer
list_directory listing root target = if not listing then not_found else listed root target

abbrev pub mount : Text
mount = chars "/files/"

abbrev decoded_name : Text → Utf8Check → Option (Text × Text)
decoded_name rest (valid name) = some (name, rest)
decoded_name rest (error _ _ _) = none

-- `percent_decode_str(text)`, the bytes.
module _ (percent_decode : Text → Bytes) where
  unfoldable pub split_request_path : Text → Option (Text × Text)
  split_request_path path = elim (strip_prefix mount path) [
    | none ↦ none
    | some after ↦ elim (split_once b'/' after) [
      | none ↦ none
      | some (name, rest) ↦ decoded_name rest (from_utf8 (percent_decode name))
    ]
  ]

  unfoldable pub download_name : Text → Option Text → Option Text
  download_name rest query =
      if wants_download query
      then some (name_or_empty (file_name (from_utf8_lossy (percent_decode rest))))
      else none

module _ (fs : FileSystem) where
  unfoldable pub resolve_inside : Text → Text → Option Text
  resolve_inside root candidate = elim (fs.canonicalize candidate) [
    | none ↦ none
    | some place ↦ if path_starts_with place root then some place else none
  ]

  unfoldable pub resolve_decoded : Text → Utf8Check → Option Text
  resolve_decoded root (error _ _ _) = none
  resolve_decoded root (valid decoded) =
      if contains (0 ∷ []) decoded
      then none
      else if not (all is_plain (components decoded))
      then none
      else resolve_inside root (join root decoded)

  module _ (percent_decode : Text → Bytes) where
    unfoldable pub resolve : Text → Text → Option Text
    resolve root rest = resolve_decoded root (from_utf8 (percent_decode rest))

    unfoldable pub serve_index : Bool → Text → Text → Option Text → Answer
    serve_index listing root target none = list_directory listing root target
    serve_index listing root target (some index) =
        if is_file fs index then served index none else list_directory listing root target

    unfoldable pub serve_directory : Bool → Text → Text → Option Text → Text → Answer
    serve_directory listing root rest query target =
        if not (is_empty rest) && not (ends_with_slash rest)
        then relative_redirect (last_piece (split b'/' rest)) query
        else serve_index listing root target
            (resolve_inside root (join target (chars "index.html")))

    unfoldable pub serve_kind : Bool → Text → Text → Option Text → Text → Option Kind → Answer
    serve_kind listing root rest query target none = not_found
    serve_kind listing root rest query target (some file) =
        served target (download_name percent_decode rest query)
    serve_kind listing root rest query target (some directory) =
        serve_directory listing root rest query target
    serve_kind listing root rest query target (some other) = not_found

    unfoldable pub serve_target : Bool → Text → Text → Option Text → Option Text → Answer
    serve_target listing root rest query none = not_found
    serve_target listing root rest query (some target) =
        serve_kind listing root rest query target (fs.metadata target)

    unfoldable pub serve_root : FileRoots → Text → Option Text → Option Text → Answer
    serve_root s rest query none = unknown_root (length s.roots)
    serve_root s rest query (some root) = serve_target s.listing root rest query (resolve root rest)

    unfoldable pub serve_name : FileRoots → Option Text → Option (Text × Text) → Answer
    serve_name s query none = not_found
    serve_name s query (some (name, rest)) = serve_root s rest query (canonical s name)

    -- A request by its path and query.
    unfoldable pub serve : FileRoots → Text → Option Text → Answer
    serve s path query = serve_name s query (split_request_path percent_decode path)
