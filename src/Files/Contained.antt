-- ===== src/Files/Contained.antt =====
-- What is served lies in a root that was configured.
use mobux.Files.Paths.{components, join, ends_with_slash}
use mobux.Files.Under.{IsUnder, resolve_inside-IsUnder, resolve_decoded-IsUnder}
use mobux.Files.Resolved.{IsResolved, AllResolved, AllResolved-get, from_config-AllResolved}
use mobux.Files.{
  not_found, unknown_root, redirect, split_request_path, serve_index, list_directory,
  serve_directory, serve_kind, serve_target, serve_root, serve_name, serve, resolve, last_piece,
  relative_redirect, resolve_inside, Answer, not_found, unknown_root, redirect, served, listed,
  relative_redirect, resolve, split_request_path, list_directory, serve_index, serve_directory,
  serve_kind, serve_target, serve_root, serve_name, serve,
}
use mobux.Files.Roots.{
  Kind, file, directory, other, is_file, Root, FileRoots, get, canonical, from_config, Kind, file,
  directory, other, FileSystem, IsFileSystem, after_root, Root, FileRoots, get, canonical, is_file,
  from_config,
}
use mobux.Prelude.Result.{ok}
use mobux.Prelude.{
  Bool, true, false, not, List, Option, none, some, ◌≡◌, refl, inl, inr, Bool-cases, Option-cases,
  ◌&&◌, is_empty,
}
use mobux.Strings.{chars, split}
use mobux.Utf8.{Bytes, Text, from_utf8}

module _ (fs : FileSystem) (fs_ok : IsFileSystem fs) where
  -- What an answer may show of a root.
  abbrev pub Shows : Text → Answer → Type 0
  Shows root (served path _) = IsUnder root path
  Shows root (listed base path) = (base ≡ root) × IsUnder root path
  Shows root _ = Unit

  list_directory-Shows :
      (listing : Bool) (root target : Text)
      → IsUnder root target
      → Shows root (list_directory listing root target)
  unfolding list_directory
  list_directory-Shows true root target under = (refl, under)
  list_directory-Shows false root target under = tt

  Shows-redirect :
      (root rest : Text) (query : Option Text) → Shows root (relative_redirect rest query)
  unfolding relative_redirect
  Shows-redirect root rest none = tt
  Shows-redirect root rest (some q) = tt

  module _ (percent_decode : Text → Bytes) where
    serve_index-Shows :
        (listing : Bool) (root target : Text) (index : Option Text)
        → ((path : Text) → index ≡ some path → IsUnder root path)
        → IsUnder root target
        → Shows root (serve_index fs percent_decode listing root target index)
    unfolding serve_index
    serve_index-Shows listing root target none inside under =
        list_directory-Shows listing root target under
    serve_index-Shows listing root target (some index) inside under =
        elim (Bool-cases (is_file fs index)) [
          | inl e ↦ rw (serve_index, e) (inside index refl)
          | inr e ↦ rw (serve_index, e) (list_directory-Shows listing root target under)
        ]

    serve_directory-Shows :
        (listing : Bool) (root rest : Text) (query : Option Text) (target : Text)
        → after_root (components root) ≡ true
        → IsUnder root target
        → Shows root (serve_directory fs percent_decode listing root rest query target)
    unfolding serve_directory
    serve_directory-Shows listing root rest query target absolute under =
        elim (Bool-cases (not (is_empty rest) && not (ends_with_slash rest))) [
          | inl e ↦
              rw (serve_directory, e) (Shows-redirect root (last_piece (split b'/' rest)) query)
          | inr e ↦
              let candidate = join target (chars "index.html") in
              rw (serve_directory, e)
                (serve_index-Shows listing root target (resolve_inside fs root candidate)
                  (λ path. resolve_inside-IsUnder fs fs_ok root candidate path absolute) under)
        ]

    serve_kind-Shows :
        (listing : Bool) (root rest : Text) (query : Option Text) (target : Text)
        (kind : Option Kind)
        → after_root (components root) ≡ true
        → IsUnder root target
        → Shows root (serve_kind fs percent_decode listing root rest query target kind)
    unfolding serve_kind
    serve_kind-Shows listing root rest query target none absolute under = tt
    serve_kind-Shows listing root rest query target (some file) absolute under = under
    serve_kind-Shows listing root rest query target (some directory) absolute under =
        serve_directory-Shows listing root rest query target absolute under
    serve_kind-Shows listing root rest query target (some other) absolute under = tt

    serve_target-Shows :
        (listing : Bool) (root rest : Text) (query : Option Text) (target : Option Text)
        → after_root (components root) ≡ true
        → ((path : Text) → target ≡ some path → IsUnder root path)
        → Shows root (serve_target fs percent_decode listing root rest query target)
    unfolding serve_target
    serve_target-Shows listing root rest query none absolute inside = tt
    serve_target-Shows listing root rest query (some target) absolute inside =
        serve_kind-Shows listing root rest query target (fs.metadata target) absolute
          (inside target refl)

    -- The path lies in a root that has a name.
    pub record IsServed (s : FileRoots) (path : Text) : Type 0 where
      pub name : Text
      pub root : Root
      pub configured : get name s.roots ≡ some root
      pub resolved : IsResolved fs root
      pub under : IsUnder root.canonical path

    abbrev pub Contained : FileRoots → Answer → Type 0
    Contained s (served path _) = IsServed s path
    Contained s (listed _ path) = IsServed s path
    Contained s _ = Unit

    Shows-Contained :
        (s : FileRoots) (name : Text) (root : Root) (answer : Answer)
        → get name s.roots ≡ some root
        → IsResolved fs root
        → Shows root.canonical answer
        → Contained s answer
    Shows-Contained s name root not_found found resolved shows = tt
    Shows-Contained s name root (unknown_root n) found resolved shows = tt
    Shows-Contained s name root (redirect l) found resolved shows = tt
    Shows-Contained s name root (served path as_name) found resolved shows = record {
      name = name;
      root = root;
      configured = found;
      resolved = resolved;
      under = shows;
    }
    Shows-Contained s name root (listed base path) found resolved shows = record {
      name = name;
      root = root;
      configured = found;
      resolved = resolved;
      under = shows.1;
    }

    serve_name-Contained :
        (s : FileRoots) (query : Option Text) (parts : Option (Text × Text))
        → AllResolved fs s.roots
        → Contained s (serve_name fs percent_decode s query parts)
    unfolding serve_name serve_root canonical resolve
    serve_name-Contained s query none all_resolved = tt
    serve_name-Contained s query (some (name, rest)) all_resolved =
        elim (Option-cases (get name s.roots)) [
          | inl e ↦ rw (serve_name, canonical, e) tt
          | inr (root, e) ↦
              let resolved = AllResolved-get fs name s.roots root all_resolved e in
              let absolute =
                fs_ok.canonicalize-after_root root.path root.canonical resolved.leads in
              let shown =
                serve_target-Shows s.listing root.canonical rest query
                  (resolve fs percent_decode root.canonical rest) absolute
                  (λ path.
                    resolve_decoded-IsUnder fs fs_ok root.canonical path
                      (from_utf8 (percent_decode rest)) absolute) in
              rw (serve_name, canonical, e)
                (Shows-Contained s name root
                  (serve_target fs percent_decode s.listing root.canonical rest query
                    (resolve fs percent_decode root.canonical rest))
                  e resolved shown)
        ]

    -- With the roots that the configuration gives, a file that is served and a directory that is listed are
    -- below a configured root: where the root's path leads, a directory, with nothing but names behind
    -- it, whatever the request asks for.
    pub serve-Contained :
        (config : List (Text × Text)) (listing : Bool) (s : FileRoots)
        → from_config fs config listing ≡ ok s
        → (path : Text) (query : Option Text) → Contained s (serve fs percent_decode s path query)
    unfolding serve
    serve-Contained config listing s h path query =
        serve_name-Contained s query (split_request_path percent_decode path)
          (from_config-AllResolved fs config listing s h)
