-- ===== src/Files/Resolved.antt =====
-- The roots that the configuration gives are directories, where their paths lead.
use mobux.Files.Roots.{
  get, FileSystem, Root, FileRoots, get, Refusal, is_dir, resolve_root, resolve_each, resolve_roots,
  file_roots_value, from_config,
}
use mobux.Prelude.Result.{Result, ok, err, Result-cases}
use mobux.Prelude.{
  Bool, true, List, [], ◌∷◌, some, ◌≡◌, subst, arith, inl, inr, Bool-cases, Option-cases,
}
use mobux.Utf8.{Text, eq_bytes}

module _ (fs : FileSystem) where
  -- A root is where its path leads, and a directory.
  pub record IsResolved (root : Root) : Type 0 where
    pub leads : fs.canonicalize root.path ≡ some root.canonical
    pub is_directory : is_dir fs root.canonical ≡ true

  abbrev pub AllResolved : List (Text × Root) → Type 0
  AllResolved [] = Unit
  AllResolved ((_, root) ∷ roots) = IsResolved root × AllResolved roots

  abbrev RootResolved : Result Root Refusal → Type 0
  RootResolved (ok root) = IsResolved root
  RootResolved (err _) = Unit

  abbrev EachResolved : Result (List (Text × Root)) Refusal → Type 0
  EachResolved (ok roots) = AllResolved roots
  EachResolved (err _) = Unit

  pub AllResolved-get :
      (name : Text) (roots : List (Text × Root)) (root : Root)
      → AllResolved roots
      → get name roots ≡ some root
      → IsResolved root
  unfolding get
  AllResolved-get name [] root resolved h = absurd (ground arith)
  AllResolved-get name ((key, first) ∷ roots) root (here, later) h =
      elim (Bool-cases (eq_bytes key name)) [
        | inl e ↦
            let same : first ≡ root = ground (arith, rw (e, get) at h) in subst IsResolved same here
        | inr e ↦ AllResolved-get name roots root later (rw (e, get) at h)
      ]

  resolve_root-IsResolved : (name path : Text) → RootResolved (resolve_root fs name path)
  unfolding resolve_root
  resolve_root-IsResolved name path = elim (Option-cases (fs.canonicalize path)) [
    | inl e ↦ rw (e, resolve_root) tt
    | inr (place, e) ↦ elim (Bool-cases (is_dir fs place)) [
      | inl d ↦ rw (e, resolve_root, d) (record { leads = e; is_directory = d })
      | inr d ↦ rw (e, resolve_root, d) tt
    ]
  ]

  resolve_each-AllResolved : (roots : List (Text × Text)) → EachResolved (resolve_each fs roots)
  unfolding resolve_each
  resolve_each-AllResolved [] = tt
  resolve_each-AllResolved ((name, path) ∷ roots) =
      elim (Result-cases (resolve_root fs name path)) [
        | inr (refusal, e) ↦ rw (e, resolve_each) tt
        | inl (root, e) ↦
            let here = subst RootResolved e (resolve_root-IsResolved name path) in
            elim (Result-cases (resolve_each fs roots)) [
              | inr (refusal, d) ↦ rw (e, resolve_each, d) tt
              | inl (rest, d) ↦
                  rw (e, resolve_each, d)
                    (here, subst EachResolved d (resolve_each-AllResolved roots))
            ]
      ]

  pub from_config-AllResolved :
      (config : List (Text × Text)) (listing : Bool) (s : FileRoots)
      → from_config fs config listing ≡ ok s
      → AllResolved s.roots
  unfolding from_config resolve_roots
  from_config-AllResolved config listing s h = elim (Option-cases (file_roots_value config)) [
    | inr (refusal, e) ↦ absurd (ground (arith, rw (from_config, resolve_roots, e) at h))
    | inl e ↦ elim (Result-cases (resolve_each fs config)) [
      | inr (refusal, d) ↦ absurd (ground (arith, rw (from_config, resolve_roots, e, d) at h))
      | inl (roots, d) ↦
          let same : roots ≡ s.roots = ground (arith, rw (from_config, resolve_roots, e, d) at h) in
          subst AllResolved same (subst EachResolved d (resolve_each-AllResolved config))
    ]
  ]
