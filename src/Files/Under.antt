-- ===== src/Files/Under.antt =====
-- A path that is resolved lies under the root.
use mobux.Files.Paths.{
  Component, root_dir, cur_dir, parent_dir, normal, is_normal, eq_component, is_prefix, components,
  path_starts_with, join,
}
use mobux.Files.{is_plain, resolve_inside, resolve_decoded}
use mobux.Files.Roots.{FileSystem, IsFileSystem, after_root}
use mobux.Prelude.{
  true, List, [], ◌∷◌, ◌++◌, some, ◌≡◌, refl, sym, ◌∙◌, ap, subst, arith, inl, inr, Bool-cases,
  Option-cases, all,
}
use mobux.Strings.Equality.{eq_bytes→≡}
use mobux.Strings.{contains}
use mobux.Utf8.{Text, Utf8Check, valid, error}

eq_component→≡ : (a b : Component) → eq_component a b ≡ true → a ≡ b
unfolding eq_component
eq_component→≡ root_dir root_dir h = refl
eq_component→≡ root_dir cur_dir h = absurd (ground arith)
eq_component→≡ root_dir parent_dir h = absurd (ground arith)
eq_component→≡ root_dir (normal b) h = absurd (ground arith)
eq_component→≡ cur_dir root_dir h = absurd (ground arith)
eq_component→≡ cur_dir cur_dir h = refl
eq_component→≡ cur_dir parent_dir h = absurd (ground arith)
eq_component→≡ cur_dir (normal b) h = absurd (ground arith)
eq_component→≡ parent_dir root_dir h = absurd (ground arith)
eq_component→≡ parent_dir cur_dir h = absurd (ground arith)
eq_component→≡ parent_dir parent_dir h = refl
eq_component→≡ parent_dir (normal b) h = absurd (ground arith)
eq_component→≡ (normal a) root_dir h = absurd (ground arith)
eq_component→≡ (normal a) cur_dir h = absurd (ground arith)
eq_component→≡ (normal a) parent_dir h = absurd (ground arith)
eq_component→≡ (normal a) (normal b) h = ap normal (eq_bytes→≡ a b h)

is_prefix-append :
    (xs ys : List Component) → is_prefix xs ys ≡ true → (rest : List Component) × (ys ≡ xs ++ rest)
unfolding is_prefix
is_prefix-append [] ys h = (ys, refl)
is_prefix-append (x ∷ xs) [] h = absurd (ground arith)
is_prefix-append (x ∷ xs) (y ∷ ys) h = elim (Bool-cases (eq_component x y)) [
  | inr d ↦ absurd (ground (arith, rw (d, is_prefix) at h))
  | inl e ↦
      let (rest, same) = is_prefix-append xs ys (rw (e, is_prefix) at h) in
      (rest, ap (λ z. z ∷ ys) (sym (eq_component→≡ x y e)) ∙ ap (◌∷◌ x) same)
]

all-behind : (xs ys : List Component) → all is_normal (xs ++ ys) ≡ true → all is_normal ys ≡ true
unfolding all
all-behind [] ys h = h
all-behind (x ∷ xs) ys h = elim (Bool-cases (is_normal x)) [
  | inl e ↦ all-behind xs ys (rw (e, all) at h)
  | inr e ↦ absurd (ground (arith, rw (e, all) at h))
]

-- Behind a canonical path that another one begins with, there are only names.
after_root-behind :
    (xs ys : List Component)
    → after_root xs ≡ true
    → after_root (xs ++ ys) ≡ true
    → all is_normal ys ≡ true
after_root-behind [] ys h g = absurd (ground arith)
after_root-behind (root_dir ∷ xs) ys h g = all-behind xs ys g
after_root-behind (cur_dir ∷ xs) ys h g = absurd (ground arith)
after_root-behind (parent_dir ∷ xs) ys h g = absurd (ground arith)
after_root-behind (normal _ ∷ xs) ys h g = absurd (ground arith)

-- The path is the root's with names behind it.
pub record IsUnder (root path : Text) : Type 0 where
  pub below : List Component
  pub extends : components path ≡ components root ++ below
  pub only_names : all is_normal below ≡ true

module _ (fs : FileSystem) (fs_ok : IsFileSystem fs) where
  pub resolve_inside-IsUnder :
      (root candidate path : Text)
      → after_root (components root) ≡ true
      → resolve_inside fs root candidate ≡ some path
      → IsUnder root path
  unfolding resolve_inside
  resolve_inside-IsUnder root candidate path absolute h =
      elim (Option-cases (fs.canonicalize candidate)) [
        | inl e ↦ absurd (ground (arith, rw (e, resolve_inside) at h))
        | inr (place, e) ↦ elim (Bool-cases (path_starts_with place root)) [
          | inr d ↦ absurd (ground (arith, rw (e, resolve_inside, d) at h))
          | inl d ↦
              let same : place ≡ path = ground (arith, rw (e, resolve_inside, d) at h) in
              let (below, extends) = is_prefix-append (components root) (components place) d in
              let real =
                subst (λ cs. after_root cs ≡ true) extends
                  (fs_ok.canonicalize-after_root candidate place e) in
              subst (IsUnder root) same (record {
                below = below;
                extends = extends;
                only_names = after_root-behind (components root) below absolute real;
              })
        ]
      ]

  pub resolve_decoded-IsUnder :
      (root path : Text) (decoded : Utf8Check)
      → after_root (components root) ≡ true
      → resolve_decoded fs root decoded ≡ some path
      → IsUnder root path
  unfolding resolve_decoded
  resolve_decoded-IsUnder root path (error _ _ _) absolute h = absurd (ground arith)
  resolve_decoded-IsUnder root path (valid decoded) absolute h =
      elim (Bool-cases (contains (0 ∷ []) decoded)) [
        | inl e ↦ absurd (ground (arith, rw (e, resolve_decoded) at h))
        | inr e ↦ elim (Bool-cases (all is_plain (components decoded))) [
          | inr d ↦ absurd (ground (arith, rw (e, resolve_decoded, d) at h))
          | inl d ↦
              resolve_inside-IsUnder root (join root decoded) path absolute
                (rw (e, resolve_decoded, d) at h)
        ]
      ]
