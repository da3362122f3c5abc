-- ===== src/Update/Index/Latest.antt =====
-- The version that is chosen is listed, and none that is listed is newer.
use mobux.Prelude.Order.{is_gt, cases, below, same, above, not_above_trans, cmp_self}
use mobux.Prelude.{
  true, false, List, [], ◌∷◌, Option, none, some, is_empty, ◌≡◌, refl, ◌∙◌, ap, ◌⊎◌, inl, inr,
  arith, Bool-cases, Option-cases,
}
use mobux.Strings.{split_lines, trim}
use mobux.Update.Index.{Entry, Best, better, take_line, best_of, latest_from_index}
use mobux.Update.SemVer.Order.{cmp_version-IsTotalPreorder}
use mobux.Update.SemVer.{SemVer, cmp_version, parse}
use mobux.Utf8.{Text}

-- At most the version kept.
abbrev pub AtMost : SemVer → Best → Type 0
AtMost q none = ⊥
AtMost q (some (p, _)) = is_gt (cmp_version q p) ≡ false

abbrev pub Parsed : Best → Type 0
Parsed none = Unit
Parsed (some (p, s)) = parse s ≡ some p

better_self : (p : SemVer) (s : Text) (best : Best) → AtMost p (better p s best)
unfolding better
better_self p s none = rw (cmp_self cmp_version cmp_version-IsTotalPreorder p) refl
better_self p s (some (b, t)) = elim (Bool-cases (is_gt (cmp_version p b))) [
  | inl e ↦ rw e (rw (cmp_self cmp_version cmp_version-IsTotalPreorder p) refl)
  | inr e ↦ rw e e
]

not_below : (p b : SemVer) → is_gt (cmp_version p b) ≡ true → is_gt (cmp_version b p) ≡ false
not_below p b e = rw (cmp_version-IsTotalPreorder.swap p b) (elim (cases (cmp_version p b)) [
  | below d ↦ ground arith
  | same d ↦ ground arith
  | above d ↦ rw d refl
])

better-AtMost : (p q : SemVer) (s : Text) (best : Best) → AtMost q best → AtMost q (better p s best)
unfolding better
better-AtMost p q s none h = elim h [ ]
better-AtMost p q s (some (b, t)) h = elim (Bool-cases (is_gt (cmp_version p b))) [
  | inl e ↦ rw e (not_above_trans cmp_version cmp_version-IsTotalPreorder q b p h (not_below p b e))
  | inr e ↦ rw e h
]

module _ (from_str : Text → Option Entry) where
  -- The line holds the version, which is not yanked and can be compared.
  pub record Offers (line s : Text) : Type 0 where
    pub entry : Entry
    pub version : SemVer
    pub not_blank : is_empty (trim line) ≡ false
    pub reads : from_str (trim line) ≡ some entry
    pub not_yanked : entry.yanked ≡ false
    pub vers_is : entry.vers ≡ s
    pub parses : parse s ≡ some version

  pub data Listed : List Text → Text → Type 0 where
    here : {line s : Text} {lines : List Text} → Offers line s → Listed (line ∷ lines) s
    there : {line s : Text} {lines : List Text} → Listed lines s → Listed (line ∷ lines) s

  take_line-Offers :
      (line s : Text) (best : Best) (o : Offers line s)
      → take_line from_str line best ≡ better o.version s best
  unfolding take_line
  take_line-Offers line s best o =
      rw (o.not_blank, o.reads, o.not_yanked, ap parse o.vers_is ∙ o.parses)
        (ap (λ v. better o.version v best) o.vers_is)

  -- A line changes nothing, or its version is compared with the one kept.
  take_line-cases :
      (line : Text) (best : Best)
      → (take_line from_str line best ≡ best)
        ⊎ ((s : Text) × (o : Offers line s) × (take_line from_str line best
              ≡ better o.version s best))
  unfolding take_line
  take_line-cases line best = elim (Bool-cases (is_empty (trim line))) [
    | inl e ↦ inl (rw e refl)
    | inr e ↦ elim (Option-cases (from_str (trim line))) [
      | inl d ↦ inl (rw (e, d) refl)
      | inr (entry, d) ↦ elim (Bool-cases entry.yanked) [
        | inl y ↦ inl (rw (e, d, y) refl)
        | inr y ↦ elim (Option-cases (parse entry.vers)) [
          | inl p ↦ inl (rw (e, d, y, p) refl)
          | inr (version, p) ↦
              let o : Offers line entry.vers = record {
                entry = entry;
                version = version;
                not_blank = e;
                reads = d;
                not_yanked = y;
                vers_is = refl;
                parses = p;
              } in
              inr (entry.vers, o, take_line-Offers line entry.vers best o)
        ]
      ]
    ]
  ]

  take_line-AtMost :
      (line : Text) (q : SemVer) (best : Best)
      → AtMost q best
      → AtMost q (take_line from_str line best)
  take_line-AtMost line q best h = elim (take_line-cases line best) [
    | inl e ↦ rw e h
    | inr (s, o, e) ↦ rw e (better-AtMost o.version q s best h)
  ]

  best_of-AtMost :
      (lines : List Text) (q : SemVer) (best : Best)
      → AtMost q best
      → AtMost q (best_of from_str lines best)
  unfolding best_of
  best_of-AtMost [] q best h = h
  best_of-AtMost (line ∷ lines) q best h =
      best_of-AtMost lines q (take_line from_str line best) (take_line-AtMost line q best h)

  Listed-AtMost :
      (lines : List Text) (s : Text) (q : SemVer) (best : Best)
      → Listed lines s
      → parse s ≡ some q
      → AtMost q (best_of from_str lines best)
  unfolding best_of
  Listed-AtMost [] s q best l h = elim l [ ]
  Listed-AtMost (line ∷ lines) s q best (there l) h =
      Listed-AtMost lines s q (take_line from_str line best) l h
  Listed-AtMost (line ∷ lines) s q best (here o) h =
      let same_version : o.version ≡ q = ground (arith, o.parses) in
      best_of-AtMost lines q (take_line from_str line best)
        (rw (take_line-Offers line s best o, ← same_version) (better_self o.version s best))

  Listed-parses :
      (lines : List Text) (s : Text) → Listed lines s → (q : SemVer) × (parse s ≡ some q)
  Listed-parses [] s l = elim l [ ]
  Listed-parses (line ∷ lines) s (here o) = (o.version, o.parses)
  Listed-parses (line ∷ lines) s (there l) = Listed-parses lines s l

  -- Where none is chosen, none is offered.
  pub latest_from_index-none :
      (body w : Text) → latest_from_index from_str body ≡ none → Listed (split_lines body) w → ⊥
  unfolding latest_from_index
  latest_from_index-none body w e l =
      let (q, h) = Listed-parses (split_lines body) w l in
      let most = Listed-AtMost (split_lines body) w q none l h in
      elim (Option-cases (best_of from_str (split_lines body) none)) [
        | inl b ↦ rw b at most
        | inr (kept, b) ↦ ground arith
      ]
