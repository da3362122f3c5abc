-- ===== src/Update/Index.antt =====
-- src/update.rs: `latest_from_index`, the choice of a version from the index. What `serde_json` makes of
-- a line is a parameter.
pub mod Latest
use mobux.Prelude.Order.{is_gt}
use mobux.Prelude.{Bool, List, [], ◌∷◌, Option, none, some, if◌then◌else◌, is_empty}
use mobux.Strings.{split_lines, trim}
use mobux.Update.SemVer.{SemVer, cmp_version, parse}
use mobux.Utf8.{Text}

pub record Entry : Type 0 where
  pub vers : Text
  pub yanked : Bool

-- The version kept so far, with its text.
abbrev pub Best : Type 0
Best = Option (SemVer × Text)

unfoldable pub better : SemVer → Text → Best → Best
better parsed vers none = some (parsed, vers)
better parsed vers (some (b, s)) =
    if is_gt (cmp_version parsed b) then some (parsed, vers) else some (b, s)

module _ (from_str : Text → Option Entry) where
  -- One round of the loop, with its `continue`s.
  unfoldable pub take_line : Text → Best → Best
  take_line line best = if is_empty (trim line) then best else elim (from_str (trim line)) [
    | none ↦ best
    | some entry ↦
        if entry.yanked
        then best
        else elim (parse entry.vers) [ none ↦ best | some parsed ↦ better parsed entry.vers best ]
  ]

  unfoldable pub best_of : List Text → Best → Best
  unfolding take_line
  best_of [] best = best
  best_of (line ∷ lines) best = best_of lines (take_line line best)

  unfoldable pub latest_from_index : Text → Option Text
  unfolding best_of split_lines
  latest_from_index body = elim (best_of (split_lines body) none) [
    | none ↦ none
    | some (_, s) ↦ some s
  ]
