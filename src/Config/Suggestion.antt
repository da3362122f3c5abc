-- ===== src/Config/Suggestion.antt =====
-- src/config.rs: the key that an unknown key is closest to.
pub mod Distance
use mobux.Prelude.{
  ℕ, zero, suc, ◌+◌, Bool, true, false, not, ◌&&◌, ◌||◌, min, List, [], ◌∷◌, Option, none, some,
  ltb, leb, ◌==◌, if◌then◌else◌, length, get_elem?,
}
use mobux.Strings.{chars, split, split_once, strip_prefix}
use mobux.Utf8.{Text}

-- `(start..=start + n).collect()`
unfoldable pub range : ℕ → ℕ → List ℕ
range start zero = start ∷ []
range start (suc n) = start ∷ range (suc start) n

-- `usize::from(left_char != *right_char)`
abbrev pub differ : ℕ → ℕ → ℕ
differ x y = if x == y then 0 else 1

-- The rest of `current`, behind its entry `before`.
unfoldable pub fill : ℕ → Text → List ℕ → ℕ → List ℕ
fill left_char (right_char ∷ rest) (above_left ∷ above ∷ previous) before =
    let value = min (min (above_left + differ left_char right_char) (above + 1)) (before + 1) in
    value ∷ fill left_char rest (above ∷ previous) value
fill left_char _ _ before = []

-- The loop over the rows, which ends with the last row in `previous`.
unfoldable pub rows : ℕ → Text → Text → List ℕ → List ℕ
rows row [] right previous = previous
rows row (left_char ∷ left) right previous =
    rows (suc row) left right (suc row ∷ fill left_char right previous (suc row))

abbrev pub or_zero : Option ℕ → ℕ
or_zero none = 0
or_zero (some n) = n

-- An index that is there: the row has an entry more than `right` has characters.
unfoldable pub edit_distance : Text → Text → ℕ
edit_distance left right =
    or_zero (get_elem? (rows 0 left right (range 0 (length right))) (length right))

unfoldable pub every_second : List Text → List Text
every_second [] = []
every_second (a ∷ []) = []
every_second (a ∷ b ∷ rest) = b ∷ every_second rest

-- `split('`').skip(1).step_by(2)`
unfoldable pub backticked : Text → List Text
backticked text = every_second (split b'`' text)

-- `min_by_key`: the first of the least.
unfoldable pub closest : Text → List Text → Option (ℕ × Text)
closest unknown [] = none
closest unknown (candidate ∷ rest) =
    let distance = edit_distance unknown candidate in
    elim (closest unknown rest) [
      | none ↦ some (distance, candidate)
      | some (d, best) ↦ if leb distance d then some (distance, candidate) else some (d, best)
    ]

unfoldable pub near_enough : ℕ × Text → Option Text
near_enough (distance, candidate) =
    if distance == 0 || ltb 3 distance || leb (length candidate) distance
    then none
    else some candidate

unfoldable pub suggest : Text × Text → Option Text
suggest (unknown, rest) = elim (closest unknown (backticked rest)) [
  | none ↦ none
  | some best ↦ near_enough best
]

unfoldable pub unknown_field_suggestion : Text → Option Text
unknown_field_suggestion message = elim (strip_prefix (chars "unknown field `") message) [
  | none ↦ none
  | some rest ↦ elim (split_once b'`' rest) [ none ↦ none | some parts ↦ suggest parts ]
]
