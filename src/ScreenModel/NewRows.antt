-- ===== src/ScreenModel/NewRows.antt =====
-- src/screen_model.rs: `new_rows`, which rows of a snapshot the previous one does not hold.
use mobux.Prelude.Int.{ℤ, pos, negsuc, sub_ℕ, ◌-ℤ◌, eq_ℤ, pos_part, neg_part}
use mobux.Prelude.{
  ℕ, zero, suc, ◌+◌, ◌-◌, Bool, false, ◌&&◌, ◌||◌, not, List, [], ◌∷◌, Option, none, some, ltb, leb,
  ◌==◌, if◌then◌else◌, length, get_elem?, is_empty,
}
use mobux.Utf8.{Text, eq_bytes}

-- `at(i)`: the row of the previous snapshot, if there is one at `i`.
unfoldable pub row_at : List Text → ℤ → Option Text
row_at previous (pos i) = get_elem? previous i
row_at previous (negsuc i) = none

abbrev holds : Option Text → Text → Bool
holds none now = false
holds (some was) now = eq_bytes was now

abbrev is_text : Option Text → Bool
is_text none = false
is_text (some was) = not (is_empty was)

-- `c - p`
abbrev in_place : List Text → List Text → ℤ
in_place previous candidate = sub_ℕ (length candidate) (length previous)

-- `seen(j, shift)`, for the row `now` at `j`
unfoldable pub seen : List Text → ℤ → ℤ → ℕ → Text → Bool
unfolding row_at eq_bytes ◌-ℤ◌
seen previous home shift j now =
    holds (row_at previous (pos j -ℤ shift)) now || holds (row_at previous (pos j -ℤ home)) now

-- The counts of the inner loop.
pub record Tally : Type 0 where
  pub agree : ℕ
  pub agree_at_shift : ℕ
  pub differ : ℕ

unfoldable pub count_row : List Text → ℤ → ℤ → ℕ → Text → Tally → Tally
unfolding seen row_at eq_bytes ◌-ℤ◌
count_row previous home shift j now t =
    if is_empty now
    then t
    else (let was = row_at previous (pos j -ℤ shift) in
        let t' = record t {
          agree_at_shift = if holds was now then t.agree_at_shift + 1 else t.agree_at_shift;
        } in
        if seen previous home shift j now
        then record t' { agree = t'.agree + 1 }
        else if is_text was
        then record t' { differ = t'.differ + 1 }
        else t')

-- `for j in 0..c`
unfoldable pub tally_from : List Text → ℤ → ℤ → ℕ → List Text → Tally → Tally
unfolding count_row
tally_from previous home shift j [] t = t
tally_from previous home shift j (now ∷ rest) t =
    tally_from previous home shift (j + 1) rest (count_row previous home shift j now t)

abbrev distance : ℤ → ℕ
distance z = pos_part z + neg_part z

-- `rank > best_rank` on (agree, Reverse(differ), Reverse(distance)), in lexicographic order.
unfoldable pub outranks : Tally → ℕ → Tally → ℕ → Bool
outranks t dist u dist' =
    ltb u.agree t.agree
    || t.agree == u.agree && (ltb t.differ u.differ || t.differ == u.differ && ltb dist dist')

abbrev Best : Type 0
Best = Option (ℤ × Tally)

unfoldable pub lines_up : ℤ → ℤ → Tally → Bool
lines_up home shift t = ltb t.differ t.agree && (eq_ℤ shift home || leb 2 t.agree_at_shift)

unfoldable pub better : ℤ → ℤ → Tally → Best → Best
unfolding outranks lines_up ◌-ℤ◌
better home shift t best = if not (lines_up home shift t) then best else elim best [
  | none ↦ some (shift, t)
  | some (shift', t') ↦
      if outranks t (distance (shift -ℤ home)) t' (distance (shift' -ℤ home))
      then some (shift, t)
      else some (shift', t')
]

-- `for shift in (1 - p)..c`: so many shifts are left, the next one `first - p`.
unfoldable pub best_shift : ℕ → ℕ → List Text → List Text → Best → Best
unfolding better tally_from
best_shift zero first previous candidate best = best
best_shift (suc left) first previous candidate best =
    let shift = sub_ℕ first (length previous) in
    let home = in_place previous candidate in
    let t =
      tally_from previous home shift 0 candidate
        (record { agree = 0; agree_at_shift = 0; differ = 0 }) in
    best_shift left (first + 1) previous candidate (better home shift t best)

-- The rows that are kept, from row `j` on.
unfoldable pub unseen_from : List Text → ℤ → Option ℤ → ℕ → List Text → List Text
unfolding seen
unseen_from previous home best j [] = []
unseen_from previous home best j (now ∷ rest) =
    let rest' = unseen_from previous home best (j + 1) rest in
    if is_empty now then rest' else elim best [
      | none ↦ now ∷ rest'
      | some shift ↦ if seen previous home shift j now then rest' else now ∷ rest'
    ]

abbrev shift_of : Best → Option ℤ
shift_of none = none
shift_of (some (shift, _)) = some shift

unfoldable pub new_rows : List Text → List Text → List Text
unfolding best_shift unseen_from
new_rows previous candidate =
    let best = best_shift (length previous + length candidate - 1) 1 previous candidate none in
    unseen_from previous (in_place previous candidate) (shift_of best) 0 candidate
