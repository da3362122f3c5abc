-- ===== src/TerminalCursor/Rows.antt =====
-- The sorted list that stands for `ScreenState::rows`: order, size and lookup under each operation.
use mobux.Prelude.Int.{ℤ, ltb_ℤ, eq_ℤ}
use mobux.Prelude.{
  ◌+◌, ◌≤◌, ◌≡◌, refl, Bool, true, false, ◌||◌, List, [], ◌∷◌, Option, none, some, arith,
  if◌then◌else◌, length,
}
use mobux.TerminalCursor.{
  Row, get_row, update_row, modify_row, retain, prune_rows, max_tracked_rows,
}
use mobux.Utf8.{Text}

abbrev pub Above : ℤ → List Row → Type 0
Above r [] = Unit
Above r ((k, _) ∷ rest) = (ltb_ℤ r k ≡ true) × Above r rest

abbrev pub Sorted : List Row → Type 0
Sorted [] = Unit
Sorted ((k, _) ∷ rest) = Above k rest × Sorted rest

pub has_row : ℤ → List Row → Bool
has_row r [] = false
has_row r ((k, _) ∷ rest) = eq_ℤ k r || has_row r rest

pub Above-trans : (r k : ℤ) (rows : List Row) → ltb_ℤ r k ≡ true → Above k rows → Above r rows
Above-trans r k [] h a = tt
Above-trans r k ((j, row) ∷ rest) h (a, as') = (ground arith, Above-trans r k rest h as')

Above-update_row :
    (q r : ℤ) (f : Text → Text) (rows : List Row)
    → ltb_ℤ q r ≡ true
    → Above q rows
    → Above q (update_row r f rows)
unfolding update_row
Above-update_row q r f [] h a = (h, tt)
Above-update_row q r f ((k, row) ∷ rest) h (a, as') =
    ground (arith, Above-update_row q r f rest h as')

pub update_row-Sorted :
    (r : ℤ) (f : Text → Text) (rows : List Row) → Sorted rows → Sorted (update_row r f rows)
unfolding update_row
update_row-Sorted r f [] s = (tt, tt)
update_row-Sorted r f ((k, row) ∷ rest) (a, s) =
    ground (arith, update_row-Sorted r f rest s, Above-update_row k r f rest, Above-trans r k rest)

has_row-Above : (r : ℤ) (rows : List Row) → Above r rows → has_row r rows ≡ false
unfolding has_row
has_row-Above r [] a = refl
has_row-Above r ((k, row) ∷ rest) (a, as') = ground (arith, has_row-Above r rest as')

pub length-update_row :
    (r : ℤ) (f : Text → Text) (rows : List Row)
    → Sorted rows
    → length (update_row r f rows) ≡ (if has_row r rows then length rows else length rows + 1)
unfolding update_row has_row
length-update_row r f [] s = refl
length-update_row r f ((k, row) ∷ rest) (a, s) =
    ground (arith, length-update_row r f rest s, has_row-Above r rest, Above-trans r k rest)

pub has_row-update_row :
    (r : ℤ) (f : Text → Text) (rows : List Row) → has_row r (update_row r f rows) ≡ true
unfolding update_row has_row
has_row-update_row r f [] = ground arith
has_row-update_row r f ((k, row) ∷ rest) = ground (arith, has_row-update_row r f rest)

Above-modify_row :
    (q r : ℤ) (f : Text → Text) (rows : List Row) → Above q rows → Above q (modify_row r f rows)
unfolding modify_row
Above-modify_row q r f [] a = tt
Above-modify_row q r f ((k, row) ∷ rest) (a, as') = ground (arith, Above-modify_row q r f rest as')

pub modify_row-Sorted :
    (r : ℤ) (f : Text → Text) (rows : List Row) → Sorted rows → Sorted (modify_row r f rows)
unfolding modify_row
modify_row-Sorted r f [] s = tt
modify_row-Sorted r f ((k, row) ∷ rest) (a, s) =
    ground (arith, modify_row-Sorted r f rest s, Above-modify_row k r f rest a)

Above-retain :
    (q : ℤ) (keep : ℤ → Bool) (rows : List Row) → Above q rows → Above q (retain keep rows)
unfolding retain
Above-retain q keep [] a = tt
Above-retain q keep ((k, row) ∷ rest) (a, as') = ground (arith, Above-retain q keep rest as')

pub retain-Sorted : (keep : ℤ → Bool) (rows : List Row) → Sorted rows → Sorted (retain keep rows)
unfolding retain
retain-Sorted keep [] s = tt
retain-Sorted keep ((k, row) ∷ rest) (a, s) =
    ground (arith, retain-Sorted keep rest s, Above-retain k keep rest a)

pub prune_rows-Sorted : (rows : List Row) → Sorted rows → Sorted (prune_rows rows)
unfolding prune_rows
prune_rows-Sorted [] s = tt
prune_rows-Sorted ((k, row) ∷ rest) (a, s) = ground (arith, prune_rows-Sorted rest s)

pub length-prune_rows : (rows : List Row) → length (prune_rows rows) ≤ max_tracked_rows
unfolding prune_rows
length-prune_rows [] = omega arith
length-prune_rows (r ∷ rest) = ground (arith, length-prune_rows rest)

pub prune_rows_small : (rows : List Row) → length rows ≤ max_tracked_rows → prune_rows rows ≡ rows
unfolding prune_rows
prune_rows_small [] h = refl
prune_rows_small (r ∷ rest) h = ground arith

get_row-Above : (r : ℤ) (rows : List Row) → Above r rows → get_row r rows ≡ none
unfolding get_row
get_row-Above r [] a = refl
get_row-Above r ((k, row) ∷ rest) (a, as') = ground (arith, get_row-Above r rest as')

abbrev pub or_empty : Option Text → Text
or_empty none = []
or_empty (some row) = row

-- A row that is written is read back, made from the row that stood there or from an empty one.
pub get_row-update_row :
    (r : ℤ) (f : Text → Text) (rows : List Row)
    → Sorted rows
    → get_row r (update_row r f rows) ≡ some (f (or_empty (get_row r rows)))
unfolding update_row get_row
get_row-update_row r f [] s = ground arith
get_row-update_row r f ((k, row) ∷ rest) (a, s) =
    ground (arith, get_row-update_row r f rest s, get_row-Above r rest, Above-trans r k rest)
