-- ===== src/Config/Suggestion/Distance.antt =====
-- The distance over two rows is the distance by its recursive definition.
use mobux.Config.Suggestion.{range, differ, fill, rows, or_zero, edit_distance}
use mobux.Prelude.{ℕ, suc, ◌+◌, min, List, [], ◌∷◌, ◌≡◌, refl, ap, ◌∙◌, length, get_elem?}
use mobux.Utf8.{Text}

-- The least number of characters to put in, take out or replace: by the first characters of both texts.
unfoldable pub levenshtein : Text → Text → ℕ
levenshtein [] b = length b
levenshtein (x ∷ a) [] = suc (length a)
levenshtein (x ∷ a) (y ∷ b) =
    min (min (levenshtein a b + differ x y) (levenshtein a (y ∷ b) + 1)) (levenshtein (x ∷ a) b + 1)

-- The first text read backwards, in front of the second.
unfoldable pub reverse_onto : Text → Text → Text
reverse_onto [] b = b
reverse_onto (x ∷ a) b = reverse_onto a (x ∷ b)

abbrev pub reversed : Text → Text
reversed a = reverse_onto a []

-- The distances to the prefixes of the right text, of which `done` is read already, backwards.
columns : Text → Text → Text → List ℕ
columns a done [] = levenshtein a done ∷ []
columns a done (y ∷ rest) = levenshtein a done ∷ columns a (y ∷ done) rest

range-columns : (done rest : Text) → range (length done) (length rest) ≡ columns [] done rest
unfolding range columns levenshtein
range-columns done [] = refl
range-columns done (y ∷ rest) = ap (◌∷◌ (length done)) (range-columns (y ∷ done) rest)

fill-columns :
    (x : ℕ) (a done rest : Text)
    → levenshtein (x ∷ a) done ∷ fill x rest (columns a done rest) (levenshtein (x ∷ a) done)
      ≡ columns (x ∷ a) done rest
unfolding fill columns levenshtein
fill-columns x a done [] = refl
fill-columns x a done (y ∷ []) = refl
fill-columns x a done (y ∷ z ∷ rest) =
    ap (◌∷◌ (levenshtein (x ∷ a) done)) (fill-columns x a (y ∷ done) (z ∷ rest))

rows-columns :
    (a left right : Text)
    → rows (length a) left right (columns a [] right) ≡ columns (reverse_onto left a) [] right
unfolding rows reverse_onto levenshtein
rows-columns a [] right = refl
rows-columns a (x ∷ left) right =
    ap (rows (suc (length a)) left right) (fill-columns x a [] right)
    ∙ rows-columns (x ∷ a) left right

last_column :
    (a done rest : Text)
    → or_zero (get_elem? (columns a done rest) (length rest))
      ≡ levenshtein a (reverse_onto rest done)
unfolding columns reverse_onto
last_column a done [] = refl
last_column a done (y ∷ rest) = last_column a (y ∷ done) rest

-- The two-row computation gives the Levenshtein distance, by the recursion on the texts read backwards.
pub edit_distance-levenshtein :
    (left right : Text) → edit_distance left right ≡ levenshtein (reversed left) (reversed right)
unfolding edit_distance
edit_distance-levenshtein left right =
    let last : List ℕ → ℕ = λ row. or_zero (get_elem? row (length right)) in
    ap (λ row. last (rows 0 left right row)) (range-columns [] right)
    ∙ ap last (rows-columns [] left right)
    ∙ last_column (reversed left) [] right
