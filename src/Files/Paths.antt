-- ===== src/Files/Paths.antt =====
-- `std::path` on Unix: a path is its text.
use mobux.Prelude.{
  Bool, true, false, ◌&&◌, ◌||◌, List, [], ◌∷◌, ◌++◌, Option, none, some, ◌==◌, if◌then◌else◌,
  is_empty,
}
use mobux.Strings.{chars, split, strip_last}
use mobux.Utf8.{Text, eq_bytes}

pub data Component : Type 0 where
  root_dir cur_dir parent_dir : Component
  normal : Text → Component

abbrev pub is_normal : Component → Bool
is_normal (normal _) = true
is_normal _ = false

unfoldable pub eq_component : Component → Component → Bool
eq_component root_dir root_dir = true
eq_component cur_dir cur_dir = true
eq_component parent_dir parent_dir = true
eq_component (normal a) (normal b) = eq_bytes a b
eq_component _ _ = false

-- The component of a piece between slashes: an empty one and `.` are passed over.
unfoldable pub piece : Text → List Component
piece p =
    if is_empty p || eq_bytes p (chars ".")
    then []
    else if eq_bytes p (chars "..")
    then parent_dir ∷ []
    else normal p ∷ []

unfoldable pub pieces : List Text → List Component
pieces [] = []
pieces (p ∷ ps) = piece p ++ pieces ps

-- A `.` in front of a relative path is a component.
unfoldable pub relative : List Text → List Component
relative [] = []
relative (p ∷ ps) = if eq_bytes p (chars ".") then cur_dir ∷ pieces ps else piece p ++ pieces ps

-- `is_absolute`
abbrev pub is_absolute : Text → Bool
is_absolute [] = false
is_absolute (c ∷ _) = c == b'/'

-- `components`
unfoldable pub components : Text → List Component
components path =
    if is_absolute path then root_dir ∷ pieces (split b'/' path) else relative (split b'/' path)

unfoldable pub is_prefix : List Component → List Component → Bool
is_prefix [] ys = true
is_prefix (x ∷ xs) [] = false
is_prefix (x ∷ xs) (y ∷ ys) = eq_component x y && is_prefix xs ys

-- `path.starts_with(base)`, by components
abbrev pub path_starts_with : Text → Text → Bool
path_starts_with path base = is_prefix (components base) (components path)

abbrev pub ends_with_slash : Text → Bool
ends_with_slash path = elim (strip_last b'/' path) [ some _ ↦ true | none ↦ false ]

-- `join`
unfoldable pub join : Text → Text → Text
join base path =
    if is_absolute path
    then path
    else if is_empty base || ends_with_slash base
    then base ++ path
    else base ++ b'/' ∷ path

abbrev last_normal : List Component → Option Text
last_normal [] = none
last_normal (normal name ∷ []) = some name
last_normal (_ ∷ []) = none
last_normal (_ ∷ c ∷ cs) = last_normal (c ∷ cs)

-- `file_name`
unfoldable pub file_name : Text → Option Text
file_name path = last_normal (components path)
