-- ===== src/External/Http.antt =====
-- The `http` crate's headers, as the code calls them, with what it relies on. A name is in lower case.
use mobux.Prelude.{
  ℕ, Bool, true, false, ◌||◌, ◌==◌, within, all, List, [], ◌∷◌, ◌++◌, Option, none, some, ◌≡◌,
}
use mobux.Utf8.{Bytes, Text, eq_bytes}

-- `HeaderMap`, by `get_all`, `remove`, `insert` and `append`, `HeaderValue::from_bytes`,
-- `HeaderValue::to_str` and `HeaderName::from_bytes`. A value is its bytes.
pub record Http : Type 1 where
  pub HeaderMap : Type 0
  pub get_all : HeaderMap → Text → List Bytes
  pub remove : Text → HeaderMap → HeaderMap
  pub insert : Text → Bytes → HeaderMap → HeaderMap
  pub append : Text → Bytes → HeaderMap → HeaderMap
  pub accepts : Bytes → Bool
  pub to_str : Bytes → Option Text
  pub name_from_bytes : Bytes → Option Text

-- What `to_str` reads: visible ASCII, spaces and tabs.
abbrev pub is_header_char : ℕ → Bool
is_header_char c = within 0x20 0x7E c || c == 9

-- `remove` takes every value of the name and `insert` leaves one; other names keep theirs.
pub record IsHttp (http : Http) : Type 0 where
  pub get_all-remove : (h : http.HeaderMap) (n : Text) → http.get_all (http.remove n h) n ≡ []
  pub get_all-remove_other :
      (h : http.HeaderMap) (n m : Text)
      → eq_bytes m n ≡ false
      → http.get_all (http.remove n h) m ≡ http.get_all h m
  pub get_all-insert :
      (h : http.HeaderMap) (n : Text) (v : Bytes) → http.get_all (http.insert n v h) n ≡ v ∷ []
  pub get_all-insert_other :
      (h : http.HeaderMap) (n m : Text) (v : Bytes)
      → eq_bytes m n ≡ false
      → http.get_all (http.insert n v h) m ≡ http.get_all h m
  pub get_all-append :
      (h : http.HeaderMap) (n : Text) (v : Bytes)
      → http.get_all (http.append n v h) n ≡ http.get_all h n ++ v ∷ []
  pub get_all-append_other :
      (h : http.HeaderMap) (n m : Text) (v : Bytes)
      → eq_bytes m n ≡ false
      → http.get_all (http.append n v h) m ≡ http.get_all h m
  pub to_str-chars :
      (v : Bytes) (s : Text) → http.to_str v ≡ some s → (s ≡ v) × (all is_header_char s ≡ true)

module _ (http : Http) where
  -- `get`: the first value.
  abbrev first : List Bytes → Option Bytes
  first [] = none
  first (v ∷ _) = some v

  unfoldable pub get : http.HeaderMap → Text → Option Bytes
  get h name = first (http.get_all h name)

  -- `value.to_str().ok()` of the values
  unfoldable pub texts : List Bytes → List Text
  texts [] = []
  texts (v ∷ vs) = elim (http.to_str v) [ none ↦ texts vs | some s ↦ s ∷ texts vs ]
