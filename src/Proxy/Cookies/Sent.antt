-- ===== src/Proxy/Cookies/Sent.antt =====
-- A client's cookies, with one name taken out.
use mathlib.Core.List.{flatten}
use mobux.External.Http.{Http, IsHttp}
use mobux.Prelude.{
  ℕ, Bool, true, false, not, ◌&&◌, List, [], ◌∷◌, ◌++◌, map, ◌≡◌, refl, sym, ap, ◌∙◌, arith, ◌==◌,
  all, is_empty, inl, inr, Bool-cases, if◌then◌else◌,
}
use mobux.Proxy.Cookies.Stripped.{put_cookie-values, put_cookie-empty, strip_cookie-other_headers}
use mobux.Proxy.Cookies.Trimmed.{AllPairs, trimmed-join}
use mobux.Proxy.Cookies.{
  is_ascii_whitespace, onto, trim_ascii_start, trim_ascii_end, trim_ascii, before_value,
  cookie_name, pairs, others, cookie, put_cookie, strip_cookie,
}
use mobux.Strings.Lines.{is_free}
use mobux.Strings.{chars, join}
use mobux.Utf8.{Bytes, Text, eq_bytes}

-- A cookie as a client keeps it: its name and its value.
abbrev pub Cookie : Type 0
Cookie = Bytes × Bytes

abbrev pub print_cookie : Cookie → Bytes
print_cookie (name, value) = name ++ b'=' ∷ value

abbrev pub print_cookies : List Cookie → Bytes
print_cookies cookies = join (chars "; ") (map print_cookie cookies)

-- The cookies with another name.
unfoldable pub without : Text → List Cookie → List Cookie
without name [] = []
without name ((n, v) ∷ cookies) =
    let rest = without name cookies in if eq_bytes n name then rest else (n, v) ∷ rest

-- A byte that a value may hold, and one that a name may hold.
abbrev pub is_value_byte : ℕ → Bool
is_value_byte c = not (is_ascii_whitespace c) && not (c == b';')

abbrev pub is_name_byte : ℕ → Bool
is_name_byte c = is_value_byte c && not (c == b'=')

abbrev pub AllSent : List Cookie → Type 0
AllSent [] = Unit
AllSent ((n, v) ∷ cookies) =
    (all is_name_byte n ≡ true) × (all is_value_byte v ≡ true) × AllSent cookies

-- The cookies of several headers.
abbrev pub AllHeaders : List (List Cookie) → Type 0
AllHeaders [] = Unit
AllHeaders (cookies ∷ headers) = AllSent cookies × AllHeaders headers

printed-value_bytes :
    (n v : Bytes)
    → all is_name_byte n ≡ true
    → all is_value_byte v ≡ true
    → all is_value_byte (n ++ b'=' ∷ v) ≡ true
unfolding all
printed-value_bytes [] v h k = rw k refl
printed-value_bytes (c ∷ n) v h k = elim (Bool-cases (is_name_byte c)) [
  | inr e ↦ absurd (ground (arith, rw (e, all) at h))
  | inl e ↦
      let fits : is_value_byte c ≡ true = ground arith in
      rw (fits, printed-value_bytes n v (rw (e, all) at h) k) refl
]

value_bytes-free : (t : Bytes) → all is_value_byte t ≡ true → is_free b';' t ≡ true
unfolding all
value_bytes-free [] h = refl
value_bytes-free (c ∷ t) h = elim (Bool-cases (is_value_byte c)) [
  | inr e ↦ absurd (ground (arith, rw (e, all) at h))
  | inl e ↦
      let other : (c == b';') ≡ false = ground arith in
      rw (other, value_bytes-free t (rw (e, all) at h)) refl
]

trim_end-value_bytes : (t : Bytes) → all is_value_byte t ≡ true → trim_ascii_end t ≡ t
unfolding all trim_ascii_end onto
trim_end-value_bytes [] h = refl
trim_end-value_bytes (c ∷ t) h = elim (Bool-cases (is_value_byte c)) [
  | inr e ↦ absurd (ground (arith, rw (e, all) at h))
  | inl e ↦ ap (onto c) (trim_end-value_bytes t (rw (e, all) at h)) ∙ onto-solid c t (ground arith)
]
  where
    onto-solid : (c : ℕ) (t : Bytes) → is_ascii_whitespace c ≡ false → onto c t ≡ c ∷ t
    onto-solid c [] e = rw e refl
    onto-solid c (d ∷ t) e = refl

trim-value_bytes : (t : Bytes) → all is_value_byte t ≡ true → trim_ascii t ≡ t
unfolding trim_ascii trim_ascii_start all
trim-value_bytes [] h = trim_end-value_bytes [] h
trim-value_bytes (c ∷ t) h = elim (Bool-cases (is_ascii_whitespace c)) [
  | inl e ↦ absurd (ground (arith, rw (e, all) at h))
  | inr e ↦ rw e (trim_end-value_bytes (c ∷ t) h)
]

before_value-printed : (n v : Bytes) → all is_name_byte n ≡ true → before_value (n ++ b'=' ∷ v) ≡ n
unfolding all before_value
before_value-printed [] v h = refl
before_value-printed (c ∷ n) v h = elim (Bool-cases (is_name_byte c)) [
  | inr e ↦ absurd (ground (arith, rw (e, all) at h))
  | inl e ↦
      let equals : (c == b'=') ≡ false = ground arith in
      let ends : (c == b';') ≡ false = ground arith in
      rw (equals, ends) (ap (◌∷◌ c) (before_value-printed n v (rw (e, all) at h)))
]

name_bytes-value : (n : Bytes) → all is_name_byte n ≡ true → all is_value_byte n ≡ true
unfolding all
name_bytes-value [] h = refl
name_bytes-value (c ∷ n) h = elim (Bool-cases (is_name_byte c)) [
  | inr e ↦ absurd (ground (arith, rw (e, all) at h))
  | inl e ↦
      let fits : is_value_byte c ≡ true = ground arith in
      rw (fits, name_bytes-value n (rw (e, all) at h)) refl
]

pub cookie_name-printed :
    (n v : Bytes) → all is_name_byte n ≡ true → cookie_name (n ++ b'=' ∷ v) ≡ n
unfolding cookie_name
cookie_name-printed n v h =
    ap trim_ascii (before_value-printed n v h) ∙ trim-value_bytes n (name_bytes-value n h)

not_empty : (n v : Bytes) → is_empty (n ++ b'=' ∷ v) ≡ false
not_empty [] v = refl
not_empty (c ∷ n) v = refl

printed-AllPairs : (cookies : List Cookie) → AllSent cookies → AllPairs (map print_cookie cookies)
printed-AllPairs [] h = tt
printed-AllPairs ((n, v) ∷ cookies) (name_ok, value_ok, h) =
    let bytes = printed-value_bytes n v name_ok value_ok in
    (
      record {
        free = value_bytes-free (n ++ b'=' ∷ v) bytes;
        trims = trim-value_bytes (n ++ b'=' ∷ v) bytes;
        some_left = not_empty n v;
      },
      printed-AllPairs cookies h,
    )

map-append :
    (a b : List Cookie) → map print_cookie (a ++ b) ≡ map print_cookie a ++ map print_cookie b
map-append [] b = refl
map-append (c ∷ a) b = ap (◌∷◌ (print_cookie c)) (map-append a b)

pairs-printed :
    (headers : List (List Cookie))
    → AllHeaders headers
    → pairs (map print_cookies headers) ≡ map print_cookie (flatten headers)
unfolding pairs flatten
pairs-printed [] h = refl
pairs-printed (cookies ∷ headers) (here, h) =
    ap (λ ps. ps ++ pairs (map print_cookies headers))
      (trimmed-join (map print_cookie cookies) (printed-AllPairs cookies here))
    ∙ ap (λ ps. map print_cookie cookies ++ ps) (pairs-printed headers h)
    ∙ sym (map-append cookies (flatten headers))

AllSent-append : (a b : List Cookie) → AllSent a → AllSent b → AllSent (a ++ b)
AllSent-append [] b h k = k
AllSent-append ((n, v) ∷ a) b (name_ok, value_ok, h) k = (name_ok, value_ok, AllSent-append a b h k)

AllSent-flatten : (headers : List (List Cookie)) → AllHeaders headers → AllSent (flatten headers)
unfolding flatten
AllSent-flatten [] h = tt
AllSent-flatten (cookies ∷ headers) (here, h) =
    AllSent-append cookies (flatten headers) here (AllSent-flatten headers h)

others-printed :
    (name : Text) (cookies : List Cookie)
    → AllSent cookies
    → others name (map print_cookie cookies) ≡ map print_cookie (without name cookies)
unfolding others without
others-printed name [] h = refl
others-printed name ((n, v) ∷ cookies) (name_ok, value_ok, h) =
    let is = cookie_name-printed n v name_ok in
    elim (Bool-cases (eq_bytes n name)) [
      | inl e ↦ rw (is, e) (others-printed name cookies h)
      | inr e ↦ rw (is, e) (ap (◌∷◌ (n ++ b'=' ∷ v)) (others-printed name cookies h))
    ]

joined-empty : (cookies : List Cookie) → is_empty (print_cookies cookies) ≡ is_empty cookies
unfolding join
joined-empty [] = refl
joined-empty (([], v) ∷ []) = refl
joined-empty ((c ∷ n, v) ∷ []) = refl
joined-empty (([], v) ∷ d ∷ cookies) = refl
joined-empty ((c ∷ n, v) ∷ d ∷ cookies) = refl

-- The headers' values for cookies that are left: one, or none.
abbrev pub header_values : List Cookie → List Bytes
header_values cookies = if is_empty cookies then [] else print_cookies cookies ∷ []

module _ {http : Http} (law : IsHttp http) where
  -- For `Cookie` headers that hold a client's cookies, with names and values of the bytes that these may
  -- hold, the request is left with one `Cookie` header of the cookies with another name, as they were
  -- and in their order, or with none where there are no others, if the value makes a header; every
  -- other header keeps its values.
  pub strip_cookie-without :
      (h : http.HeaderMap) (name : Text) (headers : List (List Cookie))
      → AllHeaders headers
      → http.get_all h cookie ≡ map print_cookies headers
      → http.accepts (print_cookies (without name (flatten headers))) ≡ true
      → (other : Text) → eq_bytes other cookie ≡ false
      → (http.get_all (strip_cookie http h name) cookie
          ≡ header_values (without name (flatten headers)))
        × (http.get_all (strip_cookie http h name) other ≡ http.get_all h other)
  unfolding strip_cookie
  strip_cookie-without h name headers sent given accepted other apart =
      let cookies = flatten headers in
      let left = without name cookies in
      let removed = http.remove cookie h in
      let kept : others name (pairs (http.get_all h cookie)) ≡ map print_cookie left =
        ap (λ vs. others name (pairs vs)) given
        ∙ ap (others name) (pairs-printed headers sent)
        ∙ others-printed name cookies (AllSent-flatten headers sent) in
      let put : strip_cookie http h name ≡ put_cookie http (print_cookies left) removed =
        ap (λ ps. put_cookie http (join (chars "; ") ps) removed) kept in
      let values = ap (λ m. http.get_all m cookie) put in
      (
        elim (Bool-cases (is_empty left)) [
          | inl e ↦
              values
              ∙ ap (λ m. http.get_all m cookie)
                  (put_cookie-empty law (print_cookies left) removed (joined-empty left ∙ e))
              ∙ law.get_all-remove h cookie
              ∙ rw e refl
          | inr e ↦
              values
              ∙ put_cookie-values law (print_cookies left) removed (joined-empty left ∙ e) accepted
              ∙ rw e refl
        ],
        strip_cookie-other_headers law h name other apart,
      )
