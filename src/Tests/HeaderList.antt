-- ===== src/Tests/HeaderList.antt =====
-- Headers as a list of names and values.
use mobux.External.Http.{Http, IsHttp, is_header_char}
use mobux.Prelude.{
  true, false, List, [], ◌∷◌, ◌++◌, none, some, all, subst, sym, arith, if◌then◌else◌, ◌≡◌, refl,
  ap, inl, inr, Bool-cases,
}
use mobux.Strings.Equality.{eq_bytes_self, eq_bytes→≡, eq_bytes-sym}
use mobux.Utf8.{Bytes, Text, eq_bytes}

abbrev Headers : Type 0
Headers = List (Text × Bytes)

abbrev values : Headers → Text → List Bytes
values [] name = []
values ((k, v) ∷ h) name = let rest = values h name in if eq_bytes k name then v ∷ rest else rest

abbrev without : Text → Headers → Headers
without name [] = []
without name ((k, v) ∷ h) =
    let rest = without name h in if eq_bytes k name then rest else (k, v) ∷ rest

abbrev pub list_http : Http
list_http = record {
  HeaderMap = Headers;
  get_all = values;
  remove = without;
  insert = λ name v h. (name, v) ∷ without name h;
  append = λ name v h. h ++ (name, v) ∷ [];
  accepts = λ bytes. true;
  to_str = λ v. if all is_header_char v then some v else none;
  name_from_bytes = λ b. some b;
}

values-without : (h : Headers) (n : Text) → values (without n h) n ≡ []
values-without [] n = refl
values-without ((k, v) ∷ h) n = elim (Bool-cases (eq_bytes k n)) [
  | inl e ↦ rw e (values-without h n)
  | inr e ↦ rw e (rw e (values-without h n))
]

differs : (k n m : Text) → eq_bytes m n ≡ false → eq_bytes k n ≡ true → eq_bytes k m ≡ false
differs k n m other e = rw (eq_bytes→≡ k n e, eq_bytes-sym n m) other

values-without_other :
    (h : Headers) (n m : Text) → eq_bytes m n ≡ false → values (without n h) m ≡ values h m
values-without_other [] n m other = refl
values-without_other ((k, v) ∷ h) n m other = elim (Bool-cases (eq_bytes k n)) [
  | inl e ↦ rw (e, differs k n m other e) (values-without_other h n m other)
  | inr e ↦ elim (Bool-cases (eq_bytes k m)) [
    | inl d ↦ rw e (rw (d, values-without_other h n m other) refl)
    | inr d ↦ rw e (rw d (values-without_other h n m other))
  ]
]

values-append :
    (h : Headers) (n : Text) (v : Bytes) → values (h ++ (n, v) ∷ []) n ≡ values h n ++ v ∷ []
values-append [] n v = rw (eq_bytes_self n) refl
values-append ((k, w) ∷ h) n v = elim (Bool-cases (eq_bytes k n)) [
  | inl e ↦ rw e (ap (◌∷◌ w) (values-append h n v))
  | inr e ↦ rw e (values-append h n v)
]

values-append_other :
    (h : Headers) (n m : Text) (v : Bytes)
    → eq_bytes m n ≡ false
    → values (h ++ (n, v) ∷ []) m ≡ values h m
values-append_other [] n m v other = rw (eq_bytes-sym n m, other) refl
values-append_other ((k, w) ∷ h) n m v other = elim (Bool-cases (eq_bytes k m)) [
  | inl e ↦ rw e (ap (◌∷◌ w) (values-append_other h n m v other))
  | inr e ↦ rw e (values-append_other h n m v other)
]

insert_self : (h : Headers) (n : Text) (v : Bytes) → values ((n, v) ∷ without n h) n ≡ v ∷ []
insert_self h n v = rw (eq_bytes_self n, values-without h n) refl

insert_other :
    (h : Headers) (n m : Text) (v : Bytes)
    → eq_bytes m n ≡ false
    → values ((n, v) ∷ without n h) m ≡ values h m
insert_other h n m v other = rw (eq_bytes-sym n m, other) (values-without_other h n m other)

to_str-chars :
    (v : Bytes) (s : Text) → list_http.to_str v ≡ some s → (s ≡ v) × (all is_header_char s ≡ true)
to_str-chars v s h = elim (Bool-cases (all is_header_char v)) [
  | inr e ↦ absurd (ground (arith, rw e at h))
  | inl e ↦
      let same : v ≡ s = ground (arith, rw e at h) in
      (sym same, subst (λ t. all is_header_char t ≡ true) same e)
]

pub list_http-IsHttp : IsHttp list_http
list_http-IsHttp = record {
  get_all-remove = values-without;
  get_all-remove_other = values-without_other;
  get_all-insert = insert_self;
  get_all-insert_other = insert_other;
  get_all-append = values-append;
  get_all-append_other = values-append_other;
  to_str-chars = to_str-chars;
}
