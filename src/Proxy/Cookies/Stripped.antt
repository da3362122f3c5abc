-- ===== src/Proxy/Cookies/Stripped.antt =====
-- What is left of the cookies.
use mobux.External.Http.{Http, IsHttp}
use mobux.Prelude.{true, false, [], ◌∷◌, ◌≡◌, refl, ◌∙◌, is_empty, inl, inr, Bool-cases}
use mobux.Proxy.Cookies.{pairs, others, cookie, put_cookie, strip_cookie}
use mobux.Strings.{chars, join}
use mobux.Utf8.{Bytes, Text, eq_bytes}

module _ {http : Http} (law : IsHttp http) where
  -- The values of the header that is put.
  pub put_cookie-values :
      (joined : Bytes) (h : http.HeaderMap)
      → is_empty joined ≡ false
      → http.accepts joined ≡ true
      → http.get_all (put_cookie http joined h) cookie ≡ joined ∷ []
  unfolding put_cookie
  put_cookie-values joined h e a = rw (e, a) (law.get_all-insert h cookie joined)

  pub put_cookie-empty :
      (joined : Bytes) (h : http.HeaderMap) → is_empty joined ≡ true → put_cookie http joined h ≡ h
  unfolding put_cookie
  put_cookie-empty joined h e = rw e refl

  pub put_cookie-refused :
      (joined : Bytes) (h : http.HeaderMap)
      → http.accepts joined ≡ false
      → put_cookie http joined h ≡ h
  unfolding put_cookie
  put_cookie-refused joined h a = elim (Bool-cases (is_empty joined)) [
    | inl e ↦ rw e refl
    | inr e ↦ rw (e, a) refl
  ]

  -- Every other header keeps its values.
  pub strip_cookie-other_headers :
      (h : http.HeaderMap) (name header : Text)
      → eq_bytes header cookie ≡ false
      → http.get_all (strip_cookie http h name) header ≡ http.get_all h header
  unfolding strip_cookie put_cookie
  strip_cookie-other_headers h name header e =
      let joined = join (chars "; ") (others name (pairs (http.get_all h cookie))) in
      let removed = law.get_all-remove_other h cookie header e in
      elim (Bool-cases (is_empty joined)) [
        | inl d ↦ rw (d, strip_cookie) removed
        | inr d ↦ elim (Bool-cases (http.accepts joined)) [
          | inl a ↦
              rw (d, a, strip_cookie)
                (law.get_all-insert_other (http.remove cookie h) cookie header joined e ∙ removed)
          | inr a ↦ rw (d, a, strip_cookie) removed
        ]
      ]
