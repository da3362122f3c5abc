-- ===== src/Auth/Session.antt =====
-- A browser that logs in once is let in by the cookie from then on, and nobody else is.
use mobux.Auth.CookieHeader.{
  is_cookie_char, first_piece, stored, sent, cookie_char-free, is_pair_char, cookie_char-pair,
  pair_chars, pair_char-free, trim-pair, any_session-sent,
}
use mobux.Auth.{
  AuthConfig, Settings, is_public_path, attributes, build_session_cookie, is_session_pair,
  cookie_ok, right_parts, basic_ok, passed, unauthorized, header_text, set_cookie, check,
  auth_middleware,
}
use mobux.Auth.Evidence.{HasSession, HasCredentials, cookie_ok-HasSession, basic_ok-HasCredentials}
use mobux.External.Http.{Http, get}
use mobux.External.{Base64, IsBase64}
use mobux.Prelude.{
  true, false, List, [], ◌∷◌, ◌++◌, none, some, ◌≡◌, refl, ◌∙◌, ap, all, drop, ◌⊎◌, inl, inr,
  Bool-cases,
}
use mobux.Strings.Equality.{eq_bytes_self}
use mobux.Strings.Lines.{is_free, AllFree, split_once-free}
use mobux.Strings.Pieces.{split-append}
use mobux.Strings.{chars, split_once, splitn, strip_prefix, trim}
use mobux.Utf8.RoundTrip.{is_ascii, from_utf8-ascii}
use mobux.Utf8.{Text}

stored-cookie :
    (name value : Text) (settings : Settings)
    → is_free b';' (name ++ b'=' ∷ value) ≡ true
    → stored (build_session_cookie name value settings) ≡ name ++ b'=' ∷ value
unfolding stored build_session_cookie
stored-cookie name value settings free =
    ap first_piece (split-append b';' (name ++ b'=' ∷ value) (drop 1 (attributes settings)) free)

session_pair :
    (auth : AuthConfig)
    → all is_cookie_char auth.session_cookie_name ≡ true
    → all is_pair_char (auth.session_cookie_name ++ b'=' ∷ auth.session_cookie_value) ≡ true
    → is_session_pair auth
        (split_once b'=' (trim (auth.session_cookie_name ++ b'=' ∷ auth.session_cookie_value)))
      ≡ true
unfolding is_session_pair
session_pair auth h fits =
    rw
      (
        trim-pair (auth.session_cookie_name ++ b'=' ∷ auth.session_cookie_value) fits,
        split_once-free b'=' auth.session_cookie_name auth.session_cookie_value
            (cookie_char-free auth.session_cookie_name h),
        is_session_pair,
        eq_bytes_self auth.session_cookie_name,
        eq_bytes_self auth.session_cookie_value,
      )
      refl

splitn-two : (a b : Text) → is_free b':' a ≡ true → splitn 2 b':' (a ++ b':' ∷ b) ≡ a ∷ b ∷ []
unfolding splitn
splitn-two a b free = rw (splitn, split_once-free b':' a b free) refl

basic_ok-login :
    (base64 : Base64)
    → IsBase64 base64
    → (auth : AuthConfig) → is_free b':' auth.user ≡ true
    → all is_ascii (auth.user ++ b':' ∷ auth.pass) ≡ true
    → basic_ok base64 auth (some (chars "Basic " ++ base64.encode (auth.user ++ b':' ∷ auth.pass)))
      ≡ true
unfolding basic_ok strip_prefix right_parts
basic_ok-login base64 laws auth free ascii =
    rw
      (
        laws.decode-encode (auth.user ++ b':' ∷ auth.pass),
        from_utf8-ascii (auth.user ++ b':' ∷ auth.pass) ascii,
        splitn-two auth.user auth.pass free,
        eq_bytes_self auth.user,
        eq_bytes_self auth.pass,
      )
      refl

module _ (base64 : Base64) (laws : IsBase64 base64) (http : Http) where
  -- A request on a private path is refused, or it has the session's cookie or the credentials.
  check-evidence :
      (auth : AuthConfig) (settings : Settings) (h : http.HeaderMap)
      → (check base64 http auth settings h ≡ unauthorized)
        ⊎ (HasSession auth (header_text http (get http h (chars "cookie")))
            ⊎ HasCredentials base64 auth (header_text http (get http h (chars "authorization"))))
  unfolding check
  check-evidence auth settings h =
      let cookie = header_text http (get http h (chars "cookie")) in
      let authorization = header_text http (get http h (chars "authorization")) in
      elim (Bool-cases (cookie_ok auth cookie)) [
        | inl e ↦ inr (inl (cookie_ok-HasSession auth cookie e))
        | inr e ↦ elim (Bool-cases (basic_ok base64 auth authorization)) [
          | inl d ↦ inr (inr (basic_ok-HasCredentials auth base64 authorization d))
          | inr d ↦ inl (rw (check, e, d) refl)
        ]
      ]

  -- On a private path, with ASCII credentials whose user has no colon and a cookie whose name and value
  -- hold none of whitespace, `;` and `=`: a request with the credentials and no cookie passes and is
  -- given the session cookie, where it can be a header; every later request that sends the stored
  -- cookie, among others in front of it and behind it, passes without credentials; and any request is
  -- refused, unless a piece of its `Cookie` header is the session's pair or its `Authorization` header
  -- has exactly the user and the password, in base64.
  pub auth_middleware-session :
      (auth : AuthConfig) (settings : Settings) (path : Text)
      → is_public_path path ≡ false
      → is_free b':' auth.user ≡ true
      → all is_ascii (auth.user ++ b':' ∷ auth.pass) ≡ true
      → all is_cookie_char auth.session_cookie_name ≡ true
      → all is_cookie_char auth.session_cookie_value ≡ true
      → (login later stranger : http.HeaderMap) (before after : List Text) → AllFree b';' before
      → header_text http (get http login (chars "cookie")) ≡ none
      → header_text http (get http login (chars "authorization"))
        ≡ some (chars "Basic " ++ base64.encode (auth.user ++ b':' ∷ auth.pass))
      → header_text http (get http later (chars "cookie"))
        ≡ some (
            sent before
              (stored
                (build_session_cookie auth.session_cookie_name auth.session_cookie_value settings))
              after)
      → (auth_middleware base64 http (some auth) settings path login
          ≡ passed (set_cookie http auth settings))
        × (auth_middleware base64 http (some auth) settings path later ≡ passed none)
        × ((auth_middleware base64 http (some auth) settings path stranger ≡ unauthorized)
            ⊎ (HasSession auth (header_text http (get http stranger (chars "cookie")))
                ⊎ HasCredentials base64 auth
                    (header_text http (get http stranger (chars "authorization")))))
  unfolding auth_middleware check cookie_ok basic_ok
  auth_middleware-session auth settings path private colon ascii name_ok value_ok login later
        stranger before after free no_cookie credentials kept =
      let pair = auth.session_cookie_name ++ b'=' ∷ auth.session_cookie_value in
      let fits =
        pair_chars auth.session_cookie_name auth.session_cookie_value
          (cookie_char-pair auth.session_cookie_name name_ok)
          (cookie_char-pair auth.session_cookie_value value_ok) in
      let pair_free = pair_char-free pair fits in
      let cookie =
        kept
        ∙ ap (λ p. some (sent before p after))
            (stored-cookie auth.session_cookie_name auth.session_cookie_value settings pair_free) in
      let session =
        any_session-sent auth pair pair_free (session_pair auth name_ok fits) before after free in
      (
        rw (private, no_cookie, credentials, basic_ok-login base64 laws auth colon ascii) refl,
        rw (private, cookie, session) refl,
        rw private (check-evidence auth settings stranger),
      )
