-- ===== src/Tests/AuthRuns.antt =====
-- Credentials and a session at concrete requests.
use mobux.Access.Guard.{any_matches, matches}
use mobux.Auth.CookieHeader.{stored, sent}
use mobux.Auth.Evidence.{HasSession, HasCredentials}
use mobux.Auth.Session.{auth_middleware-session}
use mobux.Auth.{
  AuthConfig, Settings, is_public_path, build_session_cookie, set_cookie, auth_middleware, check,
  cookie_ok, basic_ok, right_parts, header_text, passed, unauthorized,
}
use mobux.External.Http.{get}
use mobux.Prelude.{true, false, List, [], ◌∷◌, ◌++◌, none, some, ◌≡◌, ◌⊎◌, refl, all}
use mobux.Strings.{join, split, strip_prefix, splitn, split_once, chars, starts_with}
use mobux.Tests.HeaderList.{list_http}
use mobux.Tests.Parsers.{plain_base64, plain_base64-IsBase64}
use mobux.Utf8.{from_utf8, Text, eq_bytes, is_whitespace}

abbrev auth : AuthConfig
auth = record {
  user = chars "mobux";
  pass = chars "1:23";
  session_cookie_name = chars "s";
  session_cookie_value = chars "a1";
}

abbrev settings : Settings
settings = record { base_path = chars "/m/"; tls_enabled = true; behind_tls_proxy = false }

abbrev session_text : Text
session_text =
    sent (chars "theme=dark" ∷ [])
      (stored (build_session_cookie auth.session_cookie_name auth.session_cookie_value settings))
      (chars "x=1" ∷ [])

abbrev login : List (Text × Text)
login = (chars "authorization", chars "Basic " ++ (auth.user ++ b':' ∷ auth.pass)) ∷ []

abbrev later : List (Text × Text)
later = (chars "cookie", session_text) ∷ []

-- Another password.
abbrev wrong : List (Text × Text)
wrong = (chars "authorization", chars "Basic mobux:124") ∷ []

wrong-refused :
    auth_middleware plain_base64 list_http (some auth) settings (chars "/app") wrong ≡ unauthorized
unfolding auth_middleware check cookie_ok basic_ok right_parts is_public_path any_matches matches
    starts_with eq_bytes get strip_prefix splitn split_once from_utf8 all
wrong-refused = refl

private_path : is_public_path (chars "/app") ≡ false
unfolding is_public_path any_matches matches starts_with eq_bytes
private_path = refl

auth_middleware-session_example :
    (auth_middleware plain_base64 list_http (some auth) settings (chars "/app") login
      ≡ passed (set_cookie list_http auth settings))
    × (auth_middleware plain_base64 list_http (some auth) settings (chars "/app") later
        ≡ passed none)
    × ((auth_middleware plain_base64 list_http (some auth) settings (chars "/app") wrong
          ≡ unauthorized)
        ⊎ (HasSession auth (header_text list_http (get list_http wrong (chars "cookie")))
            ⊎ HasCredentials plain_base64 auth
                (header_text list_http (get list_http wrong (chars "authorization")))))
unfolding all is_whitespace eq_bytes get join stored split build_session_cookie
auth_middleware-session_example =
    auth_middleware-session plain_base64 plain_base64-IsBase64 list_http auth settings
      (chars "/app") private_path refl refl refl refl login later wrong (chars "theme=dark" ∷ [])
      (chars "x=1" ∷ []) (refl, tt) refl refl refl
