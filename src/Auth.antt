-- ===== src/Auth.antt =====
-- src/main.rs: the middleware that asks for the password, and the session cookie that it sets.
pub mod CookieHeader
pub mod Evidence
pub mod Session
use mobux.Access.Guard.{PublicPath, exact, prefix, any_matches}
use mobux.External.Http.{Http, get}
use mobux.External.{Base64}
use mobux.Prelude.{
  ℕ, Bool, true, false, not, ◌&&◌, ◌||◌, List, [], ◌∷◌, ◌++◌, Option, none, some, ◌==◌,
  if◌then◌else◌, is_empty,
}
use mobux.Strings.{chars, split, split_once, splitn, strip_prefix, trim, trim_end_char}
use mobux.Utf8.{Bytes, Text, Utf8Check, valid, error, from_utf8, encode, eq_bytes}

pub record AuthConfig : Type 0 where
  pub user : Text
  pub pass : Text
  pub session_cookie_name : Text
  pub session_cookie_value : Text

-- The settings that the middleware reads.
pub record Settings : Type 0 where
  pub base_path : Text
  pub tls_enabled : Bool
  pub behind_tls_proxy : Bool

abbrev pub public_paths : List PublicPath
public_paths =
    exact (chars "/api/identify")
    ∷ exact (chars "/install")
    ∷ prefix (chars "/install/")
    ∷ prefix (chars "/.well-known/")
    ∷ prefix (chars "/static/icon-")
    ∷ exact (chars "/static/manifest.json")
    ∷ exact (chars "/sw.js")
    ∷ []

unfoldable pub is_public_path : Text → Bool
is_public_path path =
    eq_bytes path (chars "/api/update/test-index") || any_matches public_paths path

-- The trimmed base path.
unfoldable pub absolute : Text → Text
absolute [] = chars "/"
absolute (c ∷ trimmed) = if c == b'/' then c ∷ trimmed else b'/' ∷ c ∷ trimmed

unfoldable pub cookie_path : Text → Text
cookie_path base_path = absolute (trim_end_char b'/' (trim base_path))

abbrev pub secure : Settings → Text
secure settings = if settings.tls_enabled || settings.behind_tls_proxy then chars "; Secure" else []

-- What follows the value.
abbrev pub attributes : Settings → Text
attributes settings =
    chars "; Path="
    ++ (cookie_path settings.base_path
        ++ (chars "; HttpOnly; SameSite=Lax" ++ (secure settings ++ chars "; Max-Age=2592000")))

unfoldable pub build_session_cookie : Text → Text → Settings → Text
build_session_cookie name value settings = (name ++ b'=' ∷ value) ++ attributes settings

unfoldable pub is_session_pair : AuthConfig → Option (Text × Text) → Bool
is_session_pair auth none = false
is_session_pair auth (some (k, v)) =
    eq_bytes k auth.session_cookie_name && eq_bytes v auth.session_cookie_value

unfoldable pub any_session : AuthConfig → List Text → Bool
any_session auth [] = false
any_session auth (p ∷ ps) = is_session_pair auth (split_once b'=' (trim p)) || any_session auth ps

unfoldable pub cookie_ok : AuthConfig → Option Text → Bool
cookie_ok auth none = false
cookie_ok auth (some cookie) = any_session auth (split b';' cookie)

abbrev pub valid_text : Utf8Check → Option Text
valid_text (valid t) = some t
valid_text (error _ _ _) = none

abbrev pub text_of : Option Bytes → Option Text
text_of none = none
text_of (some bytes) = valid_text (from_utf8 bytes)

unfoldable pub right_parts : AuthConfig → List Text → Bool
right_parts auth (user ∷ pass ∷ _) = eq_bytes user auth.user && eq_bytes pass auth.pass
right_parts auth _ = false

abbrev pub right_pair : AuthConfig → Option Text → Bool
right_pair auth none = false
right_pair auth (some pair) = right_parts auth (splitn 2 b':' pair)

-- What the middleware does: it runs the rest, with the header that it then puts on the response, or
-- answers 401 with the challenge.
pub data Answer : Type 0 where
  passed : Option Bytes → Answer
  unauthorized : Answer

module _ (http : Http) where
  -- `get(name).and_then(|v| v.to_str().ok())`
  abbrev pub header_text : Option Bytes → Option Text
  header_text none = none
  header_text (some v) = http.to_str v

  unfoldable pub set_cookie : AuthConfig → Settings → Option Bytes
  set_cookie auth settings =
      let value =
        encode (build_session_cookie auth.session_cookie_name auth.session_cookie_value settings) in
      if http.accepts value then some value else none

module _ (base64 : Base64) where
  unfoldable pub basic_ok : AuthConfig → Option Text → Bool
  basic_ok auth none = false
  basic_ok auth (some v) = elim (strip_prefix (chars "Basic ") v) [
    | none ↦ false
    | some b64 ↦ right_pair auth (text_of (base64.decode b64))
  ]

  module _ (http : Http) where
    unfoldable pub check : AuthConfig → Settings → http.HeaderMap → Answer
    check auth settings h =
        if cookie_ok auth (header_text http (get http h (chars "cookie")))
        then passed none
        else if basic_ok auth (header_text http (get http h (chars "authorization")))
        then passed (set_cookie http auth settings)
        else unauthorized

    unfoldable pub auth_middleware : Option AuthConfig → Settings → Text → http.HeaderMap → Answer
    auth_middleware none settings path h = passed none
    auth_middleware (some auth) settings path h =
        if is_public_path path then passed none else check auth settings h
