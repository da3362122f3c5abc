-- ===== src/Access/Tokens.antt =====
-- src/access.rs: the tokens that a request carries, the reasons to turn one down, and taking them out.
use mobux.External.Http.{Http, get, texts}
use mobux.Prelude.Result.{Result, ok, err}
use mobux.Prelude.{List, [], ◌∷◌, ◌++◌, Option, none, some, if◌then◌else◌, is_empty}
use mobux.Proxy.Cookies.{cookie, strip_cookie}
use mobux.Strings.{chars, split, split_once, strip_prefix, strip_last, trim}
use mobux.Utf8.{Bytes, Text, eq_bytes}

abbrev pub assertion_header : Text
assertion_header = chars "cf-access-jwt-assertion"

abbrev pub authorization_cookie : Text
authorization_cookie = chars "CF_Authorization"

pub data Identity : Type 0 where
  email : Text → Identity
  service_token : Text → Identity

pub record Verified : Type 0 where
  pub identity : Identity

pub data Rejection : Type 0 where
  missing_token malformed bad_signature unknown_key : Rejection
  keys_unavailable : Text → Rejection
  expired not_yet_valid wrong_audience wrong_issuer identity_not_allowed : Rejection

unfoldable pub detail : Rejection → Option Text
detail (keys_unavailable reason) = some reason
detail _ = none

-- `Display`
unfoldable pub display : Rejection → Text
display missing_token = chars "no Cloudflare Access token: sign in through the Access hostname"
display malformed = chars "the Cloudflare Access token is malformed"
display bad_signature = chars "the Cloudflare Access token signature does not verify"
display unknown_key =
    chars "the Cloudflare Access token is signed with a key the team does not publish"
display (keys_unavailable _) = chars "the team's signing keys could not be fetched"
display expired = chars "the Cloudflare Access session has expired: sign in again"
display not_yet_valid = chars "the Cloudflare Access token is not valid yet"
display wrong_audience =
    chars "the Cloudflare Access token is for another application (AUD mismatch)"
display wrong_issuer = chars "the Cloudflare Access token was issued by another team domain"
display identity_not_allowed = chars "this Cloudflare Access identity is not on the mobux allowlist"

abbrev or_else : Text → Option Text → Text
or_else value none = value
or_else value (some inner) = inner

-- Without the quotes, where the value has both.
unfoldable pub unquote : Text → Text
unquote value = elim (strip_prefix (chars "\"") value) [
  | none ↦ value
  | some inner ↦ or_else value (strip_last b'"' inner)
]

-- The value of one pair, where it is the cookie's and not empty.
unfoldable pub cookie_value : Text → Option Text
cookie_value pair = elim (split_once b'=' (trim pair)) [
  | none ↦ none
  | some (name, value) ↦
      if eq_bytes name authorization_cookie
      then (if is_empty (unquote (trim value)) then none else some (unquote (trim value)))
      else none
]

unfoldable pub cookie_values : List Text → List Text
cookie_values [] = []
cookie_values (pair ∷ ps) = elim (cookie_value pair) [
  | none ↦ cookie_values ps
  | some value ↦ value ∷ cookie_values ps
]

unfoldable pub text_pairs : List Text → List Text
text_pairs [] = []
text_pairs (value ∷ values) = split b';' value ++ text_pairs values

-- What is left of a header's text when it is trimmed, if anything.
unfoldable pub non_empty : Option Text → Option Text
non_empty none = none
non_empty (some value) = if is_empty (trim value) then none else some (trim value)

abbrev or_missing : List Text → Result (List Text) Rejection
or_missing [] = err missing_token
or_missing (t ∷ ts) = ok (t ∷ ts)

module _ (http : Http) where
  abbrev pub text_of : Option Bytes → Option Text
  text_of none = none
  text_of (some value) = http.to_str value

  unfoldable pub tokens_from_headers : http.HeaderMap → Result (List Text) Rejection
  tokens_from_headers h = elim (non_empty (text_of (get http h assertion_header))) [
    | some token ↦ ok (token ∷ [])
    | none ↦ or_missing (cookie_values (text_pairs (texts http (http.get_all h cookie))))
  ]

  unfoldable pub strip_tokens : http.HeaderMap → http.HeaderMap
  strip_tokens h = strip_cookie http (http.remove assertion_header h) authorization_cookie
