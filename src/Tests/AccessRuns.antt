-- ===== src/Tests/AccessRuns.antt =====
-- The gate and the cookies at concrete inputs.
use mobux.Tests.HeaderList.{list_http, list_http-IsHttp}
use mobux.Access.Guard.Admission.{Evidence, IsClean, guard-admits}
use mobux.Access.Guard.{
  Moment, guard, run, verify, verify_headers, verify_tokens, check_key, check_claims, usable_kid,
  is_access_public_path, any_matches, matches, origin_allowed,
}
use mobux.Access.Keys.Spacing.{Call, fetch_times, Spaced, fetch_times-Spaced}
use mobux.Access.Keys.{
  Jwt, Allowed, new_cache, lookup, rsa_keys, refetch, store_fetched, key_for, may_refetch, identity,
  contains_text,
}
use mobux.Access.Tokens.{email, strip_tokens, tokens_from_headers, non_empty, assertion_header}
use mobux.External.Http.{get}
use mobux.Prelude.Result.{ok, err}
use mobux.Prelude.{all, ℕ, true, false, List, [], ◌∷◌, some, ◌≡◌, refl}
use mathlib.Core.List.{flatten}
use mobux.Proxy.Cookies.Sent.{Cookie, AllHeaders, header_values, without, strip_cookie-without}
use mobux.Proxy.Cookies.{cookie, strip_cookie}
use mobux.Strings.{chars, join, starts_with, trim, trim_start}
use mobux.Utf8.{Text, eq_bytes, is_whitespace, trim_end}

abbrev headers : List (Text × Text)
headers = (cookie, chars "mobux=1; theme=dark=a") ∷ []

abbrev client_cookies : List (List Cookie)
client_cookies = ((chars "mobux", chars "1") ∷ (chars "theme", chars "dark=a") ∷ []) ∷ []

client_cookies-AllHeaders : AllHeaders client_cookies
unfolding all
client_cookies-AllHeaders = ((refl, refl, (refl, refl, tt)), tt)

strip_cookie-without_example :
    (list_http.get_all (strip_cookie list_http headers (chars "mobux")) cookie
      ≡ header_values (without (chars "mobux") (flatten client_cookies)))
    × (list_http.get_all (strip_cookie list_http headers (chars "mobux")) (chars "host")
        ≡ list_http.get_all headers (chars "host"))
unfolding join flatten eq_bytes
strip_cookie-without_example =
    strip_cookie-without list_http-IsHttp headers (chars "mobux") client_cookies
      client_cookies-AllHeaders refl refl (chars "host") refl

-- A token is its own claims, and any key verifies it.
abbrev open_jwt : Jwt
open_jwt = record {
  Key = Unit;
  Value = Text;
  rsa_key = λ v. some (v, tt);
  decode_header = λ token. some (record { is_rs256 = true; kid = some (chars "k") });
  decode = λ token key validation now. ok (record { email = token; common_name = [] });
}

abbrev allowed : Allowed
allowed = record {
  issuer = chars "https://t";
  aud = chars "aud";
  allowed_emails = chars "a@b" ∷ [];
  service_tokens = [];
}

abbrev moment : ℕ → Moment open_jwt
moment i = record { now = 5; unix_time = 5; seen = new_cache open_jwt; reply = ok (chars "k" ∷ []) }

abbrev same_text : Text → Text
same_text t = t

abbrev carried : List (Text × Text)
carried = (assertion_header, chars "a@b") ∷ []

admitted :
    (guard open_jwt same_text allowed list_http [] moment
      (chars "/app")
      carried
      (new_cache open_jwt)).1
    ≡ run (strip_tokens list_http carried) (some (record { identity = email (chars "a@b") }))
unfolding guard verify verify_headers verify_tokens check_key check_claims usable_kid
    is_access_public_path any_matches matches origin_allowed new_cache lookup rsa_keys refetch
    store_fetched key_for may_refetch identity contains_text tokens_from_headers non_empty get
    starts_with trim trim_start trim_end is_whitespace eq_bytes all
admitted = refl

guard-admits_example :
    (is_access_public_path (chars "/app") ≡ false)
    × (origin_allowed list_http same_text [] carried ≡ true)
    × ((tokens : List Text) × (tokens_from_headers list_http carried ≡ ok tokens)
        × Evidence open_jwt same_text allowed moment
            (new_cache open_jwt)
            tokens
            (record { identity = email (chars "a@b") }))
    × IsClean open_jwt same_text allowed list_http-IsHttp (strip_tokens list_http carried)
guard-admits_example =
    guard-admits open_jwt same_text allowed list_http-IsHttp [] (chars "/app") moment carried
      (strip_tokens list_http carried) (new_cache open_jwt)
      (record { identity = email (chars "a@b") }) admitted

abbrev calls : List (Call open_jwt)
calls =
    record { kid = chars "k"; now = 5; seen = new_cache open_jwt; reply = err (chars "down") }
    ∷ record { kid = chars "k"; now = 900; seen = new_cache open_jwt; reply = err (chars "down") }
    ∷ []

fetch_times-Spaced_example :
    Spaced open_jwt
      (new_cache open_jwt).last_fetch
      (fetch_times open_jwt calls (new_cache open_jwt))
fetch_times-Spaced_example = fetch_times-Spaced open_jwt calls (new_cache open_jwt)
