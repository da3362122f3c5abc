-- ===== src/Access/Guard.antt =====
-- src/access.rs: the verification of a request's tokens and the listener's gate.
pub mod Known
pub mod Clean
pub mod Admission
use mobux.Access.Keys.{
  Jwt, AccessClaims, Allowed, Validation, KeyCache, KeyAnswer, TokenHeader, clock_leeway_secs,
  identity, key_for, rejection_for,
}
use mobux.Access.Tokens.{
  Identity, Verified, Rejection, keys_unavailable, malformed, missing_token, display, strip_tokens,
  tokens_from_headers,
}
use mobux.External.Http.{Http, get}
use mobux.Prelude.Result.{Result, ok, err}
use mobux.Prelude.{
  ℕ, suc, Bool, true, false, not, ◌&&◌, ◌||◌, List, [], ◌∷◌, ◌++◌, Option, none, some,
  if◌then◌else◌, is_empty,
}
use mobux.Strings.{chars, eq_ignore_ascii_case, split_once, starts_with, strip_prefix, trim}
use mobux.Utf8.{Bytes, Text, eq_bytes}

-- `PublicPath`, of src/main.rs.
pub data PublicPath : Type 0 where
  exact : Text → PublicPath
  prefix : Text → PublicPath

unfoldable pub matches : PublicPath → Text → Bool
matches (exact p) path = eq_bytes path p
matches (prefix p) path = starts_with path p

abbrev pub access_public_paths : List PublicPath
access_public_paths =
    exact (chars "/.well-known/assetlinks.json")
    ∷ exact (chars "/static/manifest.json")
    ∷ prefix (chars "/static/icon-")
    ∷ exact (chars "/sw.js")
    ∷ []

unfoldable pub any_matches : List PublicPath → Text → Bool
any_matches [] path = false
any_matches (p ∷ ps) path = matches p path || any_matches ps path

unfoldable pub is_access_public_path : Text → Bool
is_access_public_path = any_matches access_public_paths

-- What the host sends: status, whether with the challenge, and body.
pub record Response : Type 0 where
  pub status : ℕ
  pub challenge : Bool
  pub body : Text

unfoldable pub refused : Rejection → Response
refused (keys_unavailable reason) = record {
  status = 503;
  challenge = false;
  body = display (keys_unavailable reason) ++ chars "\n";
}
refused rejection = record {
  status = 401;
  challenge = true;
  body = display rejection ++ chars "\n";
}

abbrev pub cross_site : Response
cross_site = record {
  status = 403;
  challenge = false;
  body = chars "cross-site request refused: the Origin does not match this host\n";
}

-- `split_once` at a string
unfoldable pub split_at : Text → Text → Option (Text × Text)
split_at sep [] = elim (strip_prefix sep []) [ some rest ↦ some ([], rest) | none ↦ none ]
split_at sep (c ∷ s) = elim (strip_prefix sep (c ∷ s)) [
  | some rest ↦ some ([], rest)
  | none ↦ elim (split_at sep s) [ none ↦ none | some (a, b) ↦ some (c ∷ a, b) ]
]

-- The clock and the key server, for the token at a place among those of a request.
pub record Moment (jwt : Jwt) : Type 0 where
  pub now : ℕ
  pub unix_time : ℕ
  pub seen : KeyCache jwt
  pub reply : Result (List jwt.Value) Text

module _ (http : Http) (to_lowercase : Text → Text) where
  abbrev host_is : Text → Option Bytes → Bool
  host_is authority none = false
  host_is authority (some host) = elim (http.to_str host) [
    | none ↦ false
    | some h ↦ eq_bytes (to_lowercase (trim h)) authority
  ]

  abbrev split_origin : Option Text → Option (Text × Text)
  split_origin none = none
  split_origin (some origin) = split_at (chars "://") origin

  unfoldable pub origin_matches : Text → http.HeaderMap → Option (Text × Text) → Bool
  origin_matches hostname h none = false
  origin_matches hostname h (some (scheme, authority)) =
      let lower = to_lowercase authority in
      if not (is_empty hostname)
        && eq_ignore_ascii_case scheme (chars "https")
        && eq_bytes lower hostname
      then true
      else host_is lower (get http h (chars "host"))

  unfoldable pub origin_allowed : Text → http.HeaderMap → Bool
  origin_allowed hostname h = elim (get http h (chars "origin")) [
    | none ↦ true
    | some origin ↦ origin_matches hostname h (split_origin (http.to_str origin))
  ]

module _ (jwt : Jwt) (to_lowercase : Text → Text) (allowed : Allowed) where
  abbrev pub validation : Validation
  validation = record {
    leeway = clock_leeway_secs;
    audience = allowed.aud;
    issuer = allowed.issuer;
  }

  unfoldable pub check_claims : Result AccessClaims Rejection → Result Verified Rejection
  check_claims (err r) = err r
  check_claims (ok claims) = elim (identity to_lowercase allowed claims) [
    | ok who ↦ ok (record { identity = who })
    | err r ↦ err r
  ]

  abbrev pub claims_of : Text → ℕ → jwt.Key → Result AccessClaims Rejection
  claims_of token unix_time key = elim (jwt.decode token key validation unix_time) [
    | ok claims ↦ ok claims
    | err kind ↦ err (rejection_for kind)
  ]

  unfoldable pub check_key : Text → ℕ → KeyAnswer jwt → KeyCache jwt × Result Verified Rejection
  check_key token unix_time answer = elim answer.key [
    | err r ↦ (answer.cache, err r)
    | ok key ↦ (answer.cache, check_claims (claims_of token unix_time key))
  ]

  -- The key's id, where the header can be read and asks for RS256.
  unfoldable pub usable_kid : Option TokenHeader → Option Text
  usable_kid none = none
  usable_kid (some header) = if not header.is_rs256 then none else header.kid

  unfoldable pub verify :
      Text → Moment jwt → KeyCache jwt → KeyCache jwt × Result Verified Rejection
  verify token at cache = elim (usable_kid (jwt.decode_header token)) [
    | none ↦ (cache, err malformed)
    | some kid ↦ check_key token at.unix_time (key_for jwt kid at.now at.seen at.reply cache)
  ]

  abbrev get_or_insert : Option Rejection → Rejection → Option Rejection
  get_or_insert none r = some r
  get_or_insert (some first) r = some first

  abbrev or_missing : Option Rejection → Rejection
  or_missing none = missing_token
  or_missing (some r) = r

  -- The loop over the tokens; `moment` tells the circumstances of the token at each place.
  unfoldable pub verify_tokens :
      (ℕ → Moment jwt)
      → ℕ
      → Option Rejection
      → List Text
      → KeyCache jwt
      → KeyCache jwt × Result Verified Rejection
  verify_tokens moment i first [] cache = (cache, err (or_missing first))
  verify_tokens moment i first (token ∷ tokens) cache =
      let (cache', result) = verify token (moment i) cache in
      elim result [
        | ok verified ↦ (cache', ok verified)
        | err r ↦ verify_tokens moment (suc i) (get_or_insert first r) tokens cache'
      ]

  module _ (http : Http) where
    unfoldable pub verify_headers :
        (ℕ → Moment jwt) → http.HeaderMap → KeyCache jwt → KeyCache jwt × Result Verified Rejection
    verify_headers moment h cache = elim (tokens_from_headers http h) [
      | err r ↦ (cache, err r)
      | ok tokens ↦ verify_tokens moment 0 none tokens cache
    ]

    -- The handler runs, with these headers and this identity, or the host answers itself.
    pub data Outcome : Type 0 where
      run : http.HeaderMap → Option Verified → Outcome
      answer : Response → Outcome

    abbrev settle : http.HeaderMap → Result Verified Rejection → Outcome
    settle h (ok verified) = run (strip_tokens http h) (some verified)
    settle h (err r) = answer (refused r)

    unfoldable pub guard :
        Text → (ℕ → Moment jwt) → Text → http.HeaderMap → KeyCache jwt → KeyCache jwt × Outcome
    guard hostname moment path h cache =
        let (cache', result) = verify_headers moment h cache in
        if is_access_public_path path
        then (cache, run h none)
        else if not (origin_allowed http to_lowercase hostname h)
        then (cache, answer cross_site)
        else (cache', settle h result)
