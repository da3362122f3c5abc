-- ===== src/Access/Keys.antt =====
-- src/access.rs: the team's signing keys, and the checks of a token. Parameters: `jsonwebtoken`, the reading of
-- a published key, and `str::to_lowercase`. The lock that lets one caller fetch at a time is the order of the
-- steps: a caller saw `seen` before it had the lock, and has `cache` then.
pub mod Spacing
use mobux.Access.Tokens.{
  Identity, email, service_token, Verified, Rejection, missing_token, malformed, bad_signature,
  unknown_key, keys_unavailable, expired, not_yet_valid, wrong_audience, wrong_issuer,
  identity_not_allowed,
}
use mobux.Prelude.Result.{Result, ok, err}
use mobux.Prelude.{
  ℕ, suc, ◌+◌, ◌-◌, ◌*◌, Bool, true, false, not, ◌&&◌, List, [], ◌∷◌, Option, none, some, leb,
  if◌then◌else◌, is_empty, map,
}
use mobux.Strings.{trim}
use mobux.Utf8.{Text, eq_bytes}

abbrev pub clock_leeway_secs : ℕ
clock_leeway_secs = 30

-- In milliseconds.
abbrev pub min_refetch_interval : ℕ
min_refetch_interval = 60 * 1000

pub data ErrorKind : Type 0 where
  invalid_signature expired_signature immature_signature invalid_audience invalid_issuer : ErrorKind
  other_error : ErrorKind

unfoldable pub rejection_for : ErrorKind → Rejection
rejection_for invalid_signature = bad_signature
rejection_for expired_signature = expired
rejection_for immature_signature = not_yet_valid
rejection_for invalid_audience = wrong_audience
rejection_for invalid_issuer = wrong_issuer
rejection_for other_error = malformed

pub record AccessClaims : Type 0 where
  pub email : Text
  pub common_name : Text

-- Of a token's header: whether the algorithm is RS256, and the key's id.
pub record TokenHeader : Type 0 where
  pub is_rs256 : Bool
  pub kid : Option Text

-- What a token has to satisfy; `exp`, `iss` and `aud` are required and `nbf` is checked.
pub record Validation : Type 0 where
  pub leeway : ℕ
  pub audience : Text
  pub issuer : Text

-- `jsonwebtoken`, and the reading of a published key. `Value` is a JSON value.
pub record Jwt : Type 1 where
  pub Key : Type 0
  pub Value : Type 0
  pub rsa_key : Value → Option (Text × Key)
  pub decode_header : Text → Option TokenHeader
  pub decode : Text → Key → Validation → ℕ → Result AccessClaims ErrorKind

unfoldable pub contains_text : List Text → Text → Bool
contains_text [] x = false
contains_text (t ∷ ts) x = if eq_bytes t x then true else contains_text ts x

-- The settings of the check.
pub record Allowed : Type 0 where
  pub issuer : Text
  pub aud : Text
  pub allowed_emails : List Text
  pub service_tokens : List Text

module _ (to_lowercase : Text → Text) where
  -- `Verifier::new`
  unfoldable pub new_allowed : Text → Text → List Text → List Text → Allowed
  new_allowed issuer aud emails tokens = record {
    issuer = issuer;
    aud = aud;
    allowed_emails = map (λ e. to_lowercase (trim e)) emails;
    service_tokens = map trim tokens;
  }

  unfoldable pub identity : Allowed → AccessClaims → Result Identity Rejection
  identity allowed claims =
      let mail = to_lowercase (trim claims.email) in
      let name = trim claims.common_name in
      if not (is_empty mail) && contains_text allowed.allowed_emails mail
      then ok (email mail)
      else if not (is_empty name) && contains_text allowed.service_tokens name
      then ok (service_token name)
      else err identity_not_allowed

module _ (jwt : Jwt) where
  pub record KeyCache : Type 0 where
    pub keys : List (Text × jwt.Key)
    pub last_fetch : Option ℕ
    pub last_error : Option Text

  -- `KeyCache::default()`
  unfoldable pub new_cache : KeyCache
  new_cache = record { keys = []; last_fetch = none; last_error = none }

  -- Of two keys with one id, the later is kept.
  unfoldable pub lookup : Text → List (Text × jwt.Key) → Option jwt.Key
  lookup kid [] = none
  lookup kid ((id, key) ∷ keys) = elim (lookup kid keys) [
    | some k ↦ some k
    | none ↦ if eq_bytes id kid then some key else none
  ]

  -- `fetch_keys`, of what the server sends.
  unfoldable pub rsa_keys : List jwt.Value → List (Text × jwt.Key)
  rsa_keys [] = []
  rsa_keys (v ∷ vs) = elim (jwt.rsa_key v) [ none ↦ rsa_keys vs | some k ↦ k ∷ rsa_keys vs ]

  unfoldable pub may_refetch : Option ℕ → ℕ → Bool
  may_refetch none now = true
  may_refetch (some at) now = leb min_refetch_interval (now - at)

  abbrev found_or_unknown : Option jwt.Key → Result jwt.Key Rejection
  found_or_unknown none = err unknown_key
  found_or_unknown (some key) = ok key

  abbrev no_refetch : Option Text → Rejection
  no_refetch none = unknown_key
  no_refetch (some error) = keys_unavailable error

  -- How a call ends: the cache, whether it fetched, and the key.
  pub record KeyAnswer : Type 0 where
    pub cache : KeyCache
    pub fetched : Bool
    pub key : Result jwt.Key Rejection

  unfoldable pub store_fetched : Text → ℕ → Result (List jwt.Value) Text → KeyCache → KeyAnswer
  store_fetched kid now (ok values) cache = record {
    cache = record { keys = rsa_keys values; last_fetch = some now; last_error = none };
    fetched = true;
    key = found_or_unknown (lookup kid (rsa_keys values));
  }
  store_fetched kid now (err error) cache = record {
    cache = record cache { last_fetch = some now; last_error = some error };
    fetched = true;
    key = err (keys_unavailable error);
  }

  -- Under the lock.
  unfoldable pub refetch : Text → ℕ → Result (List jwt.Value) Text → KeyCache → KeyAnswer
  refetch kid now reply cache = elim (lookup kid cache.keys) [
    | some key ↦ record { cache = cache; fetched = false; key = ok key }
    | none ↦
        if may_refetch cache.last_fetch now
        then store_fetched kid now reply cache
        else record { cache = cache; fetched = false; key = err (no_refetch cache.last_error) }
  ]

  unfoldable pub key_for : Text → ℕ → KeyCache → Result (List jwt.Value) Text → KeyCache → KeyAnswer
  key_for kid now seen reply cache = elim (lookup kid seen.keys) [
    | some key ↦ record { cache = cache; fetched = false; key = ok key }
    | none ↦ refetch kid now reply cache
  ]
