-- ===== src/Auth/Evidence.antt =====
-- What a request that the middleware lets in brings along.
use mathlib.Core.List.{Memᴰ}
use mobux.Auth.{
  AuthConfig, is_session_pair, any_session, cookie_ok, right_parts, basic_ok, right_pair,
  valid_text,
}
use mobux.External.{Base64}
use mobux.Prelude.{
  true, List, [], ◌∷◌, ◌++◌, Option, none, some, ◌≡◌, refl, ◌∙◌, ap, arith, inl, inr, Bool-cases,
  Option-cases,
}
use mobux.Strings.Split.{split_once-some, strip_prefix-some}
use mobux.Strings.Equality.{eq_bytes→≡}
use mobux.Strings.{chars, split, split_once, splitn, strip_prefix, trim}
use mobux.Utf8.{Bytes, Text, Utf8Check, valid, error, from_utf8, eq_bytes}

-- A `Cookie` header one of whose pieces is the session's pair.
pub record HasSession (auth : AuthConfig) (cookie : Option Text) : Type 0 where
  pub text : Text
  pub piece : Text
  pub sent : cookie ≡ some text
  pub among : Memᴰ piece (split b';' text)
  pub is_pair : trim piece ≡ auth.session_cookie_name ++ b'=' ∷ auth.session_cookie_value

-- An `Authorization` header with the user and the password, in base64.
pub record HasCredentials (base64 : Base64) (auth : AuthConfig) (authorization : Option Text)
    : Type 0 where
  pub encoded : Text
  pub bytes : Bytes
  pub sent : authorization ≡ some (chars "Basic " ++ encoded)
  pub decoded : base64.decode encoded ≡ some bytes
  pub is_login : from_utf8 bytes ≡ valid (auth.user ++ b':' ∷ auth.pass)

module _ (auth : AuthConfig) where
  is_session_pair-pair :
      (t : Text)
      → is_session_pair auth (split_once b'=' t) ≡ true
      → t ≡ auth.session_cookie_name ++ b'=' ∷ auth.session_cookie_value
  unfolding is_session_pair
  is_session_pair-pair t h = elim (Option-cases (split_once b'=' t)) [
    | inl e ↦ absurd (ground (arith, rw (e, is_session_pair) at h))
    | inr ((k, v), e) ↦ elim (Bool-cases (eq_bytes k auth.session_cookie_name)) [
      | inr d ↦ absurd (ground (arith, rw (e, is_session_pair, d) at h))
      | inl d ↦
          let value : eq_bytes v auth.session_cookie_value ≡ true =
            rw (e, is_session_pair, d) at h in
          split_once-some b'=' t k v e
          ∙ ap (λ n. n ++ b'=' ∷ v) (eq_bytes→≡ k auth.session_cookie_name d)
          ∙ ap (λ w. auth.session_cookie_name ++ b'=' ∷ w)
              (eq_bytes→≡ v auth.session_cookie_value value)
    ]
  ]

  any_session-pair :
      (pieces : List Text)
      → any_session auth pieces ≡ true
      → (piece : Text) × Memᴰ piece pieces
        × (trim piece ≡ auth.session_cookie_name ++ b'=' ∷ auth.session_cookie_value)
  unfolding any_session
  any_session-pair [] h = absurd (ground arith)
  any_session-pair (p ∷ pieces) h =
      elim (Bool-cases (is_session_pair auth (split_once b'=' (trim p)))) [
        | inl e ↦ (p, Memᴰ.head refl, is_session_pair-pair (trim p) e)
        | inr e ↦
            let (piece, among, pair) = any_session-pair pieces (rw (any_session, e) at h) in
            (piece, Memᴰ.tail among, pair)
      ]

  pub cookie_ok-HasSession :
      (cookie : Option Text) → cookie_ok auth cookie ≡ true → HasSession auth cookie
  unfolding cookie_ok
  cookie_ok-HasSession none h = absurd (ground arith)
  cookie_ok-HasSession (some text) h =
      let (piece, among, pair) = any_session-pair (split b';' text) h in
      record { text = text; piece = piece; sent = refl; among = among; is_pair = pair }

  right_parts-login :
      (t : Text) → right_parts auth (splitn 2 b':' t) ≡ true → t ≡ auth.user ++ b':' ∷ auth.pass
  unfolding right_parts splitn
  right_parts-login t h = elim (Option-cases (split_once b':' t)) [
    | inl e ↦ absurd (ground (arith, rw (splitn, e, right_parts) at h))
    | inr ((u, p), e) ↦ elim (Bool-cases (eq_bytes u auth.user)) [
      | inr d ↦ absurd (ground (arith, rw (splitn, e, right_parts, d) at h))
      | inl d ↦
          let pass : eq_bytes p auth.pass ≡ true = rw (splitn, e, right_parts, d) at h in
          split_once-some b':' t u p e
          ∙ ap (λ n. n ++ b':' ∷ p) (eq_bytes→≡ u auth.user d)
          ∙ ap (λ w. auth.user ++ b':' ∷ w) (eq_bytes→≡ p auth.pass pass)
    ]
  ]

  right_text-login :
      (check : Utf8Check)
      → right_pair auth (valid_text check) ≡ true
      → check ≡ valid (auth.user ++ b':' ∷ auth.pass)
  right_text-login (valid t) h = ap valid (right_parts-login t h)
  right_text-login (error _ _ _) h = absurd (ground arith)

  module _ (base64 : Base64) where
    pub basic_ok-HasCredentials :
        (authorization : Option Text)
        → basic_ok base64 auth authorization ≡ true
        → HasCredentials base64 auth authorization
    unfolding basic_ok
    basic_ok-HasCredentials none h = absurd (ground arith)
    basic_ok-HasCredentials (some v) h = elim (Option-cases (strip_prefix (chars "Basic ") v)) [
      | inl e ↦ absurd (ground (arith, rw (basic_ok, e) at h))
      | inr (b64, e) ↦ elim (Option-cases (base64.decode b64)) [
        | inl d ↦ absurd (ground (arith, rw (basic_ok, e, d) at h))
        | inr (bytes, d) ↦ record {
          encoded = b64;
          bytes = bytes;
          sent = ap some (strip_prefix-some (chars "Basic ") v b64 e);
          decoded = d;
          is_login = right_text-login (from_utf8 bytes) (rw (basic_ok, e, d) at h);
        }
      ]
    ]
