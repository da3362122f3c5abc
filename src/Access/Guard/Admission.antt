-- ===== src/Access/Guard/Admission.antt =====
-- Who is let in, and with which headers.
use mathlib.Core.List.{Memᴰ}
use mathlib.Core.List.Memᴰ
use mobux.Access.Guard.Clean.{strip_tokens-missing_token}
use mobux.Access.Guard.Known.{
  IsListed, identity-IsListed, IsKnown, AllKnown, cached, key_for-AnswerKnown,
}
use mobux.Access.Guard.{
  Moment, check_claims, claims_of, check_key, usable_kid, validation, verify, verify_tokens,
  verify_headers, Outcome, run, guard, is_access_public_path, origin_allowed,
}
use mobux.Access.Keys.{
  Jwt, TokenHeader, AccessClaims, Allowed, KeyCache, KeyAnswer, identity, key_for,
}
use mobux.Access.Tokens.{
  Verified, Rejection, missing_token, assertion_header, strip_tokens, tokens_from_headers,
}
use mobux.External.Http.{Http, IsHttp}
use mobux.Prelude.Result.{Result, ok, err, Result-cases}
use mobux.Prelude.{
  ℕ, suc, true, false, List, [], ◌∷◌, Option, none, some, ◌≡◌, refl, sym, ◌∙◌, ap, subst, arith,
  inl, inr, Bool-cases, Option-cases,
}
use mobux.Utf8.{Text}

module _ (jwt : Jwt) (to_lowercase : Text → Text) (allowed : Allowed) where
  usable_kid-header :
      (read : Option TokenHeader) (kid : Text)
      → usable_kid jwt to_lowercase allowed read ≡ some kid
      → (header : TokenHeader) × (read ≡ some header)
        × (header.is_rs256 ≡ true)
        × (header.kid ≡ some kid)
  unfolding usable_kid
  usable_kid-header none kid h = absurd (ground arith)
  usable_kid-header (some header) kid h = elim (Bool-cases header.is_rs256) [
    | inr e ↦ absurd (ground (arith, rw (e, usable_kid) at h))
    | inl e ↦ (header, refl, e, rw (e, usable_kid) at h)
  ]

  check_claims-ok :
      (result : Result AccessClaims Rejection) (v : Verified)
      → check_claims jwt to_lowercase allowed result ≡ ok v
      → (claims : AccessClaims) × (result ≡ ok claims)
        × IsListed to_lowercase allowed claims v.identity
  unfolding check_claims
  check_claims-ok (err r) v h = absurd (ground arith)
  check_claims-ok (ok claims) v h = elim (Result-cases (identity to_lowercase allowed claims)) [
    | inr (r, e) ↦ absurd (ground (arith, rw (e, check_claims) at h))
    | inl (who, e) ↦
        let same : who ≡ v.identity = ground (arith, rw (e, check_claims) at h) in
        (claims, refl, identity-IsListed to_lowercase allowed claims v.identity (e ∙ ap ok same))
  ]

  claims_of-ok :
      (token : Text) (time : ℕ) (key : jwt.Key) (claims : AccessClaims)
      → claims_of jwt to_lowercase allowed token time key ≡ ok claims
      → jwt.decode token key (validation jwt to_lowercase allowed) time ≡ ok claims
  claims_of-ok token time key claims h =
      elim (Result-cases (jwt.decode token key (validation jwt to_lowercase allowed) time)) [
        | inr (kind, e) ↦ absurd (ground (arith, rw (e, claims_of) at h))
        | inl (c, e) ↦
            let same : c ≡ claims = ground (arith, rw (e, claims_of) at h) in e ∙ ap ok same
      ]

  check_key-cache :
      (token : Text) (time : ℕ) (found : KeyAnswer jwt)
      → (check_key jwt to_lowercase allowed token time found).0 ≡ found.cache
  unfolding check_key
  check_key-cache token time found = elim (Result-cases found.key) [
    | inl (key, e) ↦ rw (e, check_key) refl
    | inr (r, e) ↦ rw (e, check_key) refl
  ]

  check_key-ok :
      (token : Text) (time : ℕ) (found : KeyAnswer jwt) (v : Verified)
      → (check_key jwt to_lowercase allowed token time found).1 ≡ ok v
      → (key : jwt.Key) × (claims : AccessClaims) × (found.key ≡ ok key)
        × (jwt.decode token key (validation jwt to_lowercase allowed) time ≡ ok claims)
        × IsListed to_lowercase allowed claims v.identity
  unfolding check_key
  check_key-ok token time found v h = elim (Result-cases found.key) [
    | inr (r, e) ↦ absurd (ground (arith, rw (e, check_key) at h))
    | inl (key, e) ↦
        let claimed = claims_of jwt to_lowercase allowed token time key in
        let (claims, read, who) = check_claims-ok claimed v (rw (e, check_key) at h) in
        (key, claims, e, claims_of-ok token time key claims read, who)
  ]

  module _ (moment : ℕ → Moment jwt) (cache : KeyCache jwt) where
    -- A token that asks for RS256 and is decoded, at the time of its check, with a key that the team has
    -- under the token's key id, to claims whose identity is on the lists.
    pub record Evidence (tokens : List Text) (v : Verified) : Type 0 where
      pub token : Text
      pub header : TokenHeader
      pub kid : Text
      pub key : jwt.Key
      pub place : ℕ
      pub claims : AccessClaims
      pub carried : Memᴰ token tokens
      pub header_read : jwt.decode_header token ≡ some header
      pub rs256 : header.is_rs256 ≡ true
      pub names_key : header.kid ≡ some kid
      pub known : IsKnown jwt moment cache kid key
      pub decoded :
          jwt.decode token key
            (record { leeway = 30; audience = allowed.aud; issuer = allowed.issuer })
            (moment place).unix_time
          ≡ ok claims
      pub listed : IsListed to_lowercase allowed claims v.identity

    verify-AllKnown :
        (token : Text) (i : ℕ) (c : KeyCache jwt)
        → AllKnown jwt moment cache c
        → AllKnown jwt moment cache (verify jwt to_lowercase allowed token (moment i) c).0
    unfolding verify
    verify-AllKnown token i c known =
        elim (Option-cases (usable_kid jwt to_lowercase allowed (jwt.decode_header token))) [
          | inl e ↦ rw (e, verify) known
          | inr (kid, e) ↦
              let at = moment i in
              let found = key_for jwt kid at.now at.seen at.reply c in
              rw (e, verify)
                (subst (AllKnown jwt moment cache) (sym (check_key-cache token at.unix_time found))
                  (key_for-AnswerKnown jwt moment cache i kid at.now c known).1)
        ]

    verify-Evidence :
        (token : Text) (i : ℕ) (c : KeyCache jwt) (v : Verified)
        → AllKnown jwt moment cache c
        → (verify jwt to_lowercase allowed token (moment i) c).1 ≡ ok v
        → Evidence (token ∷ []) v
    unfolding verify
    verify-Evidence token i c v known h =
        elim (Option-cases (usable_kid jwt to_lowercase allowed (jwt.decode_header token))) [
          | inl e ↦ absurd (ground (arith, rw (e, verify) at h))
          | inr (kid, e) ↦
              let at = moment i in
              let found = key_for jwt kid at.now at.seen at.reply c in
              let (header, read, rs, names) = usable_kid-header (jwt.decode_header token) kid e in
              let (key, claims, found_key, decoded, who) =
                check_key-ok token at.unix_time found v (rw (e, verify) at h) in
              record {
                token = token;
                header = header;
                kid = kid;
                key = key;
                place = i;
                claims = claims;
                carried = Memᴰ.head refl;
                header_read = read;
                rs256 = rs;
                names_key = names;
                known = (key_for-AnswerKnown jwt moment cache i kid at.now c known).0 key found_key;
                decoded = decoded;
                listed = who;
              }
        ]

    -- The same for a list that has the tokens.
    among_tokens :
        (ts tokens : List Text) (v : Verified)
        → ((t : Text) → Memᴰ t ts → Memᴰ t tokens)
        → Evidence ts v
        → Evidence tokens v
    among_tokens ts tokens v inside e = record {
      token = e.token;
      header = e.header;
      kid = e.kid;
      key = e.key;
      place = e.place;
      claims = e.claims;
      carried = inside e.token e.carried;
      header_read = e.header_read;
      rs256 = e.rs256;
      names_key = e.names_key;
      known = e.known;
      decoded = e.decoded;
      listed = e.listed;
    }

    first_token : (t : Text) (tokens : List Text) (x : Text) → Memᴰ x (t ∷ []) → Memᴰ x (t ∷ tokens)
    first_token t tokens x m = Memᴰ.append_left tokens m

    verify_tokens-Evidence :
        (i : ℕ) (first : Option Rejection) (tokens : List Text) (c : KeyCache jwt) (v : Verified)
        → AllKnown jwt moment cache c
        → (verify_tokens jwt to_lowercase allowed moment i first tokens c).1 ≡ ok v
        → Evidence tokens v
    unfolding verify_tokens
    verify_tokens-Evidence i first [] c v known h = absurd (ground arith)
    verify_tokens-Evidence i first (t ∷ tokens) c v known h =
        let (c', result) = verify jwt to_lowercase allowed t (moment i) c in
        elim (Result-cases result) [
          | inl (w, e) ↦
              let same : w ≡ v = ground (arith, rw (e, verify_tokens) at h) in
              among_tokens (t ∷ []) (t ∷ tokens) v (first_token t tokens)
                (verify-Evidence t i c v known (e ∙ ap ok same))
          | inr (r, e) ↦
              among_tokens tokens (t ∷ tokens) v (λ x m. Memᴰ.tail m)
                (verify_tokens-Evidence (suc i) _ tokens c' v (verify-AllKnown t i c known)
                  (rw (e, verify_tokens) at h))
        ]

  module _ {http : Http} (law : IsHttp http) where
    verify_headers-ok :
        (moment : ℕ → Moment jwt) (h : http.HeaderMap) (cache : KeyCache jwt) (v : Verified)
        → (verify_headers jwt to_lowercase allowed http moment h cache).1 ≡ ok v
        → (tokens : List Text) × (tokens_from_headers http h ≡ ok tokens)
          × Evidence moment cache tokens v
    unfolding verify_headers
    verify_headers-ok moment h cache v e = elim (Result-cases (tokens_from_headers http h)) [
      | inr (r, d) ↦ absurd (ground (arith, rw (d, verify_headers) at e))
      | inl (tokens, d) ↦ (
        tokens,
        d,
        verify_tokens-Evidence moment cache 0 none tokens cache v (λ kid key m. cached m)
            (rw (d, verify_headers) at e),
      )
    ]

    -- No token is left for the handler.
    abbrev pub IsClean : http.HeaderMap → Type 0
    IsClean h =
        (http.get_all h assertion_header ≡ []) × (tokens_from_headers http h ≡ err missing_token)

    -- Where the handler runs for an identity, the path is not an open one, the origin is allowed, a token
    -- of the request asks for RS256 and decodes, at the time of its check and for the configured audience
    -- and issuer, with a key that the team has under the token's key id (cached, or sent by the key
    -- server), its claims name that identity, which is not empty and on its list, and no token can be
    -- read from the headers that the handler gets.
    pub guard-admits :
        (hostname path : Text) (moment : ℕ → Moment jwt) (h h' : http.HeaderMap)
        (cache : KeyCache jwt) (v : Verified)
        → (guard jwt to_lowercase allowed http hostname moment path h cache).1 ≡ run h' (some v)
        → (is_access_public_path path ≡ false)
          × (origin_allowed http to_lowercase hostname h ≡ true)
          × ((tokens : List Text) × (tokens_from_headers http h ≡ ok tokens)
              × Evidence moment cache tokens v)
          × IsClean h'
    unfolding guard
    guard-admits hostname path moment h h' cache v e =
        let checked = verify_headers jwt to_lowercase allowed http moment h cache in
        elim (Bool-cases (is_access_public_path path)) [
          | inl p ↦ absurd (ground (arith, rw (p, guard) at e))
          | inr p ↦ elim (Bool-cases (origin_allowed http to_lowercase hostname h)) [
            | inr o ↦ absurd (ground (arith, rw (p, o, guard) at e))
            | inl o ↦ elim (Result-cases checked.1) [
              | inr (r, c) ↦ absurd (ground (arith, rw (p, o, c, guard) at e))
              | inl (w, c) ↦
                  let ran : Outcome.run (strip_tokens http h) (some w) ≡ run h' (some v) =
                    rw (p, o, c, guard) at e in
                  let same : w ≡ v = ground (arith, ran) in
                  let sent : strip_tokens http h ≡ h' = ground (arith, ran) in
                  (
                    p,
                    o,
                    verify_headers-ok moment h cache v (c ∙ ap ok same),
                    subst IsClean sent (strip_tokens-missing_token law h),
                  )
            ]
          ]
        ]
