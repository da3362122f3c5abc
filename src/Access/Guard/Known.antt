-- ===== src/Access/Guard/Known.antt =====
-- Where the keys come from that verify tokens, and which identities are let in.
use mathlib.Core.List.{Memᴰ}
use mathlib.Core.List.Memᴰ
use mobux.Access.Guard.{Moment}
use mobux.Access.Keys.{
  Jwt, AccessClaims, Allowed, KeyCache, KeyAnswer, identity, key_for, refetch, store_fetched,
  lookup, rsa_keys, contains_text, may_refetch,
}
use mobux.Access.Tokens.{Identity, email, service_token, Rejection}
use mobux.Prelude.Result.{Result, ok, err}
use mobux.Prelude.{
  ℕ, true, false, not, ◌&&◌, List, [], ◌∷◌, some, ◌≡◌, refl, sym, ◌∙◌, ap, subst, arith, inl, inr,
  is_empty, Bool-cases, Option-cases, if◌then◌else◌,
}
use mobux.Strings.Equality.{eq_bytes→≡}
use mobux.Strings.{trim}
use mobux.Utf8.{Text, eq_bytes}

pub contains_text-Memᴰ : (xs : List Text) (x : Text) → contains_text xs x ≡ true → Memᴰ x xs
unfolding contains_text
contains_text-Memᴰ [] x h = absurd (ground arith)
contains_text-Memᴰ (t ∷ xs) x h = elim (Bool-cases (eq_bytes t x)) [
  | inl e ↦ Memᴰ.head (sym (eq_bytes→≡ t x e))
  | inr e ↦ Memᴰ.tail (contains_text-Memᴰ xs x (rw (e, contains_text) at h))
]

module _ (to_lowercase : Text → Text) (allowed : Allowed) (claims : AccessClaims) where
  -- The claims name the identity, which is not empty and on its list.
  abbrev pub IsListed : Identity → Type 0
  IsListed (email mail) =
      (mail ≡ to_lowercase (trim claims.email))
      × (is_empty mail ≡ false)
      × Memᴰ mail allowed.allowed_emails
  IsListed (service_token name) =
      (name ≡ trim claims.common_name) × (is_empty name ≡ false) × Memᴰ name allowed.service_tokens

  abbrev ListedResult : Result Identity Rejection → Type 0
  ListedResult (ok who) = IsListed who
  ListedResult (err _) = Unit

  identity-service :
      (name : Text)
      → name ≡ trim claims.common_name
      → ListedResult (
          if not (is_empty name) && contains_text allowed.service_tokens name
          then ok (service_token name)
          else err Rejection.identity_not_allowed)
  identity-service name is = elim (Bool-cases (is_empty name)) [
    | inl e ↦ rw e tt
    | inr e ↦ elim (Bool-cases (contains_text allowed.service_tokens name)) [
      | inl d ↦ rw (e, d) (is, e, contains_text-Memᴰ allowed.service_tokens name d)
      | inr d ↦ rw (e, d) tt
    ]
  ]

  identity-ListedResult : ListedResult (identity to_lowercase allowed claims)
  unfolding identity
  identity-ListedResult =
      let mail = to_lowercase (trim claims.email) in
      let service = identity-service (trim claims.common_name) refl in
      elim (Bool-cases (is_empty mail)) [
        | inl e ↦ rw (identity, e) service
        | inr e ↦ elim (Bool-cases (contains_text allowed.allowed_emails mail)) [
          | inl d ↦ rw (identity, e, d) (refl, e, contains_text-Memᴰ allowed.allowed_emails mail d)
          | inr d ↦ rw (identity, e, d) service
        ]
      ]

  pub identity-IsListed :
      (who : Identity) → identity to_lowercase allowed claims ≡ ok who → IsListed who
  identity-IsListed who e = subst ListedResult e identity-ListedResult

module _ (jwt : Jwt) where
  lookup-Memᴰ :
      (kid : Text) (keys : List (Text × jwt.Key)) (key : jwt.Key)
      → lookup jwt kid keys ≡ some key
      → Memᴰ (kid, key) keys
  unfolding lookup
  lookup-Memᴰ kid [] key h = absurd (ground arith)
  lookup-Memᴰ kid ((id, k) ∷ keys) key h = elim (Option-cases (lookup jwt kid keys)) [
    | inr (found, e) ↦
        let same : found ≡ key = ground (arith, rw (e, lookup) at h) in
        Memᴰ.tail (lookup-Memᴰ kid keys key (e ∙ ap some same))
    | inl e ↦ elim (Bool-cases (eq_bytes id kid)) [
      | inr d ↦ absurd (ground (arith, rw (e, lookup, d) at h))
      | inl d ↦
          let same : k ≡ key = ground (arith, rw (e, lookup, d) at h) in
          Memᴰ.head (ap (λ i. (i, key)) (sym (eq_bytes→≡ id kid d)) ∙ ap (λ z. (id, z)) (sym same))
    ]
  ]

  rsa_keys-Memᴰ :
      (entry : Text × jwt.Key) (values : List jwt.Value)
      → Memᴰ entry (rsa_keys jwt values)
      → (value : jwt.Value) × Memᴰ value values × (jwt.rsa_key value ≡ some entry)
  unfolding rsa_keys
  rsa_keys-Memᴰ entry [] m = absurd (Memᴰ.not-nil m)
  rsa_keys-Memᴰ entry (v ∷ values) m = elim (Option-cases (jwt.rsa_key v)) [
    | inl e ↦
        let (value, among, is) = rsa_keys-Memᴰ entry values (rw (e, rsa_keys) at m) in
        (value, Memᴰ.tail among, is)
    | inr (k, e) ↦ elim (Memᴰ.cases_cons (rw (e, rsa_keys) at m)) [
      | inl same ↦ (v, Memᴰ.head refl, e ∙ ap some (sym same))
      | inr later ↦
          let (value, among, is) = rsa_keys-Memᴰ entry values later in (value, Memᴰ.tail among, is)
    ]
  ]

  module _ (moment : ℕ → Moment jwt) (cache : KeyCache jwt) where
    -- The key is the team's under this id: it was cached, or was in the cache as a token's check began,
    -- or is one that the key server sent.
    pub data IsKnown (kid : Text) (key : jwt.Key) : Type 0 where
      cached : Memᴰ (kid, key) cache.keys → IsKnown kid key
      seen : (i : ℕ) → Memᴰ (kid, key) (moment i).seen.keys → IsKnown kid key
      sent :
          (i : ℕ) (values : List jwt.Value) (value : jwt.Value)
          → (moment i).reply ≡ ok values
          → Memᴰ value values
          → jwt.rsa_key value ≡ some (kid, key)
          → IsKnown kid key

    abbrev pub AllKnown : KeyCache jwt → Type 0
    AllKnown c = (kid : Text) (key : jwt.Key) → Memᴰ (kid, key) c.keys → IsKnown kid key

    -- What `key_for` gives for the key's id.
    abbrev pub AnswerKnown : Text → KeyAnswer jwt → Type 0
    AnswerKnown kid answer =
        ((key : jwt.Key) → answer.key ≡ ok key → IsKnown kid key) × AllKnown answer.cache

    sent_key :
        (i : ℕ) (values : List jwt.Value) (kid : Text) (key : jwt.Key)
        → (moment i).reply ≡ ok values
        → Memᴰ (kid, key) (rsa_keys jwt values)
        → IsKnown kid key
    sent_key i values kid key reply m =
        let (value, among, is) = rsa_keys-Memᴰ (kid, key) values m in
        sent i values value reply among is

    store_fetched-AnswerKnown :
        (i : ℕ) (kid : Text) (now : ℕ) (reply : Result (List jwt.Value) Text) (c : KeyCache jwt)
        → (moment i).reply ≡ reply
        → AllKnown c
        → AnswerKnown kid (store_fetched jwt kid now reply c)
    unfolding store_fetched
    store_fetched-AnswerKnown i kid now (err error) c is known =
        (λ key h. absurd (ground arith), known)
    store_fetched-AnswerKnown i kid now (ok values) c is known = (
      λ key h. elim (Option-cases (lookup jwt kid (rsa_keys jwt values))) [
        | inl e ↦ absurd (ground (arith, rw e at h))
        | inr (found, e) ↦
            let same : found ≡ key = ground (arith, rw e at h) in
            sent_key i values kid key is
              (lookup-Memᴰ kid (rsa_keys jwt values) key (e ∙ ap some same))
      ],
      λ id key m. sent_key i values id key is m,
    )

    found-AnswerKnown :
        (kid : Text) (found : jwt.Key) (c : KeyCache jwt)
        → IsKnown kid found
        → AllKnown c
        → AnswerKnown kid (record { cache = c; fetched = false; key = ok found })
    found-AnswerKnown kid found c is known =
        (λ key h. (let same : found ≡ key = ground arith in subst (IsKnown kid) same is), known)

    refetch-AnswerKnown :
        (i : ℕ) (kid : Text) (now : ℕ) (c : KeyCache jwt)
        → AllKnown c
        → AnswerKnown kid (refetch jwt kid now (moment i).reply c)
    unfolding refetch
    refetch-AnswerKnown i kid now c known = elim (Option-cases (lookup jwt kid c.keys)) [
      | inr (found, e) ↦
          rw (e, refetch)
            (found-AnswerKnown kid found c (known kid found (lookup-Memᴰ kid c.keys found e)) known)
      | inl e ↦ elim (Bool-cases (may_refetch jwt c.last_fetch now)) [
        | inl d ↦
            rw (e, refetch, d) (store_fetched-AnswerKnown i kid now (moment i).reply c refl known)
        | inr d ↦ rw (e, refetch, d) (λ key h. absurd (ground arith), known)
      ]
    ]

    pub key_for-AnswerKnown :
        (i : ℕ) (kid : Text) (now : ℕ) (c : KeyCache jwt)
        → AllKnown c
        → AnswerKnown kid (key_for jwt kid now (moment i).seen (moment i).reply c)
    unfolding key_for
    key_for-AnswerKnown i kid now c known =
        elim (Option-cases (lookup jwt kid (moment i).seen.keys)) [
          | inr (found, e) ↦
              rw (e, key_for)
                (found-AnswerKnown kid found c
                  (seen i (lookup-Memᴰ kid (moment i).seen.keys found e)) known)
          | inl e ↦ rw (e, key_for) (refetch-AnswerKnown i kid now c known)
        ]
