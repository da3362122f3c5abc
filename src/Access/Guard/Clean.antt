-- ===== src/Access/Guard/Clean.antt =====
-- A request that went through the stripping carries no token.
use mathlib.Core.List.{append-nil}
use mobux.Access.Tokens.{
  missing_token, assertion_header, authorization_cookie, cookie_value, cookie_values, text_pairs,
  tokens_from_headers, strip_tokens, non_empty,
}
use mobux.External.Http.{Http, IsHttp, get, texts, is_header_char}
use mobux.Prelude.Result.{err}
use mobux.Prelude.{
  ℕ, true, false, List, [], ◌∷◌, ◌++◌, Option, none, some, ◌≡◌, refl, sym, ◌∙◌, ap, subst, arith,
  all, is_empty, ◌==◌, inl, inr, Bool-cases, Option-cases, if◌then◌else◌,
}
use mobux.Proxy.Cookies.Sent.{is_name_byte, cookie_name-printed}
use mobux.Proxy.Cookies.Stripped.{
  put_cookie-values, put_cookie-empty, put_cookie-refused, strip_cookie-other_headers,
}
use mobux.Proxy.Cookies.Trimmed.{AllPairs, pairs-AllPairs, others-AllPairs, trimmed-join}
use mobux.Proxy.Cookies.{
  is_ascii_whitespace, trim_ascii, trim_ascii_start, trim_ascii_end, onto, cookie_name, trimmed,
  pairs, others, cookie, put_cookie, strip_cookie,
}
use mobux.Strings.Equality.{eq_bytes_self, eq_bytes→≡}
use mobux.Strings.Split.{split_once-some}
use mobux.Strings.{chars, join, split, split_once, push_first, trim, trim_start}
use mobux.Utf8.{Bytes, Text, eq_bytes, is_whitespace, trim_end}

whitespace-ascii : (c : ℕ) → is_header_char c ≡ true → is_whitespace c ≡ is_ascii_whitespace c
unfolding is_whitespace
whitespace-ascii c h = ground arith

trim_end-ascii : (t : Text) → all is_header_char t ≡ true → trim_end t ≡ trim_ascii_end t
unfolding trim_end trim_ascii_end onto all
trim_end-ascii [] h = refl
trim_end-ascii (c ∷ t) h = elim (Bool-cases (is_header_char c)) [
  | inr e ↦ absurd (ground (arith, rw (e, all) at h))
  | inl e ↦
      let rest = trim_end-ascii t (rw (e, all) at h) in
      onto-same c (trim_ascii_end t) (trim_end t) rest (whitespace-ascii c e)
]
  where
    onto-same :
        (c : ℕ) (u w : Text)
        → w ≡ u
        → is_whitespace c ≡ is_ascii_whitespace c
        → elim w as (λ _. Text) [ [] ↦ if is_whitespace c then [] else c ∷ [] | d ∷ v ↦ c ∷ d ∷ v ]
          ≡ onto c u
    onto-same c [] w e s = rw (e, s) refl
    onto-same c (d ∷ u) w e s = rw e refl

trim-ascii : (t : Text) → all is_header_char t ≡ true → trim t ≡ trim_ascii t
unfolding trim trim_start trim_ascii trim_ascii_start all
trim-ascii [] h = trim_end-ascii [] h
trim-ascii (c ∷ t) h = elim (Bool-cases (is_header_char c)) [
  | inr e ↦ absurd (ground (arith, rw (e, all) at h))
  | inl e ↦ elim (Bool-cases (is_ascii_whitespace c)) [
    | inl d ↦ rw (whitespace-ascii c e ∙ d, d) (trim-ascii t (rw (e, all) at h))
    | inr d ↦ rw (whitespace-ascii c e ∙ d, d) (trim_end-ascii (c ∷ t) h)
  ]
]

-- No pair has the token's name.
abbrev NoneNamed : List Bytes → Type 0
NoneNamed [] = Unit
NoneNamed (p ∷ ps) = (eq_bytes (cookie_name p) authorization_cookie ≡ false) × NoneNamed ps

others-NoneNamed : (ps : List Bytes) → NoneNamed (others authorization_cookie ps)
unfolding others
others-NoneNamed [] = tt
others-NoneNamed (p ∷ ps) = elim (Bool-cases (eq_bytes (cookie_name p) authorization_cookie)) [
  | inl e ↦ rw e (others-NoneNamed ps)
  | inr e ↦ rw e (e, others-NoneNamed ps)
]

named_bytes : all is_name_byte authorization_cookie ≡ true
unfolding all
named_bytes = refl

-- A piece that the token is read from has the token's name for the stripping as well.
token_piece :
    (q name value : Text)
    → split_once b'=' q ≡ some (name, value)
    → eq_bytes name authorization_cookie ≡ true
    → (is_empty q ≡ false) × (eq_bytes (cookie_name q) authorization_cookie ≡ true)
token_piece q name value h named =
    let whole : q ≡ authorization_cookie ++ b'=' ∷ value =
      split_once-some b'=' q name value h
      ∙ ap (λ n. n ++ b'=' ∷ value) (eq_bytes→≡ name authorization_cookie named) in
    let is = ap cookie_name whole ∙ cookie_name-printed authorization_cookie value named_bytes in
    (
      ap is_empty whole,
      ap (λ n. eq_bytes n authorization_cookie) is ∙ eq_bytes_self authorization_cookie,
    )

abbrev AllReadable : List Text → Type 0
AllReadable [] = Unit
AllReadable (p ∷ ps) = (all is_header_char p ≡ true) × AllReadable ps

cookie_value-none :
    (p : Text)
    → all is_header_char p ≡ true
    → (is_empty (trim_ascii p) ≡ false
        → eq_bytes (cookie_name (trim_ascii p)) authorization_cookie ≡ false)
    → cookie_value p ≡ none
unfolding cookie_value
cookie_value-none p readable apart =
    let same = trim-ascii p readable in
    elim (Option-cases (split_once b'=' (trim p))) [
      | inl e ↦ rw (e, cookie_value) refl
      | inr ((name, value), e) ↦ elim (Bool-cases (eq_bytes name authorization_cookie)) [
        | inr d ↦ rw (e, cookie_value, d) refl
        | inl d ↦
            let (left, named) = token_piece (trim p) name value e d in
            let other = apart (ap is_empty (sym same) ∙ left) in
            let is = ap (λ q. eq_bytes (cookie_name q) authorization_cookie) (sym same) ∙ named in
            absurd (ground (arith, sym is ∙ other))
      ]
    ]

cookie_values-none :
    (ps : List Text) → AllReadable ps → NoneNamed (trimmed ps) → cookie_values ps ≡ []
unfolding cookie_values trimmed
cookie_values-none [] readable apart = refl
cookie_values-none (p ∷ ps) (here, readable) apart = elim (Bool-cases (is_empty (trim_ascii p))) [
  | inl e ↦
      let nothing =
        cookie_value-none p here (λ some_left. absurd (ground (arith, sym e ∙ some_left))) in
      rw (nothing, cookie_values) (cookie_values-none ps readable (rw (e, trimmed) at apart))
  | inr e ↦
      let (one, rest) = rw (e, trimmed) at apart in
      let nothing = cookie_value-none p here (λ some_left. one) in
      rw (nothing, cookie_values) (cookie_values-none ps readable rest)
]

push_first-AllReadable :
    (c : ℕ) (ps : List Text)
    → is_header_char c ≡ true
    → AllReadable ps
    → AllReadable (push_first c ps)
unfolding all
push_first-AllReadable c [] e h = (rw e refl, tt)
push_first-AllReadable c (p ∷ ps) e (here, h) = (rw e here, h)

split-AllReadable : (t : Text) → all is_header_char t ≡ true → AllReadable (split b';' t)
unfolding split all
split-AllReadable [] h = (refl, tt)
split-AllReadable (c ∷ t) h = elim (Bool-cases (is_header_char c)) [
  | inr e ↦ absurd (ground (arith, rw (e, all) at h))
  | inl e ↦
      let rest = split-AllReadable t (rw (e, all) at h) in
      elim (Bool-cases (c == b';')) [
        | inl d ↦ rw d (refl, rest)
        | inr d ↦ rw d (push_first-AllReadable c (split b';' t) e rest)
      ]
]

module _ {http : Http} (law : IsHttp http) where
  readable_value :
      (value : Bytes) (read : Option Text)
      → http.to_str value ≡ read
      → NoneNamed (trimmed (split b';' value))
      → cookie_values (text_pairs (texts http (value ∷ []))) ≡ []
  unfolding texts text_pairs cookie_values
  readable_value value none e apart = rw (e, texts) refl
  readable_value value (some s) e apart =
      let (same, readable) = law.to_str-chars value s e in
      rw (e, texts)
        (ap cookie_values (append-nil (split b';' s))
          ∙ cookie_values-none (split b';' s) (split-AllReadable s readable)
              (subst (λ t. NoneNamed (trimmed (split b';' t))) (sym same) apart))

  -- The `Cookie` header that is put has no token.
  put_cookie-no_token :
      (ps : List Bytes) (h : http.HeaderMap)
      → AllPairs ps
      → NoneNamed ps
      → http.get_all h cookie ≡ []
      → cookie_values
          (text_pairs (texts http (http.get_all (put_cookie http (join (chars "; ") ps) h) cookie)))
        ≡ []
  unfolding texts text_pairs cookie_values
  put_cookie-no_token ps h all_pairs apart gone =
      let joined = join (chars "; ") ps in
      elim (Bool-cases (http.accepts joined)) [
        | inr a ↦ rw (put_cookie-refused law joined h a, gone) refl
        | inl a ↦ elim (Bool-cases (is_empty joined)) [
          | inl e ↦ rw (put_cookie-empty law joined h e, gone) refl
          | inr e ↦ rw (put_cookie-values law joined h e a) (
              readable_value joined (http.to_str joined) refl
                (subst NoneNamed (sym (trimmed-join ps all_pairs)) apart))
        ]
      ]

  -- Whatever headers a request has, no token is read from what is left when they are stripped.
  pub strip_tokens-missing_token :
      (h : http.HeaderMap)
      → (http.get_all (strip_tokens http h) assertion_header ≡ [])
        × (tokens_from_headers http (strip_tokens http h) ≡ err missing_token)
  unfolding strip_tokens strip_cookie eq_bytes get non_empty tokens_from_headers
  strip_tokens-missing_token h =
      let removed = http.remove assertion_header h in
      let given = pairs (http.get_all removed cookie) in
      let kept = others authorization_cookie given in
      let no_assertion =
        strip_cookie-other_headers law removed authorization_cookie assertion_header refl
        ∙ law.get_all-remove h assertion_header in
      let no_cookie =
        put_cookie-no_token kept (http.remove cookie removed)
          (others-AllPairs authorization_cookie given
            (pairs-AllPairs (http.get_all removed cookie)))
          (others-NoneNamed given) (law.get_all-remove removed cookie) in
      (no_assertion, rw (tokens_from_headers, get, no_assertion, no_cookie) refl)
