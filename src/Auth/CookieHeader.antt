-- ===== src/Auth/CookieHeader.antt =====
-- The session's cookie among others in a `Cookie` header.
use mobux.Auth.{AuthConfig, is_session_pair, any_session, set_cookie}
use mobux.Prelude.{
  ℕ, Bool, true, false, not, ◌&&◌, ◌||◌, List, [], ◌∷◌, ◌++◌, ◌==◌, ◌≡◌, refl, arith, all,
  append_assoc, inl, inr, Bool-cases,
}
use mobux.Strings.Lines.{is_free, AllFree}
use mobux.Strings.Pieces.{split-free, split-append}
use mobux.Strings.{chars, join, push_first, split, split_once, trim, trim_start}
use mobux.Utf8.{Text, is_whitespace, trim_end}

-- A character that a cookie's name or value may hold.
abbrev pub is_cookie_char : ℕ → Bool
is_cookie_char c = not (is_whitespace c) && not (c == b';') && not (c == b'=')

abbrev pub first_piece : List Text → Text
first_piece [] = []
first_piece (p ∷ _) = p

-- What a browser keeps of a `Set-Cookie`, and what it sends, among other cookies.
unfoldable pub stored : Text → Text
stored set_cookie = first_piece (split b';' set_cookie)

abbrev pub sent : List Text → Text → List Text → Text
sent before pair after = join (chars "; ") (before ++ pair ∷ after)

pub cookie_char-free : (t : Text) → all is_cookie_char t ≡ true → is_free b'=' t ≡ true
unfolding all
cookie_char-free [] h = refl
cookie_char-free (c ∷ t) h = elim (Bool-cases (is_cookie_char c)) [
  | inl e ↦
      let other : (c == b'=') ≡ false = ground arith in
      rw (other, cookie_char-free t (rw (e, all) at h)) refl
  | inr e ↦ absurd (ground (arith, rw (e, all) at h))
]

abbrev pub is_pair_char : ℕ → Bool
is_pair_char c = not (is_whitespace c) && not (c == b';')

pub cookie_char-pair : (t : Text) → all is_cookie_char t ≡ true → all is_pair_char t ≡ true
unfolding all
cookie_char-pair [] h = refl
cookie_char-pair (c ∷ t) h = elim (Bool-cases (is_cookie_char c)) [
  | inl e ↦
      let fits : is_pair_char c ≡ true = ground arith in
      rw (fits, cookie_char-pair t (rw (e, all) at h)) refl
  | inr e ↦ absurd (ground (arith, rw (e, all) at h))
]

equals-pair : is_pair_char b'=' ≡ true
unfolding is_whitespace
equals-pair = refl

pub pair_chars :
    (name value : Text)
    → all is_pair_char name ≡ true
    → all is_pair_char value ≡ true
    → all is_pair_char (name ++ b'=' ∷ value) ≡ true
unfolding all
pair_chars [] value h g = rw (equals-pair, g) refl
pair_chars (c ∷ name) value h g = elim (Bool-cases (is_pair_char c)) [
  | inl e ↦ rw (e, pair_chars name value (rw (e, all) at h) g) refl
  | inr e ↦ absurd (ground (arith, rw (e, all) at h))
]

pub pair_char-free : (t : Text) → all is_pair_char t ≡ true → is_free b';' t ≡ true
unfolding all
pair_char-free [] h = refl
pair_char-free (c ∷ t) h = elim (Bool-cases (is_pair_char c)) [
  | inl e ↦
      let other : (c == b';') ≡ false = ground arith in
      rw (other, pair_char-free t (rw (e, all) at h)) refl
  | inr e ↦ absurd (ground (arith, rw (e, all) at h))
]

trim_end-pair : (t : Text) → all is_pair_char t ≡ true → trim_end t ≡ t
unfolding all trim_end
trim_end-pair [] h = refl
trim_end-pair (c ∷ []) h = elim (Bool-cases (is_whitespace c)) [
  | inl e ↦ absurd (ground (arith, rw (e, all) at h))
  | inr e ↦ rw e refl
]
trim_end-pair (c ∷ d ∷ t) h = elim (Bool-cases (is_pair_char c)) [
  | inl e ↦ rw (trim_end-pair (d ∷ t) (rw (e, all) at h)) refl
  | inr e ↦ absurd (ground (arith, rw (e, all) at h))
]

pub trim-pair : (t : Text) → all is_pair_char t ≡ true → trim t ≡ t
unfolding trim trim_start all
trim-pair [] h = trim_end-pair [] h
trim-pair (c ∷ t) h = elim (Bool-cases (is_whitespace c)) [
  | inl e ↦ absurd (ground (arith, rw (e, all) at h))
  | inr e ↦ rw e (trim_end-pair (c ∷ t) h)
]

-- A space in front of a piece is trimmed away.
any_session-space :
    (auth : AuthConfig) (pieces : List Text)
    → any_session auth pieces ≡ true
    → any_session auth (push_first b' ' pieces) ≡ true
unfolding any_session trim trim_start is_whitespace
any_session-space auth [] h = absurd (ground arith)
any_session-space auth (p ∷ pieces) h = h

split-space : (t : Text) → split b';' (b' ' ∷ t) ≡ push_first b' ' (split b';' t)
unfolding split
split-space t = refl

join-more :
    (b c : Text) (ps : List Text)
    → join (chars "; ") (b ∷ c ∷ ps) ≡ b ++ b';' ∷ b' ' ∷ join (chars "; ") (c ∷ ps)
unfolding join
join-more b c ps = append_assoc b (chars "; ") (join (chars "; ") (c ∷ ps))

or_true : (a : Bool) → (a || true) ≡ true
or_true true = refl
or_true false = refl

module _ (auth : AuthConfig) (pair : Text) (free : is_free b';' pair ≡ true)
    (session : is_session_pair auth (split_once b'=' (trim pair)) ≡ true) where
  behind_sent :
      (t : Text)
      → any_session auth (split b';' t) ≡ true
      → any_session auth (split b';' (b' ' ∷ t)) ≡ true
  behind_sent t h = rw (split-space t) (any_session-space auth (split b';' t) h)

  later_sent :
      (piece t : Text)
      → is_free b';' piece ≡ true
      → any_session auth (split b';' t) ≡ true
      → any_session auth (split b';' (piece ++ b';' ∷ b' ' ∷ t)) ≡ true
  unfolding any_session
  later_sent piece t f h =
      rw (split-append b';' piece (b' ' ∷ t) f, any_session, behind_sent t h)
        (or_true (is_session_pair auth (split_once b'=' (trim piece))))

  first_sent : (after : List Text) → any_session auth (split b';' (sent [] pair after)) ≡ true
  unfolding any_session join
  first_sent [] = rw (split-free b';' pair free, any_session, session) refl
  first_sent (a ∷ after) =
      rw
        (
          join-more pair a after,
          split-append b';' pair (b' ' ∷ join (chars "; ") (a ∷ after)) free,
          any_session,
          session,
        )
        refl

  pub any_session-sent :
      (before after : List Text)
      → AllFree b';' before
      → any_session auth (split b';' (sent before pair after)) ≡ true
  any_session-sent [] after f = first_sent after
  any_session-sent (b ∷ []) after (f, fs) =
      rw (join-more b pair after) (later_sent b (sent [] pair after) f (first_sent after))
  any_session-sent (b ∷ c ∷ before) after (f, fs) =
      rw (join-more b c (before ++ pair ∷ after))
        (later_sent b (sent (c ∷ before) pair after) f (any_session-sent (c ∷ before) after fs))
