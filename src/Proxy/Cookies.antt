-- ===== src/Proxy/Cookies.antt =====
-- src/proxy.rs: taking the session's cookie out of a request, and out of what an upstream sets.
pub mod Trimmed
pub mod Stripped
pub mod Sent
use mobux.External.Http.{Http}
use mobux.Prelude.{
  ℕ, Bool, true, false, not, ◌||◌, List, [], ◌∷◌, ◌++◌, Option, none, some, ◌==◌, within,
  if◌then◌else◌, is_empty,
}
use mobux.Strings.{chars, join, split}
use mobux.Utf8.{Bytes, Text, eq_bytes}

-- `u8::is_ascii_whitespace`
abbrev pub is_ascii_whitespace : ℕ → Bool
is_ascii_whitespace c = c == 0x20 || c == 0x09 || c == 0x0A || c == 0x0C || c == 0x0D

unfoldable pub trim_ascii_start : Bytes → Bytes
trim_ascii_start [] = []
trim_ascii_start (c ∷ t) =
    let rest = trim_ascii_start t in if is_ascii_whitespace c then rest else c ∷ t

-- The byte in front of what is left of the rest.
unfoldable pub onto : ℕ → Bytes → Bytes
onto c [] = if is_ascii_whitespace c then [] else c ∷ []
onto c (d ∷ u) = c ∷ d ∷ u

unfoldable pub trim_ascii_end : Bytes → Bytes
trim_ascii_end [] = []
trim_ascii_end (c ∷ t) = onto c (trim_ascii_end t)

-- `trim_ascii`
unfoldable pub trim_ascii : Bytes → Bytes
trim_ascii t = trim_ascii_end (trim_ascii_start t)

-- What is in front of the first `=` or `;`.
unfoldable pub before_value : Bytes → Bytes
before_value [] = []
before_value (c ∷ t) = let rest = before_value t in if c == b'=' || c == b';' then [] else c ∷ rest

unfoldable pub cookie_name : Bytes → Bytes
cookie_name pair = trim_ascii (before_value pair)

-- The pieces that are left when each is trimmed, the empty ones dropped.
unfoldable pub trimmed : List Bytes → List Bytes
trimmed [] = []
trimmed (p ∷ ps) =
    let rest = trimmed ps in let pair = trim_ascii p in if is_empty pair then rest else pair ∷ rest

-- The pairs of the `Cookie` headers' values.
unfoldable pub pairs : List Bytes → List Bytes
pairs [] = []
pairs (value ∷ values) = trimmed (split b';' value) ++ pairs values

-- The pairs with another name.
unfoldable pub others : Text → List Bytes → List Bytes
others name [] = []
others name (pair ∷ ps) =
    let rest = others name ps in if eq_bytes (cookie_name pair) name then rest else pair ∷ rest

abbrev pub cookie : Text
cookie = chars "cookie"

abbrev pub set_cookie : Text
set_cookie = chars "set-cookie"

module _ (http : Http) where
  unfoldable pub put_cookie : Bytes → http.HeaderMap → http.HeaderMap
  put_cookie joined h =
      if is_empty joined then h else if http.accepts joined then http.insert cookie joined h else h

  unfoldable pub strip_cookie : http.HeaderMap → Text → http.HeaderMap
  strip_cookie h name =
      let kept = others name (pairs (http.get_all h cookie)) in
      put_cookie (join (chars "; ") kept) (http.remove cookie h)

  unfoldable pub append_all : Text → List Bytes → http.HeaderMap → http.HeaderMap
  append_all name [] h = h
  append_all name (v ∷ vs) h = append_all name vs (http.append name v h)

  unfoldable pub strip_set_cookie : http.HeaderMap → Text → http.HeaderMap
  strip_set_cookie h session_cookie =
      let kept = others session_cookie (http.get_all h set_cookie) in
      append_all set_cookie kept (http.remove set_cookie h)
