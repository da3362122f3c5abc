-- ===== src/Proxy/Headers.antt =====
-- src/proxy.rs: the headers that are dropped or rewritten, the request's path, and the targets.
use mobux.External.Http.{Http, get, texts}
use mobux.Prelude.{
  ℕ, zero, suc, ◌+◌, Bool, true, false, not, ◌||◌, List, [], ◌∷◌, ◌++◌, Option, none, some, ◌==◌,
  if◌then◌else◌, is_empty, drop,
}
use mobux.Strings.{
  chars, eq_ignore_ascii_case, split, split_once, starts_with, strip_prefix, trim, trim_end_char,
}
use mobux.Utf8.{Bytes, Text, encode, eq_bytes}

abbrev pub hop_by_hop : List Text
hop_by_hop =
    chars "connection"
    ∷ chars "keep-alive"
    ∷ chars "proxy-authenticate"
    ∷ chars "proxy-authorization"
    ∷ chars "proxy-connection"
    ∷ chars "te"
    ∷ chars "trailer"
    ∷ chars "transfer-encoding"
    ∷ chars "upgrade"
    ∷ []

-- The tokens of a comma-separated value, and of several.
unfoldable pub tokens : List Text → List Text
tokens [] = []
tokens (value ∷ values) = split b',' value ++ tokens values

unfoldable pub any_upgrade : List Text → Bool
any_upgrade [] = false
any_upgrade (token ∷ rest) = eq_ignore_ascii_case (trim token) (chars "upgrade") || any_upgrade rest

module _ (http : Http) where
  unfoldable pub drop_length_under_chunking : http.HeaderMap → http.HeaderMap
  drop_length_under_chunking h =
      if is_empty (http.get_all h (chars "transfer-encoding"))
      then h
      else http.remove (chars "content-length") h

  unfoldable pub connection_tokens : http.HeaderMap → List Text
  connection_tokens h = tokens (texts http (http.get_all h (chars "connection")))

  unfoldable pub upgrade_protocol : http.HeaderMap → Option Bytes
  upgrade_protocol h =
      if any_upgrade (connection_tokens h) then get http h (chars "upgrade") else none

  unfoldable pub header_names : List Text → List Text
  header_names [] = []
  header_names (token ∷ rest) = elim (http.name_from_bytes (encode (trim token))) [
    | none ↦ header_names rest
    | some name ↦ name ∷ header_names rest
  ]

  unfoldable pub remove_names : List Text → http.HeaderMap → http.HeaderMap
  remove_names [] h = h
  remove_names (name ∷ rest) h = remove_names rest (http.remove name h)

  unfoldable pub strip_hop_by_hop : http.HeaderMap → http.HeaderMap
  strip_hop_by_hop h = remove_names (header_names (connection_tokens h) ++ hop_by_hop) h

-- `MOUNT`
abbrev pub mount : Text
mount = chars "/proxy/"

-- `percent_decode_str(name).decode_utf8().ok()` is a parameter.
unfoldable pub split_request_path : (Text → Option Text) → Text → Option (Text × Text)
split_request_path decode path = elim (strip_prefix mount path) [
  | none ↦ none
  | some after ↦ elim (split_once b'/' after) [
    | none ↦ none
    | some (name, rest) ↦ elim (decode name) [ none ↦ none | some n ↦ some (n, rest) ]
  ]
]

unfoldable pub count : ℕ → Text → ℕ
count x [] = 0
count x (c ∷ t) = (if c == x then 1 else 0) + count x t

unfoldable pub repeat : ℕ → Text → Text
repeat zero s = []
repeat (suc n) s = s ++ repeat n s

abbrev starts_any : Text → Bool
starts_any [] = true
starts_any (c ∷ _) = c == b'/' || c == b'?' || c == b'#'

unfoldable pub under_prefix : Text → Text → Bool
under_prefix prefix location = elim (strip_prefix prefix location) [
  | none ↦ false
  | some tail ↦ starts_any tail
]

-- The new value, where the location is rewritten.
unfoldable pub relative_location : Text → Text → Text → Option Text
relative_location prefix rest location =
    if not (starts_with location (chars "/")) || starts_with location (chars "//")
    then none
    else if under_prefix prefix location
    then none
    else some (
        (if count b'/' rest == 0 then chars "./" else repeat (count b'/' rest) (chars "../"))
        ++ drop 1 location)

module _ (http : Http) where
  unfoldable pub put_location : Option Text → http.HeaderMap → http.HeaderMap
  put_location none h = h
  put_location (some value) h =
      if http.accepts (encode value) then http.insert (chars "location") (encode value) h else h

  abbrev location_text : Option Bytes → Option Text
  location_text none = none
  location_text (some value) = http.to_str value

  unfoldable pub rewrite_location : http.HeaderMap → Text → Text → http.HeaderMap
  rewrite_location h prefix rest = elim (location_text (get http h (chars "location"))) [
    | none ↦ h
    | some location ↦ put_location (relative_location prefix rest location) h
  ]

-- The targets, as they are looked up by name, and the outside of the mount.
pub record ProxyTargets : Type 0 where
  pub targets : List (Text × ℕ)
  pub base_path : Text
  pub proto : Text
  pub session_cookie : Text

-- The settings that `from_config` reads, the targets being checked already.
unfoldable pub from_config : List (Text × ℕ) → Text → Bool → Bool → Text → ProxyTargets
from_config targets base_path tls_enabled behind_tls_proxy session_cookie = record {
  targets = targets;
  base_path = trim_end_char b'/' (trim base_path);
  proto = if tls_enabled || behind_tls_proxy then chars "https" else chars "http";
  session_cookie = session_cookie;
}

unfoldable pub replace : List (Text × ℕ) → ProxyTargets → ProxyTargets
replace targets s = record s { targets = targets }

unfoldable pub lookup : Text → List (Text × ℕ) → Option ℕ
lookup name [] = none
lookup name ((key, port) ∷ rest) =
    let later = lookup name rest in if eq_bytes key name then some port else later

unfoldable pub port : ProxyTargets → Text → Option ℕ
port s name = lookup name s.targets

unfoldable pub prefix : ProxyTargets → Text → Text
prefix s name = s.base_path ++ mount ++ name
