-- ===== src/Tests/Parsers.antt =====
-- Concrete parsers for the examples: one that prints or executes each byte, and a screen of one empty row.
use mobux.External.{Event, print, execute, Vte, IsStreaming, Vt100, Base64, IsBase64}
use mobux.Prelude.{ℕ, ◌≡◌, refl, ap, false, [], ◌∷◌, ◌++◌, map, some, ltb, if◌then◌else◌}
use mobux.Utf8.{Bytes}

abbrev pub byte_event : ℕ → Event
byte_event b = if ltb b 0x20 then execute b else print b

abbrev pub byte_vte : Vte
byte_vte = record { Parser = Unit; new = tt; advance = λ p bytes. (p, map byte_event bytes) }

map-append : (a b : Bytes) → map byte_event (a ++ b) ≡ map byte_event a ++ map byte_event b
map-append [] b = refl
map-append (x ∷ a) b = ap (◌∷◌ (byte_event x)) (map-append a b)

pub byte_vte-IsStreaming : IsStreaming byte_vte
byte_vte-IsStreaming = record { split = λ p a b. ap (λ es. (p, es)) (map-append a b) }

abbrev pub still_vt100 : Vt100
still_vt100 = record {
  Parser = ℕ × ℕ;
  new = λ rows cols. (rows, cols);
  process = λ p bytes. p;
  size = λ p. p;
  set_size = λ p rows cols. (rows, cols);
  alternate_screen = λ p. false;
  rows = λ p cols. [] ∷ [];
  cursor_position = λ p. (0, 0);
}

abbrev pub plain_base64 : Base64
plain_base64 = record { encode = λ bytes. bytes; decode = λ bytes. some bytes }

pub plain_base64-IsBase64 : IsBase64 plain_base64
plain_base64-IsBase64 = record { decode-encode = λ bytes. refl }
