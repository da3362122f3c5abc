-- ===== src/External.antt =====
-- What the code takes from other crates, as parameters: `vte::Parser`, which src/terminal_cursor.rs
-- drives, `vt100::Parser`, which src/screen_model.rs drives, and `BASE64URL` and `serde_json`, which
-- src/session_history.rs writes its cursors and its record with.
pub mod Http
use mobux.Prelude.{ℕ, Bool, List, Option, some, ◌++◌, ◌≡◌}
use mobux.Utf8.{Bytes, Text}

-- The calls that `vte` makes on its `Perform`. `other` stands for those that `ScreenState` leaves as
-- the trait's no-ops (`osc_dispatch`, `hook`, `put`, `unhook`, `esc_dispatch`).
pub data Event : Type 0 where
  print : ℕ → Event
  execute : ℕ → Event
  csi_dispatch : List (List ℕ) → Bytes → Bool → ℕ → Event
  other : Event

-- `vte::Parser`: the state, and `advance`, with the calls that it makes in order.
pub record Vte : Type 1 where
  pub Parser : Type 0
  pub new : Parser
  pub advance : Parser → Bytes → Parser × List Event

-- A `vte` parser reads a stream: two reads are the same as one read of both.
pub record IsStreaming (vte : Vte) : Type 0 where
  pub split :
      (p : vte.Parser) (a b : Bytes)
      → let (p', e) = vte.advance p a in
        let (p'', e') = vte.advance p' b in vte.advance p (a ++ b) ≡ (p'', e ++ e')

-- `vt100::Parser`, by what the screen model calls: `Parser::new(rows, cols, 0)`, `process`,
-- `screen().size()`, `set_size`, `screen().alternate_screen()`, `screen().rows(0, cols)` and
-- `screen().cursor_position()`.
pub record Vt100 : Type 1 where
  pub Parser : Type 0
  pub new : ℕ → ℕ → Parser
  pub process : Parser → Bytes → Parser
  pub size : Parser → ℕ × ℕ
  pub set_size : Parser → ℕ → ℕ → Parser
  pub alternate_screen : Parser → Bool
  pub rows : Parser → ℕ → List Text
  pub cursor_position : Parser → ℕ × ℕ

-- `base64`'s `BASE64URL`.
pub record Base64 : Type 0 where
  pub encode : Bytes → Bytes
  pub decode : Bytes → Option Bytes

-- What is encoded is decoded.
pub record IsBase64 (base64 : Base64) : Type 0 where
  pub decode-encode : (bytes : Bytes) → base64.decode (base64.encode bytes) ≡ some bytes

-- `serde_json`: reading and printing, and the calls on `Value` that the code makes. A string is the list
-- of its bytes. `get` and `insert` are those of an object, and `get` finds nothing in another value.
pub record Json : Type 1 where
  pub Value : Type 0
  pub from_slice : Bytes → Option Value
  pub to_string : Value → Bytes
  pub get : Value → Bytes → Option Value
  pub as_u64 : Value → Option ℕ
  pub as_str : Value → Option Bytes
  pub insert : Value → Bytes → Value → Value
  pub of_str : Bytes → Value
  pub of_u64 : ℕ → Value
