-- ===== src/Utf8/Stream.antt =====
-- src/utf8_stream.rs: `Utf8Stream`.
pub mod Lossless
use mobux.Prelude.{ℕ, zero, suc, ◌+◌, List, [], ◌∷◌, ◌++◌, none, some, drop, length}
use mobux.Utf8.{Bytes, Text, replacement, valid, error, from_utf8, from_utf8_lossy}

pub record Utf8Stream : Type 0 where
  pub pending : Bytes

unfoldable pub new : Utf8Stream
new = record { pending = [] }

-- The loop of `decode` over `rest`: what it writes, and the bytes that it leaves pending. Each round
-- but the last takes bytes, so the length of the input is fuel enough.
decode_loop : ℕ → Bytes → Text × Bytes
decode_loop zero rest = ([], rest)
decode_loop (suc fuel) rest = elim (from_utf8 rest) [
  | valid text ↦ (text, [])
  | error text after none ↦ (text, after)
  | error text after (some len) ↦
      let (text', rest') = decode_loop fuel (drop len after) in
      (text ++ (replacement ∷ text'), rest')
]

-- `decode` returns the text; the stream keeps what is pending.
unfoldable pub decode : Utf8Stream → Bytes → Utf8Stream × Text
unfolding decode_loop from_utf8
decode s chunk =
    let input = s.pending ++ chunk in
    let (out, rest) = decode_loop (length input + 1) input in (record { pending = rest }, out)

unfoldable pub finish : Utf8Stream → Utf8Stream × Text
unfolding from_utf8_lossy
finish s = (record { pending = [] }, from_utf8_lossy s.pending)

-- A reader's run: `decode` on each chunk as it arrives, then `finish` at the end of the stream.
unfoldable pub decode_all : Utf8Stream → List Bytes → Text
unfolding decode finish
decode_all s [] = (finish s).1
decode_all s (chunk ∷ chunks) = let (s', out) = decode s chunk in out ++ decode_all s' chunks
